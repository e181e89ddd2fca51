-- ===== src/Config/Loopback.antt =====
-- When the loopback test of a port passes.
use univac.Base.{
  ℕ, ap, ◌∙◌, ◌++◌, false, suc, ◌+◌, ◌≤◌, ◌≡◌, ◌↔◌, refl, Bool, true, false, List, [], ◌∷◌, arith,
  length, all,
}
use univac.Text.{Text, strip, strip_left, strip_right, contains, split, upper}
use univac.Text.Laws.{equal_iff, split-eq_two, split-append, split_one, contains-append}
use univac.Nmea.{checksum_of}
use univac.Routing.Listener.{decode_ascii}
use univac.Config.Serial.{
  PortResults, integrity_passed, port_unavailable, no_results, is_echo, echo_parts, audit_frame,
  audit_frames, stress_test_isolated_port,
}

-- A sentence that carries its own checksum: a dollar sign, a body and two digits in either case
-- behind the only star.
abbrev pub IsSealed : Text → Type 0
IsSealed t =
    (body : Text) × (digits : Text) × (t ≡ b'$' ∷ (body ++ (b'*' ∷ digits)))
    × (contains b'*' body ≡ false)
    × (contains b'*' digits ≡ false)
    × (checksum_of body ≡ upper digits)

-- An answer of the wire that is such a sentence, between blanks and bytes that are not ASCII.
abbrev pub IsReceived : Text → Type 0
IsReceived answer = IsSealed (strip (decode_ascii answer))

abbrev pub AllReceived : List Text → Type 0
AllReceived [] = Unit
AllReceived (a ∷ l) = IsReceived a × AllReceived l

abbrev is_received : Text → Bool
is_received [] = false
is_received (c ∷ s) = is_echo (strip (decode_ascii (c ∷ s)))

-- Every frame is counted once.
abbrev pub IsBalanced : PortResults → Type 0
IsBalanced r = r.frames_transmitted ≡ r.frames_received + r.checksum_failures + r.line_timeouts

audit_frame-counts :
    (a : Text) (r : PortResults)
    → IsBalanced r
    → let r' = audit_frame a r in
      IsBalanced r'
      × (r'.frames_transmitted ≡ suc r.frames_transmitted)
      × (r'.frames_received ≤ suc r.frames_received)
      × ((r'.frames_received ≡ suc r.frames_received) ↔ (is_received a ≡ true))
unfolding audit_frame
audit_frame-counts [] r h = ground arith
audit_frame-counts (c ∷ s) r h = ground arith

audit_frames-counts :
    (l : List Text) (r : PortResults)
    → IsBalanced r
    → let r' = audit_frames l r in
      IsBalanced r'
      × (r'.frames_transmitted ≡ r.frames_transmitted + length l)
      × (r'.frames_received ≤ r.frames_received + length l)
      × ((r'.frames_received ≡ r.frames_received + length l) ↔ (all is_received l ≡ true))
audit_frames-counts [] r h = ground arith
audit_frames-counts (a ∷ l) r h =
    let (balanced, one, most, gained) = audit_frame-counts a r h in
    let rest = audit_frames-counts l (audit_frame a r) balanced in
    ground (arith, one, most, gained, rest)

is_echo-IsSealed : (t : Text) → is_echo t ≡ true → IsSealed t
unfolding is_echo echo_parts
is_echo-IsSealed [] h = cc
is_echo-IsSealed (c ∷ rest) h = parts (split b'*' rest) refl (ground arith) (ground arith)
  where
    parts :
        (ps : List Text)
        → split b'*' rest ≡ ps
        → c ≡ b'$'
        → echo_parts ps ≡ true
        → IsSealed (c ∷ rest)
    parts [] e d h = cc
    parts (x ∷ []) e d h = cc
    parts (x ∷ y ∷ []) e d h =
        let (joined, nx, ny) = split-eq_two b'*' rest x y e in
        (x, y, ground arith, nx, ny, (equal_iff _ _).0 h)
    parts (x ∷ y ∷ z ∷ r) e d h = cc

contains_star : (c : ℕ) (body digits : Text) → contains b'*' (c ∷ (body ++ (b'*' ∷ digits))) ≡ true
unfolding contains
contains_star c body digits =
    let here = contains-append b'*' body (b'*' ∷ digits) in ground (arith, here)

IsSealed-is_echo : (t : Text) → IsSealed t → is_echo t ≡ true
unfolding is_echo echo_parts
IsSealed-is_echo t (body, digits, e, nb, nd, same) =
    let star = contains_star b'$' body digits in
    let cut : split b'*' (body ++ (b'*' ∷ digits)) ≡ body ∷ digits ∷ [] =
      split-append b'*' body digits nb ∙ ap (λ l. body ∷ l) (split_one b'*' digits nd) in
    rw e (simp (star, cut) ((equal_iff _ _).1 same))

IsReceived-iff : (a : Text) → (is_received a ≡ true) ↔ IsReceived a
unfolding decode_ascii strip strip_left strip_right
IsReceived-iff [] = (λ h. cc, λ (body, digits, e, nb, nd, same). cc)
IsReceived-iff (c ∷ s) = (is_echo-IsSealed _, IsSealed-is_echo _)

AllReceived-iff : (l : List Text) → (all is_received l ≡ true) ↔ AllReceived l
AllReceived-iff [] = (λ h. tt, λ h. refl)
AllReceived-iff (a ∷ l) =
    let first = IsReceived-iff a in
    let rest = AllReceived-iff l in
    (
      λ h. (first.0 (ground arith), rest.0 (ground arith)),
      λ (x, y). let f = first.1 x in let r = rest.1 y in ground (arith, f, r),
    )

by_counts :
    (answers : List Text)
    → let (results, status) = stress_test_isolated_port false answers in
      IsBalanced results
      × (results.frames_transmitted ≡ length answers)
      × ((status ≡ integrity_passed) ↔ (all is_received answers ≡ true))
      × ((stress_test_isolated_port true answers).1 ≡ port_unavailable)
unfolding stress_test_isolated_port no_results
by_counts answers =
    let counts = audit_frames-counts answers no_results refl in ground (arith, counts)

-- On a port that does not fail, the test counts every frame once, and it passes exactly when
-- every frame is answered by a sentence with its own checksum: a single timeout, and a single
-- answer without its checksum, fails it. A port that fails is never passed.
pub stress_test_isolated_port_iff :
    (answers : List Text)
    → let (results, status) = stress_test_isolated_port false answers in
      IsBalanced results
      × (results.frames_transmitted ≡ length answers)
      × ((status ≡ integrity_passed) ↔ AllReceived answers)
      × ((stress_test_isolated_port true answers).1 ≡ port_unavailable)
stress_test_isolated_port_iff answers =
    let received = AllReceived-iff answers in
    let (balanced, sent, passed, failed) = by_counts answers in
    (balanced, sent, (λ h. received.0 (passed.0 h), λ h. passed.1 (received.1 h)), failed)
