-- ===== src/Tcp/Framing.antt =====
-- How the stream is cut into chunks does not matter.
use univac.Base.{
  ℕ, ◌≡◌, ◌≢◌, refl, sym, ap, ◌∙◌, true, false, not, Option, List, [], ◌∷◌, ◌++◌, arith, ◌==◌,
  ==_iff, is_empty, if◌then◌else◌, ◌&&◌, Bool, inl, inr, Bool-cases, all,
}
use mathlib.Core.List.{append_assoc, append-nil}
use univac.Text.{Text, contains, split}
use univac.Text.Laws.{contains-append, split_one, split-append, split-ne-nil}
use univac.Text.Utf8.{decode_utf8, decode_from, is_whole, decode_utf8-append}
use univac.Floats.{Floating}
use univac.Tcp.{
  JsonPayload, Session, handle_packet, handle_line, handle_lines, receive_chunk, receive_all,
}

module _ {F : Type 0} ⦃fl : Floating F⦄ (loads : Text → Option (JsonPayload F)) where
  -- The reference: one character at a time, a line being handled at its line feed.
  abbrev pub absorb_char : ℕ → Session F → Session F
  absorb_char c s =
      if not s.connected
      then s
      else if c == 10
      then handle_line loads s.buffer (record s { buffer = [] })
      else record s { buffer = s.buffer ++ (c ∷ []) }

  abbrev pub absorb : Text → Session F → Session F
  absorb [] s = s
  absorb (c ∷ t) s = absorb t (absorb_char c s)

  absorb-append : (t u : Text) (s : Session F) → absorb (t ++ u) s ≡ absorb u (absorb t s)
  absorb-append [] u s = refl
  absorb-append (c ∷ t) u s = absorb-append t u (absorb_char c s)

  absorb_closed : (t : Text) (s : Session F) → s.connected ≡ false → absorb t s ≡ s
  absorb_closed [] s h = refl
  absorb_closed (c ∷ t) s h = simp h (absorb_closed t s h)

  -- Only a disconnect touches the buffer of a line that is handled.
  handle_line-buffer :
      (line buffer : Text) (s : Session F)
      → (handle_line loads line s).connected ≡ true
      → handle_line loads line (record s { buffer = buffer })
        ≡ record (handle_line loads line s) { buffer = buffer }
  unfolding handle_line handle_packet
  handle_line-buffer line buffer s h = ground arith

  handle_lines_closed :
      (lines : List Text) (s : Session F) → s.connected ≡ false → handle_lines loads lines s ≡ s
  unfolding handle_lines
  handle_lines_closed [] s h = refl
  handle_lines_closed (_ ∷ []) s h = simp h
  handle_lines_closed (_ ∷ _ ∷ _) s h = simp h

  handle_lines-cons :
      (line : Text) (lines : List Text) (s : Session F)
      → lines ≢ []
      → s.connected ≡ true
      → handle_lines loads (line ∷ lines) s ≡ handle_lines loads lines (handle_line loads line s)
  unfolding handle_lines
  handle_lines-cons line [] s n h = absurd (n refl)
  handle_lines-cons line (_ ∷ _) s n h = simp h

  handle_line-dropped :
      (line buffer : Text) (s : Session F)
      → s.connected ≡ true
      → (handle_line loads line s).connected ≡ false
      → handle_line loads line (record s { buffer = buffer }) ≡ handle_line loads line s
  unfolding handle_line handle_packet
  handle_line-dropped line buffer s h e = ground arith

  -- The line feed: the two ways of going on after the line agree.
  after_line :
      (t line : Text) (s : Session F)
      → s.connected ≡ true
      → ((s2 : Session F)
          → s2.connected ≡ true
          → handle_lines loads (split 10 t) s2 ≡ absorb t (record s2 { buffer = [] }))
      → handle_lines loads (split 10 t) (handle_line loads line s)
        ≡ absorb t (handle_line loads line (record s { buffer = [] }))
  after_line t line s h rest = elim (Bool-cases (handle_line loads line s).connected) [
    | inl e ↦
        rest (handle_line loads line s) e ∙ ap (absorb t) (sym (handle_line-buffer line [] s e))
    | inr e ↦
        handle_lines_closed (split 10 t) (handle_line loads line s) e
        ∙ sym (absorb_closed t (handle_line loads line s) e)
        ∙ ap (absorb t) (sym (handle_line-dropped line [] s h e))
  ]

  absorb_line_feed :
      (c : ℕ) (b : Text) (s : Session F)
      → s.connected ≡ true
      → c == 10 ≡ true
      → absorb_char c (record s { buffer = b }) ≡ handle_line loads b (record s { buffer = [] })
  absorb_line_feed c b s h e = simp (h, e)

  absorb_other :
      (c : ℕ) (b : Text) (s : Session F)
      → s.connected ≡ true
      → c == 10 ≡ false
      → absorb_char c (record s { buffer = b }) ≡ record s { buffer = b ++ (c ∷ []) }
  absorb_other c b s h e = simp (h, e)

  pub handle_lines-one :
      (b : Text) (s : Session F)
      → s.connected ≡ true
      → contains 10 b ≡ false
      → handle_lines loads (split 10 b) s ≡ record s { buffer = b }
  handle_lines-one b s h n = rw (split_one 10 b n) (unfold handle_lines in simp h)

  contains_one : (c : ℕ) → c == 10 ≡ false → contains 10 (c ∷ []) ≡ false
  unfolding contains
  contains_one c e = ground arith

  split_line_feed :
      (c : ℕ) (b t : Text)
      → c == 10 ≡ true
      → contains 10 b ≡ false
      → split 10 (b ++ (c ∷ t)) ≡ b ∷ split 10 t
  split_line_feed c b t e n = rw ((==_iff c 10).0 e) (split-append 10 b t n)

  handle_lines-absorb :
      (data_ b : Text) (s : Session F)
      → s.connected ≡ true
      → contains 10 b ≡ false
      → handle_lines loads (split 10 (b ++ data_)) s ≡ absorb data_ (record s { buffer = b })
  handle_lines-absorb [] b s h n = rw (append-nil b) (handle_lines-one b s h n)
  handle_lines-absorb (c ∷ t) b s h n = elim (Bool-cases (c == 10)) [
    | inl e ↦
        ap (λ lines. handle_lines loads lines s) (split_line_feed c b t e n)
        ∙ handle_lines-cons b (split 10 t) s (split-ne-nil 10 t) h
        ∙ after_line t b s h (λ s2 h2. handle_lines-absorb t [] s2 h2 (unfold contains in refl))
        ∙ ap (absorb t) (sym (absorb_line_feed c b s h e))
    | inr e ↦
        ap (λ w. handle_lines loads (split 10 w) s) (sym (append_assoc b (c ∷ []) t))
        ∙ handle_lines-absorb t (b ++ (c ∷ [])) s h
            (contains-append 10 b (c ∷ []) ∙ simp (n, contains_one c e))
        ∙ ap (absorb t) (sym (absorb_other c b s h e))
  ]

  receive_chunk_closed :
      (chunk : Text) (s : Session F) → s.connected ≡ false → receive_chunk loads chunk s ≡ s
  unfolding receive_chunk
  receive_chunk_closed chunk s e = simp e

  receive_chunk-handle_lines :
      (chunk : Text) (s : Session F)
      → is_empty chunk ≡ false
      → s.connected ≡ true
      → receive_chunk loads chunk s
        ≡ handle_lines loads (split 10 (s.buffer ++ decode_utf8 chunk)) s
  unfolding receive_chunk
  receive_chunk-handle_lines chunk s ne h =
      elim (Bool-cases (contains 10 (s.buffer ++ decode_utf8 chunk))) [
        | inl e ↦ simp (h, ne, e)
        | inr e ↦ simp (h, ne, e, handle_lines-one (s.buffer ++ decode_utf8 chunk) s h e)
      ]

  receive_chunk-absorb :
      (chunk : Text) (s : Session F)
      → is_empty chunk ≡ false
      → contains 10 s.buffer ≡ false
      → receive_chunk loads chunk s ≡ absorb (decode_utf8 chunk) s
  receive_chunk-absorb chunk s ne n = elim (Bool-cases s.connected) [
    | inr e ↦ receive_chunk_closed chunk s e ∙ sym (absorb_closed (decode_utf8 chunk) s e)
    | inl h ↦
        receive_chunk-handle_lines chunk s ne h
        ∙ handle_lines-absorb (decode_utf8 chunk) s.buffer s h n
  ]

  -- The buffer never holds a line feed.
  handle_line-NoLineFeed :
      (line : Text) (s : Session F)
      → s.buffer ≡ []
      → contains 10 (handle_line loads line s).buffer ≡ false
  unfolding handle_line handle_packet contains
  handle_line-NoLineFeed line s e = ground arith

  absorb_char-NoLineFeed :
      (c : ℕ) (s : Session F)
      → contains 10 s.buffer ≡ false
      → contains 10 (absorb_char c s).buffer ≡ false
  absorb_char-NoLineFeed c s n = elim (Bool-cases s.connected) [
    | inr e ↦ simp (e, n)
    | inl h ↦ elim (Bool-cases (c == 10)) [
      | inl e ↦
          ap (λ s2. contains 10 s2.buffer) (absorb_line_feed c s.buffer s h e)
          ∙ handle_line-NoLineFeed s.buffer (record s { buffer = [] }) refl
      | inr e ↦ simp (h, e, contains-append 10 s.buffer (c ∷ []), n, contains_one c e)
    ]
  ]

  absorb-NoLineFeed :
      (t : Text) (s : Session F)
      → contains 10 s.buffer ≡ false
      → contains 10 (absorb t s).buffer ≡ false
  absorb-NoLineFeed [] s n = n
  absorb-NoLineFeed (c ∷ t) s n =
      absorb-NoLineFeed t (absorb_char c s) (absorb_char-NoLineFeed c s n)

  abbrev pub concat : List Text → Text
  concat [] = []
  concat (c ∷ l) = c ++ concat l

  concat-decode_utf8 :
      (c : Text) (l : List Text)
      → is_whole c ≡ true
      → decode_utf8 (concat (c ∷ l)) ≡ decode_utf8 c ++ decode_utf8 (concat l)
  concat-decode_utf8 c l h = decode_utf8-append c (concat l) h

  -- A chunk that is not empty and does not end inside a character.
  abbrev pub is_cut : Text → Bool
  is_cut c = not (is_empty c) && is_whole c

  receive_all-absorb :
      (chunks : List Text) (s : Session F)
      → all is_cut chunks ≡ true
      → contains 10 s.buffer ≡ false
      → receive_all loads chunks s ≡ absorb (decode_utf8 (concat chunks)) s
  receive_all-absorb [] s ne n = unfold decode_utf8 decode_from in refl
  receive_all-absorb (c ∷ l) s ne n =
      let text = decode_utf8 c in
      ap (receive_all loads l) (receive_chunk-absorb c s (ground arith) n)
      ∙ receive_all-absorb l (absorb text s) (ground arith) (absorb-NoLineFeed text s n)
      ∙ sym (absorb-append text (decode_utf8 (concat l)) s)
      ∙ ap (λ t. absorb t s) (sym (concat-decode_utf8 c l (ground arith)))

  -- Two ways of cutting the same bytes into chunks that are not empty and do not end inside a
  -- character leave the same session: the same setpoints, the same replies in the same order, the
  -- same buffer and the same connection.
  pub receive_all-concat :
      (one other : List Text) (s : Session F)
      → contains 10 s.buffer ≡ false
      → all is_cut one ≡ true
      → all is_cut other ≡ true
      → concat one ≡ concat other
      → receive_all loads one s ≡ receive_all loads other s
  receive_all-concat one other s n h k e =
      receive_all-absorb one s h n
      ∙ ap (λ bytes. absorb (decode_utf8 bytes) s) e
      ∙ sym (receive_all-absorb other s k n)
