-- ===== src/Feedback/Jam.antt =====
-- The linkage clock of the receiver over consecutive feedbacks.
use univac.Base.{◌≡◌, Bool, true, false, List, [], ◌∷◌, ◌++◌, arith}
use univac.Floats.{Floating}
use univac.Feedback.{Receiver, Feedback, decode_status_flags, track}

-- A feedback that was read, the angle on order then, and the seconds since the last.
pub record Tracked (F : Type 0) : Type 0 where
  pub feedback : Feedback F
  pub ordered : F
  pub dt : F

module _ {F : Type 0} ⦃fl : Floating F⦄ where
  -- The rudder is off its order by more than the threshold.
  abbrev pub is_behind : Receiver F → Tracked F → Bool
  is_behind r e =
      fl.lt r.tracking_error_threshold_deg (fl.abs (fl.sub e.ordered e.feedback.measured_deg))

  abbrev pub track_all : Receiver F → List (Tracked F) → Receiver F
  track_all r [] = r
  track_all r (e ∷ l) = track_all (track r e.feedback e.ordered e.dt) l

  -- The seconds of a run, added in their order to `clock`.
  abbrev pub sum_dt : F → List (Tracked F) → F
  sum_dt clock [] = clock
  sum_dt clock (e ∷ l) = sum_dt (fl.add clock e.dt) l

  abbrev pub AllBehind : Receiver F → List (Tracked F) → Type 0
  AllBehind r [] = Unit
  AllBehind r (e ∷ l) = (is_behind r e ≡ true) × AllBehind r l

  AllBehind-track :
      (r : Receiver F) (e : Tracked F) (l : List (Tracked F))
      → AllBehind r l
      → AllBehind (track r e.feedback e.ordered e.dt) l
  unfolding track
  AllBehind-track r e [] h = tt
  AllBehind-track r e (d ∷ l) h = (h.0, AllBehind-track r e l h.1)

  track_behind :
      (r : Receiver F) (e : Tracked F)
      → is_behind r e ≡ true
      → let r' = track r e.feedback e.ordered e.dt in
        (r'.consecutive_error_seconds ≡ fl.add r.consecutive_error_seconds e.dt)
        × (r'.latest_status.linkage_tracking_jammed
            ≡ fl.le r.max_error_time_allowed_sec (fl.add r.consecutive_error_seconds e.dt))
        × (r'.max_error_time_allowed_sec ≡ r.max_error_time_allowed_sec)
  unfolding track
  track_behind r e h = ground arith

  -- A feedback within the threshold clears the clock and the jam, however long the rudder was off
  -- before.
  pub track_within :
      (r : Receiver F) (e : Tracked F)
      → is_behind r e ≡ false
      → let r' = track r e.feedback e.ordered e.dt in
        (r'.consecutive_error_seconds ≡ fl.lit 0 1)
        × (r'.latest_status.linkage_tracking_jammed ≡ false)
        × (r'.latest_status.hardware_faults_active ≡ (decode_status_flags e.feedback.status_hex).0)
  unfolding track
  track_within r e h = ground arith

  -- Over a run of feedbacks that are all off the order, the last of them declares a jam exactly
  -- when the seconds of the run, on top of the clock before it, reach the limit.
  pub track_all_behind :
      (l : List (Tracked F)) (r : Receiver F) (last : Tracked F)
      → AllBehind r l
      → is_behind r last ≡ true
      → let r' = track_all r (l ++ (last ∷ [])) in
        (r'.consecutive_error_seconds ≡ sum_dt r.consecutive_error_seconds (l ++ (last ∷ [])))
        × (r'.latest_status.linkage_tracking_jammed
            ≡ fl.le r.max_error_time_allowed_sec
                (sum_dt r.consecutive_error_seconds (l ++ (last ∷ []))))
  track_all_behind [] r last h hl = ground (arith, track_behind r last hl)
  track_all_behind (e ∷ l) r last h hl =
      let r' = track r e.feedback e.ordered e.dt in
      let ends = AllBehind-track r e (last ∷ []) (hl, tt) in
      ground
        (arith, track_behind r e h.0, track_all_behind l r' last (AllBehind-track r e l h.1) ends.0)
