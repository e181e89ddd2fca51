-- ===== src/Tests/Commands.antt =====
-- The command stream (Tcp), with the numbers of Floats.Milli and a parser that knows two lines.
use univac.Base.{◌≡◌, refl, Option, none, some, List, [], ◌∷◌, ◌++◌, if◌then◌else◌}
use univac.Base.Int.{ℤ, pos, neg_ℤ}
use univac.Text.{Text, codes, contains, equal}
use univac.Text.Utf8.{feed, start_byte}
use univac.Floats.Milli.{milli, milli_laws}
use univac.Tcp.{
  JsonValue, JsonPayload, json_number, json_object, accepted, Setpoints, Session, get_value,
  validate_and_update_targets, initial_session, receive_all,
}
use univac.Tcp.Safety.{InRange, validate_and_update_targets_iff, receive_all-InRange}
use univac.Tcp.Framing.{receive_all-concat}

abbrev order : List (Text × JsonValue ℤ)
order =
    (codes "rpm", json_number (pos 300_000)) ∷ (codes "target_yaw_rate", json_number (pos 20)) ∷ []

abbrev loads : Text → Option (JsonPayload ℤ)
loads t = if equal t (codes "ok") then some (json_object order) else none

abbrev ordered : Setpoints ℤ
ordered = record { rpm = pos 300_000; target_yaw_rate = pos 20 }

abbrev start : Session ℤ
start = initial_session

validate_and_update_targets_iff_example :
    validate_and_update_targets start.setpoints order ≡ (accepted, ordered)
unfolding get_value equal neg_ℤ
validate_and_update_targets_iff_example =
    (validate_and_update_targets_iff start.setpoints ordered order).0.1 (refl, refl, refl, refl)

receive_all-InRange_example :
    InRange (receive_all loads (codes "o" ∷ (codes "k" ++ (10 ∷ [])) ∷ []) start).setpoints
receive_all-InRange_example =
    receive_all-InRange loads milli_laws (codes "o" ∷ (codes "k" ++ (10 ∷ [])) ∷ [])

-- The order, behind a line that is é.
abbrev first_cut : List Text
first_cut = (195 ∷ 169 ∷ []) ∷ (10 ∷ codes "o") ∷ (codes "k" ++ (10 ∷ [])) ∷ []

abbrev second_cut : List Text
second_cut = (195 ∷ 169 ∷ 10 ∷ (codes "ok" ++ (10 ∷ []))) ∷ []

receive_all-concat_example : receive_all loads first_cut start ≡ receive_all loads second_cut start
unfolding initial_session contains feed start_byte
receive_all-concat_example = receive_all-concat loads first_cut second_cut start refl refl refl refl
