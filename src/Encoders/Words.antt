-- ===== src/Encoders/Words.antt =====
-- network_layer/univac_architecture_hal.py: words of the mainframe models, masked and cut into bytes.
-- A word is a non-negative integer; the printed messages are not modelled.
use univac.Base.{
  ℕ, zero, suc, ◌+◌, ◌*◌, ◌/◌, ◌%◌, ◌^◌, ◌<◌, ◌≡◌, inl, inr, refl, ◌∙◌, bit_and, Bool, true, false,
  Option, none, some, List, [], ◌∷◌, ◌++◌, arith, length, length-append, ltb, all, if◌then◌else◌,
  Bool-cases,
}
use native.Mathlib.Nat.{pow-suc}
use univac.Base.Bits.{bit_and_le}
use univac.Text.{Text, codes, strip, upper, equal}

pub record ModelConfig : Type 0 where
  pub model : Text
  pub bits : ℕ
  pub mask : ℕ
  pub protocol : Text

abbrev pub config : Text → ℕ → ℕ → Text → ModelConfig
config model bits mask protocol = record {
  model = model;
  bits = bits;
  mask = mask;
  protocol = protocol;
}

abbrev pub uyk_43 : ModelConfig
uyk_43 = config (codes "AN/UYK-43") 32 0xFFFFFFFF (codes "NTDS_SERIAL_E")

abbrev pub model_registry : List ModelConfig
model_registry =
    config (codes "1219") 18 0x0003FFFF (codes "MIL_STD_1397_A")
    ∷ uyk_43
    ∷ config (codes "AN/UYK-20") 16 0x0000FFFF (codes "NTDS_PARALLEL_C")
    ∷ config (codes "AN/AYK-14") 16 0x0000FFFF (codes "MIL_STD_1553B")
    ∷ config (codes "490") 30 0x3FFFFFFF (codes "NTDS_PARALLEL_A")
    ∷ config (codes "494") 30 0x3FFFFFFF (codes "NTDS_PARALLEL_B")
    ∷ config (codes "1107") 36 0xFFAAAAAA (codes "SCIENTIFIC_PARALLEL")
    ∷ config (codes "1108") 36 0xFFAAAAAA (codes "SCIENTIFIC_EXTENDED")
    ∷ []

-- The short names '43', '20' and '14'.
unfoldable pub expand_name : Text → Text
expand_name sanitized =
    if equal sanitized (codes "43")
    then codes "AN/UYK-43"
    else if equal sanitized (codes "20")
    then codes "AN/UYK-20"
    else if equal sanitized (codes "14")
    then codes "AN/AYK-14"
    else sanitized

-- The entry of the name in the registry.
unfoldable pub find_model : Text → List ModelConfig → Option ModelConfig
find_model name [] = none
find_model name (c ∷ l) = if equal c.model name then some c else find_model name l

abbrev pub accept_model : Option ModelConfig → ModelConfig → Bool × ModelConfig
accept_model none active = (false, active)
accept_model (some c) active = (true, c)

-- `clear_interlocks_for_model`: whether it was accepted, and the active model with its entry.
unfoldable pub clear_interlocks_for_model : Text → ModelConfig → Bool × ModelConfig
unfolding expand_name find_model
clear_interlocks_for_model target_model active =
    accept_model (find_model (expand_name (strip (upper target_model))) model_registry) active

unfoldable pub pack_native_word_to_64bit : ModelConfig → ℕ → ℕ
pack_native_word_to_64bit cfg raw_input_word = bit_and raw_input_word cfg.mask

-- The `count` lowest bytes of n, the highest first.
unfoldable pub big_endian : ℕ → ℕ → List ℕ
big_endian zero n = []
big_endian (suc count) n = big_endian count (n / 256) ++ (n % 256 ∷ [])

-- `n.to_bytes(count, byteorder='big')`; none is OverflowError.
unfoldable pub to_bytes : ℕ → ℕ → Option (List ℕ)
unfolding big_endian
to_bytes count n = if ltb n (256 ^ count) then some (big_endian count n) else none

-- `unpack_64bit_to_native_bytes`
unfoldable pub unpack_64bit_to_native_bytes : ModelConfig → ℕ → Option (List ℕ × Text)
unfolding to_bytes
unpack_64bit_to_native_bytes cfg system_word =
    elim (to_bytes ((cfg.bits + 7) / 8) (bit_and system_word cfg.mask)) [
      | none ↦ none
      | some binary_payload ↦ some (binary_payload, cfg.protocol)
    ]

-- What a receiver makes of the bytes.
abbrev pub value_onto : ℕ → List ℕ → ℕ
value_onto acc [] = acc
value_onto acc (b ∷ l) = value_onto (acc * 256 + b) l

value_onto-append :
    (acc : ℕ) (l : List ℕ) (b : ℕ) → value_onto acc (l ++ (b ∷ [])) ≡ value_onto acc l * 256 + b
value_onto-append acc [] b = refl
value_onto-append acc (c ∷ l) b = value_onto-append (acc * 256 + c) l b

byte_power : (count n : ℕ) → n < 256 ^ suc count → n / 256 < 256 ^ count
byte_power count n h = omega (arith, pow-suc 256 count)

value_onto-big_endian : (count n : ℕ) → n < 256 ^ count → value_onto 0 (big_endian count n) ≡ n
unfolding big_endian
value_onto-big_endian zero n h = omega arith
value_onto-big_endian (suc count) n h =
    value_onto-append 0 (big_endian count (n / 256)) (n % 256)
    ∙ omega (arith, value_onto-big_endian count (n / 256) (byte_power count n h))

big_endian-length : (count n : ℕ) → length (big_endian count n) ≡ count
unfolding big_endian
big_endian-length zero n = refl
big_endian-length (suc count) n =
    length-append (big_endian count (n / 256)) (n % 256 ∷ [])
    ∙ omega (arith, big_endian-length count (n / 256))

-- The mask fits in the model's bytes.
abbrev pub fits : ModelConfig → Bool
fits cfg = ltb cfg.mask (256 ^ ((cfg.bits + 7) / 8))

-- A run of requests.
abbrev pub select_all : List Text → ModelConfig → ModelConfig
select_all [] active = active
select_all (name ∷ l) active = select_all l (clear_interlocks_for_model name active).1

accept_found :
    (name : Text) (l : List ModelConfig) (active : ModelConfig)
    → all fits l ≡ true
    → fits active ≡ true
    → fits (accept_model (find_model name l) active).1 ≡ true
unfolding find_model
accept_found name [] active h k = k
accept_found name (c ∷ l) active h k = elim (Bool-cases (equal c.model name)) [
  | inl e ↦ rw e (ground arith)
  | inr e ↦ rw e (accept_found name l active (ground arith) k)
]

select_all-fits :
    (l : List Text) (active : ModelConfig) → fits active ≡ true → fits (select_all l active) ≡ true
unfolding clear_interlocks_for_model
select_all-fits [] active k = k
select_all-fits (name ∷ l) active k =
    select_all-fits l (clear_interlocks_for_model name active).1
      (accept_found (expand_name (strip (upper name))) model_registry active refl k)

to_bytes_masked :
    (cfg : ModelConfig) (word : ℕ)
    → fits cfg ≡ true
    → to_bytes ((cfg.bits + 7) / 8) (bit_and word cfg.mask)
      ≡ some (big_endian ((cfg.bits + 7) / 8) (bit_and word cfg.mask))
unfolding to_bytes
to_bytes_masked cfg word h = ground (arith, bit_and_le word cfg.mask)

masked_lt :
    (cfg : ModelConfig) (word : ℕ)
    → fits cfg ≡ true
    → bit_and word cfg.mask < 256 ^ ((cfg.bits + 7) / 8)
masked_lt cfg word h = ground (arith, bit_and_le word cfg.mask)

-- Whatever models were requested from the start on, accepted or not, every word is cut into as
-- many bytes as the active model's bits need, no OverflowError is raised, and a receiver that
-- reads them with the highest first gets the masked word back.
pub unpack_64bit_to_native_bytes-select_all :
    (l : List Text) (word : ℕ)
    → let cfg = select_all l uyk_43 in
      (payload : List ℕ) × (unpack_64bit_to_native_bytes cfg word ≡ some (payload, cfg.protocol))
      × (length payload ≡ (cfg.bits + 7) / 8)
      × (value_onto 0 payload ≡ pack_native_word_to_64bit cfg word)
unfolding unpack_64bit_to_native_bytes pack_native_word_to_64bit
unpack_64bit_to_native_bytes-select_all l word =
    let cfg = select_all l uyk_43 in
    let count = (cfg.bits + 7) / 8 in
    let fit = select_all-fits l uyk_43 refl in
    (
      big_endian count (bit_and word cfg.mask),
      rw (unpack_64bit_to_native_bytes, to_bytes_masked cfg word fit),
      big_endian-length count (bit_and word cfg.mask),
      value_onto-big_endian count (bit_and word cfg.mask) (masked_lt cfg word fit),
    )
