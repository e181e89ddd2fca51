-- ===== src/Nmea.antt =====
-- The NMEA sentence layer: the 8-bit XOR checksum, the frame `$payload*CC\r\n` that every
-- serializer of network_layer writes, and the test that every parser makes before it reads a
-- sentence. The five classes hold the same few lines each; they are modelled here once.
pub mod Frame
pub mod Corruption
pub mod Fields
use univac.Base.{ℕ, Bool, true, false, not, ◌&&◌, List, [], ◌∷◌, ◌++◌, ◌==◌, if◌then◌else◌, bit_xor}
use univac.Text.{Text, strip, upper, contains, split, equal, join}
use univac.Text.Hex.{hex02}

-- `for char in body: calculated_xor ^= ord(char)`
unfoldable pub xor_from : ℕ → Text → ℕ
xor_from acc [] = acc
xor_from acc (c ∷ s) = xor_from (bit_xor acc c) s

-- `_generate_checksum` of the serializers.
unfoldable pub checksum_of : Text → Text
checksum_of payload = hex02 (xor_from 0 payload)

-- f"${payload}*{checksum_hex}\r\n"
unfoldable pub frame : Text → Text
unfolding checksum_of
frame payload = b'$' ∷ (payload ++ (b'*' ∷ (checksum_of payload ++ (13 ∷ 10 ∷ []))))

-- The body of the `try`: unpacking other than two parts raises, which answers False.
unfoldable pub check_parts : List Text → Bool
unfolding checksum_of
check_parts (data_body ∷ hex_checksum ∷ []) =
    equal (checksum_of data_body) (upper (strip hex_checksum))
check_parts _ = false

-- `validate_checksum`
unfoldable pub validate_checksum : Text → Bool
unfolding check_parts
validate_checksum [] = false
validate_checksum (c ∷ rest) =
    if c == b'$' && contains b'*' (c ∷ rest) then check_parts (split b'*' rest) else false

abbrev pub first_part : List Text → Text
first_part [] = []
first_part (w ∷ ws) = w

-- `clean_str.split('*')[0].split(',')`
unfoldable pub fields : Text → List Text
fields s = split b',' (first_part (split b'*' s))

-- A payload is its fields with commas between them.
abbrev pub payload_of : List Text → Text
payload_of = join b','

-- A field holds neither the separator of fields nor that of the checksum.
unfoldable pub is_field : Text → Bool
is_field s = not (contains b',' s) && not (contains b'*' s)
