-- ===== src/Multivalue/Tests.antt =====
-- Runs on a property of three values.
use pstforge.Base.{ℕ, ◌≡◌, refl, List, [], ◌∷◌, ok, err, length}
use pstforge.Multivalue.{
  payload_len, add_lengths, offset_table, multiple_binary_bytes, multiple_binary_payload_len,
  read_offsets, in_order, last_inside, decode_values, decode_multiple_binary,
}
use pstforge.Multivalue.RoundTrip.{
  length-multiple_binary_bytes, decode_multiple_binary-multiple_binary_bytes,
}

abbrev values : List (List ℕ)
values = (7 ∷ 8 ∷ []) ∷ [] ∷ (9 ∷ []) ∷ []

abbrev encoded : List ℕ
encoded = 3 ∷ 0 ∷ 0 ∷ 0 ∷ 16 ∷ 0 ∷ 0 ∷ 0 ∷ 18 ∷ 0 ∷ 0 ∷ 0 ∷ 18 ∷ 0 ∷ 0 ∷ 0 ∷ 7 ∷ 8 ∷ 9 ∷ []

written_values : multiple_binary_bytes values ≡ ok encoded
unfolding multiple_binary_bytes payload_len add_lengths offset_table
written_values = refl

disordered :
    decode_multiple_binary (1 ∷ 0 ∷ 0 ∷ 0 ∷ 9 ∷ 0 ∷ 0 ∷ 0 ∷ [])
    ≡ err "PtypMultipleBinary offsets are not ordered within the property"
unfolding decode_multiple_binary decode_values read_offsets in_order last_inside
disordered = refl

decode_multiple_binary-multiple_binary_bytes_example : decode_multiple_binary encoded ≡ ok values
decode_multiple_binary-multiple_binary_bytes_example =
    decode_multiple_binary-multiple_binary_bytes values encoded written_values

length-multiple_binary_bytes_example : multiple_binary_payload_len values ≡ ok (length encoded)
length-multiple_binary_bytes_example = length-multiple_binary_bytes values encoded written_values
