-- ===== src/Multivalue.antt =====
-- Multi-valued binary properties: `multiple_binary_payload_len` and `multiple_binary_bytes` of
-- crates/pstforge-pst/src/writer.rs write them, and `decode_multiple_binary` of
-- crates/pstforge-core/src/writer_input.rs reads them. A value is the sequence of its bytes.
pub mod Table
pub mod RoundTrip
mod Tests
use pstforge.Base.{
  ℕ, zero, suc, ◌+◌, ◌-◌, ◌*◌, ◌/◌, ◌%◌, Bool, true, false, ◌&&◌, ◌||◌, List, [], ◌∷◌, ◌++◌, Option,
  none, some, length, take, drop, ltb, leb, ◌==◌, if◌then◌else◌, u32_mod, checked, checked_add,
  checked_mul, String, Result, ok, err, aborted, ◌>>=◌, ◌>>◌, or_err, guard,
}
use pstforge.Writer.Error.{WriterResult, value_too_large, io}

-- `u32::to_le_bytes`.
abbrev pub to_le_bytes : ℕ → List ℕ
to_le_bytes n = n % 256 ∷ n / 256 % 256 ∷ n / 65536 % 256 ∷ n / 16777216 % 256 ∷ []

-- The header and the values; none when the sum does not fit.
unfoldable pub add_lengths : List (List ℕ) → ℕ → Option ℕ
add_lengths [] total = some total
add_lengths (value ∷ values) total = elim (checked_add total (length value)) [
  | none ↦ none
  | some next ↦ add_lengths values next
]

unfoldable pub payload_len : List (List ℕ) → Option ℕ
payload_len values = elim (checked_mul (length values + 1) 4) [
  | none ↦ none
  | some header ↦ add_lengths values header
]

unfoldable pub multiple_binary_payload_len : List (List ℕ) → WriterResult ℕ
multiple_binary_payload_len values =
    or_err (payload_len values) (value_too_large "multi-valued binary property")

unfoldable pub offset_table : List (List ℕ) → ℕ → WriterResult (List ℕ)
offset_table [] offset = ok []
offset_table (value ∷ values) offset = do
  word ← or_err (checked u32_mod offset) (io "multi-valued binary property offset is too large")
  next ←
      or_err (checked_add offset (length value)) (io "multi-valued binary property offset overflow")
  rest ← offset_table values next
  ok (to_le_bytes word ++ rest)

abbrev pub flatten : List (List ℕ) → List ℕ
flatten [] = []
flatten (value ∷ values) = value ++ flatten values

unfoldable pub multiple_binary_bytes : List (List ℕ) → WriterResult (List ℕ)
multiple_binary_bytes values = do
  encoded_len ←
      or_err (payload_len values)
        (io "writer value is too large for the PST structure: multi-valued binary property")
  count ←
      or_err (checked u32_mod (length values))
        (io "multi-valued binary property has too many values")
  offset ←
      or_err (checked_mul (length values + 1) 4) (io "multi-valued binary property offset overflow")
  table ← offset_table values offset
  ok (to_le_bytes count ++ (table ++ flatten values))

-- The little-endian word in front.
abbrev pub word : List ℕ → Option ℕ
word (a ∷ b ∷ c ∷ d ∷ rest) = some (a + 256 * b + 65536 * c + 16777216 * d)
word _ = none

-- `bytes.get(start..end)`.
unfoldable pub get_range : ℕ → ℕ → List ℕ → Option (List ℕ)
get_range start end bytes =
    if leb start end && leb end (length bytes)
    then some (take (end - start) (drop start bytes))
    else none

unfoldable pub read_offsets : ℕ → ℕ → List ℕ → Result String (List ℕ)
read_offsets zero index bytes = ok []
read_offsets (suc n) index bytes = do
  skipped ← or_err (checked_mul index 4) "PtypMultipleBinary offset index overflows"
  start ← or_err (checked_add 4 skipped) "PtypMultipleBinary offset index overflows"
  offset ← or_err (word (drop start bytes)) "PtypMultipleBinary offset is truncated"
  rest ← read_offsets n (index + 1) bytes
  ok (offset ∷ rest)

-- No offset is behind the next one, or any but the first behind the end.
unfoldable pub in_order : ℕ → List ℕ → Bool
in_order end (a ∷ b ∷ offsets) = leb a b && leb b end && in_order end (b ∷ offsets)
in_order end _ = true

unfoldable pub last_inside : ℕ → List ℕ → Bool
last_inside end [] = true
last_inside end (a ∷ []) = leb a end
last_inside end (a ∷ b ∷ offsets) = last_inside end (b ∷ offsets)

abbrev pub first_or : ℕ → List ℕ → ℕ
first_or end [] = end
first_or end (a ∷ offsets) = a

-- `offsets.first() == Some(header_len)`.
abbrev pub starts_at : ℕ → List ℕ → Bool
starts_at header_len [] = false
starts_at header_len (a ∷ offsets) = a == header_len

unfoldable pub values_at : List ℕ → List ℕ → Result String (List (List ℕ))
values_at [] bytes = ok []
values_at (start ∷ offsets) bytes = do
  value ←
      or_err (get_range start (first_or (length bytes) offsets) bytes)
        "PtypMultipleBinary value range is invalid"
  rest ← values_at offsets bytes
  ok (value ∷ rest)

-- The values of a property with at least one.
unfoldable pub decode_values : ℕ → ℕ → List ℕ → Result String (List (List ℕ))
decode_values count header_len bytes = do
  offsets ← read_offsets count 0 bytes
  guard
      (starts_at header_len offsets
        && in_order (length bytes) offsets
        && last_inside (length bytes) offsets)
      "PtypMultipleBinary offsets are not ordered within the property"
  values_at offsets bytes

unfoldable pub decode_multiple_binary : List ℕ → Result String (List (List ℕ))
decode_multiple_binary bytes = do
  count ← or_err (word bytes) "PtypMultipleBinary count is truncated"
  header_len ← or_err (checked_mul (count + 1) 4) "PtypMultipleBinary header length overflows"
  guard (leb header_len (length bytes)) "PtypMultipleBinary offset table is truncated"
  let values = decode_values count header_len bytes
  if count == 0
      then guard (length bytes == 4) "empty PtypMultipleBinary has trailing bytes" >> ok []
      else values
