-- ===== src/Multivalue/RoundTrip.antt =====
-- What crates/pstforge-pst/src/writer.rs writes of a multi-valued binary property is what
-- crates/pstforge-core/src/writer_input.rs reads.
use pstforge.Base.{
  ℕ, ◌+◌, ◌-◌, ◌*◌, ◌≤◌, ◌<◌, ◌≡◌, refl, sym, ap, subst, ◌∙◌, true, false, List, [], ◌∷◌, ◌++◌,
  append_assoc, append-nil, length, length-append, drop, le→leb, ltb, ◌==◌, u32_mod, u64_mod,
  checked, checked_mul, ok, >>=-eq-ok, or_err, arith, some,
}
use pstforge.Multivalue.{
  add_lengths, multiple_binary_payload_len, to_le_bytes, word, payload_len, offset_table, flatten,
  multiple_binary_bytes, get_range, read_offsets, in_order, last_inside, first_or, values_at,
  decode_values, decode_multiple_binary,
}
use pstforge.Multivalue.Table.{
  starts, drop-append, take-append, word-to_le_bytes, length-offset_table, read_offsets-starts,
}

length-flatten-starts :
    (values : List (List ℕ)) (offset end : ℕ)
    → end ≡ offset + length (flatten values)
    → (in_order end (starts values offset) ≡ true) × (last_inside end (starts values offset) ≡ true)
unfolding in_order last_inside
length-flatten-starts [] offset end h = (refl, refl)
length-flatten-starts (v ∷ []) offset end h = (refl, ground arith)
length-flatten-starts (v ∷ w ∷ vs) offset end h =
    let rest =
      length-flatten-starts (w ∷ vs) (offset + length v) end
        (h ∙ omega (arith, length-append v (flatten (w ∷ vs)))) in
    let total : end ≡ offset + (length v + length (flatten (w ∷ vs))) =
      h ∙ ap (λ n. offset + n) (length-append v (flatten (w ∷ vs))) in
    (
      rw
          (
            le→leb offset (offset + length v) (omega arith),
            le→leb (offset + length v) end (omega (arith, total)),
          )
          rest.0,
      rest.1,
    )

get_range-value :
    (front v more : List ℕ) (offset end : ℕ)
    → length front ≡ offset
    → end ≡ offset + length v
    → get_range offset end (front ++ (v ++ more)) ≡ some v
unfolding get_range
get_range-value front v more offset end h k =
    let size : length (front ++ (v ++ more)) ≡ length front + (length v + length more) =
      length-append front (v ++ more) ∙ ap (λ n. length front + n) (length-append v more) in
    let behind : drop offset (front ++ (v ++ more)) ≡ v ++ more =
      ap (λ n. drop n (front ++ (v ++ more))) (sym h) ∙ drop-append front (v ++ more) in
    let width : end - offset ≡ length v = omega arith in
    rw
      (
        le→leb offset end (omega arith),
        le→leb end (length (front ++ (v ++ more))) (omega (arith, size)),
        behind,
        width,
        take-append v more,
      )
      refl

first_or-starts :
    (front v : List ℕ) (vs : List (List ℕ)) (offset : ℕ)
    → length front ≡ offset
    → first_or (length (front ++ (v ++ flatten vs))) (starts vs (offset + length v))
      ≡ offset + length v
first_or-starts front v [] offset h =
    length-append front (v ++ []) ∙ omega (arith, h, ap length (append-nil v))
first_or-starts front v (w ∷ vs) offset h = refl

values_at-step :
    (start : ℕ) (offsets bytes v : List ℕ) (vs : List (List ℕ))
    → get_range start (first_or (length bytes) offsets) bytes ≡ some v
    → values_at offsets bytes ≡ ok vs
    → values_at (start ∷ offsets) bytes ≡ ok (v ∷ vs)
unfolding values_at
values_at-step start offsets bytes v vs g r = rw (g, r) refl

values_at-starts :
    (values : List (List ℕ)) (offset : ℕ) (front : List ℕ)
    → length front ≡ offset
    → values_at (starts values offset) (front ++ flatten values) ≡ ok values
unfolding values_at
values_at-starts [] offset front h = refl
values_at-starts (v ∷ vs) offset front h =
    let further =
      values_at-starts vs (offset + length v) (front ++ v)
        (length-append front v ∙ omega (arith, h)) in
    let moved = append_assoc front v (flatten vs) in
    values_at-step offset (starts vs (offset + length v)) (front ++ (v ++ flatten vs)) v vs
      (get_range-value front v (flatten vs) offset _ h (first_or-starts front v vs offset h))
      (subst (λ b. values_at (starts vs (offset + length v)) b ≡ ok vs) moved further)

-- The count, the table and the values that are written.
written :
    (values : List (List ℕ)) (bytes : List ℕ)
    → multiple_binary_bytes values ≡ ok bytes
    → (table : List ℕ) × (length values < u32_mod)
      × (offset_table values ((length values + 1) * 4) ≡ ok table)
      × (to_le_bytes (length values) ++ (table ++ flatten values) ≡ bytes)
unfolding multiple_binary_bytes
written values bytes e =
    let (encoded_len, he, more) = >>=-eq-ok (or_err (payload_len values) _) _ e in
    let (count, hc, more') = >>=-eq-ok (or_err (checked u32_mod (length values)) _) _ more in
    let (offset, ho, more2) = >>=-eq-ok (or_err (checked_mul (length values + 1) 4) _) _ more' in
    let (table, ht, last) = >>=-eq-ok (offset_table values offset) _ more2 in
    let is_count : length values ≡ count = ground arith in
    let is_offset : offset ≡ (length values + 1) * 4 = ground arith in
    let same : to_le_bytes count ++ (table ++ flatten values) ≡ bytes = ground arith in
    (
      table,
      ground arith,
      ap (offset_table values) (sym is_offset) ∙ ht,
      ap (λ c. to_le_bytes c ++ (table ++ flatten values)) is_count ∙ same,
    )

decode_values-starts :
    (v : List ℕ) (vs : List (List ℕ)) (header_len : ℕ) (bytes : List ℕ)
    → read_offsets (length (v ∷ vs)) 0 bytes ≡ ok (starts (v ∷ vs) header_len)
    → length bytes ≡ header_len + length (flatten (v ∷ vs))
    → values_at (starts (v ∷ vs) header_len) bytes ≡ ok (v ∷ vs)
    → decode_values (length (v ∷ vs)) header_len bytes ≡ ok (v ∷ vs)
unfolding decode_values
decode_values-starts v vs header_len bytes r size at =
    let ordered = length-flatten-starts (v ∷ vs) header_len (length bytes) size in
    let first : (header_len == header_len) ≡ true = ground arith in
    rw (r, ordered.0, ordered.1, first) at

decode-values :
    (count : ℕ) (bytes : List ℕ) (values : List (List ℕ))
    → word bytes ≡ some count
    → 0 < count
    → count < u32_mod
    → (count + 1) * 4 ≤ length bytes
    → decode_values count ((count + 1) * 4) bytes ≡ ok values
    → decode_multiple_binary bytes ≡ ok values
unfolding decode_multiple_binary
decode-values count bytes values w positive small long d =
    let fits : ltb ((count + 1) * 4) u64_mod ≡ true = ground arith in
    let some_values : (count == 0) ≡ false = ground arith in
    rw (w, fits, le→leb ((count + 1) * 4) (length bytes) long, some_values) d

decode_nothing :
    (table bytes : List ℕ)
    → offset_table [] 4 ≡ ok table
    → to_le_bytes 0 ++ (table ++ []) ≡ bytes
    → decode_multiple_binary bytes ≡ ok []
unfolding decode_multiple_binary offset_table
decode_nothing table bytes e same =
    let empty : [] ≡ table = ground arith in
    subst (λ b. decode_multiple_binary b ≡ ok [])
      (ap (λ t. to_le_bytes 0 ++ (t ++ [])) empty ∙ same) refl

decode_something :
    (v : List ℕ) (vs : List (List ℕ)) (table : List ℕ)
    → length (v ∷ vs) < u32_mod
    → offset_table (v ∷ vs) ((length (v ∷ vs) + 1) * 4) ≡ ok table
    → decode_multiple_binary (to_le_bytes (length (v ∷ vs)) ++ (table ++ flatten (v ∷ vs)))
      ≡ ok (v ∷ vs)
decode_something v vs table small t =
    let values = v ∷ vs in
    let count = length values in
    let header = (count + 1) * 4 in
    let table_size = length-offset_table values header table t in
    let front = to_le_bytes count ++ table in
    let bytes = to_le_bytes count ++ (table ++ flatten values) in
    let front_size : length front ≡ header =
      length-append (to_le_bytes count) table ∙ omega (arith, table_size) in
    let moved : front ++ flatten values ≡ bytes =
      append_assoc (to_le_bytes count) table (flatten values) in
    let size : length bytes ≡ header + length (flatten values) =
      sym (ap length moved)
      ∙ (length-append front (flatten values) ∙ ap (λ n. n + length (flatten values)) front_size) in
    let read =
      read_offsets-starts values header 0 table (to_le_bytes count) (flatten values) t (omega arith)
        (omega (arith, small)) in
    let found = values_at-starts values header front front_size in
    decode-values count bytes values (word-to_le_bytes count (table ++ flatten values) small)
      (omega arith) small (omega (arith, size))
      (decode_values-starts v vs header bytes read size
        (subst (λ b. values_at (starts values header) b ≡ ok values) moved found))

-- Values that are written as a multi-valued binary property are read back.
pub decode_multiple_binary-multiple_binary_bytes :
    (values : List (List ℕ)) (bytes : List ℕ)
    → multiple_binary_bytes values ≡ ok bytes
    → decode_multiple_binary bytes ≡ ok values
decode_multiple_binary-multiple_binary_bytes [] bytes e =
    let (table, small, t, same) = written [] bytes e in decode_nothing table bytes t same
decode_multiple_binary-multiple_binary_bytes (v ∷ vs) bytes e =
    let (table, small, t, same) = written (v ∷ vs) bytes e in
    subst (λ b. decode_multiple_binary b ≡ ok (v ∷ vs)) same (decode_something v vs table small t)

length-add_lengths :
    (values : List (List ℕ)) (total sum : ℕ)
    → add_lengths values total ≡ some sum
    → sum ≡ total + length (flatten values)
unfolding add_lengths
length-add_lengths [] total sum e = ground arith
length-add_lengths (v ∷ vs) total sum e =
    let further : add_lengths vs (total + length v) ≡ some sum = ground arith in
    length-add_lengths vs (total + length v) sum further
    ∙ omega (arith, length-append v (flatten vs))

length-payload_len :
    (values : List (List ℕ)) (sum : ℕ)
    → payload_len values ≡ some sum
    → sum ≡ (length values + 1) * 4 + length (flatten values)
unfolding payload_len
length-payload_len values sum e =
    let added : add_lengths values ((length values + 1) * 4) ≡ some sum = ground arith in
    length-add_lengths values ((length values + 1) * 4) sum added

payload_is_found :
    (values : List (List ℕ)) (bytes : List ℕ)
    → multiple_binary_bytes values ≡ ok bytes
    → (sum : ℕ) × (payload_len values ≡ some sum)
unfolding multiple_binary_bytes
payload_is_found values bytes e =
    let (sum, found, _) = >>=-eq-ok (or_err (payload_len values) _) _ e in (sum, ground arith)

-- The bytes that are written of a multi-valued binary property are as many as
-- `multiple_binary_payload_len` says.
pub length-multiple_binary_bytes :
    (values : List (List ℕ)) (bytes : List ℕ)
    → multiple_binary_bytes values ≡ ok bytes
    → multiple_binary_payload_len values ≡ ok (length bytes)
unfolding multiple_binary_payload_len
length-multiple_binary_bytes values bytes e =
    let (table, small, t, same) = written values bytes e in
    let (sum, found) = payload_is_found values bytes e in
    let table_size = length-offset_table values ((length values + 1) * 4) table t in
    let size : length bytes ≡ 4 + (length table + length (flatten values)) =
      sym (ap length same) ∙ omega (arith, length-append table (flatten values)) in
    let sums : sum ≡ length bytes =
      length-payload_len values sum found ∙ omega (arith, size, table_size) in
    rw (found, sums) refl
