-- ===== src/Multivalue/Table.antt =====
-- The offset table of a multi-valued property (crates/pstforge-pst/src/writer.rs), written and read
-- (crates/pstforge-core/src/writer_input.rs).
use pstforge.Base.{
  ℕ, suc, ◌+◌, ◌*◌, ◌<◌, ◌≡◌, refl, sym, ap, subst, ◌∙◌, true, List, [], ◌∷◌, ◌++◌, append_assoc,
  length, length-append, take, drop, ltb, u32_mod, u64_mod, checked, checked_add, ok, >>=-eq-ok,
  or_err, arith, some,
}
use pstforge.Multivalue.{to_le_bytes, word, offset_table, read_offsets}

pub drop-append : (xs ys : List ℕ) → drop (length xs) (xs ++ ys) ≡ ys
drop-append [] ys = refl
drop-append (x ∷ xs) ys = drop-append xs ys

pub take-append : (xs ys : List ℕ) → take (length xs) (xs ++ ys) ≡ xs
take-append [] ys = refl
take-append (x ∷ xs) ys = ap (λ l. x ∷ l) (take-append xs ys)

pub word-to_le_bytes : (n : ℕ) (rest : List ℕ) → n < u32_mod → word (to_le_bytes n ++ rest) ≡ some n
word-to_le_bytes n rest h = ap some (omega arith)

-- Where the values start, from an offset on.
abbrev pub starts : List (List ℕ) → ℕ → List ℕ
starts [] offset = []
starts (value ∷ values) offset = offset ∷ starts values (offset + length value)

offset_table-cons :
    (v : List ℕ) (vs : List (List ℕ)) (offset : ℕ) (table : List ℕ)
    → offset_table (v ∷ vs) offset ≡ ok table
    → (rest : List ℕ) × (offset < u32_mod)
      × (offset_table vs (offset + length v) ≡ ok rest)
      × (to_le_bytes offset ++ rest ≡ table)
unfolding offset_table
offset_table-cons v vs offset table e =
    let (w, hw, more) = >>=-eq-ok (or_err (checked u32_mod offset) _) _ e in
    let (next, hn, more') = >>=-eq-ok (or_err (checked_add offset (length v)) _) _ more in
    let (rest, hr, last) = >>=-eq-ok (offset_table vs next) _ more' in
    let is_word : offset ≡ w = ground arith in
    let is_next : next ≡ offset + length v = ground arith in
    let same : to_le_bytes w ++ rest ≡ table = ground arith in
    (
      rest,
      ground arith,
      ap (offset_table vs) (sym is_next) ∙ hr,
      ap (λ o. to_le_bytes o ++ rest) is_word ∙ same,
    )

pub length-offset_table :
    (values : List (List ℕ)) (offset : ℕ) (table : List ℕ)
    → offset_table values offset ≡ ok table
    → length table ≡ 4 * length values
unfolding offset_table
length-offset_table [] offset table e = ground arith
length-offset_table (v ∷ vs) offset table e =
    let (rest, small, further, same) = offset_table-cons v vs offset table e in
    let size : length table ≡ 4 + length rest = sym (ap length same) ∙ omega arith in
    omega (arith, size, length-offset_table vs (offset + length v) rest further)

read_offsets-step :
    (n index o : ℕ) (os bytes : List ℕ)
    → 4 + index * 4 < u64_mod
    → word (drop (4 + index * 4) bytes) ≡ some o
    → read_offsets n (index + 1) bytes ≡ ok os
    → read_offsets (suc n) index bytes ≡ ok (o ∷ os)
unfolding read_offsets
read_offsets-step n index o os bytes h w r =
    let skip : ltb (index * 4) u64_mod ≡ true = ground arith in
    let inside : ltb (4 + index * 4) u64_mod ≡ true = ground arith in rw (skip, inside, w, r) refl

pub read_offsets-starts :
    (values : List (List ℕ)) (offset index : ℕ) (table front back : List ℕ)
    → offset_table values offset ≡ ok table
    → length front ≡ 4 + index * 4
    → 4 + (index + length values) * 4 < u64_mod
    → read_offsets (length values) index (front ++ (table ++ back)) ≡ ok (starts values offset)
unfolding read_offsets
read_offsets-starts [] offset index table front back e h room = refl
read_offsets-starts (v ∷ vs) offset index table front back e h room =
    let (rest, small, further, same) = offset_table-cons v vs offset table e in
    let here : word (drop (4 + index * 4) (front ++ (to_le_bytes offset ++ (rest ++ back))))
        ≡ some offset =
      ap (λ n. word (drop n (front ++ (to_le_bytes offset ++ (rest ++ back))))) (sym h)
      ∙ (ap word (drop-append front (to_le_bytes offset ++ (rest ++ back)))
          ∙ word-to_le_bytes offset (rest ++ back) small) in
    let longer : length (front ++ to_le_bytes offset) ≡ 4 + (index + 1) * 4 =
      length-append front (to_le_bytes offset) ∙ omega (arith, h) in
    let tail =
      read_offsets-starts vs (offset + length v) (index + 1) rest (front ++ to_le_bytes offset) back
        further longer (omega (arith, room)) in
    let moved = append_assoc front (to_le_bytes offset) (rest ++ back) in
    subst
      (λ t.
        read_offsets (suc (length vs)) index (front ++ (t ++ back)) ≡ ok (starts (v ∷ vs) offset))
      same
      (read_offsets-step (length vs) index offset (starts vs (offset + length v))
        (front ++ (to_le_bytes offset ++ (rest ++ back))) (omega (arith, room)) here
        (subst (λ b. read_offsets (length vs) (index + 1) b ≡ ok (starts vs (offset + length v)))
          moved tail))
