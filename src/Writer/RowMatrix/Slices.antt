-- ===== src/Writer/RowMatrix/Slices.antt =====
-- Fronts, rests and chunks of slices, for the blocks of rows of crates/pstforge-pst/src/writer.rs.
use native.Mathlib.Nat.{zero-add, suc-add}
use pstforge.Base.{
  ℕ, zero, suc, ◌+◌, ◌≤◌, ◌<◌, List, [], ◌∷◌, ◌++◌, length, take, drop, ◌≡◌, refl, ap, ap₂, ◌∙◌,
  append-nil, arith,
}
use pstforge.Writer.DataTree.{chunks_in}

module _ {A : Type 0} where
  pub take_behind :
      (front back : List A) (more : ℕ)
      → take (length front + more) (front ++ back) ≡ front ++ take more back
  take_behind [] back more = rw zero-add refl
  take_behind (x ∷ front) back more = rw suc-add (ap (x ∷◌) (take_behind front back more))

  pub drop_behind :
      (front back : List A) (more : ℕ) → drop (length front + more) (front ++ back) ≡ drop more back
  drop_behind [] back more = rw zero-add refl
  drop_behind (x ∷ front) back more = rw suc-add (drop_behind front back more)

  -- A chunk in front of others.
  pub chunks_in_front :
      (fuel size : ℕ) (front back : List A)
      → 0 < size
      → length front ≡ size
      → chunks_in (suc fuel) size (front ++ back) ≡ front ∷ chunks_in fuel size back
  chunks_in_front fuel size [] back pos e = ground arith
  chunks_in_front fuel size (x ∷ front) back pos e =
      let exact : size ≡ length (x ∷ front) + 0 = omega arith in
      ap₂ (λ chunk rest. chunk ∷ chunks_in fuel size rest)
        (ap (λ n. take n (x ∷ front ++ back)) exact
          ∙ take_behind (x ∷ front) back 0
          ∙ append-nil (x ∷ front))
        (ap (λ n. drop n (x ∷ front ++ back)) exact ∙ drop_behind (x ∷ front) back 0)

  pub take_all : (size : ℕ) (xs : List A) → length xs ≤ size → take size xs ≡ xs
  take_all zero [] h = refl
  take_all zero (x ∷ xs) h = ground arith
  take_all (suc size) [] h = refl
  take_all (suc size) (x ∷ xs) h = ap (x ∷◌) (take_all size xs (omega arith))

  pub drop_all : (size : ℕ) (xs : List A) → length xs ≤ size → drop size xs ≡ []
  drop_all zero [] h = refl
  drop_all zero (x ∷ xs) h = ground arith
  drop_all (suc size) [] h = refl
  drop_all (suc size) (x ∷ xs) h = drop_all size xs (omega arith)

  pub chunks_in_nil : (fuel size : ℕ) → chunks_in {A = A} fuel size [] ≡ []
  chunks_in_nil zero size = refl
  chunks_in_nil (suc fuel) size = refl

  -- A last chunk.
  pub chunks_in_last :
      (fuel size : ℕ) (chunk : List A)
      → 0 < length chunk
      → length chunk ≤ size
      → chunks_in (suc fuel) size chunk ≡ chunk ∷ []
  chunks_in_last fuel size [] pos small = ground arith
  chunks_in_last fuel size (x ∷ chunk) pos small =
      ap₂ (λ chunk rest. chunk ∷ chunks_in fuel size rest) (take_all size (x ∷ chunk) small)
        (drop_all size (x ∷ chunk) small)
      ∙ ap (λ rest. (x ∷ chunk) ∷ rest) (chunks_in_nil fuel size)
