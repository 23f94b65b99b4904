-- ===== src/Split/Prefix/Fitting.antt =====
-- `fitting_prefix_len` (crates/pstforge-core/src/split.rs) finds the longest prefix that fits.
use pstforge.Base.{
  ℕ, zero, suc, ◌+◌, ◌≤◌, ◌<◌, ◌≡◌, ◌≢◌, refl, sym, ap, ◌∙◌, ◌⊎◌, inl, inr, Bool, true, false, List,
  [], ◌∷◌, length, take, drop, take-append-drop, saturating_add, leb, ltb, u64_mod, Result, ok, err,
  aborted, ◌>>=◌, Bool-cases, arith,
}
use pstforge.Packing.{PackCandidate, PackingError, is_empty}
use pstforge.Split.Size.{AdaptiveSizeModel, predicted_size}
use pstforge.Split.Size.Monotone.{predicted_size_prefix}
use pstforge.Split.Prefix.{bisect, split_off, fits_maximum, fits_prefix, fitting_prefix_len}
use pstforge.Split.Prefix.Search.{Answers, IsLast, bisect-IsLast}

take-take {ℓ} : {A : Type ℓ} (n m : ℕ) (xs : List A) → n ≤ m → take n (take m xs) ≡ take n xs
take-take zero m xs h = refl
take-take (suc n) zero xs h = absurd (omega arith)
take-take (suc n) (suc m) [] h = refl
take-take (suc n) (suc m) (x ∷ xs) h = ap (λ l. x ∷ l) (take-take n m xs (omega arith))

module _ (maximum_pst_bytes : ℕ) (model : AdaptiveSizeModel) where
  -- The predicted size is within the maximum, or above it.
  abbrev pub Fits : List PackCandidate → Type 0
  Fits candidates =
      (size : ℕ) × (predicted_size model candidates ≡ ok size) × (size ≤ maximum_pst_bytes)

  abbrev pub Exceeds : List PackCandidate → Type 0
  Exceeds candidates =
      (size : ℕ) × (predicted_size model candidates ≡ ok size) × (maximum_pst_bytes < size)

  -- The longest prefix that fits.
  abbrev pub IsLongest : List PackCandidate → ℕ → Type 0
  IsLongest candidates n =
      Fits (take n candidates)
      × ((m : ℕ) → n < m → m ≤ length candidates → Exceeds (take m candidates))

  pub fits_maximum-Fits :
      (cs : List PackCandidate) → fits_maximum maximum_pst_bytes model cs ≡ ok true → Fits cs
  fits_maximum-Fits cs e = by_size (predicted_size model cs) refl e
    where
      by_size :
          (r : Result PackingError ℕ)
          → predicted_size model cs ≡ r
          → (r >>= λ predicted. ok (leb predicted maximum_pst_bytes)) ≡ ok true
          → Fits cs
      by_size (ok size) h k = (size, h, ground arith)
      by_size (err reason) h k = cc
      by_size aborted h k = cc

  pub fits_maximum-Exceeds :
      (cs : List PackCandidate) → fits_maximum maximum_pst_bytes model cs ≡ ok false → Exceeds cs
  fits_maximum-Exceeds cs e = by_size (predicted_size model cs) refl e
    where
      by_size :
          (r : Result PackingError ℕ)
          → predicted_size model cs ≡ r
          → (r >>= λ predicted. ok (leb predicted maximum_pst_bytes)) ≡ ok false
          → Exceeds cs
      by_size (ok size) h k = (size, h, ground arith)
      by_size (err reason) h k = cc
      by_size aborted h k = cc

  module _ (candidates : List PackCandidate) (total : ℕ)
      (predicted : predicted_size model candidates ≡ ok total) where
    predicted_take :
        (n : ℕ) → (size : ℕ) × (predicted_size model (take n candidates) ≡ ok size) × (size ≤ total)
    predicted_take n =
        predicted_size_prefix model (take n candidates) (drop n candidates) total
          (rw (take-append-drop n candidates) predicted)

    -- A longer prefix is above the maximum where a shorter one is.
    Exceeds-longer : (n m : ℕ) → n ≤ m → Exceeds (take n candidates) → Exceeds (take m candidates)
    Exceeds-longer n m h (size, e, above) =
        let (longer, found, _) = predicted_take m in
        let (shorter, found', le) =
          predicted_size_prefix model (take n (take m candidates)) (drop n (take m candidates))
            longer (rw (take-append-drop n (take m candidates)) found) in
        let same : ok size ≡ ok shorter =
          sym e ∙ (ap (predicted_size model) (sym (take-take n m candidates h)) ∙ found') in
        (longer, found, ground arith)

    prefix-Answers : Answers (fits_prefix maximum_pst_bytes model candidates) (length candidates)
    unfolding split_off
    prefix-Answers n h =
        let (size, found, _) = predicted_take n in
        let inside : ltb (length candidates) n ≡ false = ground arith in
        (leb size maximum_pst_bytes, rw (inside, found) refl)

    fits_prefix_at :
        (n : ℕ) (b : Bool)
        → n ≤ length candidates
        → fits_prefix maximum_pst_bytes model candidates n ≡ ok b
        → fits_maximum maximum_pst_bytes model (take n candidates) ≡ ok b
    unfolding split_off
    fits_prefix_at n b h e =
        let inside : ltb (length candidates) n ≡ false = ground arith in rw inside at e

    IsLast-IsLongest :
        (n : ℕ)
        → n ≤ length candidates
        → IsLast (fits_prefix maximum_pst_bytes model candidates) 1 (length candidates + 1) n
        → IsLongest candidates n
    IsLast-IsLongest n h last = (
      fits_maximum-Fits (take n candidates) (fits_prefix_at n true h last.2),
      λ m longer inside. elim last.3 [
        | inl whole ↦ absurd (omega arith)
        | inr fails ↦ Exceeds-longer (suc n) m (omega arith) (
            fits_maximum-Exceeds (take (suc n) candidates)
              (fits_prefix_at (suc n) false (omega arith) fails))
      ],
    )

    searched :
        candidates ≢ []
        → length candidates + 1 < u64_mod
        → (n : ℕ) → fits_prefix maximum_pst_bytes model candidates 1 ≡ ok true
        → bisect
            (fits_prefix maximum_pst_bytes model candidates)
            (length candidates + 1)
            1
            (length candidates + 1)
          ≡ ok n
        → fitting_prefix_len maximum_pst_bytes model candidates ≡ ok n
    unfolding fitting_prefix_len
    searched filled small n first found =
        let bound : saturating_add (length candidates) 1 ≡ length candidates + 1 = omega arith in
        let nonempty : is_empty candidates ≡ false = ground arith in
        rw (nonempty, first, bound) found

    -- When the size of the candidates, which are some and fewer than 2^64 - 1, is predicted, the
    -- search ends with the length of their longest prefix that fits the maximum, or with 1 where
    -- the first candidate alone is above it.
    pub fitting_prefix_len-IsLongest :
        candidates ≢ []
        → length candidates + 1 < u64_mod
        → (n : ℕ) × (fitting_prefix_len maximum_pst_bytes model candidates ≡ ok n)
          × (0 < n)
          × (n ≤ length candidates)
          × (((n ≡ 1) × Exceeds (take 1 candidates)) ⊎ IsLongest candidates n)
    unfolding fitting_prefix_len
    fitting_prefix_len-IsLongest filled small =
        let count = length candidates in
        let some_candidate : 0 < count = ground arith in
        let nonempty : is_empty candidates ≡ false = ground arith in
        let (b, tried) = prefix-Answers 1 (omega arith) in
        elim (Bool-cases b) [
          | inl fit ↦
              let (n, found, last) =
                bisect-IsLast (fits_prefix maximum_pst_bytes model candidates) (count + 1) 1
                  (count + 1) count prefix-Answers (omega arith) (omega arith) (omega arith)
                  (tried ∙ ap ok fit) in
              (
                n,
                searched filled small n (tried ∙ ap ok fit) found,
                omega (arith, last.0),
                ground (arith, last.1),
                inr (IsLast-IsLongest n (ground (arith, last.1)) last),
              )
          | inr misfit ↦ (
            1,
            rw (nonempty, tried, misfit) refl,
            omega arith,
            omega arith,
            inl (
              refl,
              fits_maximum-Exceeds (take 1 candidates)
                  (fits_prefix_at 1 false (omega arith) (tried ∙ ap ok misfit)),
            ),
          )
        ]
