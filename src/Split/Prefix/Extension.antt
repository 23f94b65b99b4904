-- ===== src/Split/Prefix/Extension.antt =====
-- `extend_to_fitting_prefix` (crates/pstforge-core/src/split.rs): how far the selected candidates grow.
use pstforge.Base.{
  ℕ, suc, ◌+◌, ◌-◌, ◌≤◌, ◌<◌, ◌≡◌, refl, ap, subst, ◌∙◌, ◌⊎◌, inl, inr, Bool, true, false, not,
  List, ◌++◌, append-nil, append_assoc, length, take, drop, take-append-drop, leb, ◌==◌, ◌||◌,
  u64_mod, Result, ok, Bool-cases, Option, none, some, arith, min,
}
use pstforge.Packing.{PackCandidate, PackingError, is_empty}
use pstforge.Split.Size.{AdaptiveSizeModel, predicted_size}
use pstforge.Split.Size.Monotone.{predicted_size_prefix}
use pstforge.Split.Prefix.{fits_maximum, additional_count, maximum_count, extend_to_fitting_prefix}
use pstforge.Split.Prefix.Search.{Answers, IsLastUpTo, gallop_bisect-IsLastUpTo}
use pstforge.Split.Prefix.Fitting.{Fits, Exceeds, fits_maximum-Fits, fits_maximum-Exceeds}
use pstforge.Split.Prefix.Queue.{pop_front-take-drop}

module _ (maximum_pst_bytes : ℕ) (model : AdaptiveSizeModel)
    (selected remaining : List PackCandidate) where
  -- The selected candidates with `n` more.
  abbrev pub with_more : ℕ → List PackCandidate
  with_more n = selected ++ take n remaining

  -- Nothing joins, where nothing may or one more is above the maximum, or the most candidates up to
  -- a bound with which the selection fits.
  abbrev pub Joins : ℕ → ℕ → Type 0
  Joins maximum n =
      ((n ≡ 0) × ((maximum ≡ 0) ⊎ Exceeds maximum_pst_bytes model (with_more 1)))
      ⊎ ((0 < n)
          × (n ≤ maximum)
          × Fits maximum_pst_bytes model (with_more n)
          × ((n ≡ maximum) ⊎ Exceeds maximum_pst_bytes model (with_more (suc n))))

  abbrev fits_with : ℕ → Result PackingError Bool
  fits_with n = fits_maximum maximum_pst_bytes model (with_more n)

  last-Joins : (maximum n : ℕ) → IsLastUpTo fits_with maximum n → Joins maximum n
  last-Joins maximum n last = inr (
    last.0,
    last.1,
    fits_maximum-Fits maximum_pst_bytes model (with_more n) last.2,
    elim last.3 [
      | inl whole ↦ inl whole
      | inr fails ↦ inr (fits_maximum-Exceeds maximum_pst_bytes model (with_more (suc n)) fails)
    ],
  )

  module _ (total : ℕ) (predicted : predicted_size model (selected ++ remaining) ≡ ok total) where
    extension-Answers : (maximum : ℕ) → Answers fits_with maximum
    extension-Answers maximum n h =
        let whole : with_more n ++ drop n remaining ≡ selected ++ remaining =
          append_assoc selected (take n remaining) (drop n remaining)
          ∙ ap (λ l. selected ++ l) (take-append-drop n remaining) in
        let (size, found, _) =
          predicted_size_prefix model (with_more n) (drop n remaining) total
            (ap (predicted_size model) whole ∙ predicted) in
        (leb size maximum_pst_bytes, rw found refl)

    additional_count-Joins :
        (maximum : ℕ)
        → maximum < u64_mod
        → (n : ℕ) × (additional_count maximum_pst_bytes model selected remaining maximum ≡ ok n)
          × (n ≤ maximum)
          × Joins maximum n
    unfolding additional_count
    additional_count-Joins maximum small = elim (Bool-cases (maximum == 0)) [
      | inl no_place ↦ (0, rw no_place refl, omega arith, inl (refl, inl (ground arith)))
      | inr places ↦
          let (b, tried) = extension-Answers 1 1 (omega arith) in
          elim (Bool-cases b) [
            | inl fit ↦
                let (n, found, last) =
                  gallop_bisect-IsLastUpTo fits_with maximum (extension-Answers maximum)
                    (ground arith) small (tried ∙ ap ok fit) in
                (n, rw (places, tried, fit) found, last.1, last-Joins maximum n last)
            | inr misfit ↦ (
              0,
              rw (places, tried, misfit) refl,
              omega arith,
              inl (
                refl,
                inr (
                    fits_maximum-Exceeds maximum_pst_bytes model (with_more 1)
                      (tried ∙ ap ok misfit)),
              ),
            )
          ]
    ]

    -- The candidates that the bound of an earlier, rejected selection leaves to join.
    abbrev room : Option ℕ → ℕ
    room rejected =
        min (maximum_count maximum_pst_bytes model selected remaining rejected - length selected)
          (length remaining)

    extended_by :
        (rejected : Option ℕ) (n : ℕ)
        → (is_empty remaining
            || leb
                (maximum_count maximum_pst_bytes model selected remaining rejected)
                (length selected))
          ≡ false
        → additional_count maximum_pst_bytes model selected remaining (room rejected) ≡ ok n
        → n ≤ length remaining
        → extend_to_fitting_prefix maximum_pst_bytes model selected remaining rejected
          ≡ ok (not (n == 0), (with_more n, drop n remaining))
    unfolding extend_to_fitting_prefix
    extended_by rejected n open_end found inside =
        rw
          (
            open_end,
            found,
            pop_front-take-drop "candidate queue changed during expansion" n remaining inside,
          )
          refl

    unextended :
        (rejected : Option ℕ)
        → (is_empty remaining
            || leb
                (maximum_count maximum_pst_bytes model selected remaining rejected)
                (length selected))
          ≡ true
        → extend_to_fitting_prefix maximum_pst_bytes model selected remaining rejected
          ≡ ok (false, (with_more 0, drop 0 remaining))
    unfolding extend_to_fitting_prefix
    unextended rejected closed = rw (closed, append-nil selected) refl

    closed_room :
        (rejected : Option ℕ)
        → (is_empty remaining
            || leb
                (maximum_count maximum_pst_bytes model selected remaining rejected)
                (length selected))
          ≡ true
        → room rejected ≡ 0
    closed_room rejected closed = ground arith

    extend_to_fitting_prefix-room :
        length selected + length remaining < u64_mod
        → (rejected : Option ℕ)
        → (n : ℕ) × (extend_to_fitting_prefix maximum_pst_bytes model selected remaining rejected
            ≡ ok (not (n == 0), (with_more n, drop n remaining)))
          × (n ≤ length remaining)
          × (with_more n ++ drop n remaining ≡ selected ++ remaining)
          × Joins (room rejected) n
    extend_to_fitting_prefix-room small rejected =
        elim (Bool-cases (
          is_empty remaining
          || leb (maximum_count maximum_pst_bytes model selected remaining rejected)
              (length selected))) [
                | inl closed ↦ (
                  0,
                  unextended rejected closed,
                  omega arith,
                  kept 0,
                  inl (refl, inl (closed_room rejected closed)),
                )
                | inr open_end ↦
                    let (n, found, le, joins) =
                      additional_count-Joins (room rejected) (omega arith) in
                    let inside : n ≤ length remaining = omega (arith, le) in
                    (n, extended_by rejected n open_end found inside, inside, kept n, joins)
              ]
      where
        kept : (n : ℕ) → with_more n ++ drop n remaining ≡ selected ++ remaining
        kept n =
            append_assoc selected (take n remaining) (drop n remaining)
            ∙ ap (λ l. selected ++ l) (take-append-drop n remaining)

    -- How many candidates may join: all, or fewer than the rejected selection had.
    abbrev pub free_places : Option ℕ → ℕ
    free_places none = length remaining
    free_places (some rejected) = min (rejected - 1 - length selected) (length remaining)

    room-free_places :
        length selected + length remaining < u64_mod
        → (rejected : Option ℕ) → room rejected ≡ free_places rejected
    room-free_places small none = ground (arith, small)
    room-free_places small (some rejected) = refl

    -- When the size of the selected and the remaining candidates together, fewer than 2^64, is
    -- predicted, `extend_to_fitting_prefix` succeeds: it moves a number of candidates from the front
    -- of the queue behind the selected ones, and answers whether there are any. They may be
    -- all that remain, or, with an earlier rejected selection, no more than bring the selection to one
    -- less than that. They are none where none may join, or one more is above the maximum; otherwise
    -- the selection fits the maximum with them, and they are as many as may join, or one more is above
    -- the maximum.
    pub extend_to_fitting_prefix-Joins :
        length selected + length remaining < u64_mod
        → (rejected : Option ℕ)
        → (n : ℕ) × (extend_to_fitting_prefix maximum_pst_bytes model selected remaining rejected
            ≡ ok (not (n == 0), (with_more n, drop n remaining)))
          × (n ≤ length remaining)
          × (with_more n ++ drop n remaining ≡ selected ++ remaining)
          × Joins (free_places rejected) n
    extend_to_fitting_prefix-Joins small rejected =
        let (n, found, inside, kept, joins) = extend_to_fitting_prefix-room small rejected in
        (
          n,
          found,
          inside,
          kept,
          subst (λ places. Joins places n) (room-free_places small rejected) joins,
        )
