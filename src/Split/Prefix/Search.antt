-- ===== src/Split/Prefix/Search.antt =====
-- The searches of crates/pstforge-core/src/split.rs for the last length that fits.
use pstforge.Base.{
  ℕ, zero, suc, ◌+◌, ◌-◌, ◌/◌, ◌≤◌, ◌<◌, ◌≡◌, refl, ap, ◌∙◌, ◌⊎◌, inl, inr, Bool, true, false, min,
  ltb, u64_mod, saturating_mul, Result, ok, if◌then◌else◌, Bool-cases, ltb→lt, arith,
}
use pstforge.Packing.{PackingError}
use pstforge.Split.Prefix.{bisect, gallop, gallop_bisect}

module _ (fits : ℕ → Result PackingError Bool) where
  -- Each length up to the bound is tried without an error.
  abbrev pub Answers : ℕ → Type 0
  Answers bound = (n : ℕ) → n ≤ bound → (b : Bool) × (fits n ≡ ok b)

  -- The last length that fits between two bounds: it fits, and the next one is the upper bound, or
  -- does not fit.
  abbrev pub IsLast : ℕ → ℕ → ℕ → Type 0
  IsLast low high r =
      (low ≤ r) × (r < high) × (fits r ≡ ok true) × ((suc r ≡ high) ⊎ (fits (suc r) ≡ ok false))

  next_fails :
      (middle high r : ℕ)
      → (suc r ≡ middle) ⊎ (fits (suc r) ≡ ok false)
      → fits middle ≡ ok false
      → (suc r ≡ high) ⊎ (fits (suc r) ≡ ok false)
  next_fails middle high r (inl reached) e = inr (ap fits reached ∙ e)
  next_fails middle high r (inr fails) e = inr fails

  pub bisect-IsLast :
      (fuel low high bound : ℕ)
      → Answers bound
      → high ≤ suc bound
      → low < high
      → high - low ≤ fuel
      → fits low ≡ ok true
      → (r : ℕ) × (bisect fits fuel low high ≡ ok r) × IsLast low high r
  unfolding bisect
  bisect-IsLast zero low high bound answers top h enough start = absurd (omega arith)
  bisect-IsLast (suc fuel) low high bound answers top h enough start =
      let middle = low + (high - low) / 2 in
      elim (Bool-cases (ltb (low + 1) high)) [
        | inr narrowed ↦ (low, ground arith, (omega arith, h, start, inl (ground arith)))
        | inl wide ↦
            let (b, tried) = answers middle (ground arith) in
            elim (Bool-cases b) [
              | inl fit ↦
                  let (r, found, last) =
                    bisect-IsLast fuel middle high bound answers top (ground arith) (ground arith)
                      (tried ∙ ap ok fit) in
                  (r, rw (wide, tried, fit) found, (ground arith, last.1, last.2, last.3))
              | inr misfit ↦
                  let (r, found, last) =
                    bisect-IsLast fuel low middle bound answers (ground arith) (ground arith)
                      (ground arith) start in
                  (
                    r,
                    rw (wide, tried, misfit) found,
                    (
                      last.0,
                      ground arith,
                      last.2,
                      next_fails middle high r last.3 (tried ∙ ap ok misfit),
                    ),
                  )
            ]
      ]

  -- What the doubling leaves: a length that fits, and one to try.
  abbrev pub Galloped : ℕ → ℕ → ℕ × ℕ → Type 0
  Galloped low maximum (low', high') =
      (low ≤ low')
      × (low' ≤ high')
      × (high' ≤ maximum)
      × (fits low' ≡ ok true)
      × ((high' ≡ maximum) ⊎ (fits high' ≡ ok false))

  pub gallop-Returns :
      (fuel low high maximum bound : ℕ)
      → Answers bound
      → maximum ≤ bound
      → maximum < u64_mod
      → 0 < low
      → low ≤ high
      → high ≤ maximum
      → maximum - high < fuel
      → fits low ≡ ok true
      → (x : ℕ × ℕ) × (gallop fits fuel low high maximum ≡ ok x) × Galloped low maximum x
  unfolding gallop
  gallop-Returns zero low high maximum bound answers top small pos h le enough start =
      absurd (omega arith)
  gallop-Returns (suc fuel) low high maximum bound answers top small pos h le enough start =
      let next = min (saturating_mul high 2) maximum in
      elim (Bool-cases (ltb high maximum)) [
        | inr stopped ↦ ((low, high), ground arith, (omega arith, h, le, start, inl (ground arith)))
        | inl further ↦
            let (b, tried) = answers high (omega arith) in
            elim (Bool-cases b) [
              | inl fit ↦
                  let (x, found, last) =
                    gallop-Returns fuel high next maximum bound answers top small (omega arith)
                      (ground arith) (ground arith) (ground arith) (tried ∙ ap ok fit) in
                  (
                    x,
                    rw (further, tried, fit) found,
                    (ground arith, last.1, last.2, last.3, last.4),
                  )
              | inr misfit ↦ (
                (low, high),
                rw (further, tried, misfit) refl,
                (omega arith, h, le, start, inr (tried ∙ ap ok misfit)),
              )
            ]
      ]

  -- The last length up to the maximum that fits.
  abbrev pub IsLastUpTo : ℕ → ℕ → Type 0
  IsLastUpTo maximum n =
      (0 < n) × (n ≤ maximum) × (fits n ≡ ok true) × ((n ≡ maximum) ⊎ (fits (suc n) ≡ ok false))

  misfit-lt : (low high : ℕ) → low ≤ high → fits low ≡ ok true → fits high ≡ ok false → low < high
  misfit-lt low high h e f = elim (Bool-cases (ltb low high)) [
    | inl lt ↦ ltb→lt low high lt
    | inr ge ↦ let same : low ≡ high = ground arith in ground (arith, ap fits same)
  ]

  gallop_bisect-eq :
      (maximum low high : ℕ) (last : Bool) (n : ℕ)
      → gallop fits (maximum + 1) 1 (min 2 maximum) maximum ≡ ok (low, high)
      → fits high ≡ ok last
      → (if last then ok high else bisect fits (high - low + 1) low high) ≡ ok n
      → gallop_bisect fits maximum ≡ ok n
  unfolding gallop_bisect
  gallop_bisect-eq maximum low high last n e f g = rw (e, f) g

  pub gallop_bisect-IsLastUpTo :
      (maximum : ℕ)
      → Answers maximum
      → 0 < maximum
      → maximum < u64_mod
      → fits 1 ≡ ok true
      → (n : ℕ) × (gallop_bisect fits maximum ≡ ok n) × IsLastUpTo maximum n
  gallop_bisect-IsLastUpTo maximum answers positive small start =
      let ((low, high), galloped, bounds) =
        gallop-Returns (maximum + 1) 1 (min 2 maximum) maximum maximum answers (omega arith) small
          (omega arith) (omega arith) (omega arith) (omega arith) start in
      let (last, tried) = answers high bounds.2 in finish low high galloped bounds last tried
    where
      finish :
          (low high : ℕ)
          → gallop fits (maximum + 1) 1 (min 2 maximum) maximum ≡ ok (low, high)
          → Galloped 1 maximum (low, high)
          → (last : Bool) → fits high ≡ ok last
          → (n : ℕ) × (gallop_bisect fits maximum ≡ ok n) × IsLastUpTo maximum n
      finish low high galloped bounds true tried =
          let reached : (high ≡ maximum) = elim bounds.4 [ inl e ↦ e | inr f ↦ ground arith ] in
          (
            high,
            gallop_bisect-eq maximum low high true high galloped tried refl,
            (omega (arith, bounds.0, bounds.1), bounds.2, tried, inl reached),
          )
      finish low high galloped bounds false tried =
          let wide = misfit-lt low high bounds.1 bounds.3 tried in
          let (n, found, last) =
            bisect-IsLast (high - low + 1) low high maximum answers (omega (arith, bounds.2)) wide
              (omega arith) bounds.3 in
          (
            n,
            gallop_bisect-eq maximum low high false n galloped tried found,
            (
              omega (arith, bounds.0, last.0),
              omega (arith, last.1, bounds.2),
              last.2,
              inr (elim last.3 [ inl e ↦ ap fits e ∙ tried | inr f ↦ f ]),
            ),
          )
