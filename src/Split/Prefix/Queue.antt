-- ===== src/Split/Prefix/Queue.antt =====
-- What the choices of crates/pstforge-core/src/split.rs take from the queue of candidates and put back.
use pstforge.Base.{
  ℕ, zero, suc, ◌+◌, ◌-◌, ◌≤◌, ◌<◌, ◌≡◌, ◌≢◌, refl, sym, ap, subst, ◌∙◌, ◌⊎◌, inl, inr, List, [],
  ◌∷◌, ◌++◌, append_assoc, length, take, drop, take-append-drop, length-take, leb, u64_mod, String,
  ok, if◌then◌else◌, arith, max,
}
use pstforge.Packing.{PackCandidate}
use pstforge.Split.Size.{AdaptiveSizeModel, predicted_size}
use pstforge.Split.Prefix.{
  pop_front, split_off, fitting_prefix_len, take_fitting_prefix, shrink_to_fitting_prefix,
}
use pstforge.Split.Prefix.Fitting.{Exceeds, IsLongest, fitting_prefix_len-IsLongest}

pub pop_front-take-drop :
    (message : String) (n : ℕ) (queue : List PackCandidate)
    → n ≤ length queue
    → pop_front message n queue ≡ ok (take n queue, drop n queue)
unfolding pop_front
pop_front-take-drop message zero queue h = refl
pop_front-take-drop message (suc n) [] h = absurd (omega arith)
pop_front-take-drop message (suc n) (c ∷ cs) h =
    rw (pop_front-take-drop message n cs (omega arith)) refl

module _ (maximum_pst_bytes : ℕ) (model : AdaptiveSizeModel) where
  by_length :
      (queue : List PackCandidate) (n m : ℕ)
      → m ≡ n
      → ((n ≡ 1) × Exceeds maximum_pst_bytes model (take 1 queue))
        ⊎ IsLongest maximum_pst_bytes model queue n
      → ((m ≡ 1) × Exceeds maximum_pst_bytes model (take n queue))
        ⊎ IsLongest maximum_pst_bytes model queue m
  by_length queue n m h (inl (one, above)) =
      inl (h ∙ one, subst (λ k. Exceeds maximum_pst_bytes model (take k queue)) (sym one) above)
  by_length queue n m h (inr longest) =
      inr (subst (IsLongest maximum_pst_bytes model queue) (sym h) longest)

  -- When the size of the queue, which is not empty and has fewer than 2^64 - 1 candidates, is
  -- predicted, `take_fitting_prefix` succeeds: the selected candidates and the remaining ones are the
  -- queue, in its order; some are selected; and they are the longest prefix that fits the maximum,
  -- or one candidate that is above it.
  pub take_fitting_prefix-IsLongest :
      (queue : List PackCandidate) (total : ℕ)
      → predicted_size model queue ≡ ok total
      → queue ≢ []
      → length queue + 1 < u64_mod
      → (selected : List PackCandidate) × (remaining : List PackCandidate) × (take_fitting_prefix
            maximum_pst_bytes model queue
          ≡ ok (selected, remaining))
        × (selected ++ remaining ≡ queue)
        × (0 < length selected)
        × (((length selected ≡ 1) × Exceeds maximum_pst_bytes model selected)
            ⊎ IsLongest maximum_pst_bytes model queue (length selected))
  unfolding take_fitting_prefix
  take_fitting_prefix-IsLongest queue total predicted filled small =
      let (n, found, positive, inside, best) =
        fitting_prefix_len-IsLongest maximum_pst_bytes model queue total predicted filled small in
      let size : length (take n queue) ≡ n = omega (arith, length-take n queue) in
      (
        take n queue,
        drop n queue,
        rw (found, pop_front-take-drop "candidate queue changed during packing" n queue inside)
            refl,
        take-append-drop n queue,
        omega arith,
        by_length queue n (length (take n queue)) size best,
      )

  split_off-take-drop :
      (n : ℕ) (cs : List PackCandidate) → n ≤ length cs → split_off n cs ≡ ok (take n cs, drop n cs)
  unfolding split_off
  split_off-take-drop n cs h = ground arith

  shrunk :
      (selected remaining : List PackCandidate) (fitting count : ℕ)
      → fitting_prefix_len maximum_pst_bytes model selected ≡ ok fitting
      → (if leb (length selected) fitting then max (length selected - 1) 1 else fitting) ≡ count
      → count ≤ length selected
      → shrink_to_fitting_prefix maximum_pst_bytes model selected remaining
        ≡ ok (take count selected, drop count selected ++ remaining)
  unfolding shrink_to_fitting_prefix
  shrunk selected remaining fitting count found chosen inside =
      rw (found, chosen, split_off-take-drop count selected inside) refl

  -- When two candidates or more, fewer than 2^64 - 1, are selected and their size is predicted,
  -- `shrink_to_fitting_prefix` succeeds: it moves the last ones back to the front of the queue in
  -- their order, at least one of them, and keeps at least one.
  pub shrink_to_fitting_prefix-lt :
      (selected remaining : List PackCandidate) (total : ℕ)
      → predicted_size model selected ≡ ok total
      → 1 < length selected
      → length selected + 1 < u64_mod
      → (kept : List PackCandidate) × (queue : List PackCandidate) × (shrink_to_fitting_prefix
            maximum_pst_bytes model selected remaining
          ≡ ok (kept, queue))
        × (kept ++ queue ≡ selected ++ remaining)
        × (0 < length kept)
        × (length kept < length selected)
  shrink_to_fitting_prefix-lt selected remaining total predicted several small =
      let (n, found, positive, inside, _) =
        fitting_prefix_len-IsLongest maximum_pst_bytes model selected total predicted (ground arith)
          small in
      shorter n found positive
    where
      shorter :
          (n : ℕ)
          → fitting_prefix_len maximum_pst_bytes model selected ≡ ok n
          → 0 < n
          → (kept : List PackCandidate) × (queue : List PackCandidate) × (shrink_to_fitting_prefix
                maximum_pst_bytes model selected remaining
              ≡ ok (kept, queue))
            × (kept ++ queue ≡ selected ++ remaining)
            × (0 < length kept)
            × (length kept < length selected)
      shorter n found positive =
          let count = if leb (length selected) n then max (length selected - 1) 1 else n in
          let bounds : (0 < count) × (count < length selected) = ground arith in
          let size = length-take count selected in
          (
            take count selected,
            drop count selected ++ remaining,
            shrunk selected remaining n count found refl (omega arith),
            sym (append_assoc (take count selected) (drop count selected) remaining)
                ∙ ap (λ l. l ++ remaining) (take-append-drop count selected),
            omega arith,
            omega arith,
          )
