-- ===== src/Packing/Arrangement.antt =====
-- The order of the input of `pack_candidates`
-- (crates/pstforge-core/src/packing.rs).
use mathlib.Core.List.{Permᴰ}
use pstforge.Base.{
  ℕ, ◌≡◌, List, [], ◌∷◌, All-map, arith, Result, ok, sort_by, Permᴰ-sort_by, sort_by-Permᴰ,
  AllPairs, AllPairs-Permᴰ, All-Permᴰ,
}
use pstforge.Packing.{
  PackCandidate, PartAssignment, PackingError, pack_candidates, before, check_paths, check_keys,
}
use pstforge.Packing.Keys.{
  HaveDistinctKeys, HaveDistinctKeys-sym, HasNames, check_keys-distinct, check_paths-HasNames,
  check_paths_passes, before_total, before_trans, IsApart-of_keys,
}

module _ (estimate : List PackCandidate → Result PackingError ℕ) where
  pub pack_candidates-checks :
      (candidates : List PackCandidate) (maximum reserve : ℕ) (parts : List PartAssignment)
      → pack_candidates estimate candidates maximum reserve ≡ ok parts
      → (check_paths candidates ≡ ok tt) × (check_keys [] (sort_by before candidates) ≡ ok tt)
  unfolding pack_candidates
  pack_candidates-checks candidates maximum reserve parts e = ground arith

  rest_of_checks :
      (xs ys : List PackCandidate) (maximum reserve : ℕ) (parts : List PartAssignment)
      → sort_by before xs ≡ sort_by before ys
      → check_paths ys ≡ ok tt
      → pack_candidates estimate xs maximum reserve ≡ ok parts
      → pack_candidates estimate ys maximum reserve ≡ ok parts
  unfolding pack_candidates
  rest_of_checks xs ys maximum reserve parts s c e = ground arith

  pub accepted-distinct :
      (candidates : List PackCandidate)
      → check_keys [] (sort_by before candidates) ≡ ok tt
      → AllPairs HaveDistinctKeys candidates
  accepted-distinct candidates h =
      AllPairs-Permᴰ HaveDistinctKeys HaveDistinctKeys-sym (Permᴰ-sort_by before candidates)
        (check_keys-distinct [] _ h).0

  AllPairs-map :
      (R S : PackCandidate → PackCandidate → Type 0)
      → ((a b : PackCandidate) → R a b → S a b)
      → (xs : List PackCandidate) → AllPairs R xs
      → AllPairs S xs
  AllPairs-map R S f [] h = tt
  AllPairs-map R S f (x ∷ xs) h = (All-map (R x) (S x) (f x) xs h.0, AllPairs-map R S f xs h.1)

  -- When an input is packed, each rearrangement of it is packed into the same parts.
  pub pack_candidates_arrangement :
      (xs ys : List PackCandidate) (maximum reserve : ℕ) (parts : List PartAssignment)
      → Permᴰ xs ys
      → pack_candidates estimate xs maximum reserve ≡ ok parts
      → pack_candidates estimate ys maximum reserve ≡ ok parts
  pack_candidates_arrangement xs ys maximum reserve parts p e =
      let checks = pack_candidates-checks xs maximum reserve parts e in
      let apart =
        AllPairs-map HaveDistinctKeys _ IsApart-of_keys xs (accepted-distinct xs checks.1) in
      let named = check_paths_passes ys (All-Permᴰ HasNames p (check_paths-HasNames xs checks.0)) in
      rest_of_checks xs ys maximum reserve parts
        (sort_by-Permᴰ before before_total before_trans p apart) named e
