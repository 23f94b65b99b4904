-- ===== src/Split/Prefix/Order.antt =====
-- `canonical_candidate_order` (crates/pstforge-core/src/split.rs) and the packing of
-- crates/pstforge-core/src/packing.rs arrange the candidates alike.
use mathlib.Core.List.{Permᴰ}
use pstforge.Base.{
  ℕ, ◌≡◌, refl, subst, List, [], Result, ok, sort_by, Permᴰ-sort_by, AllPairs, IsBefore,
  sort_by-AllPairs, arith,
}
use pstforge.Packing.{
  PackCandidate, PackingError, PartAssignment, before, check_paths, check_keys, pack_candidates,
}
use pstforge.Packing.Keys.{HaveDistinctKeys, before_total, before_trans, check_keys-distinct}
use pstforge.Packing.Parts.{all_candidates}
use pstforge.Packing.Division.{pack_candidates-IsPacking}
use pstforge.Packing.Arrangement.{pack_candidates-checks}
use pstforge.Split.Prefix.{canonical_candidate_order}

ordered_is_sorted :
    (candidates ordered : List PackCandidate)
    → canonical_candidate_order candidates ≡ ok ordered
    → (sort_by before candidates ≡ ordered) × (check_keys [] ordered ≡ ok tt)
unfolding canonical_candidate_order
ordered_is_sorted candidates ordered e = ground arith

sorted_is_ordered :
    (candidates : List PackCandidate)
    → check_paths candidates ≡ ok tt
    → check_keys [] (sort_by before candidates) ≡ ok tt
    → canonical_candidate_order candidates ≡ ok (sort_by before candidates)
unfolding canonical_candidate_order
sorted_is_ordered candidates p k = rw (p, k) refl

-- Candidates that are arranged by `canonical_candidate_order` are those of the input, each as often
-- as there; of two of them the earlier one is not after the later one by location, path and key; and
-- no two have one key.
pub canonical_candidate_order-sorted :
    (candidates ordered : List PackCandidate)
    → canonical_candidate_order candidates ≡ ok ordered
    → Permᴰ ordered candidates
      × AllPairs (IsBefore before before_total before_trans) ordered
      × AllPairs HaveDistinctKeys ordered
canonical_candidate_order-sorted candidates ordered e =
    let (same, distinct) = ordered_is_sorted candidates ordered e in
    (
      subst (λ l. Permᴰ l candidates) same (Permᴰ-sort_by before candidates),
      subst (AllPairs (IsBefore before before_total before_trans)) same
          (sort_by-AllPairs before before_total before_trans candidates),
      (check_keys-distinct [] ordered distinct).0,
    )

-- Whenever `pack_candidates` has a result, `canonical_candidate_order` has one too, and the
-- candidates of the parts, one part behind the other, are in that order.
pub pack_candidates-canonical_candidate_order :
    (estimate : List PackCandidate → Result PackingError ℕ) (candidates : List PackCandidate)
    (maximum reserve : ℕ) (parts : List PartAssignment)
    → pack_candidates estimate candidates maximum reserve ≡ ok parts
    → canonical_candidate_order candidates ≡ ok (all_candidates parts)
pack_candidates-canonical_candidate_order estimate candidates maximum reserve parts e =
    let (paths, keys) = pack_candidates-checks estimate candidates maximum reserve parts e in
    let (packing, _) = pack_candidates-IsPacking estimate candidates maximum reserve parts e in
    rw packing.kept (sorted_is_ordered candidates paths keys)
