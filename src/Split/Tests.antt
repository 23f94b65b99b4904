-- ===== src/Split/Tests.antt =====
-- Runs of the choices of crates/pstforge-core/src/split.rs on three messages in one folder.
use mathlib.Core.List.{Permᴰ}
use pstforge.Base.{
  ℕ, ◌≤◌, ◌<◌, ◌≡◌, refl, ◌⊎◌, List, [], ◌∷◌, ◌++◌, some, none, ok, arith, not, ◌==◌, length, take,
  drop, AllPairs, IsBefore, sort_by, true, false,
}
use pstforge.Packing.{
  PackCandidate, PartAssignment, RecoveryProvenance, CanonicalFolderLocation, before, cmp_candidate,
  check_paths, check_keys, contains_key, has_empty_component, pack_candidates, push_part,
  push_oversize, close_part, pack_step, pack_loop, finish_parts,
}
use pstforge.Packing.Keys.{HaveDistinctKeys, before_total, before_trans}
use pstforge.Packing.Parts.{all_candidates}
use pstforge.Split.Size.{
  AdaptiveSizeModel, predicted_size, predict, scale, estimate_candidate_iter, add_folders,
  estimate_loop, insert_ancestors, insert_path, contains_path,
}
use pstforge.Split.Size.Monotone.{predicted_size_prefix}
use pstforge.Split.Prefix.{
  canonical_candidate_order, fitting_prefix_len, bisect, gallop, gallop_bisect, split_off,
  pop_front, take_fitting_prefix, shrink_to_fitting_prefix, extend_to_fitting_prefix,
  additional_count,
}
use pstforge.Split.Prefix.Order.{
  canonical_candidate_order-sorted, pack_candidates-canonical_candidate_order,
}
use pstforge.Split.Prefix.Fitting.{Exceeds, IsLongest, fitting_prefix_len-IsLongest}
use pstforge.Split.Prefix.Queue.{take_fitting_prefix-IsLongest, shrink_to_fitting_prefix-lt}
use pstforge.Split.Prefix.Extension.{with_more, free_places, Joins, extend_to_fitting_prefix-Joins}

abbrev mail : ℕ → PackCandidate
mail node = record {
  key = record {
    provenance = RecoveryProvenance.normal;
    source_node_id = some node;
    recovery_index = none;
    occurrence = 0;
  };
  folder_location = CanonicalFolderLocation.ipm_subtree;
  folder_path = (105 ∷ []) ∷ [];
  payload_bytes = 464;
}

abbrev mails : List PackCandidate
mails = mail 1 ∷ mail 2 ∷ mail 3 ∷ []

-- A store turned out to be half of its estimate.
abbrev halved : AdaptiveSizeModel
halved = record { observed = some (2_000_000, 1_000_000) }

abbrev maximum : ℕ
maximum = 600_000

size_of_mails : predicted_size halved mails ≡ ok 631_480
unfolding predicted_size predict scale estimate_candidate_iter add_folders estimate_loop
    insert_ancestors insert_path contains_path
size_of_mails = refl

take_runs : take_fitting_prefix maximum halved mails ≡ ok (mail 1 ∷ mail 2 ∷ [], mail 3 ∷ [])
unfolding take_fitting_prefix fitting_prefix_len bisect split_off pop_front predicted_size predict
    scale estimate_candidate_iter add_folders estimate_loop insert_ancestors insert_path
    contains_path
take_runs = refl

extend_runs :
    extend_to_fitting_prefix maximum halved (mail 1 ∷ []) (mail 2 ∷ mail 3 ∷ []) none
    ≡ ok (true, (mail 1 ∷ mail 2 ∷ [], mail 3 ∷ []))
unfolding extend_to_fitting_prefix additional_count gallop_bisect gallop bisect pop_front
    predicted_size predict scale estimate_candidate_iter add_folders estimate_loop insert_ancestors
    insert_path contains_path
extend_runs = refl

shrink_runs :
    shrink_to_fitting_prefix maximum halved (mail 1 ∷ mail 2 ∷ []) (mail 3 ∷ [])
    ≡ ok (mail 1 ∷ [], mail 2 ∷ mail 3 ∷ [])
unfolding shrink_to_fitting_prefix fitting_prefix_len bisect split_off predicted_size predict scale
    estimate_candidate_iter add_folders estimate_loop insert_ancestors insert_path contains_path
shrink_runs = refl

predicted_size_prefix_example :
    (value : ℕ) × (predicted_size halved (mail 1 ∷ mail 2 ∷ []) ≡ ok value) × (value ≤ 631_480)
predicted_size_prefix_example =
    predicted_size_prefix halved (mail 1 ∷ mail 2 ∷ []) (mail 3 ∷ []) 631_480 size_of_mails

fitting_prefix_len-IsLongest_example :
    (n : ℕ) × (fitting_prefix_len maximum halved mails ≡ ok n)
    × (0 < n)
    × (n ≤ length mails)
    × (((n ≡ 1) × Exceeds maximum halved (take 1 mails)) ⊎ IsLongest maximum halved mails n)
fitting_prefix_len-IsLongest_example =
    fitting_prefix_len-IsLongest maximum halved mails 631_480 size_of_mails (ground arith)
      (omega arith)

take_fitting_prefix-IsLongest_example :
    (selected : List PackCandidate) × (remaining : List PackCandidate) × (take_fitting_prefix
        maximum halved mails
      ≡ ok (selected, remaining))
    × (selected ++ remaining ≡ mails)
    × (0 < length selected)
    × (((length selected ≡ 1) × Exceeds maximum halved selected)
        ⊎ IsLongest maximum halved mails (length selected))
take_fitting_prefix-IsLongest_example =
    take_fitting_prefix-IsLongest maximum halved mails 631_480 size_of_mails (ground arith)
      (omega arith)

shrink_to_fitting_prefix-lt_example :
    (kept : List PackCandidate) × (queue : List PackCandidate) × (shrink_to_fitting_prefix maximum
        halved mails []
      ≡ ok (kept, queue))
    × (kept ++ queue ≡ mails ++ [])
    × (0 < length kept)
    × (length kept < length mails)
shrink_to_fitting_prefix-lt_example =
    shrink_to_fitting_prefix-lt maximum halved mails [] 631_480 size_of_mails (omega arith)
      (omega arith)

abbrev first : List PackCandidate
first = mail 1 ∷ []

abbrev others : List PackCandidate
others = mail 2 ∷ mail 3 ∷ []

extend_to_fitting_prefix-Joins_example :
    (n : ℕ) × (extend_to_fitting_prefix maximum halved first others (some 3)
      ≡ ok (not (n == 0), (with_more maximum halved first others n, drop n others)))
    × (n ≤ length others)
    × (with_more maximum halved first others n ++ drop n others ≡ first ++ others)
    × Joins maximum halved first others
        (free_places maximum halved first others 631_480 size_of_mails (some 3))
        n
extend_to_fitting_prefix-Joins_example =
    extend_to_fitting_prefix-Joins maximum halved first others 631_480 size_of_mails (omega arith)
      (some 3)

ordered : canonical_candidate_order (mail 2 ∷ mail 1 ∷ []) ≡ ok (mail 1 ∷ mail 2 ∷ [])
unfolding canonical_candidate_order sort_by cmp_candidate check_paths has_empty_component check_keys
    contains_key
ordered = refl

canonical_candidate_order-sorted_example :
    Permᴰ (mail 1 ∷ mail 2 ∷ []) (mail 2 ∷ mail 1 ∷ [])
    × AllPairs (IsBefore before before_total before_trans) (mail 1 ∷ mail 2 ∷ [])
    × AllPairs HaveDistinctKeys (mail 1 ∷ mail 2 ∷ [])
canonical_candidate_order-sorted_example =
    canonical_candidate_order-sorted (mail 2 ∷ mail 1 ∷ []) (mail 1 ∷ mail 2 ∷ []) ordered

abbrev one_part : List PartAssignment
one_part =
    (record {
      index = 1;
      candidates = mail 1 ∷ mail 2 ∷ [];
      estimated_bytes = 1_196_960;
      oversize = false;
    })
    ∷ []

packed : pack_candidates estimate_candidate_iter (mail 2 ∷ mail 1 ∷ []) 2_000_000 0 ≡ ok one_part
unfolding pack_candidates sort_by cmp_candidate check_paths has_empty_component check_keys
    contains_key push_part push_oversize close_part pack_step pack_loop finish_parts
    estimate_candidate_iter add_folders estimate_loop insert_ancestors insert_path contains_path
packed = refl

pack_candidates-canonical_candidate_order_example :
    canonical_candidate_order (mail 2 ∷ mail 1 ∷ []) ≡ ok (all_candidates one_part)
pack_candidates-canonical_candidate_order_example =
    pack_candidates-canonical_candidate_order estimate_candidate_iter (mail 2 ∷ mail 1 ∷ [])
      2_000_000 0 one_part packed
