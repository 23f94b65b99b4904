-- ===== src/Packing/Tests.antt =====
-- Runs of the packing of crates/pstforge-core/src/packing.rs on three candidates.
use mathlib.Core.List.{Permᴰ}
use pstforge.Base.{
  ℕ, ◌+◌, ◌≤◌, ◌≡◌, ◌≢◌, ◌↔◌, refl, List, [], ◌∷◌, some, none, Result, ok, err, All, AllPairs,
  arith, true, false, sort_by,
}
use pstforge.Packing.{
  PackCandidate, PartAssignment, PackingError, RecoveryProvenance, CanonicalFolderLocation,
  pack_candidates, before, cmp_candidate, check_paths, check_keys, contains_key,
  has_empty_component, push_part, push_oversize, close_part, pack_step, pack_loop, finish_parts,
}
use pstforge.Packing.Parts.{IsPacking, all_candidates}
use pstforge.Packing.Keys.{HasNames, HaveDistinctKeys}
use pstforge.Packing.Division.{pack_candidates-IsPacking}
use pstforge.Packing.Arrangement.{pack_candidates_arrangement}
use pstforge.Packing.Acceptance.{pack_candidates_accepts}

-- A header of 10 bytes and the payloads.
abbrev payloads : List PackCandidate → ℕ
payloads [] = 10
payloads (c ∷ cs) = c.payload_bytes + payloads cs

abbrev estimate : List PackCandidate → Result PackingError ℕ
estimate cs = ok (payloads cs)

abbrev mail : ℕ → ℕ → PackCandidate
mail node bytes = record {
  key = record {
    provenance = RecoveryProvenance.normal;
    source_node_id = some node;
    recovery_index = none;
    occurrence = 0;
  };
  folder_location = CanonicalFolderLocation.ipm_subtree;
  folder_path = (105 ∷ []) ∷ [];
  payload_bytes = bytes;
}

abbrev input : List PackCandidate
input = mail 3 20 ∷ mail 1 30 ∷ mail 2 200 ∷ []

abbrev part : ℕ → List PackCandidate → ℕ → PartAssignment
part n cs bytes = record { index = n; candidates = cs; estimated_bytes = bytes; oversize = false }

abbrev limit : ℕ
limit = 120

abbrev packed : List PartAssignment
packed =
    part 1 (mail 1 30 ∷ []) 40
    ∷ (record { index = 2; candidates = mail 2 200 ∷ []; estimated_bytes = 210; oversize = true })
    ∷ part 3 (mail 3 20 ∷ []) 30
    ∷ []

pack_input : pack_candidates estimate input 120 20 ≡ ok packed
unfolding pack_candidates sort_by cmp_candidate check_paths has_empty_component check_keys
    contains_key push_part push_oversize close_part pack_step pack_loop finish_parts
pack_input = refl

pack_together :
    pack_candidates estimate (mail 3 20 ∷ mail 1 30 ∷ []) 120 20
    ≡ ok (part 1 (mail 1 30 ∷ mail 3 20 ∷ []) 60 ∷ [])
unfolding pack_candidates sort_by cmp_candidate check_paths has_empty_component check_keys
    contains_key push_part push_oversize close_part pack_step pack_loop finish_parts
pack_together = refl

pack_reserve :
    pack_candidates estimate input 20 30 ≡ err (PackingError.reserve_exceeds_maximum 30 20)
unfolding pack_candidates
pack_reserve = refl

pack_candidates-IsPacking_example :
    IsPacking estimate 100 (sort_by before input) packed × Permᴰ (all_candidates packed) input
pack_candidates-IsPacking_example =
    pack_candidates-IsPacking estimate input 120 20 packed pack_input

pack_candidates_arrangement_example :
    pack_candidates estimate (mail 1 30 ∷ mail 3 20 ∷ mail 2 200 ∷ []) 120 20 ≡ ok packed
pack_candidates_arrangement_example =
    pack_candidates_arrangement estimate input (mail 1 30 ∷ mail 3 20 ∷ mail 2 200 ∷ []) 120 20
      packed (Permᴰ.swap refl refl) pack_input

pack_candidates_accepts_example :
    ((limit ≢ 0) × ((20 ≤ limit) × (All HasNames input × AllPairs HaveDistinctKeys input)))
    ↔ ((parts : List PartAssignment) × (pack_candidates estimate input limit 20 ≡ ok parts))
pack_candidates_accepts_example =
    pack_candidates_accepts estimate (λ cs. (payloads cs, refl)) input limit 20 (omega arith)
