-- ===== src/Packing/Acceptance.antt =====
-- The inputs that `pack_candidates` (crates/pstforge-core/src/packing.rs) accepts, where the estimator
-- answers.
use mathlib.Core.List.Permᴰ
use pstforge.Base.{
  ℕ, ◌+◌, ◌-◌, ◌≤◌, ◌<◌, ◌≡◌, ◌≢◌, ◌↔◌, refl, List, [], ◌∷◌, ◌++◌, All, arith, Result, ok, sort_by,
  Permᴰ-sort_by, AllPairs, AllPairs-Permᴰ, length, length-append, length-sort_by, u32_mod, inl, inr,
  Bool, true, false, Bool-cases, ltb,
}
use pstforge.Packing.{
  is_empty, PackCandidate, PartAssignment, PackingError, Packer, pack_step, push_part,
  push_oversize, close_part, pack_loop, finish_parts, pack_candidates, before, check_paths,
  check_keys,
}
use pstforge.Packing.Keys.{
  HaveDistinctKeys, HaveDistinctKeys-sym, HasNames, check_keys_passes, check_paths-HasNames,
  check_paths_passes,
}
use pstforge.Packing.Arrangement.{pack_candidates-checks, accepted-distinct}

module _ (estimate : List PackCandidate → Result PackingError ℕ) where
  nothing_seen : (cs : List PackCandidate) → All (λ c. All (λ s. c.key ≢ s) []) cs
  nothing_seen [] = tt
  nothing_seen (c ∷ cs) = (tt, nothing_seen cs)

  -- The parts that there are, and those that the open part may still give.
  abbrev weight : Packer → ℕ
  weight s = length s.parts + length s.current

  push_part-Returns :
      (parts : List PartAssignment) (cs : List PackCandidate) (e : ℕ) (oversize : Bool)
      → length parts + 1 < u32_mod
      → (parts' : List PartAssignment) × (push_part parts cs e oversize ≡ ok parts')
        × (length parts' ≡ length parts + 1)
  unfolding push_part
  push_part-Returns parts cs e oversize h =
      let new : PartAssignment = record {
        index = length parts + 1;
        candidates = cs;
        estimated_bytes = e;
        oversize = oversize;
      } in
      (parts ++ new ∷ [], ground arith, ground (arith, length-append parts (new ∷ [])))

  push_oversize-Returns :
      (parts : List PartAssignment) (cs : List PackCandidate) (e bound : ℕ)
      → length parts + 1 < u32_mod
      → length parts + 1 ≤ bound
      → (s' : Packer) × (push_oversize parts cs e ≡ ok s') × (weight s' ≤ bound)
  unfolding push_oversize
  push_oversize-Returns parts cs e bound h b =
      let (alone, pushed, grown) = push_part-Returns parts cs e true h in
      (record { parts = alone; current = []; current_estimate = 0 }, ground arith, ground arith)

  module _ (answers : (cs : List PackCandidate) → (e : ℕ) × (estimate cs ≡ ok e)) where
    close_part-Returns :
        (limit : ℕ) (s : Packer) (c : PackCandidate)
        → weight s + 1 < u32_mod
        → 0 < length s.current
        → (s' : Packer) × (close_part estimate limit s c ≡ ok s') × (weight s' ≤ weight s + 1)
    unfolding close_part
    close_part-Returns limit s c h filled =
        let (alone, ha) = answers (c ∷ []) in
        let (parts, pushed, grown) =
          push_part-Returns s.parts s.current s.current_estimate false (ground arith) in
        let (s', over, small) =
          push_oversize-Returns parts (c ∷ []) alone (weight s + 1) (ground arith) (ground arith) in
        elim (Bool-cases (ltb limit alone)) [
          | inl above ↦ (s', ground arith, small)
          | inr within ↦ (
            record { parts = parts; current = c ∷ []; current_estimate = alone },
            ground arith,
            ground arith,
          )
        ]

    pack_step-Returns :
        (limit : ℕ) (s : Packer) (c : PackCandidate)
        → weight s + 1 < u32_mod
        → (s' : Packer) × (pack_step estimate limit s c ≡ ok s') × (weight s' ≤ weight s + 1)
    unfolding pack_step
    pack_step-Returns limit s c h =
        let (proposed, hp) = answers (s.current ++ c ∷ []) in
        elim (Bool-cases (ltb limit proposed)) [
          | inl above ↦ elim (Bool-cases (is_empty s.current)) [
            | inl none_open ↦
                let (s', over, small) =
                  push_oversize-Returns s.parts (s.current ++ c ∷ []) proposed (weight s + 1)
                    (ground arith) (ground arith) in
                (s', ground arith, small)
            | inr filled ↦
                let (s', closed, small) = close_part-Returns limit s c h (ground arith) in
                (s', ground arith, small)
          ]
          | inr within ↦ (
            record { parts = s.parts; current = s.current ++ c ∷ []; current_estimate = proposed },
            ground arith,
            ground (arith, length-append s.current (c ∷ [])),
          )
        ]

    pack_loop-Returns :
        (limit : ℕ) (s : Packer) (cs : List PackCandidate)
        → weight s + length cs < u32_mod
        → (s' : Packer) × (pack_loop estimate limit s cs ≡ ok s')
          × (weight s' ≤ weight s + length cs)
    unfolding pack_loop
    pack_loop-Returns limit s [] h = (s, refl, ground arith)
    pack_loop-Returns limit s (c ∷ cs) h =
        let (next, step, small) = pack_step-Returns limit s c (ground arith) in
        let (s', looped, small') = pack_loop-Returns limit next cs (ground arith) in
        (s', ground arith, ground arith)

    finish_parts-Returns :
        (s : Packer)
        → weight s < u32_mod
        → (parts : List PartAssignment) × (finish_parts s ≡ ok parts)
    unfolding finish_parts
    finish_parts-Returns s h = elim (Bool-cases (is_empty s.current)) [
      | inl none_open ↦ (s.parts, ground arith)
      | inr filled ↦
          let (parts, pushed, grown) =
            push_part-Returns s.parts s.current s.current_estimate false (ground arith) in
          (parts, ground arith)
    ]

    passed_checks :
        (candidates : List PackCandidate) (maximum reserve : ℕ) (s : Packer)
        (parts : List PartAssignment)
        → maximum ≢ 0
        → reserve ≤ maximum
        → check_paths candidates ≡ ok tt
        → check_keys [] (sort_by before candidates) ≡ ok tt
        → pack_loop estimate
            (maximum - reserve)
            (record { parts = []; current = []; current_estimate = 0 })
            (sort_by before candidates)
          ≡ ok s
        → finish_parts s ≡ ok parts
        → pack_candidates estimate candidates maximum reserve ≡ ok parts
    unfolding pack_candidates
    passed_checks candidates maximum reserve s parts nonzero fits named distinct looped finished =
        ground arith

    limits_of_accepted :
        (candidates : List PackCandidate) (maximum reserve : ℕ) (parts : List PartAssignment)
        → pack_candidates estimate candidates maximum reserve ≡ ok parts
        → (maximum ≢ 0) × (reserve ≤ maximum)
    unfolding pack_candidates
    limits_of_accepted candidates maximum reserve parts e = ground arith

    accepts :
        (candidates : List PackCandidate) (maximum reserve : ℕ)
        → length candidates < u32_mod
        → (maximum ≢ 0)
          × ((reserve ≤ maximum) × (All HasNames candidates × AllPairs HaveDistinctKeys candidates))
        → (parts : List PartAssignment) × (pack_candidates estimate candidates maximum reserve
            ≡ ok parts)
    accepts candidates maximum reserve few (nonzero, (fits, (named, distinct))) =
        let sorted = sort_by before candidates in
        let sorted_distinct =
          AllPairs-Permᴰ HaveDistinctKeys HaveDistinctKeys-sym
            (Permᴰ.symm (Permᴰ-sort_by before candidates)) distinct in
        let unseen = nothing_seen sorted in
        let (s, looped, small) =
          pack_loop-Returns (maximum - reserve)
            (record { parts = []; current = []; current_estimate = 0 }) sorted
            (ground (arith, length-sort_by before candidates)) in
        let (parts, finished) =
          finish_parts-Returns s (ground (arith, length-sort_by before candidates)) in
        (
          parts,
          passed_checks candidates maximum reserve s parts nonzero fits
              (check_paths_passes candidates named)
              (check_keys_passes [] sorted sorted_distinct unseen) looped finished,
        )

    -- With an estimator that answers and fewer than 2^32 candidates, `pack_candidates` has a result
    -- exactly when the maximum is not zero, the reserve is within it, no folder path has an empty
    -- component, and no two candidates have one key.
    pub pack_candidates_accepts :
        (candidates : List PackCandidate) (maximum reserve : ℕ)
        → length candidates < u32_mod
        → ((maximum ≢ 0)
            × ((reserve ≤ maximum)
                × (All HasNames candidates × AllPairs HaveDistinctKeys candidates)))
          ↔ ((parts : List PartAssignment) × (pack_candidates estimate candidates maximum reserve
                ≡ ok parts))
    pack_candidates_accepts candidates maximum reserve few = (
      accepts candidates maximum reserve few,
      λ (parts, e).
          let limits = limits_of_accepted candidates maximum reserve parts e in
          let checks = pack_candidates-checks estimate candidates maximum reserve parts e in
          (
            limits.0,
            (
              limits.1,
              (
                check_paths-HasNames candidates checks.0,
                accepted-distinct estimate candidates checks.1,
              ),
            ),
          ),
    )
