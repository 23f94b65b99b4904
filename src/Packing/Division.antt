-- ===== src/Packing/Division.antt =====
-- The parts that `pack_candidates` (crates/pstforge-core/src/packing.rs) returns.
use pstforge.Base.{
  ℕ, ◌-◌, ◌≡◌, refl, subst, List, [], arith, Result, ok, ◌>>=◌, >>=-eq-ok, sort_by, Permᴰ-sort_by,
  sym, inl, ◌≤◌,
}
use mathlib.Core.List.{Permᴰ}
use pstforge.Packing.{
  PackCandidate, PartAssignment, PackingError, pack_loop, finish_parts, pack_candidates, before,
}
use pstforge.Packing.Parts.{IsPacking, all_candidates}
use pstforge.Packing.Loop.{Packed, pack_loop-Packed, finish_parts-IsPacking}

module _ (estimate : List PackCandidate → Result PackingError ℕ) where
  nothing-Packed :
      (limit : ℕ)
      → Packed estimate limit [] (record { parts = []; current = []; current_estimate = 0 })
  nothing-Packed limit = record {
    finished = [];
    whole = refl;
    parts_finished = record { kept = refl; parted = tt; numbered = tt; tight = λ tail. tt };
    opened = inl refl;
  }

  pub pack_loop-IsPacking :
      (limit : ℕ) (sorted : List PackCandidate) (parts : List PartAssignment)
      → (pack_loop estimate limit (record { parts = []; current = []; current_estimate = 0 }) sorted
          >>= finish_parts)
        ≡ ok parts
      → IsPacking estimate limit sorted parts
  pack_loop-IsPacking limit sorted parts e =
      let (s, looped, finish) = >>=-eq-ok (pack_loop estimate limit _ sorted) finish_parts e in
      finish_parts-IsPacking estimate limit sorted s parts
        (pack_loop-Packed estimate limit [] sorted _ s (nothing-Packed limit) looped) finish

  pub pack_candidates-loop :
      (candidates : List PackCandidate) (maximum reserve : ℕ) (parts : List PartAssignment)
      → pack_candidates estimate candidates maximum reserve ≡ ok parts
      → (reserve ≤ maximum)
        × ((pack_loop estimate
                (maximum - reserve)
                (record { parts = []; current = []; current_estimate = 0 })
                (sort_by before candidates)
              >>= finish_parts)
            ≡ ok parts)
  unfolding pack_candidates
  pack_candidates-loop candidates maximum reserve parts e = ground arith

  -- Every result of `pack_candidates` divides the sorted candidates, in their order, into parts
  -- numbered from 1. The candidates of the parts are those of the input, each as often as there. A
  -- part has the estimate of its candidates. Either it is not empty and within the maximum less the
  -- reserve, or it is marked oversize, above that limit, and one candidate. A part that is not
  -- oversize and has a candidate behind it would be above the limit with that candidate.
  pub pack_candidates-IsPacking :
      (candidates : List PackCandidate) (maximum reserve : ℕ) (parts : List PartAssignment)
      → pack_candidates estimate candidates maximum reserve ≡ ok parts
      → IsPacking estimate (maximum - reserve) (sort_by before candidates) parts
        × Permᴰ (all_candidates parts) candidates
  pack_candidates-IsPacking candidates maximum reserve parts e =
      let packing =
        pack_loop-IsPacking (maximum - reserve) (sort_by before candidates) parts
          (pack_candidates-loop candidates maximum reserve parts e).1 in
      (
        packing,
        subst (λ l. Permᴰ l candidates) (sym packing.kept) (Permᴰ-sort_by before candidates),
      )
