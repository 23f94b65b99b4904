-- ===== src/Writer/Projection/Pages.antt =====
-- The pages that `write_bbt` and `write_nbt` (crates/pstforge-pst/src/writer.rs) allocate, level by
-- level, against the count that the projection makes.
use mathlib.Core.Option
use Prim.Native.Nat.add
use native.Mathlib.Nat.{zero-add, add_assoc}
use native.Mathlib.Numerals.{one-add}
use pstforge.Base.{
  >>=-eq-ok, ℕ, zero, suc, ◌+◌, ◌<◌, ◌≤◌, ◌≡◌, refl, ◌∙◌, List, [], ◌∷◌, Option, ltb, lt→ltb,
  length, div_ceil, u64_mod, ok, Bool-cases, inl, inr, arith, ◌>>=◌, guard, not, ◌==◌,
}
use pstforge.Writer.Error.{WriterError}
use pstforge.Writer.Extent.{page_size, allocate_extent}
use pstforge.Writer.BTree.{
  TreeOutput, PageBody, PageEntry, TreeState, write_page, write_level, write_parent_level,
  write_parents, write_btree, btree_page_count, leaf_page, count_levels, plan_leaf_pages,
  entry_page, slice, head?,
}
use pstforge.Writer.BTree.Plan.{IsPlan, positive_test, plan_leaf_pages-IsPlan}
use pstforge.Writer.Projection.{allocate_pages}

pub allocate_pages-add :
    (n m c d : ℕ) → allocate_pages n c ≡ ok d → allocate_pages (n + m) c ≡ allocate_pages m d
unfolding allocate_pages
allocate_pages-add zero m c d e = rw zero-add (ground arith)
allocate_pages-add (suc n) m c d e =
    let (x, first, rest) =
      >>=-eq-ok (allocate_extent c page_size page_size) (λ x. allocate_pages n x.1) e in
    rw (add.suc n m, first, allocate_pages) (allocate_pages-add n m x.1 d rest)

-- `n` pages were written between two states.
pub record Grown {E : Type 0} (n : ℕ) (s s' : TreeState E) : Type 0 where
  pub allocated : allocate_pages n s.next_offset ≡ ok s'.next_offset
  pub numbered : s'.next_page ≡ s.next_page + n
  pub representable : s'.next_page < u64_mod

allocate_pages-zero : (c : ℕ) → allocate_pages 0 c ≡ ok c
unfolding allocate_pages
allocate_pages-zero c = refl

Grown-add :
    {E : Type 0} (n m : ℕ) (s t u : TreeState E) → Grown n s t → Grown m t u → Grown (n + m) s u
Grown-add n m s t u g h = record {
  allocated = allocate_pages-add n m s.next_offset t.next_offset g.allocated ∙ h.allocated;
  numbered = omega arith;
  representable = h.representable;
}

plan_pages :
    (n capacity : ℕ) (ranges : List (ℕ × ℕ))
    → 0 < n
    → 0 < capacity
    → plan_leaf_pages n capacity ≡ ok ranges
    → length ranges ≡ div_ceil n capacity
plan_pages n capacity ranges pos room e =
    let plan : IsPlan n capacity ranges = rw e at (plan_leaf_pages-IsPlan n capacity pos room) in
    plan.pages

plan_nonempty :
    (n capacity : ℕ) (ranges : List (ℕ × ℕ)) (message : WriterError) {u : Unit {0}}
    → 0 < capacity
    → plan_leaf_pages n capacity ≡ ok ranges
    → guard (not (length ranges == 0)) message ≡ ok u
    → 0 < n
unfolding plan_leaf_pages
plan_nonempty zero capacity ranges message room e h = ground arith
plan_nonempty (suc n) capacity ranges message room e h = omega arith

btree_page_count_some :
    (n capacity leaves m width : ℕ)
    → 0 < n
    → 0 < capacity
    → leaves ≡ div_ceil n capacity
    → leaves ≡ width
    → count_levels u64_mod leaves leaves 20 ≡ ok (leaves + m)
    → btree_page_count n capacity 20 ≡ ok (width + m)
unfolding btree_page_count
btree_page_count_some n capacity leaves m width some_entry room e w h =
    rw (positive_test n some_entry, positive_test capacity room, ← e, ← w) h

count_levels_more :
    (fuel level pages parents m width capacity : ℕ)
    → parents ≡ div_ceil level capacity
    → width ≡ parents
    → 1 < level
    → pages + parents < u64_mod
    → count_levels fuel width (pages + parents) capacity ≡ ok (pages + parents + m)
    → count_levels (suc fuel) level pages capacity ≡ ok (pages + (parents + m))
unfolding count_levels
count_levels_more fuel level pages parents m width capacity e w many room h =
    rw (lt→ltb 1 level many, ← e, lt→ltb (pages + parents) u64_mod room, ← add_assoc) (rw w at h)

module _ {E : Type 0} (put : TreeOutput E) where
  write_page-Grown :
      (body : PageBody E) (key : Option ℕ) (s s' : TreeState E) (entry : PageEntry)
      → write_page put body key s ≡ ok (entry, s')
      → Grown 1 s s'
  unfolding write_page allocate_pages
  write_page-Grown body key s s' entry e = ground arith

  write_level-Grown :
      {X : Type 0} (body : List X → PageBody E) (key : X → ℕ) (entries : List X)
      (ranges : List (ℕ × ℕ)) (s s' : TreeState E) (references : List PageEntry)
      → s.next_page < u64_mod
      → write_level put body key entries ranges s ≡ ok (references, s')
      → Grown (length ranges) s s' × (length references ≡ length ranges)
  unfolding write_level
  write_level-Grown body key entries [] s s' references low e =
      ground (arith, allocate_pages-zero s.next_offset)
  write_level-Grown {X} body key entries (range ∷ ranges) s s' references low e =
      let page =
        write_page put (body (slice range entries)) (Option.map key (head? (slice range entries)))
          s in
      let ((entry, t), first, more) = >>=-eq-ok page _ e in
      let ((rest, u), second, last) =
        >>=-eq-ok (write_level put body key entries ranges t) _ more in
      let grown = write_page-Grown _ _ s t entry first in
      let further = write_level-Grown body key entries ranges t u rest grown.representable second in
      ground (
        arith,
        grown,
        further,
        Grown-add 1 (length ranges) s t u grown further.0,
        one-add (length ranges),
      )

  write_parent_level-Grown :
      (level : ℕ) (roots parents : List PageEntry) (s s' : TreeState E)
      → 0 < length roots
      → s.next_page < u64_mod
      → write_parent_level put level roots s ≡ ok (parents, s')
      → Grown (div_ceil (length roots) 20) s s' × (length parents ≡ div_ceil (length roots) 20)
  unfolding write_parent_level
  write_parent_level-Grown level roots parents s s' pos low e =
      let (ranges, planned, more) = >>=-eq-ok (plan_leaf_pages (length roots) 20) _ e in
      let ((written, t), level_done, last) =
        >>=-eq-ok (write_level put (entry_page level) (λ r. r.key) roots ranges s) _ more in
      let grown =
        write_level-Grown (entry_page level) (λ r. r.key) roots ranges s t written low level_done in
      let count = plan_pages (length roots) 20 ranges pos (omega arith) planned in
      ground (arith, grown, count)

  write_parents-Grown :
      (fuel count_fuel level pages : ℕ) (roots roots' : List PageEntry) (s s' : TreeState E)
      → length roots < count_fuel
      → pages ≤ s.next_page
      → s.next_page < u64_mod
      → write_parents put fuel level roots s ≡ ok (roots', s')
      → (m : ℕ) × (count_levels count_fuel (length roots) pages 20 ≡ ok (pages + m)) × Grown m s s'
  unfolding write_parents count_levels
  write_parents-Grown zero count_fuel level pages roots roots' s s' le small low e = cc
  write_parents-Grown (suc fuel) zero level pages roots roots' s s' le small low e =
      absurd (omega arith)
  write_parents-Grown (suc fuel) (suc count_fuel) level pages roots roots' s s' le small low e =
      elim (Bool-cases (ltb 1 (length roots))) [
        | inl many ↦
            let e' : (write_parent_level put level roots s >>= λ (parents, t).
            write_parents put fuel (level + 1) parents t)
                ≡ ok (roots', s') =
              rw many at e in
            let ((parents, t), first, more) =
              >>=-eq-ok (write_parent_level put level roots s) _ e' in
            let (grown, width) =
              write_parent_level-Grown level roots parents s t (ground arith) low first in
            let fewer : div_ceil (length roots) 20 < length roots = ground arith in
            let (m, counted, further) =
              write_parents-Grown fuel count_fuel (level + 1) (pages + div_ceil (length roots) 20)
                parents roots' t s' (ground (arith, width)) (ground (arith, grown))
                grown.representable more in
            (
              div_ceil (length roots) 20 + m,
              count_levels_more count_fuel (length roots) pages (div_ceil (length roots) 20) m
                  (length parents) 20 refl width (ground arith) (ground (arith, grown)) counted,
              Grown-add _ m s t s' grown further,
            )
        | inr one ↦ (0, rw one (ground arith), ground (arith, allocate_pages-zero s.next_offset))
      ]

  -- A tree is written in as many pages as `btree_page_count` says.
  pub write_btree-pages :
      (leaf_capacity : ℕ) (key : E → ℕ) (first_offset first_page_id : ℕ) (entries : List E)
      (root : PageEntry) (s : TreeState E)
      → 0 < leaf_capacity
      → first_page_id < u64_mod
      → write_btree put leaf_capacity key first_offset first_page_id entries ≡ ok (root, s)
      → (n : ℕ) × (btree_page_count (length entries) leaf_capacity 20 ≡ ok n)
        × (allocate_pages n first_offset ≡ ok s.next_offset)
        × (s.next_page ≡ first_page_id + n)
        × (s.next_page < u64_mod)
  unfolding write_btree btree_page_count
  write_btree-pages leaf_capacity key first_offset first_page_id entries root s room low e =
      let (ranges, planned, after_plan) =
        >>=-eq-ok (plan_leaf_pages (length entries) leaf_capacity) _ e in
      let (_, nonempty, after_guard) =
        >>=-eq-ok (guard (not (length ranges == 0)) _) _ after_plan in
      let ((leaves, t), leaf_level, after_leaves) =
        >>=-eq-ok (write_level put leaf_page key entries ranges start) _ after_guard in
      let ((roots, u), upper, last) =
        >>=-eq-ok (write_parents put (length leaves) 1 leaves t) _ after_leaves in
      let some_entry =
        plan_nonempty (length entries) leaf_capacity ranges _ room planned nonempty in
      let width = plan_pages (length entries) leaf_capacity ranges some_entry room planned in
      let (grown, leaf_count) =
        write_level-Grown leaf_page key entries ranges start t leaves low leaf_level in
      let (m, counted, further) =
        write_parents-Grown (length leaves) u64_mod 1 (length leaves) leaves roots t u
          (ground (arith, grown)) (ground (arith, grown)) grown.representable upper in
      let whole = Grown-add (length ranges) m start t u grown further in
      let same : u ≡ s = ground arith in
      (
        length ranges + m,
        btree_page_count_some (length entries) leaf_capacity (length leaves) m (length ranges)
            some_entry room (leaf_count ∙ width) leaf_count counted,
        ground (arith, whole),
        ground (arith, whole),
        ground (arith, whole),
      )
    where
      start : TreeState E
      start = record { next_offset = first_offset; next_page = first_page_id; pages = [] }
