-- ===== src/Writer/BTree.antt =====
-- The two B-trees over the blocks and the nodes: crates/pstforge-pst/src/writer.rs,
-- `plan_leaf_pages`, `btree_page_count`, `write_bbt` and `write_nbt`. A tree is written page by page,
-- each in an extent of its own, level by level. Building a page and writing it to the file are one
-- function, `put` of an argument: it stands for the page types of src/ndb/page.rs and the operating system.
pub mod Plan
use mathlib.Core.Option
use pstforge.Base.{
  not, ℕ, zero, suc, ◌+◌, ◌-◌, ◌/◌, ◌%◌, List, [], ◌∷◌, ◌++◌, ltb, ◌==◌, ◌||◌, if◌then◌else◌,
  u64_mod, checked, checked_add, div_ceil, length, take, drop, Option, none, some, ok, err, aborted,
  ◌>>=◌, ◌>>◌, or_err, or_abort, guard, String,
}
use pstforge.Writer.Error.{WriterResult, value_too_large, invalid_structure}
use pstforge.Writer.Extent.{page_size, allocate_extent}

-- `pages` ranges from `start` on, those with a number below `larger` one entry longer.
unfoldable pub plan_ranges : (pages page start minimum larger : ℕ) → List (ℕ × ℕ)
plan_ranges zero page start minimum larger = []
plan_ranges (suc pages) page start minimum larger =
    let size = minimum + (if ltb page larger then 1 else 0) in
    (start, start + size) ∷ plan_ranges pages (page + 1) (start + size) minimum larger

unfoldable pub plan_leaf_pages : ℕ → ℕ → WriterResult (List (ℕ × ℕ))
plan_leaf_pages entry_count capacity =
    if capacity == 0
    then err (invalid_structure "B-tree leaf capacity must be nonzero")
    else if entry_count == 0
    then ok []
    else (let page_count = div_ceil entry_count capacity in
        ok (plan_ranges page_count 0 0 (entry_count / page_count) (entry_count % page_count)))

-- The `while` of `btree_page_count`: `pages` grows by at least one in a round, and is below 2 ^ 64.
unfoldable pub count_levels : ℕ → ℕ → ℕ → ℕ → WriterResult ℕ
count_levels zero level pages intermediate_capacity = aborted
count_levels (suc fuel) level pages intermediate_capacity =
    let parents = div_ceil level intermediate_capacity in
    let rest = or_err (checked_add pages parents) (value_too_large "B-tree page count") >>= λ total.
    count_levels fuel parents total intermediate_capacity in
    if ltb 1 level then rest else ok pages

unfoldable pub btree_page_count : ℕ → ℕ → ℕ → WriterResult ℕ
btree_page_count entries leaf_capacity intermediate_capacity =
    if entries == 0 || leaf_capacity == 0 || intermediate_capacity == 0
    then err (invalid_structure "B-tree projection requires entries and nonzero capacities")
    else (let level = div_ceil entries leaf_capacity in
        count_levels u64_mod level level intermediate_capacity)

-- A reference to a page, under the key of the first entry below it.
pub record PageEntry : Type 0 where
  pub key : ℕ
  pub page_id : ℕ
  pub offset : ℕ

-- A page holds entries of the tree (level 0), or references to the pages of the level below.
pub data PageBody (E : Type 0) : Type 0 where
  leaf_page : List E → PageBody E
  entry_page : ℕ → List PageEntry → PageBody E

pub record TreePage (E : Type 0) : Type 0 where
  pub page_id : ℕ
  pub offset : ℕ
  pub body : PageBody E

-- Where the next page goes, its id, and the pages written so far.
pub record TreeState (E : Type 0) : Type 0 where
  pub next_offset : ℕ
  pub next_page : ℕ
  pub pages : List (TreePage E)

abbrev pub slice {ℓ} : {A : Type ℓ} → ℕ × ℕ → List A → List A
slice (start, end) xs = take (end - start) (drop start xs)

abbrev pub head? {ℓ} : {A : Type ℓ} → List A → Option A
head? [] = none
head? (x ∷ xs) = some x

-- How a page of a tree is written, and the messages of the tree's errors.
pub record TreeOutput (E : Type 0) : Type 0 where
  pub put : TreePage E → WriterResult (Unit {0})
  pub empty : String
  pub page_id : String
  pub depth : String

module _ {E : Type 0} (out : TreeOutput E) where
  -- One page, and the reference to it under the given key.
  unfoldable pub write_page :
      PageBody E → Option ℕ → TreeState E → WriterResult (PageEntry × TreeState E)
  write_page body first_key s = do
    (offset, next_offset) ← allocate_extent s.next_offset page_size page_size
    let page : TreePage E = record { page_id = s.next_page; offset = offset; body = body }
    out.put page
    key ← or_abort first_key
    next_page ← or_err (checked_add s.next_page 1) (value_too_large out.page_id)
    ok (
      record { key = key; page_id = s.next_page; offset = offset },
      record { next_offset = next_offset; next_page = next_page; pages = s.pages ++ page ∷ [] },
    )

  -- The pages of one level, over the given ranges of its entries.
  unfoldable pub write_level :
      {X : Type 0}
      → (List X → PageBody E)
      → (X → ℕ)
      → List X
      → List (ℕ × ℕ)
      → TreeState E
      → WriterResult (List PageEntry × TreeState E)
  write_level body key entries [] s = ok ([], s)
  write_level body key entries (range ∷ ranges) s = do
    (entry, s') ←
        write_page (body (slice range entries)) (Option.map key (head? (slice range entries))) s
    (rest, s'') ← write_level body key entries ranges s'
    ok (entry ∷ rest, s'')

  -- One more level, over the pages of the level below.
  unfoldable pub write_parent_level :
      ℕ → List PageEntry → TreeState E → WriterResult (List PageEntry × TreeState E)
  write_parent_level level roots s = do
    ranges ← plan_leaf_pages (length roots) 20
    (parents, s') ← write_level (entry_page level) (λ e. e.key) roots ranges s
    depth ← or_err (checked 256 (level + 1)) (value_too_large out.depth)
    ok (parents, s')

  -- The levels above the leaves, until one page is left; each level has fewer pages.
  unfoldable pub write_parents :
      ℕ → ℕ → List PageEntry → TreeState E → WriterResult (List PageEntry × TreeState E)
  write_parents zero level roots s = aborted
  write_parents (suc fuel) level roots s =
      let rest = write_parent_level level roots s >>= λ (parents, s').
      write_parents fuel (level + 1) parents s' in
      if ltb 1 (length roots) then rest else ok (roots, s)

  -- `write_bbt` and `write_nbt`, which differ in the leaf capacity and the types of the entries: the
  -- root's reference, and the state with the first free offset and the next page id.
  unfoldable pub write_btree : ℕ → (E → ℕ) → ℕ → ℕ → List E → WriterResult (PageEntry × TreeState E)
  write_btree leaf_capacity key first_offset first_page_id entries = do
    ranges ← plan_leaf_pages (length entries) leaf_capacity
    guard (not (length ranges == 0)) (invalid_structure out.empty)
    (leaves, s) ←
        write_level leaf_page key entries ranges
          (record { next_offset = first_offset; next_page = first_page_id; pages = [] })
    (roots, s') ← write_parents (length leaves) 1 leaves s
    root ← or_abort (head? roots)
    ok (root, s')
