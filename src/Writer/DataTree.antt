-- ===== src/Writer/DataTree.antt =====
-- Data trees: crates/pstforge-pst/src/writer.rs, `take_block_id`, `append_data_tree_sized`,
-- `append_data_tree_pages`, `append_row_matrix_data_tree`. A sink takes the blocks in the order in which
-- they are made: `push` is the vector of the functions here, and Writer/DataTree/Stream has the stream.
-- The index of the next block is handed on beside the sink.
pub mod Contents
pub mod Emission
pub mod RoundTrip
pub mod Total
pub mod Success
pub mod Grouping
pub mod Counted
pub mod Streamed
pub mod Projected
pub mod Deferred
pub mod Leaves
pub mod ListReader
mod Tests
pub mod Stream
use pstforge.Base.{
  ℕ, zero, suc, ◌+◌, ◌-◌, ◌*◌, ◌/◌, Bool, true, false, not, List, [], ◌∷◌, ◌++◌, map, Option, none,
  some, String, ltb, leb, ◌==◌, ◌||◌, u32_mod, u64_mod, checked, checked_add, checked_mul, div_ceil,
  length, take, drop, replicate, ok, err, ◌>>=◌, ◌>>◌, or_err, guard, if◌then◌else◌,
}
use pstforge.Writer.Error.{WriterResult, value_too_large, invalid_structure}
use pstforge.Writer.Block.{BlockId, BlockSpec, BlockPayload, data_bytes, data_tree, new_block_id}

abbrev pub max_data_block_payload : ℕ
max_data_block_payload = 8176

abbrev pub max_data_tree_entries : ℕ
max_data_tree_entries = 1021

unfoldable pub take_block_id : Bool → ℕ → WriterResult (BlockId × ℕ)
take_block_id internal next = do
  after ← or_err (checked_add next 1) (value_too_large "block id")
  id ← new_block_id internal next
  ok (id, after)

-- `chunks` of a slice.
abbrev pub chunks_in {ℓ} : {A : Type ℓ} → ℕ → ℕ → List A → List (List A)
chunks_in zero size xs = []
chunks_in (suc fuel) size [] = []
chunks_in (suc fuel) size (x ∷ xs) = take size (x ∷ xs) ∷ chunks_in fuel size (drop size (x ∷ xs))

abbrev pub chunks {ℓ} : {A : Type ℓ} → ℕ → List A → List (List A)
chunks size xs = chunks_in (length xs) size xs

-- The entry of a list of one.
abbrev pub only {ℓ} : {A : Type ℓ} → List A → Option A
only (x ∷ []) = some x
only _ = none

-- A block of a tree and the count of bytes below it.
abbrev pub TreeEntry : Type 0
TreeEntry = BlockId × ℕ

-- The bytes below a list of blocks; a size that is no u32 does not fit the sum either.
unfoldable pub add_sizes : String → ℕ → List TreeEntry → WriterResult ℕ
add_sizes reason total [] = ok total
add_sizes reason total (entry ∷ entries) = do
  next ← or_err (checked u32_mod (total + entry.1)) (value_too_large reason)
  add_sizes reason next entries

-- What the functions say of a tree that is too large.
pub record TreeReasons : Type 0 where
  pub tree_size : String
  pub xblock_count : String
  pub xxblock_size : String

abbrev pub data_reasons : TreeReasons
data_reasons = record {
  tree_size = "data-tree size";
  xblock_count = "XXBLOCK entry count";
  xxblock_size = "XXBLOCK size";
}

abbrev pub heap_reasons : TreeReasons
heap_reasons = record {
  tree_size = "heap data-tree size";
  xblock_count = "heap data-tree XBLOCK count";
  xxblock_size = "heap data-tree size";
}

abbrev pub push : BlockSpec → List BlockSpec → WriterResult (List BlockSpec)
push block blocks = ok (blocks ++ block ∷ [])

module _ {S : Type 0} (sink : BlockSpec → S → WriterResult S) where
  -- A block under the next id.
  unfoldable pub append_block : Bool → BlockPayload → ℕ → S → WriterResult (BlockId × ℕ × S)
  append_block internal payload next s = do
    (id, after) ← take_block_id internal next
    s' ← sink (record { id = id; payload = payload; ref_count = 2 }) s
    ok (id, after, s')

  -- A block that lists others.
  unfoldable pub append_parent :
      ℕ → String → List TreeEntry → ℕ → S → WriterResult (TreeEntry × ℕ × S)
  append_parent level reason entries next s = do
    total ← add_sizes reason 0 entries
    (id, after, s') ←
        append_block true (data_tree level total (map (λ entry. entry.0) entries)) next s
    ok ((id, total), after, s')

  -- The same where the id is taken before the sizes are added up.
  unfoldable pub append_numbered_parent :
      ℕ → String → List TreeEntry → ℕ → S → WriterResult (TreeEntry × ℕ × S)
  append_numbered_parent level reason entries next s = do
    (id, after) ← take_block_id true next
    total ← add_sizes reason 0 entries
    s' ←
        sink
          (record {
            id = id;
            payload = data_tree level total (map (λ entry. entry.0) entries);
            ref_count = 2;
          })
          s
    ok ((id, total), after, s')

  unfoldable pub append_chunks : List (List ℕ) → ℕ → S → WriterResult (List TreeEntry × ℕ × S)
  append_chunks [] next s = ok ([], next, s)
  append_chunks (chunk ∷ rest) next s = do
    (id, after, s') ← append_block false (data_bytes chunk) next s
    (leaves, end, s'') ← append_chunks rest after s'
    ok ((id, length chunk) ∷ leaves, end, s'')

  unfoldable pub append_pages : List (List ℕ) → ℕ → S → WriterResult (List TreeEntry × ℕ × S)
  append_pages [] next s = ok ([], next, s)
  append_pages (page ∷ rest) next s = do
    guard (leb (length page) max_data_block_payload) (value_too_large "heap data page")
    (id, after, s') ← append_block false (data_bytes page) next s
    (leaves, end, s'') ← append_pages rest after s'
    ok ((id, length page) ∷ leaves, end, s'')

  -- The blocks of level 1, one for each group of leaves.
  unfoldable pub append_groups :
      (List TreeEntry → ℕ → S → WriterResult (TreeEntry × ℕ × S))
      → List (List TreeEntry)
      → ℕ
      → S
      → WriterResult (List TreeEntry × ℕ × S)
  append_groups parent [] next s = ok ([], next, s)
  append_groups parent (group ∷ groups) next s = do
    (xblock, after, s') ← parent group next s
    (xblocks, end, s'') ← append_groups parent groups after s'
    ok (xblock ∷ xblocks, end, s'')

  -- The root over the blocks of level 1: the block itself where there is one.
  unfoldable pub append_root : TreeReasons → List TreeEntry → ℕ → S → WriterResult (BlockId × ℕ × S)
  append_root reasons xblocks next s = elim (only xblocks) [
    | some xblock ↦ ok (xblock.0, next, s)
    | none ↦ do
      guard (leb (length xblocks) max_data_tree_entries) (value_too_large reasons.xblock_count)
      (root, end, s') ← append_parent 2 reasons.xxblock_size xblocks next s
      ok (root.0, end, s')
  ]

  -- The levels over the leaves: none over a single one.
  unfoldable pub append_levels :
      (List TreeEntry → ℕ → S → WriterResult (TreeEntry × ℕ × S))
      → TreeReasons
      → List TreeEntry
      → ℕ
      → S
      → WriterResult (BlockId × ℕ × S)
  append_levels parent reasons leaves next s = elim (only leaves) [
    | some leaf ↦ ok (leaf.0, next, s)
    | none ↦ do
      (xblocks, after, s') ← append_groups parent (chunks max_data_tree_entries leaves) next s
      append_root reasons xblocks after s'
  ]

  unfoldable pub append_data_tree_sized : List ℕ → ℕ → ℕ → S → WriterResult (BlockId × ℕ × S)
  append_data_tree_sized bytes chunk_size next s = do
    (leaves, after, s') ← append_chunks (chunks chunk_size bytes) next s
    append_levels (append_numbered_parent 1 data_reasons.tree_size) data_reasons leaves after s'

  unfoldable pub append_data_tree : List ℕ → ℕ → S → WriterResult (BlockId × ℕ × S)
  append_data_tree bytes next s = append_data_tree_sized bytes max_data_block_payload next s

  unfoldable pub append_data_tree_pages : List (List ℕ) → ℕ → S → WriterResult (BlockId × ℕ × S)
  append_data_tree_pages pages next s = do
    guard (not (length pages == 0)) (invalid_structure "data tree must contain pages")
    (leaves, after, s') ← append_pages pages next s
    append_levels (append_parent 1 heap_reasons.tree_size) heap_reasons leaves after s'
