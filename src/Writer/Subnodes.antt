-- ===== src/Writer/Subnodes.antt =====
-- Trees of subnode entries: crates/pstforge-pst/src/writer.rs, `append_subnode_tree` and
-- `append_subnode_tree_at`. The blocks are
-- pushed in the order in which they are made.
pub mod Shape
pub mod Listing
pub mod Levels
mod Tests
use pstforge.Base.{
  ℕ, zero, suc, ltb, checked, or_err, aborted, ◌^◌, ◌+◌, ◌/◌, ◌-◌, ◌*◌, Bool, true, not, List, [],
  ◌∷◌, ◌++◌, leb, ◌==◌, length, ok, ◌>>=◌, ◌>>◌, or_abort, guard, sort_by, if◌then◌else◌,
}
use pstforge.Writer.Error.{WriterResult, value_too_large, invalid_structure}
use pstforge.Writer.Block.{
  BlockId, BlockSpec, LeafSubnodeEntry, IntermediateSubnodeEntry, subnode, intermediate_subnode,
}
use pstforge.Writer.BTree.{head?}
use pstforge.Writer.DataTree.{max_data_block_payload, chunks, push, append_block}

abbrev pub subnode_leaf_capacity : ℕ
subnode_leaf_capacity = (max_data_block_payload - 8) / 24

abbrev pub subnode_intermediate_capacity : ℕ
subnode_intermediate_capacity = (max_data_block_payload - 8) / 16

abbrev pub max_subnode_tree_entries : ℕ
max_subnode_tree_entries = subnode_leaf_capacity * subnode_intermediate_capacity

-- `sort_by_key` with the node as key.
abbrev pub by_node : LeafSubnodeEntry → LeafSubnodeEntry → Bool
by_node a b = leb a.node b.node

-- A block for each group, and its entry in the block above. A group is never empty.
unfoldable pub append_subnode_leaves :
    List (List LeafSubnodeEntry)
    → ℕ
    → List BlockSpec
    → WriterResult (List IntermediateSubnodeEntry × ℕ × List BlockSpec)
append_subnode_leaves [] next blocks = ok ([], next, blocks)
append_subnode_leaves (group ∷ rest) next blocks = do
  (id, after, pushed) ← append_block push true (subnode group) next blocks
  first ← or_abort (head? group)
  (leaves, end, out) ← append_subnode_leaves rest after pushed
  ok (record { node = first.node; block = id } ∷ leaves, end, out)

unfoldable pub append_subnode_tree_at :
    List LeafSubnodeEntry → BlockId → ℕ → List BlockSpec → WriterResult (ℕ × List BlockSpec)
append_subnode_tree_at entries root next blocks = do
  guard (not (length entries == 0)) (invalid_structure "subnode tree must contain entries")
  guard (leb (length entries) max_subnode_tree_entries) (value_too_large "subnode tree entry count")
  let sorted = sort_by by_node entries
  let many : WriterResult (ℕ × List BlockSpec) = do
    (leaves, end, out) ← append_subnode_leaves (chunks subnode_leaf_capacity sorted) next blocks
    ok (
      end,
      out ++ record { id = root; payload = intermediate_subnode 1 leaves; ref_count = 2 } ∷ [],
    )
  if leb (length sorted) subnode_leaf_capacity
      then ok (next, blocks ++ record { id = root; payload = subnode sorted; ref_count = 2 } ∷ [])
      else many

-- A block for each group of the blocks below, and its entry in the block above.
unfoldable pub append_subnode_parents :
    ℕ
    → List (List IntermediateSubnodeEntry)
    → ℕ
    → List BlockSpec
    → WriterResult (List IntermediateSubnodeEntry × ℕ × List BlockSpec)
append_subnode_parents level [] next blocks = ok ([], next, blocks)
append_subnode_parents level (group ∷ rest) next blocks = do
  (id, after, pushed) ← append_block push true (intermediate_subnode level group) next blocks
  first ← or_abort (head? group)
  (parents, end, out) ← append_subnode_parents level rest after pushed
  ok (record { node = first.node; block = id } ∷ parents, end, out)

-- The levels, up to the one with a single block; the level is a u8.
unfoldable pub append_subnode_levels :
    ℕ
    → ℕ
    → List IntermediateSubnodeEntry
    → ℕ
    → List BlockSpec
    → WriterResult (BlockId × ℕ × List BlockSpec)
append_subnode_levels zero level roots next blocks = aborted
append_subnode_levels (suc fuel) level roots next blocks = do
  let more : WriterResult (BlockId × ℕ × List BlockSpec) = do
    (parents, end, out) ←
        append_subnode_parents level (chunks subnode_intermediate_capacity roots) next blocks
    above ← or_err (checked (2 ^ 8) (level + 1)) (value_too_large "subnode tree depth")
    append_subnode_levels fuel above parents end out
  let done : WriterResult (BlockId × ℕ × List BlockSpec) = do
    root ← or_abort (head? roots)
    ok (root.block, next, blocks)
  if ltb 1 (length roots) then more else done

unfoldable pub append_subnode_tree :
    List LeafSubnodeEntry → ℕ → List BlockSpec → WriterResult (BlockId × ℕ × List BlockSpec)
append_subnode_tree entries next blocks = do
  guard (not (length entries == 0)) (invalid_structure "subnode tree must contain entries")
  guard (leb (length entries) max_subnode_tree_entries) (value_too_large "subnode tree entry count")
  let sorted = sort_by by_node entries
  (roots, end, out) ← append_subnode_leaves (chunks subnode_leaf_capacity sorted) next blocks
  append_subnode_levels (suc (length roots)) 1 roots end out
