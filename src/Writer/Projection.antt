-- ===== src/Writer/Projection.antt =====
-- The end of a store's file, projected and real: crates/pstforge-pst/src/writer.rs,
-- `projected_finalized_file_eof`, and of `TransactionalMailStoreWriter::finalize_with_policy` the part
-- that places the last blocks and the two trees and takes the end of the file.
pub mod Pages
pub mod Exact
use pstforge.Base.{
  ℕ, zero, suc, ◌+◌, Bool, List, [], ◌∷◌, ◌++◌, leb, u16_mod, u64_mod, checked, checked_add, length,
  sort_by, ok, err, aborted, ◌>>=◌, or_err,
}
use pstforge.Writer.Error.{WriterResult, value_too_large}
use pstforge.Writer.Extent.{slot_size, page_size, align_up, allocate_extent, allocation_file_eof}
use pstforge.Writer.Block.{
  BlockSpec, WrittenBlock, logical_size, physical_size, raw_block_id, write_blocks,
}
use pstforge.Writer.BTree.{
  TreePage, PageEntry, TreeState, TreeOutput, btree_page_count, write_btree,
}

-- The loop over the blocks that are still to be written: only the cursor moves.
unfoldable pub project_blocks : List BlockSpec → ℕ → WriterResult ℕ
project_blocks [] cursor = ok cursor
project_blocks (block ∷ blocks) cursor = do
  size ← or_err (checked u16_mod (logical_size block.payload)) (value_too_large "data block")
  physical ← physical_size size
  (offset, next) ← allocate_extent cursor physical slot_size
  project_blocks blocks next

-- The loop over the pages of a tree.
unfoldable pub allocate_pages : ℕ → ℕ → WriterResult ℕ
allocate_pages zero cursor = ok cursor
allocate_pages (suc n) cursor = do
  (offset, next) ← allocate_extent cursor page_size page_size
  allocate_pages n next

unfoldable pub projected_finalized_file_eof : ℕ → ℕ → List BlockSpec → ℕ → WriterResult ℕ
projected_finalized_file_eof allocation_cursor written_block_count final_blocks node_count = do
  cursor ← project_blocks final_blocks allocation_cursor
  let pages_start = align_up cursor page_size
  block_count ←
      or_err (checked_add written_block_count (length final_blocks))
        (value_too_large "BBT entry count")
  bbt_pages ← btree_page_count block_count 20 20
  bbt_end ← allocate_pages bbt_pages pages_start
  nbt_pages ← btree_page_count node_count 15 20
  nbt_end ← allocate_pages nbt_pages bbt_end
  allocation_file_eof nbt_end

-- An entry of the node B-tree: the node, its data and its subnodes.
pub record NodeEntry : Type 0 where
  pub node : ℕ
  pub data_block : ℕ
  pub subnode_block : ℕ

module _ (put_block : ℕ → BlockSpec → WriterResult (Unit {0}))
    (put_bbt : TreePage WrittenBlock → WriterResult (Unit {0}))
    (put_nbt : TreePage NodeEntry → WriterResult (Unit {0})) where
  abbrev pub bbt_output : TreeOutput WrittenBlock
  bbt_output = record {
    put = put_bbt;
    empty = "BBT is empty";
    page_id = "BBT page id";
    depth = "BBT depth";
  }

  abbrev pub nbt_output : TreeOutput NodeEntry
  nbt_output = record {
    put = put_nbt;
    empty = "NBT is empty";
    page_id = "NBT page id";
    depth = "NBT depth";
  }

  unfoldable pub write_bbt :
      ℕ → ℕ → List WrittenBlock → WriterResult (PageEntry × TreeState WrittenBlock)
  write_bbt = write_btree bbt_output 20 (λ block. raw_block_id block.id)

  unfoldable pub write_nbt : ℕ → ℕ → List NodeEntry → WriterResult (PageEntry × TreeState NodeEntry)
  write_nbt = write_btree nbt_output 15 (λ entry. entry.node)

  -- The end of the file after the last blocks and the trees have been written, for the cursor and
  -- the blocks that the messages have left.
  unfoldable pub finalized_file_eof :
      (ℕ → Bool) → ℕ → List WrittenBlock → List BlockSpec → List NodeEntry → WriterResult ℕ
  finalized_file_eof flags allocation_cursor written blocks nodes = do
    (final, cursor) ← write_blocks put_block flags blocks allocation_cursor
    let sorted = sort_by (λ a b. leb (raw_block_id a.id) (raw_block_id b.id)) (written ++ final)
    (bbt, bbt_state) ← write_bbt (align_up cursor page_size) 0x100 sorted
    (nbt, nbt_state) ← write_nbt bbt_state.next_offset bbt_state.next_page nodes
    allocation_file_eof nbt_state.next_offset
