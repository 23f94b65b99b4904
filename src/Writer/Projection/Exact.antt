-- ===== src/Writer/Projection/Exact.antt =====
-- The projection of a store's end (crates/pstforge-pst/src/writer.rs) is what finalizing gives.
use pstforge.Base.{
  ℕ, suc, leb, lt→ltb, sort_by, ◌+◌, ◌<◌, ◌≡◌, Bool, List, [], ◌∷◌, ◌++◌, length, length-append,
  length-sort_by, u64_mod, ok, >>=-eq-ok, arith,
}
use pstforge.Writer.Error.{WriterResult}
use pstforge.Writer.Extent.{page_size, align_up}
use pstforge.Writer.Block.{
  BlockSpec, raw_block_id, WrittenBlock, place_block, write_block, write_blocks,
}
use pstforge.Writer.BTree.{TreePage, PageEntry, TreeState, btree_page_count}
use pstforge.Writer.Projection.{
  bbt_output, nbt_output, NodeEntry, project_blocks, allocate_pages, projected_finalized_file_eof,
  write_bbt, write_nbt, finalized_file_eof,
}
use pstforge.Writer.Projection.Pages.{write_btree-pages}

-- Writing blocks moves the cursor as the projection does.
write_blocks-project_blocks :
    (put : ℕ → BlockSpec → WriterResult (Unit {0})) (flags : ℕ → Bool) (blocks : List BlockSpec)
    (cursor end : ℕ) (written : List WrittenBlock)
    → write_blocks put flags blocks cursor ≡ ok (written, end)
    → (project_blocks blocks cursor ≡ ok end) × (length written ≡ length blocks)
unfolding write_blocks project_blocks write_block place_block
write_blocks-project_blocks put flags [] cursor end written e = ground arith
write_blocks-project_blocks put flags (block ∷ blocks) cursor end written e =
    let ((first, next), first_done, more) =
      >>=-eq-ok (write_block put (flags 0) block cursor) _ e in
    let ((rest, last), rest_done, done) =
      >>=-eq-ok (write_blocks put (λ n. flags (suc n)) blocks next) _ more in
    let tail =
      write_blocks-project_blocks put (λ n. flags (suc n)) blocks next last rest rest_done in
    ground (arith, tail)

module _ (put_block : ℕ → BlockSpec → WriterResult (Unit {0}))
    (put_bbt : TreePage WrittenBlock → WriterResult (Unit {0}))
    (put_nbt : TreePage NodeEntry → WriterResult (Unit {0})) where
  bbt_pages :
      (first_offset first_page : ℕ) (entries : List WrittenBlock) (root : PageEntry)
      (s : TreeState WrittenBlock)
      → first_page < u64_mod
      → write_bbt put_block put_bbt put_nbt first_offset first_page entries ≡ ok (root, s)
      → (n : ℕ) × (btree_page_count (length entries) 20 20 ≡ ok n)
        × (allocate_pages n first_offset ≡ ok s.next_offset)
        × (s.next_page < u64_mod)
  unfolding write_bbt
  bbt_pages first_offset first_page entries root s low e =
      let (n, counted, allocated, _, below) =
        write_btree-pages (bbt_output put_block put_bbt put_nbt) 20 _ first_offset first_page
          entries root s (omega arith) low e in
      (n, counted, allocated, below)

  nbt_pages :
      (first_offset first_page : ℕ) (entries : List NodeEntry) (root : PageEntry)
      (s : TreeState NodeEntry)
      → first_page < u64_mod
      → write_nbt put_block put_bbt put_nbt first_offset first_page entries ≡ ok (root, s)
      → (n : ℕ) × (btree_page_count (length entries) 15 20 ≡ ok n)
        × (allocate_pages n first_offset ≡ ok s.next_offset)
  unfolding write_nbt
  nbt_pages first_offset first_page entries root s low e =
      let (n, counted, allocated, _, below) =
        write_btree-pages (nbt_output put_block put_bbt put_nbt) 15 _ first_offset first_page
          entries root s (omega arith) low e in
      (n, counted, allocated)

  -- Whenever finalizing a store gets to the end of its file, for whatever the pages and blocks
  -- hold, the projection made from the cursor, the numbers of written blocks and of nodes and the
  -- blocks still to be written is that end. (The blocks are fewer than 2 ^ 64.)
  pub projected_finalized_file_eof-finalized_file_eof :
      (flags : ℕ → Bool) (allocation_cursor : ℕ) (written : List WrittenBlock)
      (blocks : List BlockSpec) (nodes : List NodeEntry) (eof : ℕ)
      → length written + length blocks < u64_mod
      → finalized_file_eof put_block put_bbt put_nbt flags allocation_cursor written blocks nodes
        ≡ ok eof
      → projected_finalized_file_eof allocation_cursor (length written) blocks (length nodes)
        ≡ ok eof
  unfolding finalized_file_eof projected_finalized_file_eof
  projected_finalized_file_eof-finalized_file_eof flags allocation_cursor written blocks nodes eof
        room e =
      let ((final, cursor), blocks_done, more) =
        >>=-eq-ok (write_blocks put_block flags blocks allocation_cursor) _ e in
      let sorted =
        sort_by (λ a b. leb (raw_block_id a.id) (raw_block_id b.id)) (written ++ final) in
      let ((bbt, bs), bbt_done, more') =
        >>=-eq-ok (write_bbt put_block put_bbt put_nbt (align_up cursor page_size) 0x100 sorted) _
          more in
      let ((nbt, ns), nbt_done, last) =
        >>=-eq-ok (write_nbt put_block put_bbt put_nbt bs.next_offset bs.next_page nodes) _ more' in
      let (projected, count) =
        write_blocks-project_blocks put_block flags blocks allocation_cursor cursor final
          blocks_done in
      let (m, m_counted, m_allocated, low) =
        bbt_pages (align_up cursor page_size) 0x100 sorted bbt bs (omega arith) bbt_done in
      let (n, n_counted, n_allocated) =
        nbt_pages bs.next_offset bs.next_page nodes nbt ns low nbt_done in
      let entries : length sorted ≡ length written + length blocks = omega (
        arith,
        count,
        length-sort_by (λ a b. leb (raw_block_id a.id) (raw_block_id b.id)) (written ++ final),
        length-append written final,
      ) in
      rw (projected, lt→ltb _ _ room, ← entries, m_counted, m_allocated, n_counted, n_allocated)
        last
