-- ===== src/Writer/DataTree/Deferred.antt =====
-- The extents that the projection of a payload gives its blocks, against those of the payload when it
-- is written: crates/pstforge-pst/src/writer.rs, `BlockStream::emit` with and without a file.
use pstforge.Base.{
  ℕ, ◌<◌, Bool, true, false, List, [], ◌∷◌, ◌++◌, Option, none, some, length, ok, >>=-eq-ok, ◌≡◌,
  refl, sym, ap, ◌∙◌,
}
use pstforge.Writer.Error.{WriterResult}
use pstforge.Writer.Block.{
  BlockId, BlockSpec, BlockPayload, WrittenBlock, data_bytes, projected_data, subnode,
  intermediate_subnode, data_tree, logical_size, place_block, write_block, write_blocks,
  check_interrupted,
}
use pstforge.Writer.Block.Layout.{write_block-place_block}
use pstforge.Writer.Stream.{BlockStream, emit}
use pstforge.Writer.DataTree.RoundTrip.{ok_injective}
use pstforge.Writer.DataTree.Stream.{Reader, append_reader_data_tree, append_declared_data_tree}
use pstforge.Writer.DataTree.Streamed.{IsStream, append_reader_data_tree-ReadAndStored}
use pstforge.Writer.DataTree.Projected.{
  as_projected, projected_block, IsProjection, declared_projected,
}

logical_size-as_projected :
    (payload : BlockPayload) → logical_size (as_projected payload) ≡ logical_size payload
unfolding logical_size
logical_size-as_projected (data_bytes bytes) = refl
logical_size-as_projected (projected_data size) = refl
logical_size-as_projected (subnode entries) = refl
logical_size-as_projected (intermediate_subnode level entries) = refl
logical_size-as_projected (data_tree level total entries) = refl

place_block-projected_block :
    (block : BlockSpec) (cursor : ℕ)
    → place_block (projected_block block) cursor ≡ place_block block cursor
unfolding place_block
place_block-projected_block block cursor = rw (logical_size-as_projected block.payload) refl

write_block-check_interrupted :
    (put : ℕ → BlockSpec → WriterResult (Unit {0})) (flag : Bool) (block : BlockSpec) (cursor : ℕ)
    (out : WrittenBlock × ℕ)
    → write_block put flag block cursor ≡ ok out
    → check_interrupted flag ≡ ok tt
unfolding write_block check_interrupted
write_block-check_interrupted put true block cursor out e = cc
write_block-check_interrupted put false block cursor out e = refl

module _ (flags : ℕ → Bool) (put : ℕ → BlockSpec → WriterResult (Unit {0})) where
  -- A block that is written takes the extent that it would be given without a file.
  emit-IsProjection : IsProjection (emit flags (some put)) (emit flags none)
  unfolding emit write_blocks
  emit-IsProjection block s s' e =
      let flag = flags (length s.written) in
      let ((blocks, next), wrote, last) =
        >>=-eq-ok (write_blocks put (λ _. flag) (block ∷ []) s.cursor) _ e in
      let ((placed, after), first, more) =
        >>=-eq-ok (write_block put flag block s.cursor) _ wrote in
      let not_interrupted =
        write_block-check_interrupted put flag block s.cursor (placed, after) first in
      let same =
        place_block-projected_block block s.cursor
        ∙ write_block-place_block put flag block s.cursor after placed first in
      let joined : List WrittenBlock × ℕ → WriterResult BlockStream =
        λ out. ok (record { cursor = out.1; written = s.written ++ out.0 }) in
      rw (not_interrupted, same) (ap joined (ok_injective more) ∙ last)

  -- When a payload of at least one byte has been read, checked and written to a stream with a file, the
  -- projection of that payload from the same stream and block index, with its length alone and no file,
  -- succeeds with the same root, size, next block index, cursor, and list of written blocks.
  pub append_declared_data_tree-append_reader_data_tree :
      (reader : Reader) (left : reader.Source → List ℕ) (digest : List ℕ → ℕ)
      (source : reader.Source) (byte_len : ℕ) (expected : Option ℕ) (require_eof : Bool) (next : ℕ)
      (stream : BlockStream) (out : (BlockId × ℕ × ℕ) × ℕ × BlockStream)
      → IsStream reader left
      → 0 < byte_len
      → append_reader_data_tree
          (emit flags (some put))
          reader
          digest
          source
          byte_len
          expected
          require_eof
          next
          stream
        ≡ ok out
      → append_declared_data_tree (emit flags none) byte_len next stream
        ≡ ok ((out.0.0, out.0.1), out.1, out.2)
  append_declared_data_tree-append_reader_data_tree reader left digest source byte_len expected
        require_eof next stream out promised some_byte e =
      let size =
        (append_reader_data_tree-ReadAndStored (emit flags (some put)) reader left promised digest
          source byte_len expected require_eof next stream out e).size in
      declared_projected (emit flags (some put)) (emit flags none) emit-IsProjection reader left
        promised digest source byte_len expected require_eof next stream out some_byte e
      ∙ ap (λ n. ok ((out.0.0, n), out.1, out.2)) (sym size)
