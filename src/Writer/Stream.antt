-- ===== src/Writer/Stream.antt =====
-- `BlockStream` of crates/pstforge-pst/src/writer.rs: blocks that are written to the output as they are
-- made or, with no file, only placed. `put` stands for the file, as in Writer/Block; the flag of a
-- signal is looked at once for each block, and `flags` has its value by the count of blocks before.
use pstforge.Base.{ℕ, Bool, List, [], ◌∷◌, ◌++◌, Option, none, some, length, ok, ◌>>=◌, ◌>>◌}
use pstforge.Writer.Error.{WriterResult}
use pstforge.Writer.Block.{BlockSpec, WrittenBlock, write_blocks, place_block, check_interrupted}

pub record BlockStream : Type 0 where
  pub cursor : ℕ
  pub written : List WrittenBlock

module _ (flags : ℕ → Bool) where
  unfoldable pub emit :
      Option (ℕ → BlockSpec → WriterResult (Unit {0}))
      → BlockSpec
      → BlockStream
      → WriterResult BlockStream
  emit (some put) block stream = do
    (blocks, next) ←
        write_blocks put (λ _. flags (length stream.written)) (block ∷ []) stream.cursor
    ok (record { cursor = next; written = stream.written ++ blocks })
  emit none block stream = do
    check_interrupted (flags (length stream.written))
    (placed, next) ← place_block block stream.cursor
    ok (record { cursor = next; written = stream.written ++ placed ∷ [] })
