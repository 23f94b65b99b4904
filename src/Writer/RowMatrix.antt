-- ===== src/Writer/RowMatrix.antt =====
-- The rows of a table: crates/pstforge-pst/src/writer.rs, `append_row_matrix_data_tree`, which fills the
-- blocks with whole rows and pads all blocks but the last.
pub mod Slices
pub mod Framing
mod Tests
use native.Mathlib.Nat.{
  zero-add, suc-add, zero-mul, suc-mul, add_comm, mul-pos, div-mul-le_self, le-div_iff_mul-le,
}
use pstforge.Base.{
  ℕ, zero, suc, ◌+◌, ◌-◌, ◌*◌, ◌/◌, ◌%◌, ◌≤◌, ◌<◌, Bool, true, false, not, ◌||◌, List, [], ◌∷◌,
  ◌++◌, ltb, leb, ◌==◌, checked_add, checked_mul, div_ceil, length, take, drop, replicate, ok,
  ◌>>=◌, ◌>>◌, or_err, guard, >>=-eq-ok, All, All-map, ◌≡◌, refl, sym, ap, ap₂, ◌∙◌, subst,
  length-append, length-replicate, length-take, length-drop, map, append-nil, append_assoc, arith,
  if◌then◌else◌, Returns,
}
use pstforge.Writer.Error.{WriterResult, value_too_large}
use pstforge.Writer.Block.{BlockId, BlockSpec}
use pstforge.Writer.DataTree.{
  max_data_block_payload, chunks_in, chunks, append_data_tree, append_data_tree_sized,
}
use pstforge.Writer.DataTree.RoundTrip.{concat}
use pstforge.Writer.DataTree.Total.{Stores, append_data_tree_sized-Stores}

-- Each chunk of rows, filled up to the size of a block where another one follows.
unfoldable pub frame_chunks : List (List ℕ) → List ℕ
frame_chunks [] = []
frame_chunks (chunk ∷ []) = chunk
frame_chunks (chunk ∷ next ∷ rest) =
    chunk ++ replicate (max_data_block_payload - length chunk) 0 ++ frame_chunks (next ∷ rest)

unfoldable pub rows_per_block : ℕ → ℕ
rows_per_block row_size = max_data_block_payload / row_size

unfoldable pub append_row_matrix_data_tree :
    {S : Type 0}
    → (BlockSpec → S → WriterResult S)
    → List ℕ
    → ℕ
    → ℕ
    → S
    → WriterResult (BlockId × ℕ × S)
append_row_matrix_data_tree sink bytes row_size next s = do
  guard (not (row_size == 0 || ltb max_data_block_payload row_size))
      (value_too_large "table row size")
  let chunk_size = rows_per_block row_size * row_size
  let chunk_count = div_ceil (length bytes) chunk_size
  padding ←
      or_err (checked_mul (chunk_count - 1) (max_data_block_payload - chunk_size))
        (value_too_large "row matrix padding")
  capacity ← or_err (checked_add (length bytes) padding) (value_too_large "row matrix padding")
  append_data_tree sink (frame_chunks (chunks chunk_size bytes)) next s
