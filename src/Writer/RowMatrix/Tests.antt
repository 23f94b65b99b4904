-- ===== src/Writer/RowMatrix/Tests.antt =====
-- A run of the row matrices of crates/pstforge-pst/src/writer.rs, and their theorem there.
use pstforge.Base.{ℕ, ◌≤◌, false, List, [], ◌∷◌, ◌++◌, ok, ◌≡◌, refl, arith}
use pstforge.Writer.Block.{BlockId, BlockSpec, data_bytes, new_block_id}
use pstforge.Writer.DataTree.{
  push, max_data_block_payload, append_data_tree, append_data_tree_sized, append_levels,
  append_chunks, append_block, take_block_id,
}
use pstforge.Writer.RowMatrix.{append_row_matrix_data_tree, rows_per_block, frame_chunks}
use pstforge.Writer.RowMatrix.Framing.{IsRowMatrix, append_row_matrix_data_tree-blocks_of_rows}

abbrev two_rows : List (List ℕ)
two_rows = (1 ∷ 2 ∷ []) ∷ (3 ∷ 4 ∷ []) ∷ []

abbrev rows_out : BlockId × ℕ × List BlockSpec
rows_out =
    let id : BlockId = record { internal = false; index = 5 } in
    (id, 6, record { id = id; payload = data_bytes (1 ∷ 2 ∷ 3 ∷ 4 ∷ []); ref_count = 2 } ∷ [])

append_row_matrix_data_tree_runs :
    append_row_matrix_data_tree push (1 ∷ 2 ∷ 3 ∷ 4 ∷ []) 2 5 [] ≡ ok rows_out
unfolding append_row_matrix_data_tree rows_per_block frame_chunks append_data_tree
    append_data_tree_sized append_levels append_chunks append_block take_block_id new_block_id
append_row_matrix_data_tree_runs = refl

append_row_matrix_data_tree-blocks_of_rows_example :
    (2 ≤ max_data_block_payload)
    × ((pushed : List BlockSpec) × (rows_out.2 ≡ [] ++ pushed)
        × IsRowMatrix 2 (omega arith) two_rows 5 rows_out.0 6 pushed)
append_row_matrix_data_tree-blocks_of_rows_example =
    append_row_matrix_data_tree-blocks_of_rows 2 (omega arith) two_rows 5 [] rows_out
      (refl, (refl, tt)) append_row_matrix_data_tree_runs
