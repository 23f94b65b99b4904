-- ===== src/Writer/RowMatrix/Framing.antt =====
-- The row matrices of crates/pstforge-pst/src/writer.rs hold whole rows in each block.
use native.Mathlib.Nat.{zero-mul, suc-mul, add_comm, mul-pos, div-mul-le_self, le-div_iff_mul-le}
use pstforge.Base.{
  ℕ, zero, suc, ◌+◌, ◌-◌, ◌*◌, ◌/◌, ◌≤◌, ◌<◌, not, ◌||◌, List, [], ◌∷◌, ◌++◌, ltb, ◌==◌,
  checked_add, checked_mul, div_ceil, length, take, drop, replicate, ok, or_err, guard, >>=-eq-ok,
  All, All-map, All-both, ◌≡◌, refl, sym, ap, ap₂, ◌∙◌, subst, length-append, length-replicate,
  length-take, length-drop, map, arith,
}
use pstforge.Writer.Error.{value_too_large}
use pstforge.Writer.Block.{BlockId, BlockSpec}
use pstforge.Writer.DataTree.{max_data_block_payload, chunks_in, chunks, append_data_tree, push}
use pstforge.Writer.DataTree.Emission.{IsRun}
use pstforge.Writer.DataTree.RoundTrip.{concat, concat-chunks, All-chunks, IsTree}
use pstforge.Writer.DataTree.Total.{append_data_tree_sized-Stores}
use pstforge.Writer.DataTree.Success.{emit_all-push}
use pstforge.Writer.DataTree.Leaves.{data_payloads, append_data_tree_sized-chunks}
use pstforge.Writer.RowMatrix.{frame_chunks, rows_per_block, append_row_matrix_data_tree}
use pstforge.Writer.RowMatrix.Slices.{
  take_behind, drop_behind, chunks_in_front, take_all, drop_all, chunks_in_nil, chunks_in_last,
}

-- The chunks with their padding.
abbrev pub padded : List (List ℕ) → List (List ℕ)
padded [] = []
padded (chunk ∷ []) = chunk ∷ []
padded (chunk ∷ next ∷ rest) =
    (chunk ++ replicate (max_data_block_payload - length chunk) 0) ∷ padded (next ∷ rest)

abbrev padding : List ℕ → List ℕ
padding part = replicate (max_data_block_payload - length part) 0

full_block :
    (part : List ℕ)
    → length part ≤ max_data_block_payload
    → length (part ++ padding part) ≡ max_data_block_payload
full_block part small = rw (length-append, length-replicate) (omega arith)

positive_front : (front back : List ℕ) → 0 < length front → ¬ (length (front ++ back) ≤ 0)
positive_front [] back pos h = ground arith
positive_front (x ∷ front) back pos h = ground arith

-- Chunks that are not empty and fit a block.
abbrev IsChunks : List (List ℕ) → Type 0
IsChunks = All (λ chunk. (0 < length chunk) × (length chunk ≤ max_data_block_payload))

chunks_in-frame_chunks :
    (fuel : ℕ) (parts : List (List ℕ))
    → IsChunks parts
    → length (frame_chunks parts) ≤ fuel
    → chunks_in fuel max_data_block_payload (frame_chunks parts) ≡ padded parts
unfolding frame_chunks
chunks_in-frame_chunks zero [] fit h = refl
chunks_in-frame_chunks (suc fuel) [] fit h = refl
chunks_in-frame_chunks zero (part ∷ []) fit h = ground (arith, fit.0, h)
chunks_in-frame_chunks (suc fuel) (part ∷ []) fit h =
    chunks_in_last fuel max_data_block_payload part fit.0.0 fit.0.1
chunks_in-frame_chunks zero (part ∷ next ∷ rest) fit h =
    elim (positive_front (part ++ padding part) (frame_chunks (next ∷ rest))
      (rw (full_block part fit.0.1) (omega arith)) h) [ ]
chunks_in-frame_chunks (suc fuel) (part ∷ next ∷ rest) fit h =
    let behind = frame_chunks (next ∷ rest) in
    let full : length (part ++ padding part) ≡ max_data_block_payload = full_block part fit.0.1 in
    let count : length (frame_chunks (part ∷ next ∷ rest))
        ≡ max_data_block_payload + length behind =
      length-append (part ++ padding part) behind ∙ ap (λ n. n + length behind) full in
    chunks_in_front fuel max_data_block_payload (part ++ padding part) behind (omega arith) full
    ∙ ap (λ blocks. (part ++ padding part) ∷ blocks)
        (chunks_in-frame_chunks fuel (next ∷ rest) fit.1 (omega arith))

shorter :
    {A : Type 0} (size fuel : ℕ) (xs ys : List A)
    → 0 < size
    → length xs ≤ suc fuel
    → drop size xs ≡ ys
    → length ys ≤ fuel
shorter size fuel xs ys pos enough e =
    let count = length-drop size xs in let same = ap length e in omega (arith, count, same)

-- Rows of one size, in whole numbers to a chunk.
module _ (row_size : ℕ) (pos : 0 < row_size) where
  abbrev pub AreRows : List (List ℕ) → Type 0
  AreRows = All (λ row. length row ≡ row_size)

  length-rows :
      (rows : List (List ℕ)) → AreRows rows → length (concat rows) ≡ length rows * row_size
  length-rows [] h = rw zero-mul refl
  length-rows (row ∷ rows) h =
      let rest = length-rows rows h.1 in
      let first = h.0 in rw (length-append, suc-mul) (omega arith)

  take_rows :
      (count : ℕ) (rows : List (List ℕ))
      → AreRows rows
      → take (count * row_size) (concat rows) ≡ concat (take count rows)
  take_rows zero rows h = ap (λ n. take n (concat rows)) (zero-mul row_size)
  take_rows (suc count) [] h = take_all (suc count * row_size) [] (omega arith)
  take_rows (suc count) (row ∷ rows) h =
      let same : suc count * row_size ≡ length row + count * row_size =
        rw (suc-mul, h.0) (add_comm (count * row_size) row_size) in
      ap (λ n. take n (row ++ concat rows)) same
      ∙ take_behind row (concat rows) (count * row_size)
      ∙ ap (row ++◌) (take_rows count rows h.1)

  drop_rows :
      (count : ℕ) (rows : List (List ℕ))
      → AreRows rows
      → drop (count * row_size) (concat rows) ≡ concat (drop count rows)
  drop_rows zero rows h = ap (λ n. drop n (concat rows)) (zero-mul row_size)
  drop_rows (suc count) [] h = drop_all (suc count * row_size) [] (omega arith)
  drop_rows (suc count) (row ∷ rows) h =
      let same : suc count * row_size ≡ length row + count * row_size =
        rw (suc-mul, h.0) (add_comm (count * row_size) row_size) in
      ap (λ n. drop n (row ++ concat rows)) same
      ∙ drop_behind row (concat rows) (count * row_size)
      ∙ drop_rows count rows h.1

  AreRows-drop : (count : ℕ) (rows : List (List ℕ)) → AreRows rows → AreRows (drop count rows)
  AreRows-drop zero rows h = h
  AreRows-drop (suc count) [] h = h
  AreRows-drop (suc count) (row ∷ rows) h = AreRows-drop count rows h.1

  -- The chunks of the bytes of rows are the bytes of chunks of rows.
  chunks_in_rows :
      (count fuel fuel' : ℕ) (rows : List (List ℕ))
      → 0 < count
      → AreRows rows
      → length (concat rows) ≤ fuel
      → length rows ≤ fuel'
      → chunks_in fuel (count * row_size) (concat rows) ≡ map concat (chunks_in fuel' count rows)
  chunks_in_rows count fuel fuel' [] some h enough enough' =
      chunks_in_nil fuel (count * row_size) ∙ ap (map concat) (sym (chunks_in_nil fuel' count))
  chunks_in_rows count fuel zero (row ∷ rows) some h enough enough' = ground arith
  chunks_in_rows count fuel (suc fuel') ([] ∷ rows) some h enough enough' =
      let no_byte = h.0 in ground (arith, no_byte, pos)
  chunks_in_rows count zero (suc fuel') ((x ∷ row) ∷ rows) some h enough enough' = ground arith
  chunks_in_rows count (suc fuel) (suc fuel') ((x ∷ row) ∷ rows) some h enough enough' =
      let all = (x ∷ row) ∷ rows in
      let size_pos : 0 < count * row_size = mul-pos some pos in
      let dropped = drop_rows count all h in
      let less : length (concat (drop count all)) ≤ fuel =
        shorter (count * row_size) fuel (concat all) (concat (drop count all)) size_pos enough
          dropped in
      let less' : length (drop count all) ≤ fuel' =
        shorter count fuel' all (drop count all) some enough' refl in
      ap₂ (λ chunk rest. chunk ∷ rest) (take_rows count all h)
        (ap (chunks_in fuel (count * row_size)) dropped
          ∙ chunks_in_rows count fuel fuel' (drop count all) some (AreRows-drop count all h) less
              less')

  chunks_in_nonempty :
      (size fuel : ℕ) (xs : List ℕ)
      → 0 < size
      → All (λ chunk. 0 < length chunk) (chunks_in fuel size xs)
  chunks_in_nonempty size zero xs some = tt
  chunks_in_nonempty size (suc fuel) [] some = tt
  chunks_in_nonempty size (suc fuel) (x ∷ xs) some =
      (rw length-take (omega arith), chunks_in_nonempty size fuel (drop size (x ∷ xs)) some)

  -- The rows of each block, and what follows them in the block.
  abbrev pub blocks_of_rows : List (List ℕ) → List (List ℕ)
  blocks_of_rows rows = padded (map concat (chunks (max_data_block_payload / row_size) rows))

  -- What is pushed for the rows: blocks with consecutive indices, of which those that hold data are the
  -- blocks of rows in their order, and a tree of all of these bytes under the root.
  pub record IsRowMatrix (rows : List (List ℕ)) (next : ℕ) (root : BlockId) (end : ℕ)
      (pushed : List BlockSpec) : Type 0 where
    pub run : IsRun next pushed
    pub count : end ≡ next + length pushed
    pub data_blocks : data_payloads pushed ≡ blocks_of_rows rows
    pub tree : IsTree pushed root (concat (blocks_of_rows rows))

  -- When rows of one size have been appended, a row is no larger than a block, and the blocks that are
  -- pushed have consecutive indices from the next one on. Those of them that hold data have, in their
  -- order, as many whole rows each as fit into 8,176 bytes (the last one the rows that are left), one
  -- behind the other, and in all but the last zeros behind the rows up to 8,176 bytes: no row stands in
  -- two blocks. From the root a reader that checks the format finds the bytes of these blocks.
  pub append_row_matrix_data_tree-blocks_of_rows :
      (rows : List (List ℕ)) (next : ℕ) (blocks : List BlockSpec)
      (out : BlockId × ℕ × List BlockSpec)
      → AreRows rows
      → append_row_matrix_data_tree push (concat rows) row_size next blocks ≡ ok out
      → (row_size ≤ max_data_block_payload)
        × ((pushed : List BlockSpec) × (out.2 ≡ blocks ++ pushed)
            × IsRowMatrix rows next out.0 out.1 pushed)
  unfolding append_row_matrix_data_tree rows_per_block append_data_tree
  append_row_matrix_data_tree-blocks_of_rows rows next blocks out h e =
      let bytes = concat rows in
      let count = max_data_block_payload / row_size in
      let size = count * row_size in
      let (_, sized, e1) =
        >>=-eq-ok
          (guard (not (row_size == 0 || ltb max_data_block_payload row_size))
            (value_too_large "table row size"))
          _ e in
      let (padding, padded_by, e2) =
        >>=-eq-ok
          (or_err (checked_mul (div_ceil (length bytes) size - 1) (max_data_block_payload - size))
            (value_too_large "row matrix padding"))
          _ e1 in
      let (capacity, allocated, e3) =
        >>=-eq-ok
          (or_err (checked_add (length bytes) padding) (value_too_large "row matrix padding")) _
          e2 in
      let small : row_size ≤ max_data_block_payload = ground (arith, sized) in
      let some_row : 0 < count = (le-div_iff_mul-le pos).1 (one_row small) in
      let room : size ≤ max_data_block_payload = div-mul-le_self max_data_block_payload row_size in
      let parts = chunks size bytes in
      let fit : IsChunks parts =
        All-both (λ part. 0 < length part) (λ part. length part ≤ max_data_block_payload) parts
          (chunks_in_nonempty size (length bytes) bytes (mul-pos some_row pos))
          (All-map (λ part. length part ≤ size) (λ part. length part ≤ max_data_block_payload)
            (λ part k. omega (arith, k, room)) parts (All-chunks size bytes)) in
      let framed = frame_chunks parts in
      let in_rows : chunks max_data_block_payload framed ≡ blocks_of_rows rows =
        chunks_in-frame_chunks (length framed) parts fit (omega arith)
        ∙ ap padded (
            chunks_in_rows count (length bytes) (length rows) rows some_row h (omega arith)
              (omega arith)) in
      let whole : framed ≡ concat (blocks_of_rows rows) =
        sym (concat-chunks max_data_block_payload (omega arith) framed) ∙ ap concat in_rows in
      let (pushed, emitted, tree) =
        append_data_tree_sized-Stores push framed max_data_block_payload next blocks out
          (omega arith) (omega arith) e3 in
      let behind = emit_all-push pushed blocks out.2 emitted.runs in
      (
        small,
        (
          pushed,
          behind,
          record {
            run = emitted.run;
            count = emitted.count;
            data_blocks =
                append_data_tree_sized-chunks framed max_data_block_payload next blocks pushed out
                  e3 behind
                ∙ in_rows;
            tree = subst (IsTree pushed out.0) whole tree;
          },
        ),
      )
    where
      one_row : row_size ≤ max_data_block_payload → 1 * row_size ≤ max_data_block_payload
      one_row small = omega arith
