-- ===== src/Writer/DataTree/Success.antt =====
-- When `append_data_tree` of crates/pstforge-pst/src/writer.rs succeeds: its bounds on the bytes, the
-- entries and the block ids.
use pstforge.Base.{
  ℕ, zero, suc, ◌+◌, ◌*◌, ◌^◌, ◌≤◌, ◌<◌, ◌-◌, Bool, true, false, List, [], ◌∷◌, ◌++◌, map, String,
  ltb, u32_mod, length, drop, ok, Returns, ◌≡◌, refl, ap, ◌∙◌, append-nil, append_assoc,
  length-append, length-drop, Option-cases, inl, inr, arith, le→leb, lt→ltb,
}
use pstforge.Writer.Block.{BlockId, BlockSpec, BlockPayload, data_bytes, data_tree, new_block_id}
use pstforge.Writer.DataTree.{
  TreeEntry, TreeReasons, max_data_block_payload, max_data_tree_entries, chunks_in, chunks, only,
  add_sizes, append_block, append_parent, append_numbered_parent, append_chunks, append_groups,
  append_root, append_levels, append_data_tree_sized, append_data_tree, take_block_id, data_reasons,
  push,
}
use pstforge.Writer.DataTree.Contents.{Reads, Reads-split}
use pstforge.Writer.DataTree.Emission.{IsRun, Emitted, Emitted-start, emit_all}
use pstforge.Writer.DataTree.RoundTrip.{
  concat, concat-chunks, All-chunks, IsTree, append_chunks-Emits, append_groups-Emits,
  append_numbered_parent-append_parent,
}
use pstforge.Writer.DataTree.Total.{append_data_tree_sized-Stores}

abbrev pub max_ids : ℕ
max_ids = 2 ^ 62

append_block_succeeds :
    (internal : Bool) (payload : BlockPayload) (next : ℕ) (blocks : List BlockSpec)
    → next < max_ids
    → (out : BlockId × ℕ × List BlockSpec) × (append_block push internal payload next blocks
        ≡ ok out)
      × (out.1 ≡ suc next)
unfolding append_block take_block_id new_block_id
append_block_succeeds internal payload next blocks h =
    let id : BlockId = record { internal = internal; index = next } in
    let block : BlockSpec = record { id = id; payload = payload; ref_count = 2 } in
    ((id, next + 1, blocks ++ block ∷ []), ground arith, omega arith)

add_sizes_succeeds :
    (level : ℕ) (all : List BlockSpec) (reason : String) (entries : List TreeEntry) (bytes : List ℕ)
    (total : ℕ)
    → Reads level all entries bytes
    → total + length bytes < u32_mod
    → add_sizes reason total entries ≡ ok (total + length bytes)
unfolding add_sizes
add_sizes_succeeds level all reason [] bytes total h small = rw h (ap ok (omega arith))
add_sizes_succeeds level all reason (entry ∷ entries) bytes total
      (part, rest, here, size, there, whole) small =
    let sum : length bytes ≡ length part + length rest =
      ap length whole ∙ length-append part rest in
    let later =
      add_sizes_succeeds level all reason entries rest (total + entry.1) there (omega arith) in
    let fits : ltb (total + entry.1) u32_mod ≡ true = lt→ltb _ _ (omega arith) in
    rw (fits, later) (ap ok (omega arith))

below_multiple : (size count n : ℕ) → suc n ≤ suc count * size → suc n - size ≤ count * size
below_multiple size count n h = grind (arith, h)

pub length-chunks_in :
    {A : Type 0} (size fuel count : ℕ) (xs : List A)
    → length xs ≤ count * size
    → length (chunks_in fuel size xs) ≤ count
length-chunks_in size zero count xs h = omega arith
length-chunks_in size (suc fuel) count [] h = omega arith
length-chunks_in size (suc fuel) zero (x ∷ xs) h = ground arith
length-chunks_in size (suc fuel) (suc count) (x ∷ xs) h =
    let rest : length (drop size (x ∷ xs)) ≤ count * size =
      rw length-drop (below_multiple size count (length xs) h) in
    omega (arith, length-chunks_in size fuel count (drop size (x ∷ xs)) rest)

append_numbered_parent_succeeds :
    (all : List BlockSpec) (reason : String) (entries : List TreeEntry) (bytes : List ℕ) (next : ℕ)
    (blocks : List BlockSpec)
    → Reads 0 all entries bytes
    → length bytes < u32_mod
    → next < max_ids
    → (out : TreeEntry × ℕ × List BlockSpec) × (append_numbered_parent push 1 reason entries next
          blocks
        ≡ ok out)
      × (out.1 ≡ suc next)
unfolding append_numbered_parent take_block_id new_block_id
append_numbered_parent_succeeds all reason entries bytes next blocks reads small h =
    let sum = add_sizes_succeeds 0 all reason entries bytes 0 reads (omega arith) in
    let near : ltb (next + 1) 18446744073709551616 ≡ true = lt→ltb _ _ (omega arith) in
    let valid : ltb next (2 ^ 62) ≡ true = lt→ltb _ _ h in
    let id : BlockId = record { internal = true; index = next } in
    let block : BlockSpec = record {
      id = id;
      payload = data_tree 1 (0 + length bytes) (map (λ entry. entry.0) entries);
      ref_count = 2;
    } in
    (
      ((id, 0 + length bytes), next + 1, blocks ++ block ∷ []),
      rw (near, valid, sum) refl,
      omega arith,
    )

append_chunks_succeeds :
    (parts : List (List ℕ)) (next : ℕ) (blocks : List BlockSpec)
    → next + length parts ≤ max_ids
    → (out : List TreeEntry × ℕ × List BlockSpec) × (append_chunks push parts next blocks ≡ ok out)
      × (out.1 ≡ next + length parts)
      × (length out.0 ≡ length parts)
unfolding append_chunks
append_chunks_succeeds [] next blocks h = (([], next, blocks), refl, omega arith, refl)
append_chunks_succeeds (part ∷ parts) next blocks h =
    let (leaf, first, after) =
      append_block_succeeds false (data_bytes part) next blocks (omega arith) in
    let (out, done, ends, count) = append_chunks_succeeds parts leaf.1 leaf.2 (omega arith) in
    (
      ((leaf.0, length part) ∷ out.0, out.1, out.2),
      rw (first, done) refl,
      omega arith,
      ap suc count,
    )

append_groups_succeeds :
    (all : List BlockSpec) (reason : String) (groups : List (List TreeEntry)) (bytes : List ℕ)
    (next : ℕ) (blocks : List BlockSpec)
    → Reads 0 all (concat groups) bytes
    → length bytes < u32_mod
    → next + length groups ≤ max_ids
    → (out : List TreeEntry × ℕ × List BlockSpec) × (append_groups push
          (append_numbered_parent push 1 reason)
          groups
          next
          blocks
        ≡ ok out)
      × (out.1 ≡ next + length groups)
      × (length out.0 ≡ length groups)
unfolding append_groups
append_groups_succeeds all reason [] bytes next blocks reads small h =
    (([], next, blocks), refl, omega arith, refl)
append_groups_succeeds all reason (group ∷ groups) bytes next blocks reads small h =
    let (front, back, one, other, whole) = Reads-split 0 all group (concat groups) bytes reads in
    let sum : length bytes ≡ length front + length back =
      ap length whole ∙ length-append front back in
    let (entry, made, after) =
      append_numbered_parent_succeeds all reason group front next blocks one (omega arith)
        (omega arith) in
    let (out, done, ends, count) =
      append_groups_succeeds all reason groups back entry.1 entry.2 other (omega arith)
        (omega arith) in
    ((entry.0 ∷ out.0, out.1, out.2), rw (made, done) refl, omega arith, ap suc count)

append_root_succeeds :
    (all : List BlockSpec) (reasons : TreeReasons) (xblocks : List TreeEntry) (bytes : List ℕ)
    (next : ℕ) (blocks : List BlockSpec)
    → Reads 1 all xblocks bytes
    → length bytes < u32_mod
    → length xblocks ≤ max_data_tree_entries
    → next < max_ids
    → (out : BlockId × ℕ × List BlockSpec) × (append_root push reasons xblocks next blocks ≡ ok out)
unfolding append_root append_parent
append_root_succeeds all reasons xblocks bytes next blocks reads small few h =
    elim (Option-cases (only xblocks)) [
      | inl several ↦
          let sum =
            add_sizes_succeeds 1 all reasons.xxblock_size xblocks bytes 0 reads (omega arith) in
          let payload = data_tree 2 (0 + length bytes) (map (λ entry. entry.0) xblocks) in
          let (out, made, after) = append_block_succeeds true payload next blocks h in
          let room = le→leb (length xblocks) max_data_tree_entries few in
          (out, rw (append_root, several, room, append_parent, sum, made) refl)
      | inr (xblock, single) ↦ ((xblock.0, next, blocks), rw (append_root, single) refl)
    ]

pub emit_all-push :
    (blocks before out : List BlockSpec)
    → emit_all push blocks before ≡ ok out
    → out ≡ before ++ blocks
emit_all-push [] before out e = rw append-nil (ground arith)
emit_all-push (block ∷ blocks) before out e =
    emit_all-push blocks (before ++ block ∷ []) out e ∙ append_assoc before (block ∷ []) blocks

append_levels_succeeds :
    (first : ℕ) (start : List BlockSpec) (all : List BlockSpec) (leaves : List TreeEntry)
    (bytes : List ℕ) (next : ℕ) (blocks : List BlockSpec)
    → Reads 0 all leaves bytes
    → Emitted push start first all next blocks
    → length bytes < u32_mod
    → length leaves ≤ 262_658
    → next + 1000 ≤ max_ids
    → (out : BlockId × ℕ × List BlockSpec) × (append_levels push
          (append_numbered_parent push 1 data_reasons.tree_size)
          data_reasons
          leaves
          next
          blocks
        ≡ ok out)
unfolding append_levels
append_levels_succeeds first start all leaves bytes next blocks reads h small few room =
    elim (Option-cases (only leaves)) [
      | inl several ↦
          let reason = data_reasons.tree_size in
          let groups = chunks max_data_tree_entries leaves in
          let some_groups =
            length-chunks_in max_data_tree_entries (length leaves) 258 leaves (omega arith) in
          let whole : Reads 0 all (concat groups) bytes =
            rw (concat-chunks max_data_tree_entries (omega arith) leaves) reads in
          let (found, grouped, ends, count) =
            append_groups_succeeds all reason groups bytes next blocks whole small (omega arith) in
          let (here, emitted, reads') =
            append_groups-Emits push start first (append_numbered_parent push 1 reason) reason
              (append_numbered_parent-append_parent push start first 1 reason) groups bytes all next
              blocks found (All-chunks max_data_tree_entries leaves) whole h grouped in
          let (out, rooted) =
            append_root_succeeds (all ++ here) data_reasons found.0 bytes found.1 found.2 reads'
              small (omega arith) (omega arith) in
          (out, rw (append_levels, several, grouped) rooted)
      | inr (leaf, single) ↦ ((leaf.0, next, blocks), rw (append_levels, single) refl)
    ]

append_data_tree_terminates :
    (bytes : List ℕ) (next : ℕ) (blocks : List BlockSpec)
    → length bytes < 2 ^ 31
    → next + 2 ^ 20 ≤ max_ids
    → (out : BlockId × ℕ × List BlockSpec) × (append_data_tree_sized push bytes
          max_data_block_payload next blocks
        ≡ ok out)
unfolding append_data_tree_sized
append_data_tree_terminates bytes next blocks small room =
    let parts = chunks max_data_block_payload bytes in
    let few = length-chunks_in max_data_block_payload (length bytes) 262_658 bytes (omega arith) in
    let (leaves, chunked, ends, count) = append_chunks_succeeds parts next blocks (omega arith) in
    let (all, emitted, reads) =
      append_chunks-Emits push blocks next parts [] next blocks leaves
        (All-chunks max_data_block_payload bytes) (Emitted-start push blocks next) chunked in
    let whole : Reads 0 all leaves.0 bytes =
      rw (concat-chunks max_data_block_payload (omega arith) bytes) at reads in
    let (out, rooted) =
      append_levels_succeeds next blocks all leaves.0 bytes leaves.1 leaves.2 whole emitted
        (omega arith) (omega arith) (omega arith) in
    (out, rw chunked rooted)

-- The vector has the blocks of a tree of the bytes behind what it had.
abbrev pub Appends : ℕ → List BlockSpec → List ℕ → BlockId × ℕ × List BlockSpec → Type 0
Appends next blocks bytes out =
    (more : List BlockSpec) × (out.2 ≡ blocks ++ more)
    × IsRun next more
    × (out.1 ≡ next + length more)
    × IsTree more out.0 bytes

-- For fewer than 2 ^ 31 bytes, and at least 2 ^ 20 block indices left, `append_data_tree` succeeds, empty
-- payloads included: it adds blocks with consecutive indices behind those that it is given, and from the
-- root a reader that checks the format (the level, the count of entries, the sizes) finds the bytes.
pub append_data_tree-Appends :
    (bytes : List ℕ) (next : ℕ) (blocks : List BlockSpec)
    → length bytes < 2 ^ 31
    → next + 2 ^ 20 ≤ max_ids
    → Returns (Appends next blocks bytes) (append_data_tree push bytes next blocks)
unfolding append_data_tree
append_data_tree-Appends bytes next blocks small room =
    let (out, done) = append_data_tree_terminates bytes next blocks small room in
    let (more, emitted, tree) =
      append_data_tree_sized-Stores push bytes max_data_block_payload next blocks out (omega arith)
        (omega arith) done in
    rw done (more, emit_all-push more blocks out.2 emitted.runs, emitted.run, emitted.count, tree)
