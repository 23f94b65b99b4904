-- ===== src/Writer/DataTree/Leaves.antt =====
-- Which blocks of the trees of crates/pstforge-pst/src/writer.rs hold data: those of the chunks, in their
-- order, and no others.
use pstforge.Base.{
  ℕ, Bool, true, false, List, [], ◌∷◌, ◌++◌, map, leb, length, ok, guard, >>=-eq-ok, ◌≡◌, refl, sym,
  drop, ap, ◌∙◌, subst, append-nil, append_assoc, Option-cases, inl, inr, String,
}
use pstforge.Writer.Error.{WriterResult, value_too_large}
use pstforge.Writer.Block.{BlockId, BlockSpec, BlockPayload, data_bytes, data_tree}
use pstforge.Writer.DataTree.{
  TreeEntry, TreeReasons, max_data_tree_entries, chunks, only, push, take_block_id, append_block,
  append_parent, append_numbered_parent, append_chunks, append_groups, append_root, append_levels,
  append_data_tree_sized, add_sizes, data_reasons,
}
use pstforge.Writer.DataTree.RoundTrip.{append_numbered_parent-append_parent, ok_injective}

abbrev data_of : BlockPayload → List (List ℕ)
data_of (data_bytes bytes) = bytes ∷ []
data_of _ = []

-- The bytes of each of the blocks that hold bytes.
abbrev pub data_payloads : List BlockSpec → List (List ℕ)
data_payloads [] = []
data_payloads (block ∷ blocks) = data_of block.payload ++ data_payloads blocks

data_payloads-append :
    (front back : List BlockSpec)
    → data_payloads (front ++ back) ≡ data_payloads front ++ data_payloads back
data_payloads-append [] back = refl
data_payloads-append (block ∷ front) back =
    ap (data_of block.payload ++◌) (data_payloads-append front back)
    ∙ sym (append_assoc (data_of block.payload) (data_payloads front) (data_payloads back))

append_block-data_payloads :
    (internal : Bool) (payload : BlockPayload) (next : ℕ) (blocks : List BlockSpec)
    (out : BlockId × ℕ × List BlockSpec)
    → append_block push internal payload next blocks ≡ ok out
    → data_payloads out.2 ≡ data_payloads blocks ++ data_of payload
unfolding append_block
append_block-data_payloads internal payload next blocks out e =
    let (taken, _, more) = >>=-eq-ok (take_block_id internal next) _ e in
    let block : BlockSpec = record { id = taken.0; payload = payload; ref_count = 2 } in
    subst (λ out. data_payloads out.2 ≡ data_payloads blocks ++ data_of payload) (ok_injective more)
      (data_payloads-append blocks (block ∷ [])
        ∙ ap (data_payloads blocks ++◌) (append-nil (data_of payload)))

append_chunks-data_payloads :
    (parts : List (List ℕ)) (next : ℕ) (blocks : List BlockSpec)
    (out : List TreeEntry × ℕ × List BlockSpec)
    → append_chunks push parts next blocks ≡ ok out
    → data_payloads out.2 ≡ data_payloads blocks ++ parts
unfolding append_chunks
append_chunks-data_payloads [] next blocks out e =
    subst (λ out. data_payloads out.2 ≡ data_payloads blocks ++ []) (ok_injective e)
      (sym (append-nil (data_payloads blocks)))
append_chunks-data_payloads (part ∷ parts) next blocks out e =
    let (block, appended, more) =
      >>=-eq-ok (append_block push false (data_bytes part) next blocks) _ e in
    let (rest, rest_done, last) = >>=-eq-ok (append_chunks push parts block.1 block.2) _ more in
    subst (λ out. data_payloads out.2 ≡ data_payloads blocks ++ part ∷ parts) (ok_injective last)
      (append_chunks-data_payloads parts block.1 block.2 rest rest_done
        ∙ ap (◌++ parts)
            (append_block-data_payloads false (data_bytes part) next blocks block appended)
        ∙ append_assoc (data_payloads blocks) (part ∷ []) parts)

append_parent-data_payloads :
    (level : ℕ) (reason : String) (entries : List TreeEntry) (next : ℕ) (blocks : List BlockSpec)
    (out : TreeEntry × ℕ × List BlockSpec)
    → append_parent push level reason entries next blocks ≡ ok out
    → data_payloads out.2 ≡ data_payloads blocks
unfolding append_parent
append_parent-data_payloads level reason entries next blocks out e =
    let (total, added, more) = >>=-eq-ok (add_sizes reason 0 entries) _ e in
    let payload = data_tree level total (map (λ entry. entry.0) entries) in
    let (block, appended, last) = >>=-eq-ok (append_block push true payload next blocks) _ more in
    subst (λ out. data_payloads out.2 ≡ data_payloads blocks) (ok_injective last)
      (append_block-data_payloads true payload next blocks block appended
        ∙ append-nil (data_payloads blocks))

abbrev numbered :
    List TreeEntry → ℕ → List BlockSpec → WriterResult (TreeEntry × ℕ × List BlockSpec)
numbered = append_numbered_parent push 1 data_reasons.tree_size

append_groups-data_payloads :
    (groups : List (List TreeEntry)) (next : ℕ) (blocks : List BlockSpec)
    (out : List TreeEntry × ℕ × List BlockSpec)
    → append_groups push numbered groups next blocks ≡ ok out
    → data_payloads out.2 ≡ data_payloads blocks
unfolding append_groups
append_groups-data_payloads [] next blocks out e =
    ap (λ out. data_payloads out.2) (sym (ok_injective e))
append_groups-data_payloads (group ∷ groups) next blocks out e =
    let (parent, appended, more) = >>=-eq-ok (numbered group next blocks) _ e in
    let (rest, rest_done, last) =
      >>=-eq-ok (append_groups push numbered groups parent.1 parent.2) _ more in
    subst (λ out. data_payloads out.2 ≡ data_payloads blocks) (ok_injective last)
      (append_groups-data_payloads groups parent.1 parent.2 rest rest_done
        ∙ append_parent-data_payloads 1 data_reasons.tree_size group next blocks parent (
            append_numbered_parent-append_parent push blocks next 1 data_reasons.tree_size group
              next blocks parent appended))

append_root-data_payloads :
    (reasons : TreeReasons) (xblocks : List TreeEntry) (next : ℕ) (blocks : List BlockSpec)
    (out : BlockId × ℕ × List BlockSpec)
    → append_root push reasons xblocks next blocks ≡ ok out
    → data_payloads out.2 ≡ data_payloads blocks
unfolding append_root
append_root-data_payloads reasons xblocks next blocks out e = elim (Option-cases (only xblocks)) [
  | inl several ↦
      let (_, few, more) =
        >>=-eq-ok
          (guard (leb (length xblocks) max_data_tree_entries)
            (value_too_large reasons.xblock_count))
          _ (rw (append_root, several) at e) in
      let (root, appended, last) =
        >>=-eq-ok (append_parent push 2 reasons.xxblock_size xblocks next blocks) _ more in
      subst (λ out. data_payloads out.2 ≡ data_payloads blocks) (ok_injective last)
        (append_parent-data_payloads 2 reasons.xxblock_size xblocks next blocks root appended)
  | inr (xblock, single) ↦
      let done : (xblock.0, next, blocks) ≡ out = ok_injective (rw (append_root, single) at e) in
      ap (λ out. data_payloads out.2) (sym done)
]

append_levels-data_payloads :
    (leaves : List TreeEntry) (next : ℕ) (blocks : List BlockSpec)
    (out : BlockId × ℕ × List BlockSpec)
    → append_levels push numbered data_reasons leaves next blocks ≡ ok out
    → data_payloads out.2 ≡ data_payloads blocks
unfolding append_levels
append_levels-data_payloads leaves next blocks out e = elim (Option-cases (only leaves)) [
  | inl several ↦
      let (found, grouped, more) =
        >>=-eq-ok (append_groups push numbered (chunks max_data_tree_entries leaves) next blocks) _
          (rw (append_levels, several) at e) in
      append_root-data_payloads data_reasons found.0 found.1 found.2 out more
      ∙ append_groups-data_payloads (chunks max_data_tree_entries leaves) next blocks found grouped
  | inr (leaf, single) ↦
      let done : (leaf.0, next, blocks) ≡ out = ok_injective (rw (append_levels, single) at e) in
      ap (λ out. data_payloads out.2) (sym done)
]

append_data_tree_sized-data_payloads :
    (bytes : List ℕ) (chunk_size next : ℕ) (blocks : List BlockSpec)
    (out : BlockId × ℕ × List BlockSpec)
    → append_data_tree_sized push bytes chunk_size next blocks ≡ ok out
    → data_payloads out.2 ≡ data_payloads blocks ++ chunks chunk_size bytes
unfolding append_data_tree_sized
append_data_tree_sized-data_payloads bytes chunk_size next blocks out e =
    let (found, chunked, more) =
      >>=-eq-ok (append_chunks push (chunks chunk_size bytes) next blocks) _ e in
    append_levels-data_payloads found.0 found.1 found.2 out more
    ∙ append_chunks-data_payloads (chunks chunk_size bytes) next blocks found chunked

cancel_front : (front back back' : List (List ℕ)) → front ++ back ≡ front ++ back' → back ≡ back'
cancel_front [] back back' e = e
cancel_front (x ∷ front) back back' e = cancel_front front back back' (ap (drop 1) e)

-- The data blocks behind those that were there are the chunks, in their order.
pub append_data_tree_sized-chunks :
    (bytes : List ℕ) (chunk_size next : ℕ) (blocks pushed : List BlockSpec)
    (out : BlockId × ℕ × List BlockSpec)
    → append_data_tree_sized push bytes chunk_size next blocks ≡ ok out
    → out.2 ≡ blocks ++ pushed
    → data_payloads pushed ≡ chunks chunk_size bytes
append_data_tree_sized-chunks bytes chunk_size next blocks pushed out e same =
    cancel_front (data_payloads blocks) (data_payloads pushed) (chunks chunk_size bytes) (
      sym (data_payloads-append blocks pushed)
      ∙ ap data_payloads (sym same)
      ∙ append_data_tree_sized-data_payloads bytes chunk_size next blocks out e)
