-- ===== src/Writer/DataTree/Grouping.antt =====
-- How the loops of `append_reader_data_tree` and `append_declared_data_tree`
-- (crates/pstforge-pst/src/writer.rs) group leaves under parents: what the blocks so far hold.
use pstforge.Base.{
  ℕ, ◌≤◌, ◌<◌, false, List, [], ◌∷◌, ◌++◌, some, String, ltb, ◌==◌, ◌&&◌, length, ok, >>=-eq-ok,
  ◌≡◌, refl, sym, ap, ◌∙◌, append-nil, append_assoc, length-append, Option-cases, Bool-cases, inl,
  inr, arith, subst,
}
use pstforge.Writer.Error.{WriterResult}
use pstforge.Writer.Block.{BlockId, BlockSpec, data_bytes}
use pstforge.Writer.DataTree.{
  TreeEntry, TreeReasons, max_data_block_payload, max_data_tree_entries, append_block,
  append_parent,
}
use pstforge.Writer.DataTree.Contents.{Reads, Reads-extends, Reads-append, Reads-one}
use pstforge.Writer.DataTree.Emission.{Emitted}
use pstforge.Writer.DataTree.RoundTrip.{
  IsTree, append_leaf-Emits, append_parent-Emits, append_root-Emits, only-eq-some, ok_injective,
}
use pstforge.Writer.DataTree.Stream.{
  Progress, close_group, close_full_group, finish_tree, single_leaf,
}

-- A list of more than 1,020 leaves has no room for another.
abbrev pub HasRoom : {S : Type 0} → Progress S → Type 0
HasRoom p = length p.leaves < max_data_tree_entries

single_leaf-eq-some :
    (leaves xblocks : List TreeEntry) (leaf : TreeEntry)
    → single_leaf leaves xblocks ≡ some leaf
    → (leaves ≡ leaf ∷ []) × (xblocks ≡ [])
single_leaf-eq-some leaves [] leaf e = (only-eq-some leaves leaf e, refl)
single_leaf-eq-some leaves (x ∷ xblocks) leaf e = cc

module _ {S : Type 0} (sink : BlockSpec → S → WriterResult S) (start : S) (first : ℕ) where
  -- The parents and the leaves without a parent hold the bytes.
  pub record Holds (p : Progress S) (bytes : List ℕ) : Type 0 where
    pub blocks : List BlockSpec
    pub front : List ℕ
    pub back : List ℕ
    pub emitted : Emitted sink start first blocks p.next_block_index p.sink
    pub closed : Reads 1 blocks p.xblocks front
    pub open_leaves : Reads 0 blocks p.leaves back
    pub whole : bytes ≡ front ++ back
    pub small : length p.leaves ≤ max_data_tree_entries

  pub close_group-Holds :
      (reason : String) (p q : Progress S) (bytes : List ℕ)
      → Holds p bytes
      → close_group sink reason p ≡ ok q
      → Holds q bytes × (q.leaves ≡ [])
  unfolding close_group
  close_group-Holds reason p q bytes h e =
      let ((xblock, next, s), appended, last) =
        >>=-eq-ok (append_parent sink 1 reason p.leaves p.next_block_index p.sink) _ e in
      let (here, emitted, (tree, size)) =
        append_parent-Emits sink start first 0 reason p.leaves h.back h.blocks p.next_block_index
          next p.sink s xblock h.small h.open_leaves h.emitted appended in
      let later : Progress S = record {
        leaves = [];
        xblocks = p.xblocks ++ xblock ∷ [];
        next_block_index = next;
        sink = s;
      } in
      let done : later ≡ q = ok_injective last in
      subst (λ q. Holds q bytes × (q.leaves ≡ [])) done
        (
          record {
            blocks = h.blocks ++ here;
            front = h.front ++ h.back;
            back = [];
            emitted = emitted;
            closed =
                Reads-append 1 (h.blocks ++ here) p.xblocks (xblock ∷ []) h.front h.back
                  (Reads-extends 1 h.blocks here p.xblocks h.front h.closed)
                  (Reads-one 1 (h.blocks ++ here) xblock h.back tree size);
            open_leaves = refl;
            whole = h.whole ∙ sym (append-nil (h.front ++ h.back));
            small = omega arith;
          },
          refl,
        )

  pub close_full_group-Holds :
      (reason : String) (remaining : ℕ) (p q : Progress S) (bytes : List ℕ)
      → Holds p bytes
      → close_full_group sink reason remaining p ≡ ok q
      → Holds q bytes × (0 < remaining → HasRoom q)
  unfolding close_full_group
  close_full_group-Holds reason remaining p q bytes h e =
      elim (Bool-cases (length p.leaves == max_data_tree_entries && ltb 0 remaining)) [
        | inl full ↦
            let closed = close_group-Holds reason p q bytes h (rw (close_full_group, full) at e) in
            (closed.0, λ more. rw closed.1 (omega arith))
        | inr room ↦
            let done : p ≡ q = ok_injective (rw (close_full_group, room) at e) in
            let small = h.small in
            subst (λ q. Holds q bytes × (0 < remaining → HasRoom q)) done
              (h, λ more. ground (arith, room, small))
      ]

  pub close_full_group_last :
      (reason : String) (remaining : ℕ) (p q : Progress S)
      → remaining ≡ 0
      → close_full_group sink reason remaining p ≡ ok q
      → p ≡ q
  unfolding close_full_group
  close_full_group_last reason remaining p q none_left e =
      elim (Bool-cases (length p.leaves == max_data_tree_entries && ltb 0 remaining)) [
        | inl full ↦ ground (arith, full, none_left)
        | inr room ↦ ok_injective (rw (close_full_group, room) at e)
      ]

  pub add_leaf-Holds :
      (chunk : List ℕ) (len : ℕ) (p : Progress S) (bytes : List ℕ) (out : BlockId × ℕ × S)
      → length chunk ≡ len
      → len ≤ max_data_block_payload
      → HasRoom p
      → Holds p bytes
      → append_block sink false (data_bytes chunk) p.next_block_index p.sink ≡ ok out
      → Holds
          (record {
            leaves = p.leaves ++ (out.0, len) ∷ [];
            xblocks = p.xblocks;
            next_block_index = out.1;
            sink = out.2;
          })
          (bytes ++ chunk)
  add_leaf-Holds chunk len p bytes out size few room h e =
      let (here, emitted, leaf) =
        append_leaf-Emits sink start first chunk h.blocks p.next_block_index out.1 p.sink out.2
          out.0 (omega arith) h.emitted e in
      record {
        blocks = h.blocks ++ here;
        front = h.front;
        back = h.back ++ chunk;
        emitted = emitted;
        closed = Reads-extends 1 h.blocks here p.xblocks h.front h.closed;
        open_leaves =
            Reads-append 0 (h.blocks ++ here) p.leaves ((out.0, len) ∷ []) h.back chunk
              (Reads-extends 0 h.blocks here p.leaves h.back h.open_leaves)
              (Reads-one 0 (h.blocks ++ here) (out.0, len) chunk leaf size);
        whole = ap (◌++ chunk) h.whole ∙ append_assoc h.front h.back chunk;
        small = rw length-append (omega arith);
      }

  pub finish_tree-Holds :
      (reasons : TreeReasons) (p : Progress S) (bytes : List ℕ) (out : BlockId × ℕ × S)
      → Holds p bytes
      → finish_tree sink reasons p ≡ ok out
      → (blocks : List BlockSpec) × Emitted sink start first blocks out.1 out.2
        × IsTree blocks out.0 bytes
  unfolding finish_tree
  finish_tree-Holds reasons p bytes out h e = elim (Option-cases (single_leaf p.leaves p.xblocks)) [
    | inl several ↦
        let (q, closed, more) =
          >>=-eq-ok (close_group sink reasons.tree_size p) _ (rw (finish_tree, several) at e) in
        let (g, none_left) = close_group-Holds reasons.tree_size p q bytes h closed in
        let nothing : g.back ≡ [] = rw none_left at g.open_leaves in
        let front : bytes ≡ g.front = g.whole ∙ ap (g.front ++◌) nothing ∙ append-nil g.front in
        let (here, emitted, tree) =
          append_root-Emits sink start first reasons q.xblocks bytes g.blocks q.next_block_index
            q.sink out (rw front g.closed) g.emitted more in
        (g.blocks ++ here, emitted, tree)
    | inr (leaf, single) ↦
        let done : (leaf.0, p.next_block_index, p.sink) ≡ out =
          ok_injective (rw (finish_tree, single) at e) in
        let (lone, no_xblocks) = single_leaf-eq-some p.leaves p.xblocks leaf single in
        let (part, rest, here, size, nothing, behind) = rw lone at h.open_leaves in
        let no_front : h.front ≡ [] = rw no_xblocks at h.closed in
        let same : bytes ≡ part =
          h.whole ∙ ap (◌++ h.back) no_front ∙ behind ∙ ap (part ++◌) nothing ∙ append-nil part in
        subst
          (λ out.
            (blocks : List BlockSpec) × Emitted sink start first blocks out.1 out.2
            × IsTree blocks out.0 bytes)
          done (h.blocks, h.emitted, (0, omega arith, rw same here))
  ]
