-- ===== src/Writer/DataTree/Counted.antt =====
-- The count of message bytes that `append_reader_data_tree` (crates/pstforge-pst/src/writer.rs) keeps
-- beside its stream: data blocks add their bytes, and the blocks above them nothing.
use pstforge.Base.{
  ℕ, ◌+◌, Bool, true, List, [], ◌∷◌, map, String, ltb, leb, ◌==◌, ◌&&◌, checked_add, length, ok,
  or_err, guard, >>=-eq-ok, ◌≡◌, sym, ap, ◌∙◌, Bool-cases, Option-cases, inl, inr, arith, subst,
}
use pstforge.Writer.Error.{WriterResult, value_too_large}
use pstforge.Writer.Block.{BlockId, BlockSpec, BlockPayload, data_tree, message_size_contribution}
use pstforge.Writer.DataTree.{
  TreeEntry, TreeReasons, max_data_tree_entries, append_block, append_parent, append_root,
  take_block_id, only, add_sizes,
}
use pstforge.Writer.DataTree.Emission.{Emitted, emit_all}
use pstforge.Writer.DataTree.RoundTrip.{ok_injective}
use pstforge.Writer.DataTree.Stream.{
  Progress, close_group, close_full_group, finish_tree, single_leaf, counted,
}

module _ {S : Type 0} (sink : BlockSpec → S → WriterResult S) where
  pub counted-sink :
      (block : BlockSpec) (s s' : S × ℕ)
      → counted sink block s ≡ ok s'
      → (sink block s.0 ≡ ok s'.0) × (s'.1 ≡ s.1 + message_size_contribution block.payload)
  unfolding counted
  counted-sink block (s, n) s' e =
      let (size, added, more) =
        >>=-eq-ok
          (or_err (checked_add n (message_size_contribution block.payload))
            (value_too_large "spooled attachment size"))
          _ e in
      let (t, sunk, last) = >>=-eq-ok (sink block s) _ more in
      let done : (t, size) ≡ s' = ok_injective last in
      let sum : size ≡ n + message_size_contribution block.payload = ground arith in
      subst (λ s'. (sink block s ≡ ok s'.0) × (s'.1 ≡ n + message_size_contribution block.payload))
        done (sunk, sum)

  emit_all-counted :
      (blocks : List BlockSpec) (s s' : S × ℕ)
      → emit_all (counted sink) blocks s ≡ ok s'
      → emit_all sink blocks s.0 ≡ ok s'.0
  emit_all-counted [] s s' e = ap (λ x. ok x.0) (ok_injective e)
  emit_all-counted (block ∷ blocks) s s' e =
      let (t, first, more) = >>=-eq-ok (counted sink block s) (emit_all (counted sink) blocks) e in
      rw (counted-sink block s t first).0 (emit_all-counted blocks t s' more)

  -- What a counting sink was given, the sink was given.
  pub Emitted-counted :
      (start : S) (first next : ℕ) (blocks : List BlockSpec) (s : S × ℕ)
      → Emitted (counted sink) (start, 0) first blocks next s
      → Emitted sink start first blocks next s.0
  Emitted-counted start first next blocks s h = record {
    runs = emit_all-counted blocks (start, 0) s h.runs;
    run = h.run;
    count = h.count;
  }

  pub append_block-counted :
      (internal : Bool) (payload : BlockPayload) (next : ℕ) (s : S × ℕ)
      (out : BlockId × ℕ × (S × ℕ))
      → append_block (counted sink) internal payload next s ≡ ok out
      → out.2.1 ≡ s.1 + message_size_contribution payload
  unfolding append_block
  append_block-counted internal payload next s out e =
      let ((id, after), taken, more) = >>=-eq-ok (take_block_id internal next) _ e in
      let block : BlockSpec = record { id = id; payload = payload; ref_count = 2 } in
      let (t, sunk, last) = >>=-eq-ok (counted sink block s) _ more in
      let done : (id, after, t) ≡ out = ok_injective last in
      subst (λ out. out.2.1 ≡ s.1 + message_size_contribution payload) done
        (counted-sink block s t sunk).1

  append_parent-counted :
      (level : ℕ) (reason : String) (entries : List TreeEntry) (next : ℕ) (s : S × ℕ)
      (out : TreeEntry × ℕ × (S × ℕ))
      → append_parent (counted sink) level reason entries next s ≡ ok out
      → out.2.1 ≡ s.1
  unfolding append_parent message_size_contribution
  append_parent-counted level reason entries next s out e =
      let (total, added, more) = >>=-eq-ok (add_sizes reason 0 entries) _ e in
      let payload = data_tree level total (map (λ entry. entry.0) entries) in
      let (made, appended, last) =
        >>=-eq-ok (append_block (counted sink) true payload next s) _ more in
      let done : ((made.0, total), made.1, made.2) ≡ out = ok_injective last in
      let same = append_block-counted true payload next s made appended in
      subst (λ out. out.2.1 ≡ s.1) done (omega arith)

  close_group-counted :
      (reason : String) (p q : Progress (S × ℕ))
      → close_group (counted sink) reason p ≡ ok q
      → q.sink.1 ≡ p.sink.1
  unfolding close_group
  close_group-counted reason p q e =
      let (made, appended, last) =
        >>=-eq-ok (append_parent (counted sink) 1 reason p.leaves p.next_block_index p.sink) _ e in
      let same = append_parent-counted 1 reason p.leaves p.next_block_index p.sink made appended in
      ground (arith, same, last)

  pub close_full_group-counted :
      (reason : String) (remaining : ℕ) (p q : Progress (S × ℕ))
      → close_full_group (counted sink) reason remaining p ≡ ok q
      → q.sink.1 ≡ p.sink.1
  unfolding close_full_group
  close_full_group-counted reason remaining p q e =
      elim (Bool-cases (length p.leaves == max_data_tree_entries && ltb 0 remaining)) [
        | inl full ↦ close_group-counted reason p q (rw (close_full_group, full) at e)
        | inr room ↦ ap (λ q. q.sink.1) (sym (ok_injective (rw (close_full_group, room) at e)))
      ]

  append_root-counted :
      (reasons : TreeReasons) (xblocks : List TreeEntry) (next : ℕ) (s : S × ℕ)
      (out : BlockId × ℕ × (S × ℕ))
      → append_root (counted sink) reasons xblocks next s ≡ ok out
      → out.2.1 ≡ s.1
  unfolding append_root
  append_root-counted reasons xblocks next s out e = elim (Option-cases (only xblocks)) [
    | inl several ↦
        let (_, room, more) =
          >>=-eq-ok
            (guard (leb (length xblocks) max_data_tree_entries)
              (value_too_large reasons.xblock_count))
            _ (rw (append_root, several) at e) in
        let (made, appended, last) =
          >>=-eq-ok (append_parent (counted sink) 2 reasons.xxblock_size xblocks next s) _ more in
        let same = append_parent-counted 2 reasons.xxblock_size xblocks next s made appended in
        ground (arith, same, last)
    | inr (xblock, single) ↦
        ap (λ out. out.2.1) (sym (ok_injective (rw (append_root, single) at e)))
  ]

  pub finish_tree-counted :
      (reasons : TreeReasons) (p : Progress (S × ℕ)) (out : BlockId × ℕ × (S × ℕ))
      → finish_tree (counted sink) reasons p ≡ ok out
      → out.2.1 ≡ p.sink.1
  unfolding finish_tree
  finish_tree-counted reasons p out e = elim (Option-cases (single_leaf p.leaves p.xblocks)) [
    | inl several ↦
        let (q, closed, more) =
          >>=-eq-ok (close_group (counted sink) reasons.tree_size p) _
            (rw (finish_tree, several) at e) in
        append_root-counted reasons q.xblocks q.next_block_index q.sink out more
        ∙ close_group-counted reasons.tree_size p q closed
    | inr (leaf, single) ↦ ap (λ out. out.2.1) (sym (ok_injective (rw (finish_tree, single) at e)))
  ]
