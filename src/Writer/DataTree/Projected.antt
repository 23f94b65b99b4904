-- ===== src/Writer/DataTree/Projected.antt =====
-- The projection of a payload of which only the length is known, `append_declared_data_tree`, against
-- the later reading of the payload, `append_reader_data_tree` (crates/pstforge-pst/src/writer.rs).
use pstforge.Base.{
  ℕ, zero, suc, ◌+◌, ◌-◌, ◌<◌, Bool, true, false, List, [], ◌∷◌, ◌++◌, map, Option, String, ltb,
  leb, ◌==◌, ◌&&◌, min, checked, u32_mod, length, ok, or_err, guard, >>=-eq-ok, ◌≡◌, refl, ap,
  Bool-cases, Option-cases, inl, inr, arith, subst, if◌then◌else◌,
}
use pstforge.Writer.Error.{WriterResult, value_too_large, invalid_structure}
use pstforge.Writer.Block.{
  BlockId, BlockSpec, BlockPayload, data_bytes, projected_data, subnode, intermediate_subnode,
  data_tree,
}
use pstforge.Writer.DataTree.{
  TreeEntry, TreeReasons, max_data_block_payload, max_data_tree_entries, append_block,
  append_parent, append_root, take_block_id, only, add_sizes,
}
use pstforge.Writer.DataTree.RoundTrip.{ok_injective}
use pstforge.Writer.DataTree.Counted.{counted-sink}
use pstforge.Writer.DataTree.Streamed.{IsStream, begin-IsUnderWay, reader_loop-IsUnderWay}
use pstforge.Writer.DataTree.Stream.{
  Progress, close_group, close_full_group, finish_tree, single_leaf, Reader, Reading, counted,
  reader_round, reader_loop, hash_matches, check_eof, append_reader_data_tree, spooled_reasons,
  direct_reasons, declared_round, declared_loop, append_declared_data_tree, first_reading,
}

-- A payload whose bytes are not known yet.
abbrev pub as_projected : BlockPayload → BlockPayload
as_projected (data_bytes bytes) = projected_data (length bytes)
as_projected (projected_data size) = projected_data size
as_projected (subnode entries) = subnode entries
as_projected (intermediate_subnode level entries) = intermediate_subnode level entries
as_projected (data_tree level total entries) = data_tree level total entries

abbrev pub projected_block : BlockSpec → BlockSpec
projected_block block = record {
  id = block.id;
  payload = as_projected block.payload;
  ref_count = block.ref_count;
}

-- What one sink takes, the other takes with the bytes left out, and both come to the same.
abbrev pub IsProjection :
    {S : Type 0} → (BlockSpec → S → WriterResult S) → (BlockSpec → S → WriterResult S) → Type 0
IsProjection {S} sink projection =
    (block : BlockSpec) (s s' : S)
    → sink block s ≡ ok s'
    → projection (projected_block block) s ≡ ok s'

add_sizes-reason :
    (reason other : String) (total sum : ℕ) (entries : List TreeEntry)
    → add_sizes reason total entries ≡ ok sum
    → add_sizes other total entries ≡ ok sum
unfolding add_sizes
add_sizes-reason reason other total sum [] e = e
add_sizes-reason reason other total sum (entry ∷ entries) e =
    let (next, added, more) =
      >>=-eq-ok (or_err (checked u32_mod (total + entry.1)) (value_too_large reason)) _ e in
    let same : or_err (checked u32_mod (total + entry.1)) (value_too_large other) ≡ ok next =
      ground (arith, added) in
    rw same (add_sizes-reason reason other next sum entries more)

not_empty : {A : Type 0} (xs : List A) → ¬ (xs ≡ []) → (length xs == 0) ≡ false
not_empty [] h = elim (h refl) [ ]
not_empty (x ∷ xs) h = ground arith

positive_length : {A : Type 0} (xs : List A) → 0 < length xs → ¬ (xs ≡ [])
positive_length [] h = ground arith
positive_length (x ∷ xs) h = ground arith

-- The blocks so far, with the stream alone.
abbrev pub without_count : {S : Type 0} → Progress (S × ℕ) → Progress S
without_count p = record {
  leaves = p.leaves;
  xblocks = p.xblocks;
  next_block_index = p.next_block_index;
  sink = p.sink.0;
}

module _ {S : Type 0} (sink projection : BlockSpec → S → WriterResult S) where
  module _ (follows : IsProjection sink projection) where
    append_block_projected :
        (internal : Bool) (payload : BlockPayload) (next : ℕ) (s : S × ℕ)
        (out : BlockId × ℕ × (S × ℕ))
        → append_block (counted sink) internal payload next s ≡ ok out
        → append_block projection internal (as_projected payload) next s.0
          ≡ ok (out.0, out.1, out.2.0)
    unfolding append_block
    append_block_projected internal payload next s out e =
        let ((id, after), taken, more) = >>=-eq-ok (take_block_id internal next) _ e in
        let block : BlockSpec = record { id = id; payload = payload; ref_count = 2 } in
        let (t, sunk, last) = >>=-eq-ok (counted sink block s) _ more in
        let same = follows block s.0 t.0 (counted-sink sink block s t sunk).0 in
        rw (taken, same) (ap (λ out. ok (out.0, out.1, out.2.0)) (ok_injective last))

    append_parent_projected :
        (level : ℕ) (reason other : String) (entries : List TreeEntry) (next : ℕ) (s : S × ℕ)
        (out : TreeEntry × ℕ × (S × ℕ))
        → append_parent (counted sink) level reason entries next s ≡ ok out
        → append_parent projection level other entries next s.0 ≡ ok (out.0, out.1, out.2.0)
    unfolding append_parent
    append_parent_projected level reason other entries next s out e =
        let (total, added, more) = >>=-eq-ok (add_sizes reason 0 entries) _ e in
        let payload = data_tree level total (map (λ entry. entry.0) entries) in
        let (made, appended, last) =
          >>=-eq-ok (append_block (counted sink) true payload next s) _ more in
        rw
          (
            add_sizes-reason reason other 0 total entries added,
            append_block_projected true payload next s made appended,
          )
          (ap (λ out. ok (out.0, out.1, out.2.0)) (ok_injective last))

    close_group_projected :
        (reason other : String) (p q : Progress (S × ℕ))
        → close_group (counted sink) reason p ≡ ok q
        → close_group projection other (without_count p) ≡ ok (without_count q)
    unfolding close_group
    close_group_projected reason other p q e =
        let (made, appended, last) =
          >>=-eq-ok (append_parent (counted sink) 1 reason p.leaves p.next_block_index p.sink) _
            e in
        rw (append_parent_projected 1 reason other p.leaves p.next_block_index p.sink made appended)
          (ap (λ q. ok (without_count q)) (ok_injective last))

    close_full_group_projected :
        (reason other : String) (remaining : ℕ) (p q : Progress (S × ℕ))
        → close_full_group (counted sink) reason remaining p ≡ ok q
        → close_full_group projection other remaining (without_count p) ≡ ok (without_count q)
    unfolding close_full_group
    close_full_group_projected reason other remaining p q e =
        elim (Bool-cases (length p.leaves == max_data_tree_entries && ltb 0 remaining)) [
          | inl full ↦
              rw (close_full_group, full)
                (close_group_projected reason other p q (rw (close_full_group, full) at e))
          | inr room ↦
              rw (close_full_group, room)
                (ap (λ q. ok (without_count q)) (ok_injective (rw (close_full_group, room) at e)))
        ]

    append_root_projected :
        (reasons others : TreeReasons) (xblocks : List TreeEntry) (next : ℕ) (s : S × ℕ)
        (out : BlockId × ℕ × (S × ℕ))
        → append_root (counted sink) reasons xblocks next s ≡ ok out
        → append_root projection others xblocks next s.0 ≡ ok (out.0, out.1, out.2.0)
    unfolding append_root
    append_root_projected reasons others xblocks next s out e = elim (Option-cases (only xblocks)) [
      | inl several ↦
          let (_, room, more) =
            >>=-eq-ok
              (guard (leb (length xblocks) max_data_tree_entries)
                (value_too_large reasons.xblock_count))
              _ (rw (append_root, several) at e) in
          let fits : leb (length xblocks) max_data_tree_entries ≡ true = ground arith in
          let (made, appended, last) =
            >>=-eq-ok (append_parent (counted sink) 2 reasons.xxblock_size xblocks next s) _ more in
          rw
            (
              append_root,
              several,
              fits,
              append_parent_projected 2 reasons.xxblock_size others.xxblock_size xblocks next s made
                  appended,
            )
            (ap (λ out. ok (out.0, out.1, out.2.0)) (ok_injective last))
      | inr (xblock, single) ↦
          rw (append_root, single)
            (ap (λ out. ok (out.0, out.1, out.2.0)) (ok_injective (rw (append_root, single) at e)))
    ]

    finish_tree_projected :
        (reasons others : TreeReasons) (p : Progress (S × ℕ)) (out : BlockId × ℕ × (S × ℕ))
        → finish_tree (counted sink) reasons p ≡ ok out
        → finish_tree projection others (without_count p) ≡ ok (out.0, out.1, out.2.0)
    unfolding finish_tree
    finish_tree_projected reasons others p out e =
        elim (Option-cases (single_leaf p.leaves p.xblocks)) [
          | inl several ↦
              let (q, closed, more) =
                >>=-eq-ok (close_group (counted sink) reasons.tree_size p) _
                  (rw (finish_tree, several) at e) in
              rw
                (
                  finish_tree,
                  several,
                  close_group_projected reasons.tree_size others.tree_size p q closed,
                )
                (append_root_projected reasons others q.xblocks q.next_block_index q.sink out more)
          | inr (leaf, single) ↦
              rw (finish_tree, single)
                (ap (λ out. ok (out.0, out.1, out.2.0))
                  (ok_injective (rw (finish_tree, single) at e)))
        ]

  module _ (follows : IsProjection sink projection) (reader : Reader)
      (left : reader.Source → List ℕ) where
    module _ (stream : IsStream reader left) where
      round_projected :
          (remaining : ℕ) (r : Reading sink reader) (out : ℕ × Reading sink reader)
          → reader_round sink reader remaining r ≡ ok out
          → declared_round projection remaining (without_count r.tree)
            ≡ ok (out.0, without_count out.1.tree)
      unfolding reader_round declared_round
      round_projected remaining r out e =
          let len = min remaining max_data_block_payload in
          let ((chunk, source'), fetched, after_read) =
            >>=-eq-ok (reader.read_exact len r.source) _ e in
          let (leaf, appended, after_leaf) =
            >>=-eq-ok
              (append_block (counted sink) false (data_bytes chunk) r.tree.next_block_index
                r.tree.sink)
              _ after_read in
          let p : Progress (S × ℕ) = record {
            leaves = r.tree.leaves ++ (leaf.0, len) ∷ [];
            xblocks = r.tree.xblocks;
            next_block_index = leaf.1;
            sink = leaf.2;
          } in
          let (q, grouped, last) =
            >>=-eq-ok
              (close_full_group (counted sink) spooled_reasons.tree_size (remaining - len) p) _
              after_leaf in
          let size = (stream.exact len r.source source' chunk fetched).0 in
          let projected =
            subst
              (λ n.
                append_block projection false (projected_data n) r.tree.next_block_index
                  r.tree.sink.0
                ≡ ok (leaf.0, leaf.1, leaf.2.0))
              size
              (append_block_projected follows false (data_bytes chunk) r.tree.next_block_index
                r.tree.sink leaf appended) in
          let closed =
            close_full_group_projected follows spooled_reasons.tree_size direct_reasons.tree_size
              (remaining - len) p q grouped in
          rw (projected, closed)
            (ap (λ out. ok (out.0, without_count out.1.tree)) (ok_injective last))

      loop_projected :
          (fuel remaining : ℕ) (r out : Reading sink reader)
          → reader_loop sink reader fuel remaining r ≡ ok out
          → declared_loop projection fuel remaining (without_count r.tree)
            ≡ ok (without_count out.tree)
      unfolding reader_loop declared_loop
      loop_projected zero remaining r out e = cc
      loop_projected (suc fuel) remaining r out e = elim (Bool-cases (ltb 0 remaining)) [
        | inl more ↦
            let (next, round, rest) =
              >>=-eq-ok (reader_round sink reader remaining r) _ (rw (reader_loop, more) at e) in
            rw (declared_loop, more, round_projected remaining r next round)
              (loop_projected fuel next.0 next.1 out rest)
        | inr finished ↦
            rw (declared_loop, finished)
              (ap (λ r. ok (without_count r.tree)) (ok_injective (rw (reader_loop, finished) at e)))
      ]

      pub declared_projected :
          (digest : List ℕ → ℕ) (source : reader.Source) (byte_len : ℕ) (expected : Option ℕ)
          (require_eof : Bool) (next : ℕ) (s : S) (out : (BlockId × ℕ × ℕ) × ℕ × S)
          → 0 < byte_len
          → append_reader_data_tree sink reader digest source byte_len expected require_eof next s
            ≡ ok out
          → append_declared_data_tree projection byte_len next s
            ≡ ok ((out.0.0, byte_len), out.1, out.2)
      unfolding append_reader_data_tree append_declared_data_tree
      declared_projected digest source byte_len expected require_eof next s out some_byte e =
          let begin = first_reading sink reader source next s in
          let (r, looped, more) =
            >>=-eq-ok (reader_loop sink reader (suc byte_len) byte_len begin) _ e in
          let (_, matched, more') =
            >>=-eq-ok
              (guard (hash_matches sink reader digest r.hashed expected)
                (invalid_structure "streamed payload hash mismatch"))
              _ more in
          let (_, ended, more'') =
            >>=-eq-ok (check_eof sink reader digest require_eof r.source) _ more' in
          let (found, closed, last) =
            >>=-eq-ok
              (if length r.tree.leaves == 0
                then append_block (counted sink) false (data_bytes []) r.tree.next_block_index
                    r.tree.sink
                else finish_tree (counted sink) spooled_reasons r.tree)
              _ more'' in
          let under_way =
            reader_loop-IsUnderWay sink reader left source s next byte_len stream (suc byte_len)
              byte_len begin r (begin-IsUnderWay sink reader left source s next byte_len) looped in
          let total = under_way.total in
          let some_leaf : (length r.tree.leaves == 0) ≡ false =
            not_empty r.tree.leaves (λ none_left.
              positive_length r.hashed (omega arith) (under_way.last refl none_left)) in
          let finished : finish_tree (counted sink) spooled_reasons r.tree ≡ ok found =
            rw some_leaf at closed in
          rw
            (
              loop_projected (suc byte_len) byte_len begin r looped,
              some_leaf,
              finish_tree_projected follows spooled_reasons direct_reasons r.tree found finished,
            )
            (ap (λ out. ok ((out.0.0, byte_len), out.1, out.2)) (ok_injective last))
