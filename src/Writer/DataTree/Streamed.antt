-- ===== src/Writer/DataTree/Streamed.antt =====
-- Payloads that are read: `append_reader_data_tree` of crates/pstforge-pst/src/writer.rs.
use pstforge.Base.{
  ℕ, zero, suc, ◌+◌, ◌-◌, ◌<◌, Bool, true, false, List, [], ◌∷◌, ◌++◌, Option, none, some, ltb,
  ◌==◌, min, length, ok, guard, >>=-eq-ok, ◌≡◌, refl, sym, ap, append_one-≢, List-cases, ◌∙◌,
  append_assoc, length-append, Bool-cases, inl, inr, arith, ltb→lt, subst, if◌then◌else◌,
}
use pstforge.Writer.Error.{WriterResult, invalid_structure}
use pstforge.Writer.Block.{BlockId, BlockSpec, data_bytes, message_size_contribution}
use pstforge.Writer.DataTree.{max_data_block_payload, append_block}
use pstforge.Writer.DataTree.Emission.{Emitted-start}
use pstforge.Writer.DataTree.RoundTrip.{ok_injective, append_leaf-Emits}
use pstforge.Writer.DataTree.Total.{Stores}
use pstforge.Writer.DataTree.Counted.{
  append_block-counted, close_full_group-counted, finish_tree-counted, Emitted-counted,
}
use pstforge.Writer.DataTree.Grouping.{
  Holds, HasRoom, close_full_group-Holds, close_full_group_last, add_leaf-Holds, finish_tree-Holds,
}
use pstforge.Writer.DataTree.Stream.{
  Progress, close_full_group, finish_tree, Reader, Reading, counted, reader_round, reader_loop,
  hash_matches, check_eof, first_reading, append_reader_data_tree, spooled_reasons,
}

-- What `Read` promises, for the bytes that a source still has: `read_exact` takes as many from the front
-- as are asked for, and a `read` of no byte is the end.
pub record IsStream (reader : Reader) (left : reader.Source → List ℕ) : Type 0 where
  pub exact :
      (count : ℕ) (source source' : reader.Source) (bytes : List ℕ)
      → reader.read_exact count source ≡ ok (bytes, source')
      → (length bytes ≡ count) × (left source ≡ bytes ++ left source')
  pub ends :
      (source source' : reader.Source) → reader.read source ≡ ok (0, source') → left source ≡ []

module _ {S : Type 0} (sink : BlockSpec → S → WriterResult S) (reader : Reader) where
  module _ (left : reader.Source → List ℕ) (source : reader.Source) (start : S)
      (first byte_len : ℕ) where
    -- Between two rounds, the tree so far holds what has been hashed, and the rest is to be read.
    pub record IsUnderWay (remaining : ℕ) (r : Reading sink reader) : Type 0 where
      pub tree : Holds (counted sink) (start, 0) first r.tree r.hashed
      pub room : 0 < remaining → HasRoom r.tree
      pub total : length r.hashed + remaining ≡ byte_len
      pub size : r.tree.sink.1 ≡ length r.hashed
      pub last : remaining ≡ 0 → r.tree.leaves ≡ [] → r.hashed ≡ []
      pub delivered : left source ≡ r.hashed ++ left r.source

    pub begin-IsUnderWay : IsUnderWay byte_len (first_reading sink reader source first start)
    begin-IsUnderWay = record {
      tree = record {
        blocks = [];
        front = [];
        back = [];
        emitted = Emitted-start (counted sink) (start, 0) first;
        closed = refl;
        open_leaves = refl;
        whole = refl;
        small = omega arith;
      };
      room = λ some_bytes. omega arith;
      total = omega arith;
      size = refl;
      last = λ none_left no_leaves. refl;
      delivered = refl;
    }

    module _ (stream : IsStream reader left) where
      reader_round-IsUnderWay :
          (remaining : ℕ) (r : Reading sink reader) (out : ℕ × Reading sink reader)
          → 0 < remaining
          → IsUnderWay remaining r
          → reader_round sink reader remaining r ≡ ok out
          → IsUnderWay out.0 out.1 × (out.0 < remaining)
      unfolding reader_round message_size_contribution
      reader_round-IsUnderWay remaining r out more h e =
          let len = min remaining max_data_block_payload in
          let ((chunk, source'), fetched, after_read) =
            >>=-eq-ok (reader.read_exact len r.source) _ e in
          let (leaf, appended, after_leaf) =
            >>=-eq-ok
              (append_block (counted sink) false (data_bytes chunk) r.tree.next_block_index
                r.tree.sink)
              _ after_read in
          let p : Progress (S × ℕ) = record {
            leaves = r.tree.leaves ++ (leaf.0, len) ∷ [];
            xblocks = r.tree.xblocks;
            next_block_index = leaf.1;
            sink = leaf.2;
          } in
          let (q, grouped, last) =
            >>=-eq-ok
              (close_full_group (counted sink) spooled_reasons.tree_size (remaining - len) p) _
              after_leaf in
          let (size, taken) = stream.exact len r.source source' chunk fetched in
          let held =
            add_leaf-Holds (counted sink) (start, 0) first chunk len r.tree r.hashed leaf size
              (omega arith) (h.room more) h.tree appended in
          let (held', room) =
            close_full_group-Holds (counted sink) (start, 0) first spooled_reasons.tree_size
              (remaining - len) p q (r.hashed ++ chunk) held grouped in
          let later : Reading sink reader = record {
            source = source';
            hashed = r.hashed ++ chunk;
            tree = q;
          } in
          let done : (remaining - len, later) ≡ out = ok_injective last in
          let total = h.total in
          let size_before = h.size in
          let size_after =
            append_block-counted sink false (data_bytes chunk) r.tree.next_block_index r.tree.sink
              leaf appended in
          let size_grouped =
            close_full_group-counted sink spooled_reasons.tree_size (remaining - len) p q grouped in
          subst (λ out. IsUnderWay out.0 out.1 × (out.0 < remaining)) done
            (
              record {
                tree = held';
                room = room;
                total = rw length-append (omega arith);
                size = rw length-append (omega arith);
                last = λ none_left no_leaves.
                    elim (append_one-≢ r.tree.leaves (leaf.0, len)
                      (ap (λ t. t.leaves)
                          (close_full_group_last (counted sink) (start, 0) first
                            spooled_reasons.tree_size (remaining - len) p q none_left grouped)
                        ∙ no_leaves)) [ ];
                delivered =
                    h.delivered
                    ∙ ap (r.hashed ++◌) taken
                    ∙ sym (append_assoc r.hashed chunk (left source'));
              },
              omega arith,
            )

      pub reader_loop-IsUnderWay :
          (fuel remaining : ℕ) (r out : Reading sink reader)
          → IsUnderWay remaining r
          → reader_loop sink reader fuel remaining r ≡ ok out
          → IsUnderWay 0 out
      unfolding reader_loop
      reader_loop-IsUnderWay zero remaining r out h e = cc
      reader_loop-IsUnderWay (suc fuel) remaining r out h e = elim (Bool-cases (ltb 0 remaining)) [
        | inl more ↦
            let (next, round, rest) =
              >>=-eq-ok (reader_round sink reader remaining r) _ (rw (reader_loop, more) at e) in
            let (later, less) =
              reader_round-IsUnderWay remaining r next (ltb→lt 0 remaining more) h round in
            reader_loop-IsUnderWay fuel next.0 next.1 out later rest
        | inr finished ↦
            let done : r ≡ out = ok_injective (rw (reader_loop, finished) at e) in
            let none_left : remaining ≡ 0 = ground arith in
            subst (λ out. IsUnderWay 0 out) done (rw none_left at h)
      ]

-- The result of reading a payload: the first bytes of the source are in the tree, all of them when the
-- end was asked for; the size is theirs, and the digest, which is the expected one where one is.
pub record ReadAndStored {S : Type 0} (sink : BlockSpec → S → WriterResult S) (digest : List ℕ → ℕ)
    (s : S) (given : List ℕ) (byte_len : ℕ) (expected : Option ℕ) (require_eof : Bool) (next : ℕ)
    (out : (BlockId × ℕ × ℕ) × ℕ × S) : Type 0 where
  pub bytes : List ℕ
  pub rest : List ℕ
  pub taken : given ≡ bytes ++ rest
  pub to_the_end : require_eof ≡ true → rest ≡ []
  pub declared : length bytes ≡ byte_len
  pub size : out.0.1 ≡ byte_len
  pub digested : out.0.2 ≡ digest bytes
  pub matches : (hash : ℕ) → expected ≡ some hash → digest bytes ≡ hash
  pub stored : Stores sink s next bytes (out.0.0, out.1, out.2)

module _ {S : Type 0} (sink : BlockSpec → S → WriterResult S) (reader : Reader) where
  module _ (left : reader.Source → List ℕ) (stream : IsStream reader left)
      (digest : List ℕ → ℕ) where
    hash_matches-eq :
        (bytes : List ℕ) (expected : Option ℕ) (hash : ℕ)
        → hash_matches sink reader digest bytes expected ≡ true
        → expected ≡ some hash
        → digest bytes ≡ hash
    hash_matches-eq bytes none hash h e = cc
    hash_matches-eq bytes (some wanted) hash h e = ground (arith, h, e)

    check_eof-ends :
        (require_eof : Bool) (source : reader.Source) {u : Unit {0}}
        → check_eof sink reader digest require_eof source ≡ ok u
        → require_eof ≡ true
        → left source ≡ []
    unfolding check_eof
    check_eof-ends false source e h = cc
    check_eof-ends true source e h =
        let ((count, source'), done, ended) = >>=-eq-ok (reader.read source) _ e in
        let none_read : count ≡ 0 = ground arith in
        stream.ends source source' (done ∙ ap (λ n. ok (n, source')) none_read)

    close_stream :
        (hashed : List ℕ) (tree : Progress (S × ℕ)) (start : S) (first : ℕ)
        (out : BlockId × ℕ × (S × ℕ))
        → Holds (counted sink) (start, 0) first tree hashed
        → tree.sink.1 ≡ length hashed
        → (tree.leaves ≡ [] → hashed ≡ [])
        → (if length tree.leaves == 0
            then append_block (counted sink) false (data_bytes []) tree.next_block_index tree.sink
            else finish_tree (counted sink) spooled_reasons tree)
          ≡ ok out
        → Stores sink start first hashed (out.0, out.1, out.2.0) × (out.2.1 ≡ length hashed)
    unfolding message_size_contribution
    close_stream hashed tree start first out h size last e = elim (List-cases tree.leaves) [
      | inl nothing ↦
          let no_bytes = last nothing in
          let appended : append_block (counted sink) false (data_bytes []) tree.next_block_index
                tree.sink
              ≡ ok out =
            rw nothing at e in
          let counted_size =
            append_block-counted sink false (data_bytes []) tree.next_block_index tree.sink out
              appended in
          let (more, emitted, leaf) =
            append_leaf-Emits (counted sink) (start, 0) first [] h.blocks tree.next_block_index
              out.1 tree.sink out.2 out.0 (omega arith) h.emitted appended in
          (
            (
              h.blocks ++ more,
              Emitted-counted sink start first out.1 (h.blocks ++ more) out.2 emitted,
              (0, omega arith, leaf ∙ ap some (sym no_bytes)),
            ),
            omega (arith, counted_size, size),
          )
      | inr (leaf, leaves, some_leaf) ↦
          let test : (length tree.leaves == 0) ≡ false = rw some_leaf (ground arith) in
          let finished : finish_tree (counted sink) spooled_reasons tree ≡ ok out = rw test at e in
          let (blocks, emitted, found) =
            finish_tree-Holds (counted sink) (start, 0) first spooled_reasons tree hashed out h
              finished in
          (
            (blocks, Emitted-counted sink start first out.1 blocks out.2 emitted, found),
            finish_tree-counted sink spooled_reasons tree out finished ∙ size,
          )
    ]

    -- For a reader that keeps what `Read` promises: when a payload has been appended from it, its tree
    -- holds the first bytes of the source, as many as were declared, in blocks with consecutive indices;
    -- the size that comes back is the declared one, the digest is that of the bytes and equals the
    -- expected one if there is one, and the source had no more bytes if its end was asked for.
    pub append_reader_data_tree-ReadAndStored :
        (source : reader.Source) (byte_len : ℕ) (expected : Option ℕ) (require_eof : Bool)
        (next : ℕ) (s : S) (out : (BlockId × ℕ × ℕ) × ℕ × S)
        → append_reader_data_tree sink reader digest source byte_len expected require_eof next s
          ≡ ok out
        → ReadAndStored sink digest s (left source) byte_len expected require_eof next out
    unfolding append_reader_data_tree
    append_reader_data_tree-ReadAndStored source byte_len expected require_eof next s out e =
        let begin = first_reading sink reader source next s in
        let (r, looped, more) =
          >>=-eq-ok (reader_loop sink reader (suc byte_len) byte_len begin) _ e in
        let (_, matched, more') =
          >>=-eq-ok
            (guard (hash_matches sink reader digest r.hashed expected)
              (invalid_structure "streamed payload hash mismatch"))
            _ more in
        let (_, ended, more'') =
          >>=-eq-ok (check_eof sink reader digest require_eof r.source) _ more' in
        let (found, closed, last) =
          >>=-eq-ok
            (if length r.tree.leaves == 0
              then append_block (counted sink) false (data_bytes []) r.tree.next_block_index
                  r.tree.sink
              else finish_tree (counted sink) spooled_reasons r.tree)
            _ more'' in
        let under_way =
          reader_loop-IsUnderWay sink reader left source s next byte_len stream (suc byte_len)
            byte_len begin r (begin-IsUnderWay sink reader left source s next byte_len) looped in
        let (stored, size) =
          close_stream r.hashed r.tree s next found under_way.tree under_way.size
            (under_way.last refl) closed in
        let done : ((found.0, found.2.1, digest r.hashed), found.1, found.2.0) ≡ out =
          ok_injective last in
        let total = under_way.total in
        let same : hash_matches sink reader digest r.hashed expected ≡ true = ground arith in
        subst
          (λ out. ReadAndStored sink digest s (left source) byte_len expected require_eof next out)
          done
          (record {
            bytes = r.hashed;
            rest = left r.source;
            taken = under_way.delivered;
            to_the_end = check_eof-ends require_eof r.source ended;
            declared = omega arith;
            size = omega arith;
            digested = refl;
            matches = λ hash wanted. hash_matches-eq r.hashed expected hash same wanted;
            stored = stored;
          })
