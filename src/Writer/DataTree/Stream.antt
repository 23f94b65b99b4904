-- ===== src/Writer/DataTree/Stream.antt =====
-- Data trees of payloads that are read, and of payloads of which only the length is known:
-- crates/pstforge-pst/src/writer.rs, `append_reader_data_tree` and `append_declared_data_tree`. A reader
-- and its errors are a parameter, and so is the digest, a function of all the bytes given to the hasher.
-- A loop takes fuel: one round more than there are bytes is enough, since each round takes one at least.
use pstforge.Base.{
  ℕ, zero, suc, ◌-◌, Bool, true, false, not, List, [], ◌∷◌, ◌++◌, Option, none, some, String, min,
  ltb, ◌==◌, ◌&&◌, checked_add, length, ok, aborted, ◌>>=◌, ◌>>◌, or_err, guard, if◌then◌else◌,
}
use pstforge.Writer.Error.{WriterResult, value_too_large, invalid_structure}
use pstforge.Writer.Block.{
  BlockId, BlockSpec, data_bytes, projected_data, message_size_contribution,
}
use pstforge.Writer.DataTree.{
  TreeEntry, TreeReasons, max_data_block_payload, max_data_tree_entries, append_block,
  append_parent, append_root, only,
}

abbrev pub direct_reasons : TreeReasons
direct_reasons = record {
  tree_size = "direct data tree";
  xblock_count = "direct XXBLOCK entry count";
  xxblock_size = "direct XXBLOCK size";
}

abbrev pub spooled_reasons : TreeReasons
spooled_reasons = record {
  tree_size = "spooled data tree";
  xblock_count = "spooled XXBLOCK entry count";
  xxblock_size = "spooled XXBLOCK size";
}

-- The one leaf of a tree with no other block.
abbrev pub single_leaf : List TreeEntry → List TreeEntry → Option TreeEntry
single_leaf leaves [] = only leaves
single_leaf leaves _ = none

-- What the loops keep: the leaves with no parent yet, and the parents.
pub record Progress (S : Type 0) : Type 0 where
  pub leaves : List TreeEntry
  pub xblocks : List TreeEntry
  pub next_block_index : ℕ
  pub sink : S

abbrev pub no_progress : {S : Type 0} → ℕ → S → Progress S
no_progress next s = record { leaves = []; xblocks = []; next_block_index = next; sink = s }

module _ {S : Type 0} (sink : BlockSpec → S → WriterResult S) where
  -- A parent for the leaves so far.
  unfoldable pub close_group : String → Progress S → WriterResult (Progress S)
  close_group reason p = do
    (xblock, next, s) ← append_parent sink 1 reason p.leaves p.next_block_index p.sink
    ok (record {
      leaves = [];
      xblocks = p.xblocks ++ xblock ∷ [];
      next_block_index = next;
      sink = s;
    })

  -- A leaf, and a parent for the leaves when it has no room for more and there are more.
  unfoldable pub close_full_group : String → ℕ → Progress S → WriterResult (Progress S)
  close_full_group reason remaining p =
      if length p.leaves == max_data_tree_entries && ltb 0 remaining
      then close_group reason p
      else ok p

  -- What follows the loop, when there are leaves.
  unfoldable pub finish_tree : TreeReasons → Progress S → WriterResult (BlockId × ℕ × S)
  finish_tree reasons p = elim (single_leaf p.leaves p.xblocks) [
    | some leaf ↦ ok (leaf.0, p.next_block_index, p.sink)
    | none ↦ do
      q ← close_group reasons.tree_size p
      append_root sink reasons q.xblocks q.next_block_index q.sink
  ]

module _ {S : Type 0} (sink : BlockSpec → S → WriterResult S) where
  unfoldable pub declared_round : ℕ → Progress S → WriterResult (ℕ × Progress S)
  declared_round remaining p = do
    let len = min remaining max_data_block_payload
    (id, next, s) ← append_block sink false (projected_data len) p.next_block_index p.sink
    q ← close_full_group sink direct_reasons.tree_size (remaining - len) (record {
      leaves = p.leaves ++ (id, len) ∷ [];
      xblocks = p.xblocks;
      next_block_index = next;
      sink = s;
    })
    ok (remaining - len, q)

  unfoldable pub declared_loop : ℕ → ℕ → Progress S → WriterResult (Progress S)
  declared_loop zero remaining p = aborted
  declared_loop (suc fuel) remaining p = elim (ltb 0 remaining) [
    | false ↦ ok p
    | true ↦ do (left, q) ← declared_round remaining p; declared_loop fuel left q
  ]

  unfoldable pub append_declared_data_tree : ℕ → ℕ → S → WriterResult ((BlockId × ℕ) × ℕ × S)
  append_declared_data_tree byte_len next s = do
    p ← declared_loop (suc byte_len) byte_len (no_progress next s)
    guard (not (length p.leaves == 0)) (invalid_structure "direct payload must not be empty")
    (root, end, s') ← finish_tree sink direct_reasons p
    ok ((root, byte_len), end, s')

-- `Read`: as many bytes as are asked for, or an error; and up to one byte, of which the count is used.
pub record Reader : Type 1 where
  pub Source : Type 0
  pub read_exact : ℕ → Source → WriterResult (List ℕ × Source)
  pub read : Source → WriterResult (ℕ × Source)

-- A sink that counts the bytes of the messages beside.
unfoldable pub counted :
    {S : Type 0} → (BlockSpec → S → WriterResult S) → BlockSpec → S × ℕ → WriterResult (S × ℕ)
counted sink block (s, logical_size) = do
  size ←
      or_err (checked_add logical_size (message_size_contribution block.payload))
        (value_too_large "spooled attachment size")
  s' ← sink block s
  ok (s', size)

module _ {S : Type 0} (sink : BlockSpec → S → WriterResult S) (reader : Reader) where
  -- What is read and hashed beside the tree.
  pub record Reading : Type 0 where
    pub source : reader.Source
    pub hashed : List ℕ
    pub tree : Progress (S × ℕ)

  abbrev pub first_reading : reader.Source → ℕ → S → Reading
  first_reading source next s = record {
    source = source;
    hashed = [];
    tree = record { leaves = []; xblocks = []; next_block_index = next; sink = (s, 0) };
  }

  unfoldable pub reader_round : ℕ → Reading → WriterResult (ℕ × Reading)
  reader_round remaining r = do
    let len = min remaining max_data_block_payload
    (chunk, source) ← reader.read_exact len r.source
    (id, next, s) ←
        append_block (counted sink) false (data_bytes chunk) r.tree.next_block_index r.tree.sink
    q ← close_full_group (counted sink) spooled_reasons.tree_size (remaining - len) (record {
      leaves = r.tree.leaves ++ (id, len) ∷ [];
      xblocks = r.tree.xblocks;
      next_block_index = next;
      sink = s;
    })
    ok (remaining - len, record { source = source; hashed = r.hashed ++ chunk; tree = q })

  unfoldable pub reader_loop : ℕ → ℕ → Reading → WriterResult Reading
  reader_loop zero remaining r = aborted
  reader_loop (suc fuel) remaining r = elim (ltb 0 remaining) [
    | false ↦ ok r
    | true ↦ do (left, q) ← reader_round remaining r; reader_loop fuel left q
  ]

  module _ (digest : List ℕ → ℕ) where
    -- The digest is the one that is expected, where one is.
    abbrev pub hash_matches : List ℕ → Option ℕ → Bool
    hash_matches bytes none = true
    hash_matches bytes (some expected) = digest bytes == expected

    unfoldable pub check_eof : Bool → reader.Source → WriterResult (Unit {0})
    check_eof false source = ok tt
    check_eof true source = do
      (count, rest) ← reader.read source
      guard (count == 0) (invalid_structure "streamed payload exceeds its declared length")

    -- The root, the size and the digest; a payload of no bytes is one empty block.
    unfoldable pub append_reader_data_tree :
        reader.Source → ℕ → Option ℕ → Bool → ℕ → S → WriterResult ((BlockId × ℕ × ℕ) × ℕ × S)
    append_reader_data_tree source byte_len expected require_eof next s = do
      r ← reader_loop (suc byte_len) byte_len (first_reading source next s)
      guard (hash_matches r.hashed expected) (invalid_structure "streamed payload hash mismatch")
      check_eof require_eof r.source
      (root, end, (s', size)) ←
          (if length r.tree.leaves == 0
            then append_block (counted sink) false (data_bytes []) r.tree.next_block_index
                r.tree.sink
            else finish_tree (counted sink) spooled_reasons r.tree)
      ok ((root, size, digest r.hashed), end, s')
