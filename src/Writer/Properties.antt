-- ===== src/Writer/Properties.antt =====
-- Properties whose values are streamed into blocks of their own: crates/pstforge-pst/src/writer.rs,
-- `append_direct_properties`, `append_declared_properties` and `append_direct_data_tree`; with the node
-- ids of src/ndb/node_id.rs. Which numbers are property types is an argument, `is_property_type`, and so
-- is the source of the payloads: `open_blob` has what its openings give, by their number, since opening
-- and reading a payload may change the source.
mod Tests
use pstforge.Base.{
  ℕ, suc, ◌+◌, ◌*◌, ◌^◌, Bool, true, false, List, [], ◌∷◌, ◌++◌, Option, none, some, ltb, u32_mod,
  checked, checked_add, length, ok, err, ◌>>=◌, ◌>>◌, or_err, guard, >>=-eq-ok, ◌≡◌, ◌<◌, refl, sym,
  ap, ◌∙◌, subst, All, if◌then◌else◌,
}
use pstforge.Writer.Error.{WriterResult, value_too_large, invalid_structure}
use pstforge.Writer.Block.{BlockId, BlockSpec, LeafSubnodeEntry}
use pstforge.Writer.Stream.{BlockStream, emit}
use pstforge.Writer.DataTree.RoundTrip.{ok_injective}
use pstforge.Writer.DataTree.Stream.{Reader, append_reader_data_tree, append_declared_data_tree}
use pstforge.Writer.DataTree.Streamed.{IsStream}
use pstforge.Writer.DataTree.Deferred.{append_declared_data_tree-append_reader_data_tree}

-- `node` of the kind for lists, tables and properties: the index has 27 bits.
unfoldable pub value_node_id : ℕ → WriterResult ℕ
value_node_id index =
    if ltb index (2 ^ 27)
    then ok (index * 32 + 31)
    else err (invalid_structure "invalid node index")

pub record DirectBlobSpec : Type 0 where
  pub id : ℕ
  pub byte_len : ℕ
  pub sha256 : Option ℕ

pub record DirectPropertySpec : Type 0 where
  pub id : ℕ
  pub property_type : ℕ
  pub blob : DirectBlobSpec

-- `PropertyValue::External` under the id of its property.
pub record ExternalProperty : Type 0 where
  pub id : ℕ
  pub property_type : ℕ
  pub node : ℕ

-- What the functions change.
pub record PropertyBuild (S : Type 0) : Type 0 where
  pub properties : List ExternalProperty
  pub subnodes : List LeafSubnodeEntry
  pub next_block_index : ℕ
  pub next_value_node : ℕ
  pub sink : S

-- The value with its root under a node of its own, and the node after it.
abbrev pub add_external :
    {S : Type 0} → DirectPropertySpec → ℕ → ℕ → BlockId → ℕ → S → PropertyBuild S → PropertyBuild S
add_external spec node next_node root next sink build = record {
  properties =
      build.properties
      ++ record { id = spec.id; property_type = spec.property_type; node = node } ∷ [];
  subnodes = build.subnodes ++ record { node = node; block = root } ∷ [];
  next_block_index = next;
  next_value_node = next_node;
  sink = sink;
}

module _ (is_property_type : ℕ → Bool) {S : Type 0} (sink : BlockSpec → S → WriterResult S) where
  unfoldable pub append_declared_properties :
      List DirectPropertySpec → ℕ → PropertyBuild S → WriterResult (ℕ × PropertyBuild S)
  append_declared_properties [] logical_size build = ok (logical_size, build)
  append_declared_properties (spec ∷ specs) logical_size build = do
    guard (is_property_type spec.property_type)
        (invalid_structure "unsupported direct property type")
    node ← value_node_id build.next_value_node
    next_node ←
        or_err (checked u32_mod (build.next_value_node + 1))
          (value_too_large "direct property value node")
    ((root, size), next, s) ←
        append_declared_data_tree sink spec.blob.byte_len build.next_block_index build.sink
    total ← or_err (checked_add logical_size size) (value_too_large "message size")
    append_declared_properties specs total (add_external spec node next_node root next s build)

  module _ (reader : Reader) (digest : List ℕ → ℕ)
      (open_blob : ℕ → DirectBlobSpec → WriterResult reader.Source) where
    unfoldable pub append_direct_data_tree :
        ℕ → DirectBlobSpec → ℕ → S → WriterResult ((BlockId × ℕ × ℕ) × ℕ × S)
    append_direct_data_tree opened blob next s = do
      source ← open_blob opened blob
      append_reader_data_tree sink reader digest source blob.byte_len blob.sha256 true next s

    -- With the blobs that have been read, and their digests; there was one opening for each.
    unfoldable pub append_direct_properties :
        List DirectPropertySpec
        → ℕ
        → List (DirectBlobSpec × ℕ)
        → PropertyBuild S
        → WriterResult ((ℕ × List (DirectBlobSpec × ℕ)) × PropertyBuild S)
    append_direct_properties [] logical_size completed build = ok ((logical_size, completed), build)
    append_direct_properties (spec ∷ specs) logical_size completed build = do
      guard (is_property_type spec.property_type)
          (invalid_structure "unsupported direct property type")
      node ← value_node_id build.next_value_node
      next_node ←
          or_err (checked u32_mod (build.next_value_node + 1))
            (value_too_large "direct property value node")
      ((root, size, sha256), next, s) ←
          append_direct_data_tree (length completed) spec.blob build.next_block_index build.sink
      total ← or_err (checked_add logical_size size) (value_too_large "message size")
      append_direct_properties specs total (completed ++ (spec.blob, sha256) ∷ [])
          (add_external spec node next_node root next s build)

module _ (is_property_type flags : ℕ → Bool) (put : ℕ → BlockSpec → WriterResult (Unit {0}))
    (reader : Reader) (left : reader.Source → List ℕ) (digest : List ℕ → ℕ)
    (open_blob : ℕ → DirectBlobSpec → WriterResult reader.Source) where
  -- When properties with payloads of at least one byte have been read and written to a stream with a
  -- file, the projection of the properties from their declared lengths, with no file, succeeds with the
  -- same total size, property values, nodes, subnode entries, next indices, cursor and written blocks.
  pub append_declared_properties-append_direct_properties :
      (specs : List DirectPropertySpec) (logical_size : ℕ) (completed : List (DirectBlobSpec × ℕ))
      (build : PropertyBuild BlockStream)
      (out : (ℕ × List (DirectBlobSpec × ℕ)) × PropertyBuild BlockStream)
      → IsStream reader left
      → All (λ spec. 0 < spec.blob.byte_len) specs
      → append_direct_properties is_property_type
          (emit flags (some put))
          reader
          digest
          open_blob
          specs
          logical_size
          completed
          build
        ≡ ok out
      → append_declared_properties is_property_type (emit flags none) specs logical_size build
        ≡ ok (out.0.0, out.1)
  unfolding append_direct_properties append_declared_properties append_direct_data_tree
  append_declared_properties-append_direct_properties [] logical_size completed build out promised
        some_bytes e =
      ap (λ out. ok (out.0.0, out.1)) (ok_injective e)
  append_declared_properties-append_direct_properties (spec ∷ specs) logical_size completed build
        out promised some_bytes e =
      let (_, supported, e1) =
        >>=-eq-ok
          (guard (is_property_type spec.property_type)
            (invalid_structure "unsupported direct property type"))
          _ e in
      let (node, numbered, e2) = >>=-eq-ok (value_node_id build.next_value_node) _ e1 in
      let (next_node, counted, e3) =
        >>=-eq-ok
          (or_err (checked u32_mod (build.next_value_node + 1))
            (value_too_large "direct property value node"))
          _ e2 in
      let (tree, appended, e4) =
        >>=-eq-ok
          (append_direct_data_tree is_property_type (emit flags (some put)) reader digest open_blob
            (length completed) spec.blob build.next_block_index build.sink)
          _ e3 in
      let (source, opened, read) = >>=-eq-ok (open_blob (length completed) spec.blob) _ appended in
      let (total, added, e5) =
        >>=-eq-ok (or_err (checked_add logical_size tree.0.1) (value_too_large "message size")) _
          e4 in
      let declared =
        append_declared_data_tree-append_reader_data_tree flags put reader left digest source
          spec.blob.byte_len spec.blob.sha256 true build.next_block_index build.sink tree promised
          some_bytes.0 read in
      let rest =
        append_declared_properties-append_direct_properties specs total _ _ out promised
          some_bytes.1 e5 in
      rw (supported, numbered, counted, declared, added) rest
