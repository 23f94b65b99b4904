-- ===== src/Writer/Block.antt =====
-- Blocks of the output: crates/pstforge-pst/src/writer.rs, `BlockSpec`, `BlockPayload`, `write_blocks`
-- and `BlockStream::emit`; with `block_size` of src/ndb/block.rs and the block ids of
-- src/ndb/block_id.rs. Serialising a block and writing it to the file are one argument, `put`, of an
-- offset and the block: it stands for the block types of src/ndb and the operating system. The flag
-- that a signal sets is a function `flags`: its value when the block of that number is reached.
pub mod Layout
use pstforge.Base.{
  ℕ, suc, ◌+◌, ◌-◌, ◌*◌, Bool, true, false, not, List, [], ◌∷◌, ◌++◌, min, ltb, leb, ◌==◌, ◌||◌,
  ◌^◌, if◌then◌else◌, u16_mod, checked, saturating_add, saturating_mul, div_ceil, length, ok, err,
  aborted, ◌>>=◌, ◌>>◌, or_err, guard,
}
use pstforge.Writer.Error.{WriterResult, value_too_large, invalid_structure, io, interrupted}
use pstforge.Writer.Extent.{slot_size, allocate_extent}

abbrev pub max_block_size : ℕ
max_block_size = 8192

unfoldable pub block_size : ℕ → WriterResult ℕ
block_size size =
    if size == 0 || ltb max_block_size size
    then err (io "invalid block size")
    else ok (div_ceil size 64 * 64)

-- A block id is an index and the bit that marks the blocks that hold references.
pub record BlockId : Type 0 where
  pub internal : Bool
  pub index : ℕ

-- `UnicodeBlockId::new`: the two top bits of the index must be clear.
unfoldable pub new_block_id : Bool → ℕ → WriterResult BlockId
new_block_id internal index =
    if ltb index (2 ^ 62)
    then ok (record { internal = internal; index = index })
    else err (invalid_structure "invalid block index")

-- `u64::from` of a block id.
abbrev pub raw_block_id : BlockId → ℕ
raw_block_id id = id.index * 4 + (if id.internal then 2 else 0)

pub record LeafSubnodeEntry : Type 0 where
  pub node : ℕ
  pub block : BlockId

pub record IntermediateSubnodeEntry : Type 0 where
  pub node : ℕ
  pub block : BlockId

pub data BlockPayload : Type 0 where
  data_bytes : List ℕ → BlockPayload
  projected_data : ℕ → BlockPayload
  subnode : List LeafSubnodeEntry → BlockPayload
  intermediate_subnode : ℕ → List IntermediateSubnodeEntry → BlockPayload
  data_tree : ℕ → ℕ → List BlockId → BlockPayload

pub record BlockSpec : Type 0 where
  pub id : BlockId
  pub payload : BlockPayload
  pub ref_count : ℕ

unfoldable pub logical_size : BlockPayload → ℕ
logical_size (data_bytes bytes) = length bytes
logical_size (projected_data size) = size
logical_size (subnode entries) = saturating_add 8 (saturating_mul (length entries) 24)
logical_size (intermediate_subnode level entries) =
    saturating_add 8 (saturating_mul (length entries) 16)
logical_size (data_tree level total_size entries) =
    saturating_add 8 (saturating_mul (length entries) 8)

unfoldable pub message_size_contribution : BlockPayload → ℕ
message_size_contribution (data_bytes bytes) = length bytes
message_size_contribution (projected_data size) = size
message_size_contribution (subnode entries) = 0
message_size_contribution (intermediate_subnode level entries) = 0
message_size_contribution (data_tree level total_size entries) = 0

pub record WrittenBlock : Type 0 where
  pub id : BlockId
  pub offset : ℕ
  pub size : ℕ
  pub ref_count : ℕ

-- The size that a block occupies, its trailer of 16 bytes included; the sum saturates in a u16.
abbrev pub physical_size : ℕ → WriterResult ℕ
physical_size size = block_size (min (size + 16) (u16_mod - 1))

abbrev pub is_projected : BlockPayload → Bool
is_projected (projected_data size) = true
is_projected _ = false

-- The count of entries, which goes into the block's header.
unfoldable pub entry_count : BlockPayload → WriterResult (Unit {0})
entry_count (data_bytes bytes) = ok tt
entry_count (projected_data size) =
    err (invalid_structure "projected data block reached physical output")
entry_count (subnode entries) =
    guard (ltb (length entries) u16_mod) (value_too_large "subnode entry count")
entry_count (intermediate_subnode level entries) =
    guard (ltb (length entries) u16_mod) (value_too_large "subnode entry count")
entry_count (data_tree level total_size entries) =
    guard (ltb (length entries) u16_mod) (value_too_large "data-tree entry count")

unfoldable pub check_interrupted : Bool → WriterResult (Unit {0})
check_interrupted flag = if flag then err interrupted else ok tt

-- Room for one block: its size, where it goes, and the new cursor.
unfoldable pub place_block : BlockSpec → ℕ → WriterResult (WrittenBlock × ℕ)
place_block block cursor = do
  size ← or_err (checked u16_mod (logical_size block.payload)) (value_too_large "data block")
  physical ← physical_size size
  (offset, next) ← allocate_extent cursor physical slot_size
  ok (record { id = block.id; offset = offset; size = size; ref_count = block.ref_count }, next)

module _ (put : ℕ → BlockSpec → WriterResult (Unit {0})) where
  unfoldable pub write_block : Bool → BlockSpec → ℕ → WriterResult (WrittenBlock × ℕ)
  write_block flag block cursor = do
    check_interrupted flag
    guard (not (is_projected block.payload))
        (invalid_structure "projected data block reached physical output")
    (written, next) ← place_block block cursor
    entry_count block.payload
    put written.offset block
    ok (written, next)

  -- The blocks in turn, and the cursor behind the last one.
  unfoldable pub write_blocks :
      (ℕ → Bool) → List BlockSpec → ℕ → WriterResult (List WrittenBlock × ℕ)
  write_blocks flags [] cursor = ok ([], cursor)
  write_blocks flags (block ∷ blocks) cursor = do
    (written, next) ← write_block (flags 0) block cursor
    (rest, end) ← write_blocks (λ n. flags (suc n)) blocks next
    ok (written ∷ rest, end)
