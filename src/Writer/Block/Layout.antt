-- ===== src/Writer/Block/Layout.antt =====
-- Where `write_blocks` (crates/pstforge-pst/src/writer.rs) puts its blocks in the file.
use pstforge.Base.{
  ℕ, suc, ◌+◌, ◌*◌, ◌≤◌, ◌<◌, ◌≡◌, refl, ap, subst, ◌∙◌, length, inl, Bool, List, [], ◌∷◌, u16_mod,
  div_ceil, ok, >>=-eq-ok, or_err, checked, arith,
}
use pstforge.Writer.Error.{WriterResult, value_too_large}
use pstforge.Writer.Extent.{slot_size, allocate_extent}
use pstforge.Writer.Extent.Laws.{IsExtent}
use pstforge.Writer.Extent.FirstFit.{IsCursor, allocate_extent-Allocated}
use pstforge.Writer.Block.{
  BlockSpec, BlockPayload, data_bytes, projected_data, subnode, intermediate_subnode, data_tree,
  WrittenBlock, logical_size, block_size, physical_size, place_block, write_block, write_blocks,
}

-- The bytes that a block of a size occupies: its trailer of 16 bytes, rounded up to whole slots.
abbrev pub footprint : ℕ → ℕ
footprint size = div_ceil (size + 16) slot_size * slot_size

-- The bytes that a payload serialises to, however many these are: a header of 8 bytes before the entries.
abbrev pub full_size : BlockPayload → ℕ
full_size (data_bytes bytes) = length bytes
full_size (projected_data size) = size
full_size (subnode entries) = 8 + length entries * 24
full_size (intermediate_subnode level entries) = 8 + length entries * 16
full_size (data_tree level total_size entries) = 8 + length entries * 8

-- The record of a block: its id, its count of references, and the true size of its payload, which fits a
-- u16.
pub record IsRecordOf (block : BlockSpec) (written : WrittenBlock) : Type 0 where
  pub id : written.id ≡ block.id
  pub ref_count : written.ref_count ≡ block.ref_count
  pub size : written.size ≡ full_size block.payload
  pub fits : full_size block.payload < u16_mod

-- There is one record for each block, and the blocks follow one another between two cursors, each in an
-- extent of its own.
abbrev pub Laid : ℕ → List BlockSpec → List WrittenBlock → ℕ → Type 0
Laid cursor [] [] end = cursor ≡ end
Laid cursor (block ∷ blocks) (written ∷ rest) end =
    IsRecordOf block written
    × (cursor ≤ written.offset)
    × IsExtent written.offset (footprint (full_size block.payload)) slot_size
    × Laid (written.offset + footprint (full_size block.payload)) blocks rest end
Laid cursor _ _ end = ⊥

ok_injective : {A : Type 0} {x y : A} → ◌≡◌ {A = WriterResult A} (ok x) (ok y) → x ≡ y
ok_injective e = cc

sized_fully :
    (payload : BlockPayload) (size : ℕ)
    → or_err (checked u16_mod (logical_size payload)) (value_too_large "data block") ≡ ok size
    → (size ≡ full_size payload) × (full_size payload < u16_mod)
unfolding logical_size
sized_fully (data_bytes bytes) size e = ground arith
sized_fully (projected_data n) size e = ground arith
sized_fully (subnode entries) size e = ground arith
sized_fully (intermediate_subnode level entries) size e = ground arith
sized_fully (data_tree level total_size entries) size e = ground arith

physical_size-footprint :
    (size physical : ℕ) → physical_size size ≡ ok physical → physical ≡ footprint size
unfolding block_size
physical_size-footprint size physical e = ground arith

pub record IsPlaced (cursor : ℕ) (block : BlockSpec) (written : WrittenBlock) (next : ℕ)
    : Type 0 where
  pub recorded : IsRecordOf block written
  pub behind : cursor ≤ written.offset
  pub after : next ≡ written.offset + footprint (full_size block.payload)
  pub extent : IsExtent written.offset (footprint (full_size block.payload)) slot_size
  pub further : IsCursor next

allocated_at :
    (cursor physical offset next : ℕ)
    → IsCursor cursor
    → allocate_extent cursor physical slot_size ≡ ok (offset, next)
    → (cursor ≤ offset)
      × (next ≡ offset + physical)
      × IsExtent offset physical slot_size
      × IsCursor next
allocated_at cursor physical offset next h e =
    rw e at (allocate_extent-Allocated cursor physical slot_size (inl refl) h)

place_block-IsPlaced :
    (block : BlockSpec) (cursor next : ℕ) (written : WrittenBlock)
    → IsCursor cursor
    → place_block block cursor ≡ ok (written, next)
    → IsPlaced cursor block written next
unfolding place_block
place_block-IsPlaced block cursor next written h e =
    let (size, sized, more) =
      >>=-eq-ok
        (or_err (checked u16_mod (logical_size block.payload)) (value_too_large "data block")) _
        e in
    let (physical, measured, more') = >>=-eq-ok (physical_size size) _ more in
    let ((offset, after), allocated, last) =
      >>=-eq-ok (allocate_extent cursor physical slot_size) _ more' in
    let at = allocated_at cursor physical offset after h allocated in
    let (true_size, fits) = sized_fully block.payload size sized in
    let same : physical ≡ footprint (full_size block.payload) =
      physical_size-footprint size physical measured ∙ ap footprint true_size in
    subst (λ out. IsPlaced cursor block out.0 out.1) (ok_injective last)
      (record {
        recorded = record { id = refl; ref_count = refl; size = true_size; fits = fits };
        behind = at.0;
        after = at.1 ∙ ap (offset +◌) same;
        extent = subst (λ n. IsExtent offset n slot_size) same at.2;
        further = at.3;
      })

pub write_block-place_block :
    (put : ℕ → BlockSpec → WriterResult (Unit {0})) (flag : Bool) (block : BlockSpec)
    (cursor next : ℕ) (written : WrittenBlock)
    → write_block put flag block cursor ≡ ok (written, next)
    → place_block block cursor ≡ ok (written, next)
unfolding write_block
write_block-place_block put flag block cursor next written e = ground arith

-- Whatever the blocks hold, when a list of blocks has been written from a cursor at least 512 below
-- 2 ^ 64 on, there is one record for each block, in their order, with the id and count of references of
-- the block and the true size of its payload, which is below 2 ^ 16; the blocks stand one behind the
-- other from the cursor on, each in the room that its payload and its trailer take in whole slots, none
-- overlapping another, a map page or the end of its allocation region, and the new cursor is right
-- behind the last one.
pub write_blocks-Laid :
    (put : ℕ → BlockSpec → WriterResult (Unit {0})) (flags : ℕ → Bool) (blocks : List BlockSpec)
    (cursor end : ℕ) (written : List WrittenBlock)
    → IsCursor cursor
    → write_blocks put flags blocks cursor ≡ ok (written, end)
    → Laid cursor blocks written end
unfolding write_blocks
write_blocks-Laid put flags [] cursor end written h e =
    subst (λ out. Laid cursor [] out.0 out.1) (ok_injective e) refl
write_blocks-Laid put flags (block ∷ blocks) cursor end written h e =
    let ((first, next), first_done, more) =
      >>=-eq-ok (write_block put (flags 0) block cursor) _ e in
    let ((rest, last), rest_done, done) =
      >>=-eq-ok (write_blocks put (λ n. flags (suc n)) blocks next) _ more in
    let placed =
      place_block-IsPlaced block cursor next first h
        (write_block-place_block put (flags 0) block cursor next first first_done) in
    let tail =
      write_blocks-Laid put (λ n. flags (suc n)) blocks next last rest placed.further rest_done in
    subst (λ out. Laid cursor (block ∷ blocks) out.0 out.1) (ok_injective done)
      (
        placed.recorded,
        placed.behind,
        placed.extent,
        subst (λ cursor. Laid cursor blocks rest last) placed.after tail,
      )
