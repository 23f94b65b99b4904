-- ===== src/Writer/Extent.antt =====
-- Extents of the output file: crates/pstforge-pst/src/writer.rs, the constants at its head,
-- `align_up`, `reserved_map_page_count`, `allocate_extent` and `allocation_file_eof`.
-- A cursor that the source passes by `&mut` is an argument, and its new value is part of the result.
pub mod Laws
pub mod FirstFit
use pstforge.Base.{
  ℕ, zero, suc, ◌+◌, ◌-◌, ◌*◌, ◌/◌, ◌%◌, ◌<◌, max, Bool, ◌&&◌, Option, ltb, leb, ◌==◌,
  if◌then◌else◌, u64_mod, checked_add, checked_sub, saturating_mul, div_ceil, Result, ok, err,
  aborted, ◌>>=◌, or_err,
}
use pstforge.Writer.Error.{WriterError, WriterResult, value_too_large, invalid_structure}

abbrev pub first_amap : ℕ
first_amap = 0x4400

abbrev pub slots_per_amap : ℕ
slots_per_amap = 496 * 8

abbrev pub slot_size : ℕ
slot_size = 64

abbrev pub page_size : ℕ
page_size = 512

abbrev pub amap_data_size : ℕ
amap_data_size = slots_per_amap * slot_size

abbrev pub fmap_first_amap : ℕ
fmap_first_amap = 128

abbrev pub fmap_amap_count : ℕ
fmap_amap_count = 496

abbrev pub fpmap_first_amap : ℕ
fpmap_first_amap = 128 * 64

abbrev pub fpmap_amap_count : ℕ
fpmap_amap_count = 496 * 64

-- The product wraps in a release build.
unfoldable pub align_up : ℕ → ℕ → ℕ
align_up value alignment = div_ceil value alignment * alignment % u64_mod

-- Whether map pages of one kind, from `first` on one in `count` regions, have one in this region.
abbrev pub has_map : ℕ → ℕ → ℕ → Bool
has_map amap_index first count = leb first amap_index && (amap_index - first) % count == 0

unfoldable pub reserved_map_page_count : ℕ → ℕ
reserved_map_page_count amap_index =
    if amap_index % 8 == 0
    then 2
      + (if has_map amap_index fmap_first_amap fmap_amap_count then 1 else 0)
      + (if has_map amap_index fpmap_first_amap fpmap_amap_count then 1 else 0)
    else 1

-- One round of the loop: the extent and the cursor behind it, or the offset of the next round.
pub data Round : Type 0 where
  placed : ℕ → ℕ → Round
  retry : ℕ → Round

unfoldable pub allocate_round : ℕ → ℕ → ℕ → WriterResult Round
allocate_round offset size alignment = do
  used ← or_err (checked_sub offset first_amap) (invalid_structure "allocation before first AMap")
  let amap_index = used / amap_data_size
  region_start ←
      or_err (checked_add first_amap (saturating_mul amap_index amap_data_size))
        (value_too_large "allocation region")
  reserved_end ←
      or_err
        (checked_add region_start (saturating_mul (reserved_map_page_count amap_index) page_size))
        (value_too_large "allocation map pages")
  let start = if ltb offset reserved_end then align_up reserved_end alignment else offset
  end ← or_err (checked_add start size) (value_too_large "allocation extent")
  region_end ←
      or_err (checked_add region_start amap_data_size) (value_too_large "allocation region")
  ok (if leb end region_end then placed start end else retry region_end)

-- What the loop makes of a round, given its further rounds.
abbrev pub settle : (ℕ → WriterResult (ℕ × ℕ)) → WriterResult Round → WriterResult (ℕ × ℕ)
settle next_round (ok (placed start end)) = ok (start, end)
settle next_round (ok (retry next)) = next_round next
settle next_round (err e) = err e
settle next_round aborted = aborted

unfoldable pub allocate_loop : ℕ → ℕ → ℕ → ℕ → WriterResult (ℕ × ℕ)
allocate_loop zero offset size alignment = aborted
allocate_loop (suc fuel) offset size alignment =
    settle (λ next. allocate_loop fuel next size alignment) (allocate_round offset size alignment)

-- A round that retries goes on to the next region, and 2 ^ 64 / amap_data_size + 1 regions meet the
-- addresses of 64 bits.
abbrev pub allocate_fuel : ℕ
allocate_fuel = u64_mod / amap_data_size + 2

-- The offset of the extent, and the new cursor.
unfoldable pub allocate_extent : ℕ → ℕ → ℕ → WriterResult (ℕ × ℕ)
allocate_extent cursor size alignment =
    allocate_loop allocate_fuel (align_up cursor alignment) size alignment

unfoldable pub allocation_file_eof : ℕ → WriterResult ℕ
allocation_file_eof allocated_end = do
  used ←
      or_err (checked_sub allocated_end first_amap) (invalid_structure "allocation end underflow")
  or_err
      (checked_add first_amap
        (saturating_mul (max (div_ceil used amap_data_size) 1) amap_data_size))
      (value_too_large "file EOF")
