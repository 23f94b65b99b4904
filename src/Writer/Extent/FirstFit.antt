-- ===== src/Writer/Extent/FirstFit.antt =====
-- `allocate_extent` (crates/pstforge-pst/src/writer.rs) as a first-fit allocator.
use pstforge.Base.{ℕ, ◌+◌, ◌-◌, ◌%◌, ◌<◌, ◌≤◌, ◌≡◌, ◌⊎◌, u64_mod, Returns, ok, err, aborted, arith}
use pstforge.Writer.Error.{WriterResult}
use pstforge.Writer.Extent.{
  first_amap, amap_data_size, page_size, align_up, allocate_fuel, allocate_extent,
  allocation_file_eof,
}
use pstforge.Writer.Extent.Laws.{
  IsAlignment, IsExtent, Allocated, loop_sound, loop_least, AlignUp_lem, align_least, region_start,
  region_of,
}

-- A cursor in the addresses that `align_up` does not wrap.
abbrev pub IsCursor : ℕ → Type 0
IsCursor cursor = cursor + page_size ≤ u64_mod

module _ (cursor size a : ℕ) (alignment : IsAlignment a) where
  Allocated-le :
      (offset : ℕ) (r : WriterResult (ℕ × ℕ))
      → cursor ≤ offset
      → Allocated offset size a r
      → Allocated cursor size a r
  Allocated-le offset (ok (start, end)) h s = (omega arith, s.1, s.2, s.3)
  Allocated-le offset (err e) h s = s
  Allocated-le offset aborted h s = s

  -- For an alignment of 64 or 512 and a cursor at least 512 below 2 ^ 64, an allocation ends, and
  -- where it succeeds the extent is aligned, at or after the cursor, behind the map pages of its
  -- allocation region and inside that region, and the new cursor is its end.
  pub allocate_extent-Allocated :
      IsCursor cursor → Allocated cursor size a (allocate_extent cursor size a)
  unfolding allocate_extent
  allocate_extent-Allocated h =
      let up = AlignUp_lem size a alignment cursor (omega arith) in
      Allocated-le (align_up cursor a) _ up.0 (
        loop_sound size a alignment allocate_fuel (align_up cursor a) (omega arith) up.2
          (omega arith))

  Returns-first :
      (t : ℕ) (r : WriterResult (ℕ × ℕ))
      → Allocated cursor size a r
      → Returns (λ x. x.0 ≤ t) r
      → Returns (λ x. (cursor ≤ x.0) × (x.0 ≤ t) × (x.1 ≡ x.0 + size) × IsExtent x.0 size a) r
  Returns-first t (ok (start, end)) s l = (s.0, l, s.1, s.2)
  Returns-first t (err e) s l = l
  Returns-first t aborted s l = l

  -- Wherever an extent of the size and the alignment (64 or 512) could stand at or after a cursor
  -- that is not before the first allocation map, in a region that ends below 2 ^ 64, the allocation
  -- succeeds, with an extent that is not behind that one and whose end is the new cursor.
  pub allocate_extent_first_fit :
      (t : ℕ)
      → first_amap ≤ cursor
      → cursor ≤ t
      → IsExtent t size a
      → region_start (region_of t + 1) < u64_mod
      → Returns
          (λ x. (cursor ≤ x.0) × (x.0 ≤ t) × (x.1 ≡ x.0 + size) × IsExtent x.0 size a)
          (allocate_extent cursor size a)
  unfolding allocate_extent
  allocate_extent_first_fit t low le fits room =
      let up = AlignUp_lem size a alignment cursor (omega arith) in
      let least = align_least size a alignment cursor t (omega arith) le fits.aligned in
      Returns-first t (allocate_extent cursor size a) (allocate_extent-Allocated (omega arith)) (
        loop_least size a alignment allocate_fuel (align_up cursor a) t (omega arith) up.2 least
          fits room (omega arith))

-- For an end not before the first allocation map and more than a region below 2 ^ 64, the end of the
-- file is found: it ends the region of the last allocated byte, so it is at or after the allocated
-- end, less than a region behind it unless it is the end of the first region, and the number of
-- regions is whole.
pub allocation_file_eof_covers :
    (allocated_end : ℕ)
    → first_amap ≤ allocated_end
    → allocated_end + amap_data_size < u64_mod
    → Returns
        (λ eof.
          (allocated_end ≤ eof)
          × (first_amap + amap_data_size ≤ eof)
          × ((eof < allocated_end + amap_data_size) ⊎ (eof ≡ first_amap + amap_data_size))
          × ((eof - first_amap) % amap_data_size ≡ 0))
        (allocation_file_eof allocated_end)
unfolding allocation_file_eof
allocation_file_eof_covers allocated_end low room = ground arith
