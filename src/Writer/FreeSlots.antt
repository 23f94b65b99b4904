-- ===== src/Writer/FreeSlots.antt =====
-- The free slots of the allocation maps: crates/pstforge-pst/src/writer.rs, of
-- `write_allocation_pages` the counts of free slots and the sum of free bytes.
-- The pages that it writes are not modelled.
use pstforge.Base.{
  ℕ, zero, suc, ◌+◌, ◌-◌, ◌*◌, ◌<◌, ◌≤◌, ◌≡◌, refl, ◌∙◌, List, [], ◌∷◌, min, max, u16_mod, u64_mod,
  checked, checked_add, checked_sub, saturating_mul, div_ceil, ap, sym, some, ok, ◌>>=◌, or_err,
  arith,
}
use pstforge.Writer.Error.{WriterResult, value_too_large, invalid_structure}
use pstforge.Writer.Extent.{
  first_amap, slots_per_amap, slot_size, amap_data_size, allocation_file_eof,
}

unfoldable pub free_slots_in : ℕ → ℕ → WriterResult ℕ
free_slots_in allocated_end amap_index = do
  region_start ←
      or_err (checked_add first_amap (saturating_mul amap_index amap_data_size))
        (value_too_large "allocation map offset")
  region_end ←
      or_err (checked_add region_start amap_data_size) (value_too_large "allocation map extent")
  let used_end = max (min allocated_end region_end) region_start
  free ←
      or_err (checked_sub slots_per_amap (div_ceil (used_end - region_start) slot_size))
        (value_too_large "allocation map free slots")
  or_err (checked u16_mod free) (value_too_large "allocation map free slots")

-- The maps in turn, from `amap_index` on.
unfoldable pub free_slots : ℕ → ℕ → ℕ → WriterResult (List ℕ)
free_slots zero amap_index allocated_end = ok []
free_slots (suc n) amap_index allocated_end = do
  free ← free_slots_in allocated_end amap_index
  rest ← free_slots n (amap_index + 1) allocated_end
  ok (free ∷ rest)

unfoldable pub add_free_bytes : List ℕ → ℕ → WriterResult ℕ
add_free_bytes [] total = ok total
add_free_bytes (free ∷ rest) total = do
  next ←
      or_err (checked_add total (saturating_mul free slot_size))
        (value_too_large "allocation free byte count")
  add_free_bytes rest next

unfoldable pub allocation_free_bytes : ℕ → WriterResult ℕ
allocation_free_bytes allocated_end = do
  used ←
      or_err (checked_sub allocated_end first_amap) (invalid_structure "allocation start underflow")
  slots ← free_slots (max (div_ceil (max used 1) amap_data_size) 1) 0 allocated_end
  add_free_bytes slots 0

-- The free slots of the region that holds the end.
abbrev last_free : ℕ → ℕ → ℕ
last_free used count = slots_per_amap - div_ceil (used - (count - 1) * amap_data_size) slot_size

free_slots_in_full :
    (used index : ℕ)
    → first_amap + (index + 1) * amap_data_size < u64_mod
    → (index + 1) * amap_data_size ≤ used
    → free_slots_in (first_amap + used) index ≡ ok 0
unfolding free_slots_in
free_slots_in_full used index room full = ground arith

free_slots_in_last :
    (used index : ℕ)
    → first_amap + (index + 1) * amap_data_size < u64_mod
    → index * amap_data_size ≤ used
    → used ≤ (index + 1) * amap_data_size
    → free_slots_in (first_amap + used) index ≡ ok (last_free used (index + 1))
unfolding free_slots_in
free_slots_in_last used index room low high = ground arith

free_bytes_from :
    (n index used total : ℕ)
    → first_amap + (index + suc n) * amap_data_size < u64_mod
    → (index + n) * amap_data_size ≤ used
    → used ≤ (index + suc n) * amap_data_size
    → total + amap_data_size < u64_mod
    → (slots : List ℕ) × (free_slots (suc n) index (first_amap + used) ≡ ok slots)
      × (add_free_bytes slots total ≡ ok (total + last_free used (index + suc n) * slot_size))
unfolding free_slots add_free_bytes
free_bytes_from zero index used total room low high small =
    let free = last_free used (index + 1) in
    let last = free_slots_in_last used index (omega arith) (omega arith) (omega arith) in
    let added : checked_add total (saturating_mul free slot_size)
        ≡ some (total + free * slot_size) =
      ground arith in
    (free ∷ [], rw last refl, rw added refl)
free_bytes_from (suc n) index used total room low high small =
    let full = free_slots_in_full used index (omega arith) (omega arith) in
    let (slots, found, added) =
      free_bytes_from n (index + 1) used total (omega arith) (omega arith) (omega arith) small in
    let same : index + 1 + suc n ≡ index + suc (suc n) = omega arith in
    let nothing : checked_add total (saturating_mul 0 slot_size) ≡ some total = ground arith in
    (
      0 ∷ slots,
      rw (full, found) refl,
      rw nothing (added ∙ ap (λ c. ok (total + last_free used c * slot_size)) same),
    )

free_bytes_at :
    (used count : ℕ)
    → first_amap + suc count * amap_data_size < u64_mod
    → count * amap_data_size ≤ used
    → used ≤ suc count * amap_data_size
    → max (div_ceil (max used 1) amap_data_size) 1 ≡ suc count
    → allocation_free_bytes (first_amap + used) ≡ ok (last_free used (suc count) * slot_size)
unfolding allocation_free_bytes
free_bytes_at used count room low high e =
    let (slots, found, added) =
      free_bytes_from count 0 used 0 (omega arith) (omega arith) (omega arith) (omega arith) in
    let start : checked_sub (first_amap + used) first_amap ≡ some used = ground arith in
    let whole : 0 + suc count ≡ suc count = omega arith in
    rw (start, e, found)
      (added ∙ (ap (λ c. ok (0 + last_free used c * slot_size)) whole ∙ ap ok (omega arith)))

-- For an end not before the first allocation map and more than a region below 2^64, the free bytes
-- that the allocation maps count and the end of the file are found, and the free bytes fill the file
-- from the allocated end to its end, but for less than a slot of 64 bytes.
pub allocation_free_bytes-allocation_file_eof :
    (allocated_end : ℕ)
    → first_amap ≤ allocated_end
    → allocated_end + amap_data_size < u64_mod
    → (free : ℕ) × (eof : ℕ) × (allocation_free_bytes allocated_end ≡ ok free)
      × (allocation_file_eof allocated_end ≡ ok eof)
      × (allocated_end + free ≤ eof)
      × (eof < allocated_end + free + slot_size)
unfolding allocation_file_eof
allocation_free_bytes-allocation_file_eof allocated_end low room =
    let used = allocated_end - first_amap in
    let count = max (div_ceil used amap_data_size) 1 - 1 in
    let at : first_amap + used ≡ allocated_end = omega arith in
    let free =
      free_bytes_at used count (ground arith) (ground arith) (ground arith) (ground arith) in
    (
      last_free used (suc count) * slot_size,
      first_amap + suc count * amap_data_size,
      ap allocation_free_bytes (sym at) ∙ free,
      ground arith,
      ground arith,
      ground arith,
    )
