-- ===== src/Writer/Extent/Laws.antt =====
-- The loop of `allocate_extent` (crates/pstforge-pst/src/writer.rs): where an extent may stand, what
-- one round does, and what the rounds together give.
use pstforge.Base.{
  ℕ, zero, suc, ◌+◌, ◌-◌, ◌*◌, ◌/◌, ◌%◌, ◌<◌, ◌≤◌, ◌≡◌, ◌⊎◌, inl, inr, u64_mod, ok, err, aborted,
  Returns, arith, subst, sym,
}
use pstforge.Writer.Error.{WriterResult}
use pstforge.Writer.Extent.{
  first_amap, amap_data_size, page_size, align_up, reserved_map_page_count, Round, placed, retry,
  allocate_round, allocate_loop, settle,
}

-- The two alignments that the writer asks for: slots of 64 bytes, and pages of 512.
abbrev pub IsAlignment : ℕ → Type 0
IsAlignment a = (a ≡ 64) ⊎ (a ≡ 512)

by_alignment {ℓ} : (P : ℕ → Type ℓ) → P 64 → P 512 → (a : ℕ) → IsAlignment a → P a
by_alignment P p q a (inl e) = subst P (sym e) p
by_alignment P p q a (inr e) = subst P (sym e) q

abbrev pub AlignUp : ℕ → ℕ → Type 0
AlignUp v a = v + a ≤ u64_mod → (v ≤ align_up v a) × (align_up v a < v + a) × (align_up v a % a ≡ 0)

AlignUp-slot : (v : ℕ) → AlignUp v 64
unfolding align_up
AlignUp-slot v h = ground arith

AlignUp-page : (v : ℕ) → AlignUp v 512
unfolding align_up
AlignUp-page v h = ground arith

abbrev pub AlignLeast : ℕ → ℕ → ℕ → Type 0
AlignLeast v t a = v + a ≤ u64_mod → v ≤ t → t % a ≡ 0 → align_up v a ≤ t

AlignLeast-slot : (v t : ℕ) → AlignLeast v t 64
unfolding align_up
AlignLeast-slot v t h le al = ground arith

AlignLeast-page : (v t : ℕ) → AlignLeast v t 512
unfolding align_up
AlignLeast-page v t h le al = ground arith

pub reserved_bounds : (k : ℕ) → (1 ≤ reserved_map_page_count k) × (reserved_map_page_count k ≤ 4)
unfolding reserved_map_page_count
reserved_bounds k = ground arith

abbrev pub region_of : ℕ → ℕ
region_of offset = (offset - first_amap) / amap_data_size

abbrev pub region_start : ℕ → ℕ
region_start k = first_amap + k * amap_data_size

-- Where `size` bytes may stand: aligned, behind the map pages of their region, and inside it.
pub record IsExtent (start size alignment : ℕ) : Type 0 where
  pub aligned : start % alignment ≡ 0
  pub behind_maps :
      region_start (region_of start) + reserved_map_page_count (region_of start) * page_size ≤ start
  pub inside : start + size ≤ region_start (region_of start + 1)

abbrev RoundSpec : ℕ → ℕ → ℕ → WriterResult Round → Type 0
RoundSpec offset size a (ok (placed start end)) =
    (offset ≤ start) × (end ≡ start + size) × IsExtent start size a × (end + page_size ≤ u64_mod)
RoundSpec offset size a (ok (retry next)) =
    (next ≡ region_start (region_of offset + 1)) × (next < u64_mod) × (offset < next)
RoundSpec offset size a (err e) = Unit
RoundSpec offset size a aborted = ⊥

-- What a round says of an extent `t` that could be had from `offset` on.
abbrev RoundLeast : ℕ → WriterResult Round → Type 0
RoundLeast t (ok (placed start end)) = start ≤ t
RoundLeast t (ok (retry next)) = next ≤ t
RoundLeast t (err e) = ⊥
RoundLeast t aborted = ⊥

abbrev maps_end : ℕ → ℕ
maps_end k = region_start k + reserved_map_page_count k * page_size

abbrev RoundLaw : ℕ → Type 0
RoundLaw a =
    (offset size : ℕ)
    → offset < u64_mod
    → offset % a ≡ 0
    → RoundSpec offset size a (allocate_round offset size a)

abbrev RoundLeastLaw : ℕ → Type 0
RoundLeastLaw a =
    (offset size t : ℕ)
    → first_amap ≤ offset
    → offset % a ≡ 0
    → offset ≤ t
    → IsExtent t size a
    → region_start (region_of t + 1) < u64_mod
    → RoundLeast t (allocate_round offset size a)

round_slot : RoundLaw 64
unfolding allocate_round
round_slot offset size h aligned =
    ground (arith, reserved_bounds (region_of offset), AlignUp-slot (maps_end (region_of offset)))

round_page : RoundLaw 512
unfolding allocate_round
round_page offset size h aligned =
    ground (arith, reserved_bounds (region_of offset), AlignUp-page (maps_end (region_of offset)))

round_least_slot : RoundLeastLaw 64
unfolding allocate_round
round_least_slot offset size t low aligned le fits room = ground (
  arith,
  reserved_bounds (region_of offset),
  reserved_bounds (region_of t),
  AlignUp-slot (maps_end (region_of offset)),
)

round_least_page : RoundLeastLaw 512
unfolding allocate_round
round_least_page offset size t low aligned le fits room = ground (
  arith,
  reserved_bounds (region_of offset),
  reserved_bounds (region_of t),
  AlignUp-page (maps_end (region_of offset)),
)

-- What an allocation gives: an extent at or after the cursor, and its end as the new cursor. The
-- allocation may fail, and always ends.
abbrev pub Allocated : ℕ → ℕ → ℕ → WriterResult (ℕ × ℕ) → Type 0
Allocated cursor size a (ok (start, end)) =
    (cursor ≤ start) × (end ≡ start + size) × IsExtent start size a × (end + page_size ≤ u64_mod)
Allocated cursor size a (err e) = Unit
Allocated cursor size a aborted = ⊥

module _ (size a : ℕ) (alignment : IsAlignment a) where
  next_aligned : (k : ℕ) → region_start (k + 1) % a ≡ 0
  next_aligned k =
      by_alignment (λ b. region_start (k + 1) % b ≡ 0) (omega arith) (omega arith) a alignment

  settle_sound :
      (offset : ℕ) (further : ℕ → WriterResult (ℕ × ℕ)) (r : WriterResult Round)
      → RoundSpec offset size a r
      → ((next : ℕ)
          → next < u64_mod
          → next ≡ region_start (region_of offset + 1)
          → Allocated next size a (further next))
      → Allocated offset size a (settle further r)
  settle_sound offset further (ok (placed start end)) s rec = s
  settle_sound offset further (ok (retry next)) s rec = weaken (further next) (rec next s.1 s.0)
    where
      weaken : (r : WriterResult (ℕ × ℕ)) → Allocated next size a r → Allocated offset size a r
      weaken (ok (start, end)) t = (omega arith, t.1, t.2, t.3)
      weaken (err e) t = t
      weaken aborted t = t
  settle_sound offset further (err e) s rec = tt
  settle_sound offset further aborted s rec = s

  pub loop_sound :
      (fuel offset : ℕ)
      → offset < u64_mod
      → offset % a ≡ 0
      → u64_mod ≤ region_start (region_of offset) + fuel * amap_data_size
      → Allocated offset size a (allocate_loop fuel offset size a)
  unfolding allocate_loop
  loop_sound zero offset h al enough = omega arith
  loop_sound (suc fuel) offset h al enough =
      settle_sound offset _ _
        (by_alignment RoundLaw round_slot round_page a alignment offset size h al)
        λ next below e.
          loop_sound fuel next below (rw e (next_aligned (region_of offset))) (omega arith)

  settle_least :
      (t offset : ℕ) (further : ℕ → WriterResult (ℕ × ℕ)) (r : WriterResult Round)
      → RoundSpec offset size a r
      → RoundLeast t r
      → ((next : ℕ)
          → next ≤ t
          → next ≡ region_start (region_of offset + 1)
          → Returns (λ x. x.0 ≤ t) (further next))
      → Returns (λ x. x.0 ≤ t) (settle further r)
  settle_least t offset further (ok (placed start end)) s l rec = l
  settle_least t offset further (ok (retry next)) s l rec = rec next l s.0
  settle_least t offset further (err e) s l rec = l
  settle_least t offset further aborted s l rec = l

  pub loop_least :
      (fuel offset t : ℕ)
      → first_amap ≤ offset
      → offset % a ≡ 0
      → offset ≤ t
      → IsExtent t size a
      → region_start (region_of t + 1) < u64_mod
      → u64_mod ≤ region_start (region_of offset) + fuel * amap_data_size
      → Returns (λ x. x.0 ≤ t) (allocate_loop fuel offset size a)
  unfolding allocate_loop
  loop_least zero offset t low al le fits room enough = absurd (omega arith)
  loop_least (suc fuel) offset t low al le fits room enough =
      settle_least t offset _ _
        (by_alignment RoundLaw round_slot round_page a alignment offset size (omega arith) al)
        (by_alignment RoundLeastLaw round_least_slot round_least_page a alignment offset size t low
          al le fits room)
        λ next nle e.
          loop_least fuel next t (omega arith) (rw e (next_aligned (region_of offset))) nle fits
            room (omega arith)

  pub AlignUp_lem : (v : ℕ) → AlignUp v a
  AlignUp_lem v = by_alignment (AlignUp v) (AlignUp-slot v) (AlignUp-page v) a alignment

  pub align_least : (v t : ℕ) → AlignLeast v t a
  align_least v t =
      by_alignment (AlignLeast v t) (AlignLeast-slot v t) (AlignLeast-page v t) a alignment
