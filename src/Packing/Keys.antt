-- ===== src/Packing/Keys.antt =====
-- The order and the keys of candidates in `pack_candidates` (crates/pstforge-core/src/packing.rs).
use Prim.Native.Nat.{Ordering, compare}
use pstforge.Base.{
  ℕ, ◌≡◌, ◌≢◌, refl, sym, true, false, List, [], ◌∷◌, All, arith, ok, IsOrder, compare-IsOrder,
  cmp_on, cmp_on-IsOrder, cmp_option-IsOrder, cmp_list-IsOrder, cmp_pair, cmp_pair-IsOrder,
  cmp_option, All-map, All-both, AllPairs, IsApart, Option,
}
use pstforge.Packing.{
  ItemKey, PackCandidate, RecoveryProvenance, CanonicalFolderLocation, provenance_position,
  location_position, cmp_key, cmp_path, cmp_candidate, before, is_le, check_paths, check_keys,
  contains_key, has_empty_component,
}

provenance_injective :
    (a b : RecoveryProvenance) → provenance_position a ≡ provenance_position b → a ≡ b
provenance_injective a b h = ground arith

location_injective :
    (a b : CanonicalFolderLocation) → location_position a ≡ location_position b → a ≡ b
location_injective a b h = ground arith

abbrev KeyFields : Type 0
KeyFields = RecoveryProvenance × (Option ℕ × (Option ℕ × ℕ))

abbrev cmp_key_fields : KeyFields → KeyFields → Ordering
cmp_key_fields =
    cmp_pair (cmp_on provenance_position compare)
      (cmp_pair (cmp_option compare) (cmp_pair (cmp_option compare) compare))

cmp_key_fields-IsOrder : IsOrder cmp_key_fields
cmp_key_fields-IsOrder =
    cmp_pair-IsOrder _ _
      (cmp_on-IsOrder provenance_position compare provenance_injective compare-IsOrder)
      (cmp_pair-IsOrder _ _ (cmp_option-IsOrder compare compare-IsOrder)
        (cmp_pair-IsOrder _ _ (cmp_option-IsOrder compare compare-IsOrder) compare-IsOrder))

abbrev key_fields : ItemKey → KeyFields
key_fields k = (k.provenance, (k.source_node_id, (k.recovery_index, k.occurrence)))

key_fields_injective : (a b : ItemKey) → key_fields a ≡ key_fields b → a ≡ b
key_fields_injective a b h = ground arith

cmp_key-IsOrder : IsOrder cmp_key
cmp_key-IsOrder =
    cmp_on-IsOrder key_fields cmp_key_fields key_fields_injective cmp_key_fields-IsOrder

-- What the sort reads of a candidate.
abbrev SortKey : Type 0
SortKey = CanonicalFolderLocation × (List (List ℕ) × ItemKey)

abbrev sort_key : PackCandidate → SortKey
sort_key c = (c.folder_location, (c.folder_path, c.key))

abbrev cmp_sort_key : SortKey → SortKey → Ordering
cmp_sort_key = cmp_pair (cmp_on location_position compare) (cmp_pair cmp_path cmp_key)

cmp_sort_key-IsOrder : IsOrder cmp_sort_key
cmp_sort_key-IsOrder =
    cmp_pair-IsOrder _ _
      (cmp_on-IsOrder location_position compare location_injective compare-IsOrder)
      (cmp_pair-IsOrder _ _ (cmp_list-IsOrder _ (cmp_list-IsOrder compare compare-IsOrder))
        cmp_key-IsOrder)

before-sort_key :
    (a b : PackCandidate) → before a b ≡ is_le (cmp_sort_key (sort_key a) (sort_key b))
unfolding cmp_candidate
before-sort_key a b = refl

pub before_total : (a b : PackCandidate) → before a b ≡ false → before b a ≡ true
before_total a b h =
    let o = cmp_sort_key-IsOrder in
    ground (arith, before-sort_key a b, before-sort_key b a, o.cmp_gt (sort_key a) (sort_key b))

is_le_trans :
    {A : Type 0} (cmp : A → A → Ordering)
    → IsOrder cmp
    → (a b c : A) → is_le (cmp a b) ≡ true
    → is_le (cmp b c) ≡ true
    → is_le (cmp a c) ≡ true
is_le_trans cmp o a b c h k =
    ground (arith, o.cmp_trans a b c, o.cmp_eq a b, o.cmp_eq b c, o.cmp_refl c)

pub before_trans :
    (a b c : PackCandidate) → before a b ≡ true → before b c ≡ true → before a c ≡ true
unfolding cmp_candidate
before_trans a b c h k =
    is_le_trans cmp_sort_key cmp_sort_key-IsOrder (sort_key a) (sort_key b) (sort_key c) h k

abbrev pub HaveDistinctKeys : PackCandidate → PackCandidate → Type 0
HaveDistinctKeys a b = a.key ≢ b.key

pub IsApart-of_keys :
    (a b : PackCandidate) → HaveDistinctKeys a b → IsApart before before_total before_trans a b
IsApart-of_keys a b d h =
    let o = cmp_sort_key-IsOrder in
    ground (
      arith,
      before-sort_key a b,
      before-sort_key b a,
      o.cmp_eq (sort_key a) (sort_key b),
      o.cmp_lt (sort_key a) (sort_key b),
      o.cmp_gt (sort_key a) (sort_key b),
    )

contains_key_iff :
    (key : ItemKey) (seen : List ItemKey) → contains_key key seen ≡ false → All (λ s. key ≢ s) seen
unfolding contains_key
contains_key_iff key [] h = tt
contains_key_iff key (s ∷ seen) h =
    (λ e. ground (arith, cmp_key-IsOrder.cmp_refl s), contains_key_iff key seen (ground arith))

contains_key_absent :
    (key : ItemKey) (seen : List ItemKey) → All (λ s. key ≢ s) seen → contains_key key seen ≡ false
unfolding contains_key
contains_key_absent key [] h = refl
contains_key_absent key (s ∷ seen) h =
    ground (arith, cmp_key-IsOrder.cmp_eq key s, h.0, contains_key_absent key seen h.1)

-- Keys that pass the check are distinct, and new.
pub check_keys-distinct :
    (seen : List ItemKey) (cs : List PackCandidate)
    → check_keys seen cs ≡ ok tt
    → AllPairs HaveDistinctKeys cs × All (λ c. All (λ s. c.key ≢ s) seen) cs
unfolding check_keys
check_keys-distinct seen [] h = (tt, tt)
check_keys-distinct seen (c ∷ cs) h =
    let rest = check_keys-distinct (c.key ∷ seen) cs (ground arith) in
    (
      (All-map _ (HaveDistinctKeys c) (λ d n e. n.0 (sym e)) cs rest.1, rest.0),
      (contains_key_iff c.key seen (ground arith), All-map _ _ (λ d n. n.1) cs rest.1),
    )

pub check_keys_passes :
    (seen : List ItemKey) (cs : List PackCandidate)
    → AllPairs HaveDistinctKeys cs
    → All (λ c. All (λ s. c.key ≢ s) seen) cs
    → check_keys seen cs ≡ ok tt
unfolding check_keys
check_keys_passes seen [] h n = refl
check_keys_passes seen (c ∷ cs) h n = rw (contains_key_absent c.key seen n.0) (
    check_keys_passes (c.key ∷ seen) cs h.1
      (All-both _ _ cs (All-map (HaveDistinctKeys c) _ (λ d m e. m (sym e)) cs h.0) n.1))

abbrev pub HasNames : PackCandidate → Type 0
HasNames c = has_empty_component c.folder_path ≡ false

pub check_paths-HasNames : (cs : List PackCandidate) → check_paths cs ≡ ok tt → All HasNames cs
unfolding check_paths
check_paths-HasNames [] h = tt
check_paths-HasNames (c ∷ cs) h = (ground arith, check_paths-HasNames cs (ground arith))

pub check_paths_passes : (cs : List PackCandidate) → All HasNames cs → check_paths cs ≡ ok tt
unfolding check_paths
check_paths_passes [] h = refl
check_paths_passes (c ∷ cs) h = rw h.0 (check_paths_passes cs h.1)

pub HaveDistinctKeys-sym : (a b : PackCandidate) → HaveDistinctKeys a b → HaveDistinctKeys b a
HaveDistinctKeys-sym a b n e = n (sym e)
