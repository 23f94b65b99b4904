-- ===== src/Packing.antt =====
-- Packing of candidates into parts: crates/pstforge-core/src/packing.rs, with the keys of
-- crates/pstforge-core/src/catalog.rs and the locations of crates/pstforge-core/src/canonical.rs.
-- Texts are the sequences of their bytes, by which Rust orders them. The size estimator, a trait in
-- the source, is an argument. The set of keys that have been seen is the sequence of them.
pub mod Parts
pub mod Loop
pub mod Division
pub mod Keys
pub mod Arrangement
pub mod Acceptance
mod Tests
use Prim.Native.Nat.{Ordering, compare}
use pstforge.Base.{
  ℕ, suc, ◌+◌, ◌-◌, Bool, true, false, not, ◌&&◌, ◌||◌, List, [], ◌∷◌, ◌++◌, Option, u32_mod, ltb,
  ◌==◌, if◌then◌else◌, checked_sub, length, sort_by, then_with, cmp_on, cmp_option, cmp_list,
  String, Result, ok, err, aborted, ◌>>=◌, ◌>>◌, or_err, guard,
}

pub data RecoveryProvenance : Type 0 where
  normal recovered orphan fragment : RecoveryProvenance

pub record ItemKey : Type 0 where
  pub provenance : RecoveryProvenance
  pub source_node_id : Option ℕ
  pub recovery_index : Option ℕ
  pub occurrence : ℕ

pub data CanonicalFolderLocation : Type 0 where
  store_root ipm_subtree : CanonicalFolderLocation

pub record PackCandidate : Type 0 where
  pub key : ItemKey
  pub folder_location : CanonicalFolderLocation
  pub folder_path : List (List ℕ)
  pub payload_bytes : ℕ

pub record PartAssignment : Type 0 where
  pub index : ℕ
  pub candidates : List PackCandidate
  pub estimated_bytes : ℕ
  pub oversize : Bool

pub data PackingError : Type 0 where
  zero_maximum_size : PackingError
  reserve_exceeds_maximum : ℕ → ℕ → PackingError
  invalid_folder_path : PackingError
  duplicate_candidate : ItemKey → PackingError
  too_many_parts : PackingError
  size_overflow : PackingError
  estimator_error : String → PackingError

-- The derived orders: an enum by the positions of its variants, a record by its fields in turn.
abbrev pub provenance_position : RecoveryProvenance → ℕ
provenance_position normal = 0
provenance_position recovered = 1
provenance_position orphan = 2
provenance_position fragment = 3

abbrev pub location_position : CanonicalFolderLocation → ℕ
location_position store_root = 0
location_position ipm_subtree = 1

abbrev pub cmp_key : ItemKey → ItemKey → Ordering
cmp_key a b = then_with (cmp_on provenance_position compare a.provenance b.provenance) (
    then_with (cmp_option compare a.source_node_id b.source_node_id) (
      then_with (cmp_option compare a.recovery_index b.recovery_index)
        (compare a.occurrence b.occurrence)))

abbrev pub cmp_path : List (List ℕ) → List (List ℕ) → Ordering
cmp_path = cmp_list (cmp_list compare)

unfoldable pub cmp_candidate : PackCandidate → PackCandidate → Ordering
cmp_candidate left right =
    then_with (cmp_on location_position compare left.folder_location right.folder_location)
      (then_with (cmp_path left.folder_path right.folder_path) (cmp_key left.key right.key))

abbrev pub is_le : Ordering → Bool
is_le Ordering.gt = false
is_le _ = true

abbrev pub is_eq : Ordering → Bool
is_eq Ordering.eq = true
is_eq _ = false

abbrev pub before : PackCandidate → PackCandidate → Bool
before a b = is_le (cmp_candidate a b)

abbrev pub is_empty {ℓ} : {A : Type ℓ} → List A → Bool
is_empty [] = true
is_empty (x ∷ xs) = false

-- `any(String::is_empty)` over the components of a path.
unfoldable pub has_empty_component : List (List ℕ) → Bool
has_empty_component [] = false
has_empty_component (component ∷ path) = is_empty component || has_empty_component path

unfoldable pub check_paths : List PackCandidate → Result PackingError (Unit {0})
check_paths [] = ok tt
check_paths (candidate ∷ rest) = do
  guard (not (has_empty_component candidate.folder_path)) invalid_folder_path
  check_paths rest

unfoldable pub contains_key : ItemKey → List ItemKey → Bool
contains_key key [] = false
contains_key key (seen ∷ keys) = is_eq (cmp_key key seen) || contains_key key keys

-- `keys.insert` answers whether the key is new.
unfoldable pub check_keys : List ItemKey → List PackCandidate → Result PackingError (Unit {0})
check_keys seen [] = ok tt
check_keys seen (candidate ∷ rest) = do
  guard (not (contains_key candidate.key seen)) (duplicate_candidate candidate.key)
  check_keys (candidate.key ∷ seen) rest

unfoldable pub push_part :
    List PartAssignment → List PackCandidate → ℕ → Bool → Result PackingError (List PartAssignment)
push_part parts candidates estimated_bytes oversize = do
  guard (ltb (length parts + 1) u32_mod) too_many_parts
  ok (
      parts
      ++ (record {
        index = length parts + 1;
        candidates = candidates;
        estimated_bytes = estimated_bytes;
        oversize = oversize;
      })
        ∷ [])

-- The variables of the loop: the finished parts, the open part, and its estimate.
pub record Packer : Type 0 where
  pub parts : List PartAssignment
  pub current : List PackCandidate
  pub current_estimate : ℕ

-- An oversize part, behind which no part is open.
unfoldable pub push_oversize :
    List PartAssignment → List PackCandidate → ℕ → Result PackingError Packer
push_oversize parts candidates estimated = do
  alone ← push_part parts candidates estimated true
  ok (record { parts = alone; current = []; current_estimate = 0 })

unfoldable pub finish_parts : Packer → Result PackingError (List PartAssignment)
finish_parts s =
    if is_empty s.current then ok s.parts else push_part s.parts s.current s.current_estimate false

module _ (estimate : List PackCandidate → Result PackingError ℕ) where
  -- The open part is closed, and the candidate opens the next one, or is a part alone.
  unfoldable pub close_part : ℕ → Packer → PackCandidate → Result PackingError Packer
  close_part limit s candidate = do
    parts ← push_part s.parts s.current s.current_estimate false
    estimated ← estimate (candidate ∷ [])
    if ltb limit estimated
        then push_oversize parts (candidate ∷ []) estimated
        else ok (record { parts = parts; current = candidate ∷ []; current_estimate = estimated })

  unfoldable pub pack_step : ℕ → Packer → PackCandidate → Result PackingError Packer
  pack_step limit s candidate = do
    let proposed = s.current ++ candidate ∷ []
    estimated ← estimate proposed
    if not (is_empty s.current) && ltb limit estimated
        then close_part limit s candidate
        else if ltb limit estimated
        then push_oversize s.parts proposed estimated
        else ok (record { parts = s.parts; current = proposed; current_estimate = estimated })

  unfoldable pub pack_loop : ℕ → Packer → List PackCandidate → Result PackingError Packer
  pack_loop limit s [] = ok s
  pack_loop limit s (candidate ∷ rest) = do
    s' ← pack_step limit s candidate
    pack_loop limit s' rest

  unfoldable pub pack_candidates :
      List PackCandidate → ℕ → ℕ → Result PackingError (List PartAssignment)
  pack_candidates candidates maximum_bytes safety_reserve_bytes = do
    guard (not (maximum_bytes == 0)) zero_maximum_size
    effective_limit ←
        or_err (checked_sub maximum_bytes safety_reserve_bytes)
          (reserve_exceeds_maximum safety_reserve_bytes maximum_bytes)
    check_paths candidates
    let sorted = sort_by before candidates
    check_keys [] sorted
    s ← pack_loop effective_limit (record { parts = []; current = []; current_estimate = 0 }) sorted
    finish_parts s
