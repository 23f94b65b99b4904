-- ===== src/Split/Size.antt =====
-- Sizes of a proposed store: crates/pstforge-core/src/split.rs, `LayoutEstimator`,
-- `estimate_candidate_iter` and `AdaptiveSizeModel`. The set of folders is the sequence of its paths,
-- each once.
pub mod Monotone
use pstforge.Base.{
  ℕ, zero, suc, ◌+◌, ◌-◌, ◌*◌, ◌/◌, ◌^◌, Bool, false, ◌||◌, List, [], ◌∷◌, Option, none, some,
  length, take, min, ltb, ◌==◌, if◌then◌else◌, u64_mod, checked, checked_add, saturating_mul,
  Result, ok, err, aborted, ◌>>=◌, ◌>>◌, or_err, guard,
}
use pstforge.Packing.{PackCandidate, PackingError, cmp_path, is_eq}
use pstforge.Packing.PackingError.{size_overflow, estimator_error}

abbrev pub estimated_store_bytes : ℕ
estimated_store_bytes = 1024 * 1024

abbrev pub estimated_message_bytes : ℕ
estimated_message_bytes = 64 * 1024

abbrev pub estimated_folder_bytes : ℕ
estimated_folder_bytes = 16 * 1024

abbrev pub u128_mod : ℕ
u128_mod = 2 ^ 128

abbrev pub saturating_len : ℕ → ℕ
saturating_len value = min value (u64_mod - 1)

unfoldable pub contains_path : List (List ℕ) → List (List (List ℕ)) → Bool
contains_path path [] = false
contains_path path (folder ∷ folders) = is_eq (cmp_path path folder) || contains_path path folders

-- `folders.insert`.
unfoldable pub insert_path : List (List ℕ) → List (List (List ℕ)) → List (List (List ℕ))
insert_path path folders = if contains_path path folders then folders else path ∷ folders

-- The first components of a path, from one up to `n` of them.
unfoldable pub insert_ancestors : List (List ℕ) → ℕ → List (List (List ℕ)) → List (List (List ℕ))
insert_ancestors path zero folders = folders
insert_ancestors path (suc n) folders =
    insert_path (take (suc n) path) (insert_ancestors path n folders)

unfoldable pub estimate_loop :
    List PackCandidate → List (List (List ℕ)) → ℕ → Result PackingError (List (List (List ℕ)) × ℕ)
estimate_loop [] folders estimated = ok (folders, estimated)
estimate_loop (candidate ∷ candidates) folders estimated = do
  with_payload ← or_err (checked_add estimated candidate.payload_bytes) size_overflow
  with_message ← or_err (checked_add with_payload estimated_message_bytes) size_overflow
  estimate_loop candidates
      (insert_ancestors candidate.folder_path (length candidate.folder_path) folders) with_message

unfoldable pub add_folders : List (List (List ℕ)) → ℕ → Result PackingError ℕ
add_folders folders estimated =
    or_err
      (checked_add estimated
        (saturating_mul (saturating_len (length folders)) estimated_folder_bytes))
      size_overflow

unfoldable pub estimate_candidate_iter : List PackCandidate → Result PackingError ℕ
estimate_candidate_iter candidates = do
  (folders, estimated) ← estimate_loop candidates [] estimated_store_bytes
  add_folders folders estimated

-- The last observation: an estimate, and the size that it turned out to be.
pub record AdaptiveSizeModel : Type 0 where
  pub observed : Option (ℕ × ℕ)

-- `estimated * actual / estimate`, rounded up, in 128 bits; a division by zero panics.
unfoldable pub scale : ℕ → ℕ → ℕ → Result PackingError ℕ
scale estimated_bytes observed_estimate observed_actual = do
  numerator ← or_err (checked u128_mod (estimated_bytes * observed_actual)) size_overflow
  sum ← or_err (checked u128_mod (numerator + (observed_estimate - 1))) size_overflow
  if observed_estimate == 0
      then aborted
      else or_err (checked u64_mod (sum / observed_estimate)) size_overflow

unfoldable pub predict : AdaptiveSizeModel → ℕ → Result PackingError ℕ
predict model estimated_bytes = elim model.observed [
  | none ↦ ok estimated_bytes
  | some (observed_estimate, observed_actual) ↦
      scale estimated_bytes observed_estimate observed_actual
]

unfoldable pub observe : AdaptiveSizeModel → ℕ → ℕ → Result PackingError AdaptiveSizeModel
observe model estimated_bytes actual_bytes =
    if estimated_bytes == 0
    then err (estimator_error "adaptive size observation has a zero estimate")
    else ok (record { observed = some (estimated_bytes, actual_bytes) })

-- The prediction for the estimate of a proposed store.
unfoldable pub predicted_size : AdaptiveSizeModel → List PackCandidate → Result PackingError ℕ
predicted_size model candidates = do
  estimated ← estimate_candidate_iter candidates
  predict model estimated
