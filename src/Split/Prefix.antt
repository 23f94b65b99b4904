-- ===== src/Split/Prefix.antt =====
-- The choice of a prefix of the candidates that fits a store: crates/pstforge-core/src/split.rs,
-- `canonical_candidate_order`, `fitting_prefix_len`, `take_fitting_prefix`,
-- `extend_to_fitting_prefix` and `shrink_to_fitting_prefix`. A vector and a queue that the source
-- passes by `&mut` are arguments, and part of the result.
pub mod Search
pub mod Order
pub mod Fitting
pub mod Queue
pub mod Extension
use pstforge.Base.{
  ℕ, zero, suc, ◌+◌, ◌-◌, ◌*◌, ◌/◌, min, max, Bool, true, false, not, ◌&&◌, ◌||◌, List, [], ◌∷◌,
  ◌++◌, Option, none, some, length, take, drop, ltb, leb, ◌==◌, if◌then◌else◌, u64_mod,
  saturating_add, saturating_mul, sort_by, Result, ok, err, aborted, ◌>>=◌, ◌>>◌, guard, String,
}
use pstforge.Packing.{PackCandidate, PackingError, is_empty, before, check_paths, check_keys}
use pstforge.Packing.PackingError.{estimator_error}
use pstforge.Split.Size.{AdaptiveSizeModel, predicted_size}

unfoldable pub canonical_candidate_order :
    List PackCandidate → Result PackingError (List PackCandidate)
canonical_candidate_order candidates = do
  check_paths candidates
  let sorted = sort_by before candidates
  check_keys [] sorted
  ok sorted

-- One half of an interval, by whether its middle fits.
abbrev pub narrow : Bool → ℕ → ℕ → ℕ → ℕ × ℕ
narrow true low middle high = (middle, high)
narrow false low middle high = (low, middle)

module _ (fits : ℕ → Result PackingError Bool) where
  -- The `while low + 1 < high`; each round narrows the interval.
  unfoldable pub bisect : ℕ → ℕ → ℕ → Result PackingError ℕ
  bisect zero low high = aborted
  bisect (suc fuel) low high =
      let middle = low + (high - low) / 2 in
      let rest =
        fits middle >>= λ b. (let next = narrow b low middle high in bisect fuel next.0 next.1) in
      if ltb (low + 1) high then rest else ok low

  -- The `while high < maximum && fits(high)`, which doubles `high`; the last bounds.
  unfoldable pub gallop : ℕ → ℕ → ℕ → ℕ → Result PackingError (ℕ × ℕ)
  gallop zero low high maximum = aborted
  gallop (suc fuel) low high maximum =
      let rest = fits high >>= λ b.
      (let more = gallop fuel high (min (saturating_mul high 2) maximum) maximum in
        if b then more else ok (low, high)) in
      if ltb high maximum then rest else ok (low, high)

  -- The doubling and then the halving, from a first length that fits.
  unfoldable pub gallop_bisect : ℕ → Result PackingError ℕ
  gallop_bisect maximum = gallop (maximum + 1) 1 (min 2 maximum) maximum >>= λ (low, high).
      (fits high >>= λ last.
      (let between = bisect (high - low + 1) low high in if last then ok high else between))

-- `pop_front` as often as asked; an error when the queue gets empty before.
unfoldable pub pop_front :
    String → ℕ → List PackCandidate → Result PackingError (List PackCandidate × List PackCandidate)
pop_front message zero queue = ok ([], queue)
pop_front message (suc n) [] = err (estimator_error message)
pop_front message (suc n) (candidate ∷ queue) = do
  (popped, rest) ← pop_front message n queue
  ok (candidate ∷ popped, rest)

-- `split_off`, which panics behind the end.
unfoldable pub split_off :
    ℕ → List PackCandidate → Result PackingError (List PackCandidate × List PackCandidate)
split_off count candidates =
    if ltb (length candidates) count
    then aborted
    else ok (take count candidates, drop count candidates)

module _ (maximum_pst_bytes : ℕ) (model : AdaptiveSizeModel) where
  abbrev pub fits_maximum : List PackCandidate → Result PackingError Bool
  fits_maximum candidates = do
    predicted ← predicted_size model candidates
    ok (leb predicted maximum_pst_bytes)

  -- Whether `candidates[..length]` fits; a length behind the end panics.
  abbrev pub fits_prefix : List PackCandidate → ℕ → Result PackingError Bool
  fits_prefix candidates n = do (prefix, rest) ← split_off n candidates; fits_maximum prefix

  unfoldable pub fitting_prefix_len : List PackCandidate → Result PackingError ℕ
  fitting_prefix_len candidates =
      let fits = fits_prefix candidates in
      let count = length candidates in
      if is_empty candidates
      then ok 0
      else (fits 1 >>= λ first.
          (let searched = bisect fits (count + 1) 1 (saturating_add count 1) in
            if first then searched else ok 1))

  -- The selected candidates and those that remain.
  unfoldable pub take_fitting_prefix :
      List PackCandidate → Result PackingError (List PackCandidate × List PackCandidate)
  take_fitting_prefix remaining = do
    count ← fitting_prefix_len remaining
    pop_front "candidate queue changed during packing" count remaining

  -- The number of candidates that join the selected ones; none when the source answers false.
  unfoldable pub additional_count :
      List PackCandidate → List PackCandidate → ℕ → Result PackingError ℕ
  additional_count selected remaining maximum_additional =
      let fits : ℕ → Result PackingError Bool = λ n. fits_maximum (selected ++ take n remaining) in
      if maximum_additional == 0
      then ok 0
      else (fits 1 >>= λ first.
          (let searched = gallop_bisect fits maximum_additional in
            if first then searched else ok 0))

  abbrev pub maximum_count : List PackCandidate → List PackCandidate → Option ℕ → ℕ
  maximum_count selected remaining none = saturating_add (length selected) (length remaining)
  maximum_count selected remaining (some count) = count - 1

  -- Whether it was extended, the selected candidates, and those that remain.
  unfoldable pub extend_to_fitting_prefix :
      List PackCandidate
      → List PackCandidate
      → Option ℕ
      → Result PackingError (Bool × (List PackCandidate × List PackCandidate))
  extend_to_fitting_prefix selected remaining rejected_prefix_len =
      let limit = maximum_count selected remaining rejected_prefix_len in
      if is_empty remaining || leb limit (length selected)
      then ok (false, (selected, remaining))
      else (additional_count selected remaining (min (limit - length selected) (length remaining))
          >>= λ low.
              (pop_front "candidate queue changed during expansion" low remaining
                >>= λ (popped, rest). ok (not (low == 0), (selected ++ popped, rest))))

  unfoldable pub shrink_to_fitting_prefix :
      List PackCandidate
      → List PackCandidate
      → Result PackingError (List PackCandidate × List PackCandidate)
  shrink_to_fitting_prefix selected remaining = do
    fitting ← fitting_prefix_len selected
    let count = if leb (length selected) fitting then max (length selected - 1) 1 else fitting
    (kept, returned) ← split_off count selected
    ok (kept, returned ++ remaining)
