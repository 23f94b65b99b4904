-- ===== src/Split/Size/Monotone.antt =====
-- The size of a prefix (crates/pstforge-core/src/split.rs) is found where that of the whole is, and is
-- no larger.
use native.Mathlib.Nat.{le-div_iff_mul-le, mul-le-mul_right}
use pstforge.Base.{
  ℕ, zero, suc, ◌+◌, ◌-◌, ◌*◌, ◌/◌, ◌≤◌, ◌<◌, ◌≡◌, refl, List, [], ◌∷◌, ◌++◌, none, some, length,
  take, min, u64_mod, checked_add, Result, ok, >>=-eq-ok, or_err, arith, Option,
}
use pstforge.Packing.{PackCandidate, PackingError}
use pstforge.Split.Size.{
  AdaptiveSizeModel, insert_path, insert_ancestors, estimate_loop, add_folders,
  estimate_candidate_iter, scale, predict, predicted_size, estimated_store_bytes,
  estimated_folder_bytes,
}

-- A result that is found, and bounded.
abbrev pub Within : ℕ → Result PackingError ℕ → Type 0
Within bound r = (value : ℕ) × (r ≡ ok value) × (value ≤ bound)

insert_path-le :
    (path : List (List ℕ)) (folders : List (List (List ℕ)))
    → length folders ≤ length (insert_path path folders)
unfolding insert_path
insert_path-le path folders = ground arith

insert_ancestors-le :
    (path : List (List ℕ)) (n : ℕ) (folders : List (List (List ℕ)))
    → length folders ≤ length (insert_ancestors path n folders)
unfolding insert_ancestors
insert_ancestors-le path zero folders = omega arith
insert_ancestors-le path (suc n) folders = omega (
  arith,
  insert_path-le (take (suc n) path) (insert_ancestors path n folders),
  insert_ancestors-le path n folders,
)

estimate_loop-le :
    (candidates : List PackCandidate) (folders folders' : List (List (List ℕ)))
    (estimated estimated' : ℕ)
    → estimate_loop candidates folders estimated ≡ ok (folders', estimated')
    → (length folders ≤ length folders') × (estimated ≤ estimated')
unfolding estimate_loop
estimate_loop-le [] folders folders' estimated estimated' e = ground arith
estimate_loop-le (c ∷ cs) folders folders' estimated estimated' e =
    let (a, ha, more) = >>=-eq-ok (or_err (checked_add estimated c.payload_bytes) _) _ e in
    let (b, hb, last) = >>=-eq-ok (or_err (checked_add a _) _) _ more in
    let rest =
      estimate_loop-le cs (insert_ancestors c.folder_path (length c.folder_path) folders) folders' b
        estimated' last in
    ground (arith, rest, insert_ancestors-le c.folder_path (length c.folder_path) folders)

estimate_loop-append :
    (xs ys : List PackCandidate) (folders folders' : List (List (List ℕ)))
    (estimated estimated' : ℕ)
    → estimate_loop (xs ++ ys) folders estimated ≡ ok (folders', estimated')
    → (f : List (List (List ℕ))) × (e : ℕ) × (estimate_loop xs folders estimated ≡ ok (f, e))
      × (estimate_loop ys f e ≡ ok (folders', estimated'))
unfolding estimate_loop
estimate_loop-append [] ys folders folders' estimated estimated' e = (folders, estimated, refl, e)
estimate_loop-append (c ∷ cs) ys folders folders' estimated estimated' e =
    let (a, ha, more) = >>=-eq-ok (or_err (checked_add estimated c.payload_bytes) _) _ e in
    let (b, hb, last) = >>=-eq-ok (or_err (checked_add a _) _) _ more in
    let (f, z, front, back) =
      estimate_loop-append cs ys (insert_ancestors c.folder_path (length c.folder_path) folders)
        folders' b estimated' last in
    (f, z, rw (ha, hb) front, back)

add_folders-le :
    (f f' : List (List (List ℕ))) (e e' bound : ℕ)
    → length f ≤ length f'
    → e ≤ e'
    → add_folders f' e' ≡ ok bound
    → Within bound (add_folders f e)
unfolding add_folders
add_folders-le f f' e e' bound h k a = (
  e + min (min (length f) (u64_mod - 1) * estimated_folder_bytes) (u64_mod - 1),
  ground arith,
  ground arith,
)

estimate_prefix :
    (xs ys : List PackCandidate) (bound : ℕ)
    → estimate_candidate_iter (xs ++ ys) ≡ ok bound
    → Within bound (estimate_candidate_iter xs)
unfolding estimate_candidate_iter
estimate_prefix xs ys bound e =
    let ((folders, estimated), looped, added) =
      >>=-eq-ok (estimate_loop (xs ++ ys) [] estimated_store_bytes) _ e in
    let (f, z, front, back) =
      estimate_loop-append xs ys [] folders estimated_store_bytes estimated looped in
    let le = estimate_loop-le ys f folders z estimated back in
    rw front (add_folders-le f folders z estimated bound le.0 le.1 added)

-- A quotient grows with its numerator.
div_mono : (a b n : ℕ) → a ≤ b → 0 < n → a / n ≤ b / n
div_mono a b n h pos =
    let below : a / n * n ≤ a = (le-div_iff_mul-le pos).0 (omega arith) in
    (le-div_iff_mul-le pos).1 (omega arith)

scale-le : (e e' o a bound : ℕ) → e ≤ e' → scale e' o a ≡ ok bound → Within bound (scale e o a)
unfolding scale
scale-le e e' o a bound h s =
    let product : e * a ≤ e' * a = mul-le-mul_right a h in
    let positive : 0 < o = ground arith in
    let quotient = div_mono (e * a + (o - 1)) (e' * a + (o - 1)) o (omega arith) positive in
    ((e * a + (o - 1)) / o, ground arith, ground arith)

predict-le :
    (model : AdaptiveSizeModel) (e e' bound : ℕ)
    → e ≤ e'
    → predict model e' ≡ ok bound
    → Within bound (predict model e)
unfolding predict
predict-le model e e' bound h p = by_observation model.observed p
  where
    by_observation :
        (o : Option (ℕ × ℕ))
        → predict (record { observed = o }) e' ≡ ok bound
        → Within bound (predict (record { observed = o }) e)
    by_observation none q = (e, refl, ground arith)
    by_observation (some (observed_estimate, observed_actual)) q =
        scale-le e e' observed_estimate observed_actual bound h q

-- When the size of a list of candidates is predicted, that of each prefix is, and is no larger.
pub predicted_size_prefix :
    (model : AdaptiveSizeModel) (xs ys : List PackCandidate) (bound : ℕ)
    → predicted_size model (xs ++ ys) ≡ ok bound
    → (value : ℕ) × (predicted_size model xs ≡ ok value) × (value ≤ bound)
unfolding predicted_size
predicted_size_prefix model xs ys bound e =
    let (whole, estimated, predicted) = >>=-eq-ok (estimate_candidate_iter (xs ++ ys)) _ e in
    let (part, found, le) = estimate_prefix xs ys whole estimated in
    let (value, scaled, small) = predict-le model part whole bound le predicted in
    (value, rw found scaled, small)
