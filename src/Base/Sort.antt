-- ===== src/Base/Sort.antt =====
-- `sort_by` and `sort_by_key` of slices: a stable sort by a test "may stand before".
use Prim.Native.Nat.{suc}
use mathlib.Core.Path.{◌≡◌, refl, ap, ◌∙◌}
use mathlib.Core.Bool.{Bool}
use mathlib.Core.List.{List, [], ◌∷◌, Permᴰ}
use mathlib.Core.List.Permᴰ
use native.Mathlib.Omega.{arith}
use pstforge.Base.Tests.{if◌then◌else◌, Bool-cases}
use pstforge.Base.Lists.{length}
use mathlib.Core.Logic.{inl, inr}

module _ {ℓ} {A : Type ℓ} (before : A → A → Bool) where
  -- An entry goes in front of those that it may stand before.
  abbrev pub insert_sorted : A → List A → List A
  insert_sorted x [] = x ∷ []
  insert_sorted x (y ∷ ys) = if before x y then x ∷ y ∷ ys else y ∷ insert_sorted x ys

  unfoldable pub sort_by : List A → List A
  sort_by [] = []
  sort_by (x ∷ xs) = insert_sorted x (sort_by xs)

  pub insert_sorted-Permᴰ : (x : A) (ys : List A) → Permᴰ (insert_sorted x ys) (x ∷ ys)
  insert_sorted-Permᴰ x [] = Permᴰ.refl (x ∷ [])
  insert_sorted-Permᴰ x (y ∷ ys) = elim (Bool-cases (before x y)) [
    | inl e ↦ rw e (Permᴰ.refl (x ∷ y ∷ ys))
    | inr e ↦ rw e (Permᴰ.trans (Permᴰ.cons refl (insert_sorted-Permᴰ x ys)) (Permᴰ.swap refl refl))
  ]

  -- A sort rearranges.
  pub Permᴰ-sort_by : (xs : List A) → Permᴰ (sort_by xs) xs
  unfolding sort_by
  Permᴰ-sort_by [] = Permᴰ.nil
  Permᴰ-sort_by (x ∷ xs) =
      Permᴰ.trans (insert_sorted-Permᴰ x (sort_by xs)) (Permᴰ.cons refl (Permᴰ-sort_by xs))

  length-insert_sorted : (x : A) (ys : List A) → length (insert_sorted x ys) ≡ suc (length ys)
  length-insert_sorted x [] = refl
  length-insert_sorted x (y ∷ ys) = ground (arith, length-insert_sorted x ys)

  pub length-sort_by : (xs : List A) → length (sort_by xs) ≡ length xs
  unfolding sort_by
  length-sort_by [] = refl
  length-sort_by (x ∷ xs) = length-insert_sorted x (sort_by xs) ∙ ap suc (length-sort_by xs)
