-- ===== src/Base/Rearrange.antt =====
-- Rearranged lists: what holds of each entry or each two entries still does, and the sort of both is
-- the same where no two entries may stand before each other.
use mathlib.Core.Path.{◌≡◌, refl, subst, ap₂, ◌∙◌}
use mathlib.Core.Logic.{inl, inr}
use mathlib.Core.Bool.{Bool, true, false}
use mathlib.Core.List.{List, [], ◌∷◌, Permᴰ}
use mathlib.Core.List.Permᴰ
use native.Mathlib.Omega.{arith}
use pstforge.Base.Tests.{Bool-cases}
use pstforge.Base.Lists.{All, All-map}
use pstforge.Base.Sort.{sort_by, insert_sorted, insert_sorted-Permᴰ}

module _ {ℓ} {A : Type ℓ} where
  pub All-Permᴰ {κ} : (P : A → Type κ) {xs ys : List A} → Permᴰ xs ys → All P xs → All P ys
  All-Permᴰ P Permᴰ.nil h = h
  All-Permᴰ P (Permᴰ.cons e d) h = (subst P e h.0, All-Permᴰ P d h.1)
  All-Permᴰ P (Permᴰ.swap e e') h = (subst P e' h.1.0, (subst P e h.0, h.1.1))
  All-Permᴰ P (Permᴰ.trans d d') h = All-Permᴰ P d' (All-Permᴰ P d h)

  -- Each entry is related to each later one.
  abbrev pub AllPairs {κ} : (A → A → Type κ) → List A → Type (ℓ ⊔ κ)
  AllPairs R [] = Unit
  AllPairs R (x ∷ xs) = All (R x) xs × AllPairs R xs

  pub AllPairs-Permᴰ {κ} :
      (R : A → A → Type κ)
      → ((x y : A) → R x y → R y x)
      → {xs ys : List A} → Permᴰ xs ys
      → AllPairs R xs
      → AllPairs R ys
  AllPairs-Permᴰ R s Permᴰ.nil h = h
  AllPairs-Permᴰ R s (Permᴰ.cons {b = b} {l₁ = l₁} e d) h =
      (All-Permᴰ (R b) d (subst (λ x. All (R x) l₁) e h.0), AllPairs-Permᴰ R s d h.1)
  AllPairs-Permᴰ R s (Permᴰ.swap {a = a} {b = b} {b' = b'} {l = l} e e') h = (
    (
      subst (λ x. R x b') e' (subst (λ x. R b x) e (s a b h.0.0)),
      subst (λ x. All (R x) l) e' h.1.0,
    ),
    (subst (λ x. All (R x) l) e h.0.1, h.1.1),
  )
  AllPairs-Permᴰ R s (Permᴰ.trans d d') h = AllPairs-Permᴰ R s d' (AllPairs-Permᴰ R s d h)

module _ {ℓ} {A : Type ℓ} (before : A → A → Bool)
    (total : (a b : A) → before a b ≡ false → before b a ≡ true)
    (transitive : (a b c : A) → before a b ≡ true → before b c ≡ true → before a c ≡ true) where
  -- Two entries of which only one may stand before the other.
  abbrev pub IsApart : A → A → Type 0
  IsApart a b = before a b ≡ true → before b a ≡ false

  pub IsApart-sym : (a b : A) → IsApart a b → IsApart b a
  IsApart-sym a b h k = elim (Bool-cases (before a b)) [ inl e ↦ ground (arith, h e) | inr e ↦ e ]

  insert_sorted_comm :
      (x y : A) (l : List A)
      → IsApart x y
      → insert_sorted before x (insert_sorted before y l)
        ≡ insert_sorted before y (insert_sorted before x l)
  insert_sorted_comm x y [] h = ground (arith, total x y)
  insert_sorted_comm x y (z ∷ l) h = ground (
    arith,
    total x y,
    transitive x y z,
    transitive y x z,
    transitive z x y,
    transitive z y x,
    total x z,
    total y z,
    insert_sorted_comm x y l h,
  )

  -- The sort does not see how the entries were arranged.
  pub sort_by-Permᴰ :
      {xs ys : List A} → Permᴰ xs ys → AllPairs IsApart xs → sort_by before xs ≡ sort_by before ys
  unfolding sort_by
  sort_by-Permᴰ Permᴰ.nil h = refl
  sort_by-Permᴰ (Permᴰ.cons e d) h = ap₂ (insert_sorted before) e (sort_by-Permᴰ d h.1)
  sort_by-Permᴰ (Permᴰ.swap {a = a} {b = b} {l = l} e e') h =
      insert_sorted_comm a b (sort_by before l) h.0.0
      ∙ ap₂ (λ p q. insert_sorted before p (insert_sorted before q (sort_by before l))) e' e
  sort_by-Permᴰ (Permᴰ.trans d d') h =
      sort_by-Permᴰ d h ∙ sort_by-Permᴰ d' (AllPairs-Permᴰ IsApart IsApart-sym d h)

  abbrev pub IsBefore : A → A → Type 0
  IsBefore a b = before a b ≡ true

  insert_sorted-AllPairs :
      (x : A) (ys : List A) → AllPairs IsBefore ys → AllPairs IsBefore (insert_sorted before x ys)
  insert_sorted-AllPairs x [] h = (tt, tt)
  insert_sorted-AllPairs x (y ∷ ys) h = elim (Bool-cases (before x y)) [
    | inl e ↦
        rw e (((e, All-map (IsBefore y) (IsBefore x) (λ z k. transitive x y z e k) ys h.0), h))
    | inr e ↦ rw e (
        (
          All-Permᴰ (IsBefore y) (Permᴰ.symm (insert_sorted-Permᴰ before x ys)) (total x y e, h.0),
          insert_sorted-AllPairs x ys h.1,
        ))
  ]

  -- Of two entries of a sorted list the earlier one may stand before the later one.
  pub sort_by-AllPairs : (xs : List A) → AllPairs IsBefore (sort_by before xs)
  unfolding sort_by
  sort_by-AllPairs [] = tt
  sort_by-AllPairs (x ∷ xs) = insert_sorted-AllPairs x (sort_by before xs) (sort_by-AllPairs xs)
