-- ===== src/Base/Order.antt =====
-- The orders that `derive(PartialOrd, Ord)` and the standard library give: `cmp` on numbers, options
-- and sequences, and on the fields of a record in turn; each is a total order.
use Prim.Native.Nat.{compare, Ordering}
use mathlib.Core.Path.{◌≡◌, refl, ap}
use mathlib.Core.Option.{Option, none, some}
use mathlib.Core.List.{List, [], ◌∷◌}
use native.Mathlib.Omega.{arith}

pub record IsOrder {ℓ} {A : Type ℓ} (cmp : A → A → Ordering) : Type ℓ where
  pub cmp_refl : (a : A) → cmp a a ≡ Ordering.eq
  pub cmp_eq : (a b : A) → cmp a b ≡ Ordering.eq → a ≡ b
  pub cmp_lt : (a b : A) → cmp a b ≡ Ordering.lt → cmp b a ≡ Ordering.gt
  pub cmp_gt : (a b : A) → cmp a b ≡ Ordering.gt → cmp b a ≡ Ordering.lt
  pub cmp_trans :
      (a b c : A) → cmp a b ≡ Ordering.lt → cmp b c ≡ Ordering.lt → cmp a c ≡ Ordering.lt

pub compare-IsOrder : IsOrder compare
compare-IsOrder = record {
  cmp_refl = λ a. ground arith;
  cmp_eq = λ a b h. ground arith;
  cmp_lt = λ a b h. ground arith;
  cmp_gt = λ a b h. ground arith;
  cmp_trans = λ a b c h k. ground arith;
}

-- `then_with`: the second comparison decides where the first finds no difference.
abbrev pub then_with : Ordering → Ordering → Ordering
then_with Ordering.lt o = Ordering.lt
then_with Ordering.eq o = o
then_with Ordering.gt o = Ordering.gt

-- An enum is ordered by the positions of its variants.
abbrev pub cmp_on {ℓ κ} :
    {A : Type ℓ} {B : Type κ} → (A → B) → (B → B → Ordering) → A → A → Ordering
cmp_on f cmp a b = cmp (f a) (f b)

pub cmp_on-IsOrder {ℓ κ} :
    {A : Type ℓ} {B : Type κ} (f : A → B) (cmp : B → B → Ordering)
    → ((a b : A) → f a ≡ f b → a ≡ b)
    → IsOrder cmp
    → IsOrder (cmp_on f cmp)
cmp_on-IsOrder f cmp injective o = record {
  cmp_refl = λ a. o.cmp_refl (f a);
  cmp_eq = λ a b h. injective a b (o.cmp_eq (f a) (f b) h);
  cmp_lt = λ a b h. o.cmp_lt (f a) (f b) h;
  cmp_gt = λ a b h. o.cmp_gt (f a) (f b) h;
  cmp_trans = λ a b c h k. o.cmp_trans (f a) (f b) (f c) h k;
}

module _ {ℓ} {A : Type ℓ} (cmp : A → A → Ordering) where
  abbrev pub cmp_option : Option A → Option A → Ordering
  cmp_option none none = Ordering.eq
  cmp_option none (some b) = Ordering.lt
  cmp_option (some a) none = Ordering.gt
  cmp_option (some a) (some b) = cmp a b

  abbrev pub cmp_list : List A → List A → Ordering
  cmp_list [] [] = Ordering.eq
  cmp_list [] (y ∷ ys) = Ordering.lt
  cmp_list (x ∷ xs) [] = Ordering.gt
  cmp_list (x ∷ xs) (y ∷ ys) = then_with (cmp x y) (cmp_list xs ys)

module _ {ℓ κ} {A : Type ℓ} {B : Type κ} (cmp : A → A → Ordering) (cmp' : B → B → Ordering) where
  abbrev pub cmp_pair : A × B → A × B → Ordering
  cmp_pair (a, b) (a', b') = then_with (cmp a a') (cmp' b b')

  module _ (o : IsOrder cmp) (o' : IsOrder cmp') where
    pub cmp_pair-IsOrder : IsOrder cmp_pair
    cmp_pair-IsOrder = record {
      cmp_refl = λ (a, b). ground (arith, o.cmp_refl a, o'.cmp_refl b);
      cmp_eq = λ (a, b) (c, d) h. ground (arith, o.cmp_eq a c, o'.cmp_eq b d);
      cmp_lt = λ (a, b) (c, d) h.
          ground (arith, o.cmp_lt a c, o'.cmp_lt b d, o.cmp_eq a c, o.cmp_refl a);
      cmp_gt = λ (a, b) (c, d) h.
          ground (arith, o.cmp_gt a c, o'.cmp_gt b d, o.cmp_eq a c, o.cmp_refl a);
      cmp_trans = λ (a, b) (c, d) (e, f) h k.
          ground (arith, o.cmp_trans a c e, o'.cmp_trans b d f, o.cmp_eq a c, o.cmp_eq c e);
    }

module _ {ℓ} {A : Type ℓ} (cmp : A → A → Ordering) (o : IsOrder cmp) where
  option_lt : (a b : Option A) → cmp_option cmp a b ≡ Ordering.lt → cmp_option cmp b a ≡ Ordering.gt
  option_lt none none h = cc
  option_lt none (some b) h = refl
  option_lt (some a) none h = cc
  option_lt (some a) (some b) h = o.cmp_lt a b h

  option_gt : (a b : Option A) → cmp_option cmp a b ≡ Ordering.gt → cmp_option cmp b a ≡ Ordering.lt
  option_gt none none h = cc
  option_gt none (some b) h = cc
  option_gt (some a) none h = refl
  option_gt (some a) (some b) h = o.cmp_gt a b h

  option_refl : (a : Option A) → cmp_option cmp a a ≡ Ordering.eq
  option_refl none = refl
  option_refl (some a) = o.cmp_refl a

  option_eq : (a b : Option A) → cmp_option cmp a b ≡ Ordering.eq → a ≡ b
  option_eq none none h = refl
  option_eq none (some b) h = cc
  option_eq (some a) none h = cc
  option_eq (some a) (some b) h = ap some (o.cmp_eq a b h)

  option_trans :
      (a b c : Option A)
      → cmp_option cmp a b ≡ Ordering.lt
      → cmp_option cmp b c ≡ Ordering.lt
      → cmp_option cmp a c ≡ Ordering.lt
  option_trans none none c h k = cc
  option_trans none (some b) none h k = cc
  option_trans none (some b) (some c) h k = refl
  option_trans (some a) none c h k = cc
  option_trans (some a) (some b) none h k = cc
  option_trans (some a) (some b) (some c) h k = o.cmp_trans a b c h k

  pub cmp_option-IsOrder : IsOrder (cmp_option cmp)
  cmp_option-IsOrder = record {
    cmp_refl = option_refl;
    cmp_eq = option_eq;
    cmp_lt = option_lt;
    cmp_gt = option_gt;
    cmp_trans = option_trans;
  }

  list_refl : (xs : List A) → cmp_list cmp xs xs ≡ Ordering.eq
  list_refl [] = refl
  list_refl (x ∷ xs) = rw (o.cmp_refl x) (list_refl xs)

  list_eq : (xs ys : List A) → cmp_list cmp xs ys ≡ Ordering.eq → xs ≡ ys
  list_eq [] [] h = refl
  list_eq [] (y ∷ ys) h = cc
  list_eq (x ∷ xs) [] h = cc
  list_eq (x ∷ xs) (y ∷ ys) h = ground (arith, o.cmp_eq x y, list_eq xs ys)

  list_lt : (xs ys : List A) → cmp_list cmp xs ys ≡ Ordering.lt → cmp_list cmp ys xs ≡ Ordering.gt
  list_lt [] [] h = cc
  list_lt [] (y ∷ ys) h = refl
  list_lt (x ∷ xs) [] h = cc
  list_lt (x ∷ xs) (y ∷ ys) h =
      ground (arith, o.cmp_lt x y, o.cmp_eq x y, o.cmp_refl x, list_lt xs ys)

  list_gt : (xs ys : List A) → cmp_list cmp xs ys ≡ Ordering.gt → cmp_list cmp ys xs ≡ Ordering.lt
  list_gt [] [] h = cc
  list_gt [] (y ∷ ys) h = cc
  list_gt (x ∷ xs) [] h = refl
  list_gt (x ∷ xs) (y ∷ ys) h =
      ground (arith, o.cmp_gt x y, o.cmp_eq x y, o.cmp_refl x, list_gt xs ys)

  list_trans :
      (xs ys zs : List A)
      → cmp_list cmp xs ys ≡ Ordering.lt
      → cmp_list cmp ys zs ≡ Ordering.lt
      → cmp_list cmp xs zs ≡ Ordering.lt
  list_trans [] [] zs h k = cc
  list_trans [] (y ∷ ys) [] h k = cc
  list_trans [] (y ∷ ys) (z ∷ zs) h k = refl
  list_trans (x ∷ xs) [] zs h k = cc
  list_trans (x ∷ xs) (y ∷ ys) [] h k = cc
  list_trans (x ∷ xs) (y ∷ ys) (z ∷ zs) h k =
      ground (arith, o.cmp_trans x y z, o.cmp_eq x y, o.cmp_eq y z, list_trans xs ys zs)

  pub cmp_list-IsOrder : IsOrder (cmp_list cmp)
  cmp_list-IsOrder = record {
    cmp_refl = list_refl;
    cmp_eq = list_eq;
    cmp_lt = list_lt;
    cmp_gt = list_gt;
    cmp_trans = list_trans;
  }
