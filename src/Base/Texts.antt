-- ===== src/Base/Texts.antt =====
-- Texts as sequences of bytes: equality, suffixes, and what a path takes for a file's name.
use mathlib.Core.Path.{◌≡◌, refl}
use mathlib.Core.Bool.{Bool, true, false, not, ◌&&◌, ◌||◌}
use mathlib.Core.List.{List, [], ◌∷◌}
use mathlib.Core.Option.{Option, none, some}
use Prim.Native.Nat.{ℕ, zero, suc, ◌-◌}
use native.Mathlib.Omega.{arith}
use pstforge.Base.Tests.{◌==◌, if◌then◌else◌}
use pstforge.Base.Lists.{length, take}

abbrev pub Text : Type 0
Text = List ℕ

unfoldable pub same_text : Text → Text → Bool
same_text [] [] = true
same_text [] (y ∷ ys) = false
same_text (x ∷ xs) [] = false
same_text (x ∷ xs) (y ∷ ys) = x == y && same_text xs ys

unfoldable pub same_option : {A : Type 0} → (A → A → Bool) → Option A → Option A → Bool
same_option same none none = true
same_option same none (some b) = false
same_option same (some a) none = false
same_option same (some a) (some b) = same a b

abbrev pub same_bool : Bool → Bool → Bool
same_bool true b = b
same_bool false b = not b

unfoldable pub ends_with : Text → Text → Bool
ends_with [] suffix = same_text [] suffix
ends_with (x ∷ xs) suffix = same_text (x ∷ xs) suffix || ends_with xs suffix

-- `trim_end_matches`, for a suffix that is not empty.
unfoldable pub trim_end_in : ℕ → Text → Text → Text
trim_end_in zero text suffix = text
trim_end_in (suc fuel) text suffix =
    let shorter = trim_end_in fuel (take (length text - length suffix) text) suffix in
    if ends_with text suffix then shorter else text

abbrev pub trim_end_matches : Text → Text → Text
trim_end_matches text suffix = trim_end_in (length text) text suffix

abbrev pub has_byte : ℕ → Text → Bool
has_byte byte [] = false
has_byte byte (x ∷ xs) = x == byte || has_byte byte xs

-- `Path::file_name` is the text itself: a name with no slash that is neither "." nor "..".
unfoldable pub is_file_name : Text → Bool
is_file_name text =
    not (same_text text [])
    && not (has_byte 47 text)
    && not (same_text text (46 ∷ []))
    && not (same_text text (46 ∷ 46 ∷ []))

pub same_text_refl : (text : Text) → same_text text text ≡ true
unfolding same_text
same_text_refl [] = refl
same_text_refl (x ∷ xs) = ground (arith, same_text_refl xs)

pub same_text-eq : (a b : Text) → same_text a b ≡ true → a ≡ b
unfolding same_text
same_text-eq [] [] e = refl
same_text-eq [] (y ∷ ys) e = cc
same_text-eq (x ∷ xs) [] e = cc
same_text-eq (x ∷ xs) (y ∷ ys) e = ground (arith, e, same_text-eq xs ys)

pub same_option_refl :
    {A : Type 0} (same : A → A → Bool)
    → ((a : A) → same a a ≡ true)
    → (o : Option A) → same_option same o o ≡ true
unfolding same_option
same_option_refl same h none = refl
same_option_refl same h (some a) = h a

pub same_bool_refl : (b : Bool) → same_bool b b ≡ true
same_bool_refl true = refl
same_bool_refl false = refl

pub same_text_sym : (a b : Text) → same_text a b ≡ false → same_text b a ≡ false
unfolding same_text
same_text_sym [] [] e = e
same_text_sym [] (y ∷ ys) e = refl
same_text_sym (x ∷ xs) [] e = refl
same_text_sym (x ∷ xs) (y ∷ ys) e = ground (arith, e, same_text_sym xs ys)
