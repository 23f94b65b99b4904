-- ===== src/Writer/BTree/Plan.antt =====
-- `plan_leaf_pages` (crates/pstforge-pst/src/writer.rs) splits the entries of a level into pages.
use pstforge.Base.{
  ℕ, zero, suc, ◌+◌, ◌-◌, ◌*◌, ◌/◌, ◌%◌, ◌<◌, ◌≤◌, ◌≡◌, refl, List, [], ◌∷◌, All, Returns, length,
  div_ceil, ltb, ◌==◌, false, if◌then◌else◌, arith, ok,
}
use native.Mathlib.Nat.{
  div-le_self, div-lt_self, le-div_iff_mul-le, div-le_of_le-mul, div-add-mod, mod-lt,
}
use pstforge.Writer.BTree.{plan_ranges, plan_leaf_pages}

-- The ranges follow one another from `start` to `end`.
abbrev pub Contiguous : ℕ → List (ℕ × ℕ) → ℕ → Type 0
Contiguous start [] end = start ≡ end
Contiguous start ((first, last) ∷ ranges) end = (first ≡ start) × Contiguous last ranges end

-- A range has `minimum` entries or one more.
abbrev pub IsBalanced : ℕ → ℕ × ℕ → Type 0
IsBalanced minimum (first, last) = (first + minimum ≤ last) × (last ≤ first + minimum + 1)

abbrev pub HoldsAtMost : ℕ → ℕ × ℕ → Type 0
HoldsAtMost capacity (first, last) = (first < last) × (last ≤ first + capacity)

pub positive_test : (n : ℕ) → 0 < n → (n == 0) ≡ false
positive_test n h = ground arith

length-plan_ranges :
    (n page start minimum larger : ℕ) → length (plan_ranges n page start minimum larger) ≡ n
unfolding plan_ranges
length-plan_ranges zero page start minimum larger = refl
length-plan_ranges (suc n) page start minimum larger = omega (
  arith,
  length-plan_ranges n (page + 1) (start + (minimum + (if ltb page larger then 1 else 0))) minimum
      larger,
)

plan_ranges-Contiguous :
    (n page start minimum larger end : ℕ)
    → end ≡ start + n * minimum + (larger - page)
    → larger ≤ page + n
    → Contiguous start (plan_ranges n page start minimum larger) end
unfolding plan_ranges
plan_ranges-Contiguous zero page start minimum larger end e le = omega arith
plan_ranges-Contiguous (suc n) page start minimum larger end e le = (
  refl,
  ground (
    arith,
    plan_ranges-Contiguous n (page + 1) (start + (minimum + (if ltb page larger then 1 else 0)))
        minimum larger end,
  ),
)

plan_ranges-IsBalanced :
    (n page start minimum larger : ℕ)
    → All (IsBalanced minimum) (plan_ranges n page start minimum larger)
unfolding plan_ranges
plan_ranges-IsBalanced zero page start minimum larger = tt
plan_ranges-IsBalanced (suc n) page start minimum larger =
    (ground arith, plan_ranges-IsBalanced n (page + 1) _ minimum larger)

plan_ranges-HoldsAtMost :
    (n page start minimum larger capacity : ℕ)
    → 1 ≤ minimum
    → minimum ≤ capacity
    → (0 < larger → minimum < capacity)
    → All (HoldsAtMost capacity) (plan_ranges n page start minimum larger)
unfolding plan_ranges
plan_ranges-HoldsAtMost zero page start minimum larger capacity h1 h2 h3 = tt
plan_ranges-HoldsAtMost (suc n) page start minimum larger capacity h1 h2 h3 =
    (ground (arith, h3), plan_ranges-HoldsAtMost n (page + 1) _ minimum larger capacity h1 h2 h3)

-- What a plan for `n` entries says: how many pages it has, and that they are the entries in order,
-- none empty, none above the capacity, and no two apart by more than one entry.
pub record IsPlan (n capacity : ℕ) (ranges : List (ℕ × ℕ)) : Type 0 where
  pub pages : length ranges ≡ div_ceil n capacity
  pub contiguous : Contiguous 0 ranges n
  pub balanced : All (IsBalanced (n / div_ceil n capacity)) ranges
  pub held : All (HoldsAtMost capacity) ranges

module _ (n capacity : ℕ) (some_entry : 0 < n) (room : 0 < capacity) where
  div_ceil_pos : 0 < div_ceil n capacity
  div_ceil_pos = grind arith

  covers : n ≤ div_ceil n capacity * capacity
  covers = grind arith

  div_ceil_le : div_ceil n capacity ≤ n
  div_ceil_le =
      ground (arith, div-le_self n capacity, div-lt_self {n = n} {k = capacity}, lt_one capacity)
    where
      lt_one : (c : ℕ) → ¬ (1 < c) → 0 < c → c ≡ 1
      lt_one c h p = omega arith

-- The numbers of entries to a page: `p` pages for `n` entries.
module _ (n p capacity : ℕ) (pos : 0 < p) (le : p ≤ n) (covered : n ≤ p * capacity) where
  minimum_pos : 1 ≤ n / p
  minimum_pos = (le-div_iff_mul-le pos).1 (omega arith)

  minimum_le : n / p ≤ capacity
  minimum_le = div-le_of_le-mul p covered

  minimum_lt : 0 < n % p → n / p < capacity
  minimum_lt h = lt_of_mul p (n / p) capacity (omega (arith, div-add-mod n p))
    where
      lt_of_mul : (q x y : ℕ) → q * x < q * y → x < y
      lt_of_mul q x y h = grind arith

  total : n ≡ 0 + p * (n / p) + (n % p - 0)
  total = omega (arith, div-add-mod n p)

  larger_le : n % p ≤ 0 + p
  larger_le = omega (arith, mod-lt n pos)

plan_leaf_pages_some :
    (n capacity : ℕ)
    → 0 < n
    → 0 < capacity
    → plan_leaf_pages n capacity
      ≡ ok (
          plan_ranges (div_ceil n capacity) 0 0 (n / div_ceil n capacity) (n % div_ceil n capacity))
unfolding plan_leaf_pages
plan_leaf_pages_some n capacity some_entry room =
    rw (positive_test n some_entry, positive_test capacity room)

-- For a level with entries and a capacity above 0, a plan is made, and its pages are the entries in
-- order: as few as the capacity allows, none empty, none above the capacity, and evenly filled.
pub plan_leaf_pages-IsPlan :
    (n capacity : ℕ)
    → 0 < n
    → 0 < capacity
    → Returns (IsPlan n capacity) (plan_leaf_pages n capacity)
plan_leaf_pages-IsPlan n capacity some_entry room = rw planned plan
  where
    p : ℕ
    p = div_ceil n capacity

    pos : 0 < p
    pos = div_ceil_pos n capacity some_entry room

    le : p ≤ n
    le = div_ceil_le n capacity some_entry room

    covered : n ≤ p * capacity
    covered = covers n capacity some_entry room

    planned : plan_leaf_pages n capacity ≡ ok (plan_ranges p 0 0 (n / p) (n % p))
    planned = plan_leaf_pages_some n capacity some_entry room

    plan : IsPlan n capacity (plan_ranges p 0 0 (n / p) (n % p))
    plan = record {
      pages = length-plan_ranges p 0 0 (n / p) (n % p);
      contiguous =
          plan_ranges-Contiguous p 0 0 (n / p) (n % p) n (total n p capacity pos le covered)
            (larger_le n p capacity pos le covered);
      balanced = plan_ranges-IsBalanced p 0 0 (n / p) (n % p);
      held =
          plan_ranges-HoldsAtMost p 0 0 (n / p) (n % p) capacity
            (minimum_pos n p capacity pos le covered) (minimum_le n p capacity pos le covered)
            (minimum_lt n p capacity pos le covered);
    }
