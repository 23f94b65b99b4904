-- ===== src/Job/Triples.antt =====
-- What runs of the actions of Job/World (crates/pstforge-job/src/lib.rs) lead to: from a state before,
-- with a result to one state, and with an error or a crash to another.
use pstforge.Base.{
  ℕ, zero, suc, ◌≤◌, Bool, true, false, Option, none, some, Result, ok, err, aborted, ◌≡◌, refl,
  sym, ◌∙◌, subst, arith,
}
use pstforge.Job.World.{
  JobError, Disk, World, Action, pure, lift, asks, require, or_fail, durably, durably_in,
  check_interrupted, sync_directory, and_then, ◌>>=◌,
}

abbrev pub Ends :
    {A : Type 0} → (A → World → Type 0) → (World → Type 0) → Result JobError A × World → Type 0
Ends Q R (ok a, w) = Q a w
Ends Q R (err e, w) = R w
Ends Q R (aborted, w) = R w

pub record Triple {A : Type 0} (P : World → Type 0) (m : Action A) (Q : A → World → Type 0)
    (R : World → Type 0) : Type 0 where
  pub runs : (w : World) → P w → Ends Q R (m w)

module _ {R : World → Type 0} where
  pub bind_rule :
      {A B : Type 0} {P : World → Type 0} {m : Action A} {Q : A → World → Type 0} {k : A → Action B}
      {S : B → World → Type 0}
      → Triple P m Q R
      → ((a : A) → Triple (Q a) (k a) S R)
      → Triple P (m >>= k) S R
  unfolding ◌>>=◌
  bind_rule {A} {B} {P} {m} {Q} {k} {S} first further = record {
    runs = λ w h. joined (m w) (first.runs w h);
  }
    where
      joined : (out : Result JobError A × World) → Ends Q R out → Ends S R (and_then out k)
      joined (ok a, w') h = (further a).runs w' h
      joined (err e, w') h = h
      joined (aborted, w') h = h

  pub weaken :
      {A : Type 0} {P P' : World → Type 0} {m : Action A} {Q : A → World → Type 0}
      → ((w : World) → P' w → P w)
      → Triple P m Q R
      → Triple P' m Q R
  weaken f t = record { runs = λ w h. t.runs w (f w h) }

  pub asks_rule :
      {A : Type 0} {P : World → Type 0} (f : Disk → A)
      → Triple P (asks f) (λ a w. P w × (a ≡ f w.disk)) R
  unfolding asks
  asks_rule f = record { runs = λ w h. (h, refl) }

  -- What is true after a refusal, is true before.
  pub require_rule :
      {P : World → Type 0} (b : Bool) (e : JobError)
      → ((w : World) → P w → R w)
      → Triple P (require b e) (λ _ w. P w × (b ≡ true)) R
  unfolding require
  require_rule true e keep = record { runs = λ w h. (h, refl) }
  require_rule false e keep = record { runs = λ w h. keep w h }

  pub or_fail_rule :
      {A : Type 0} {P : World → Type 0} (o : Option A) (e : JobError)
      → ((w : World) → P w → R w)
      → Triple P (or_fail o e) (λ a w. P w × (o ≡ some a)) R
  unfolding or_fail
  or_fail_rule none e keep = record { runs = λ w h. keep w h }
  or_fail_rule (some a) e keep = record { runs = λ w h. (h, refl) }

  pub lift_rule :
      {A : Type 0} {P : World → Type 0} (r : Result JobError A)
      → ((w : World) → P w → R w)
      → Triple P (lift r) (λ a w. P w × (r ≡ ok a)) R
  unfolding lift
  lift_rule (ok a) keep = record { runs = λ w h. (h, refl) }
  lift_rule (err e) keep = record { runs = λ w h. keep w h }
  lift_rule aborted keep = record { runs = λ w h. keep w h }

-- Predicates on the disk alone.
abbrev pub On : (Disk → Type 0) → World → Type 0
On C w = C w.disk

-- An action that changes nothing on the disk.
pub record IsReadOnly {A : Type 0} (m : Action A) : Type 0 where
  pub same : (w : World) → (m w).1.disk ≡ w.disk

module _ {R : Disk → Type 0} where
  pub durably_rule :
      {P : Disk → Type 0} (Q : Disk → Type 0) (change : Disk → Disk)
      → ((d : Disk) → P d → R d)
      → ((d : Disk) → P d → Q (change d))
      → Triple (On P) (durably change) (λ _. On Q) (On R)
  unfolding durably durably_in
  durably_rule {P} Q change keep step = record { runs = λ w h. changed_or_not w.budget w h }
    where
      changed_or_not :
          (left : ℕ) (w : World) → P w.disk → Ends (λ _. On Q) (On R) (durably_in left change w)
      changed_or_not zero w h = keep w.disk h
      changed_or_not (suc left) w h = step w.disk h

  pub read_only_rule :
      {A : Type 0} {P : Disk → Type 0} (m : Action A)
      → ((d : Disk) → P d → R d)
      → IsReadOnly m
      → Triple (On P) m (λ _. On P) (On R)
  read_only_rule {A} {P} m keep same = record { runs = λ w h. kept w h (m w) (same.same w) }
    where
      kept :
          (w : World)
          → P w.disk
          → (out : Result JobError A × World) → out.1.disk ≡ w.disk
          → Ends (λ _. On P) (On R) out
      kept w h (ok a, w') e = subst P (sym e) h
      kept w h (err reason, w') e = keep w'.disk (subst P (sym e) h)
      kept w h (aborted, w') e = keep w'.disk (subst P (sym e) h)

pub bind-IsReadOnly :
    {A B : Type 0} {m : Action A} {k : A → Action B}
    → IsReadOnly m
    → ((a : A) → IsReadOnly (k a))
    → IsReadOnly (m >>= k)
unfolding ◌>>=◌
bind-IsReadOnly {A} {B} {m} {k} first further = record { same = λ w. joined w (m w) (first.same w) }
  where
    joined :
        (w : World) (out : Result JobError A × World)
        → out.1.disk ≡ w.disk
        → (and_then out k).1.disk ≡ w.disk
    joined w (ok a, w') e = (further a).same w' ∙ e
    joined w (err reason, w') e = e
    joined w (aborted, w') e = e

pub pure-IsReadOnly : {A : Type 0} (a : A) → IsReadOnly (pure a)
unfolding pure
pure-IsReadOnly a = record { same = λ w. refl }

pub require-IsReadOnly : (b : Bool) (e : JobError) → IsReadOnly (require b e)
unfolding require
require-IsReadOnly true e = record { same = λ w. refl }
require-IsReadOnly false e = record { same = λ w. refl }

pub or_fail-IsReadOnly : {A : Type 0} (o : Option A) (e : JobError) → IsReadOnly (or_fail o e)
unfolding or_fail
or_fail-IsReadOnly none e = record { same = λ w. refl }
or_fail-IsReadOnly (some a) e = record { same = λ w. refl }

pub check_interrupted-IsReadOnly : (watch : Bool) → IsReadOnly (check_interrupted watch)
unfolding check_interrupted
check_interrupted-IsReadOnly true = record { same = λ w. refl }
check_interrupted-IsReadOnly false = record { same = λ w. refl }

pub sync_directory-IsReadOnly : IsReadOnly sync_directory
unfolding sync_directory
sync_directory-IsReadOnly = record { same = λ w. refl }

-- No error and no crash.
abbrev pub Never : World → Type 0
Never w = ⊥

-- A predicate on the disk, a number of changes left in the budget, and no sync that fails.
abbrev pub With : ℕ → (Disk → Type 0) → World → Type 0
With changes C w = C w.disk × (changes ≤ w.budget) × ((n : ℕ) → w.syncs n ≡ true)

module _ {R : World → Type 0} where
  module _ {A B : Type 0} (P : World → Type 0) (k : A → Action B) (S : B → World → Type 0) where
    asks_known_at :
        (f : Disk → A) (value : A)
        → ((w : World) → P w → f w.disk ≡ value)
        → Triple P (k value) S R
        → Triple P (asks f >>= k) S R
    unfolding asks ◌>>=◌
    asks_known_at f value known further = record {
      runs = λ w h. subst (λ a. Ends S R (k a w)) (sym (known w h)) (further.runs w h);
    }

    passes_at :
        (m : Action A) (value : A)
        → ((w : World) → m w ≡ (ok value, w))
        → Triple P (k value) S R
        → Triple P (m >>= k) S R
    unfolding ◌>>=◌
    passes_at m value passes further = record {
      runs = λ w h. subst (λ out. Ends S R (and_then out k)) (sym (passes w)) (further.runs w h);
    }

  pub asks_known :
      {A B : Type 0} {P : World → Type 0} {S : B → World → Type 0} (f : Disk → A) (k : A → Action B)
      (value : A)
      → ((w : World) → P w → f w.disk ≡ value)
      → Triple P (k value) S R
      → Triple P (asks f >>= k) S R
  asks_known {P = P} {S = S} f k value known further = asks_known_at P k S f value known further

  -- A step whose result is known, and that changes nothing.
  pub passes_rule :
      {A B : Type 0} {P : World → Type 0} {S : B → World → Type 0} (m : Action A) (k : A → Action B)
      (value : A)
      → ((w : World) → m w ≡ (ok value, w))
      → Triple P (k value) S R
      → Triple P (m >>= k) S R
  passes_rule {P = P} {S = S} m k value passes further = passes_at P k S m value passes further

  pub durably_total :
      {C : Disk → Type 0} (D : Disk → Type 0) (changes : ℕ) (change : Disk → Disk)
      → ((d : Disk) → C d → D (change d))
      → Triple (With (suc changes) C) (durably change) (λ _. With changes D) R
  unfolding durably durably_in
  durably_total {C} D changes change step = record { runs = λ w h. changed w.budget w h.0 h.1 h.2 }
    where
      changed :
          (left : ℕ) (w : World)
          → C w.disk
          → suc changes ≤ left
          → ((n : ℕ) → w.syncs n ≡ true)
          → Ends (λ _. With changes D) R (durably_in left change w)
      changed zero w h room synced = ground arith
      changed (suc left) w h room synced = (step w.disk h, omega arith, synced)

  pub sync_total :
      (C : Disk → Type 0) (changes : ℕ)
      → Triple (With changes C) sync_directory (λ _. With changes C) R
  unfolding sync_directory
  sync_total C changes = record { runs = λ w h. rw (h.2 0) ((h.0, h.1, λ n. h.2 (suc n))) }

pub require_passes : (b : Bool) (e : JobError) → b ≡ true → (w : World) → require b e w ≡ (ok tt, w)
unfolding require
require_passes true e same w = refl
require_passes false e same w = ground arith

pub or_fail_passes :
    {A : Type 0} (a : A) (e : JobError) (w : World) → or_fail (some a) e w ≡ (ok a, w)
unfolding or_fail
or_fail_passes a e w = refl

pub lift_passes :
    {A : Type 0} (r : Result JobError A) (a : A) → r ≡ ok a → (w : World) → lift r w ≡ (ok a, w)
unfolding lift
lift_passes r a e w = rw e refl
