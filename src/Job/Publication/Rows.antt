-- ===== src/Job/Publication/Rows.antt =====
-- The rows of a committed part, crates/pstforge-job/src/lib.rs, `commit_published_part_transaction`: what
-- they are, and when the database takes them.
use pstforge.Base.{
  ℕ, Bool, true, false, not, ◌||◌, List, [], ◌∷◌, ◌++◌, map, Option, some, none, Option-cases, Text,
  same_text, same_text-eq, same_text_sym, Result, ok, err, aborted, All, All-map, AllPairs, ◌≡◌,
  ◌≢◌, refl, sym, ap, ◌∙◌, subst, append-nil, append_assoc, Bool-cases, inl, inr, arith,
  if◌then◌else◌,
}
use pstforge.Job.World.{
  JobError, PublishedPart, PartSidecar, Status, pending, spooled, written, unsupported, failed,
  Candidate, Intent, Ledger, integrity, sql,
}
use pstforge.Job.Publication.{
  status_of, is_spooled, mark_written, has_item, has_part, has_intent, remove_intents, next,
  row_guard, or_row, assign_items, add_part, with_intents, clear_intent, commit_rows,
}

abbrev pub has_key : Text → List Text → Bool
has_key key [] = false
has_key key (other ∷ keys) = same_text other key || has_key key keys

-- The ledger after a part was committed, against the one before its intent was recorded. It has one
-- row for the part and one for each of its items, behind the rows that were there; the items were
-- spooled and are written, the status of no other candidate is changed, no candidate is lost, and the
-- intents are those of before.
pub record IsCommitted (part : PublishedPart) (sidecar : PartSidecar) (item_keys : List Text)
    (before after : Ledger) : Type 0 where
  pub parts : after.parts ≡ before.parts ++ record { part = part; sidecar = sidecar } ∷ []
  pub part_items : after.part_items ≡ before.part_items ++ map (λ key. (part.index, key)) item_keys
  pub candidates : map (λ c. c.item_key) after.candidates ≡ map (λ c. c.item_key) before.candidates
  pub were_spooled : All (λ key. status_of key before.candidates ≡ some spooled) item_keys
  pub statuses :
      (key : Text)
      → status_of key after.candidates
        ≡ (if has_key key item_keys then some written else status_of key before.candidates)
  pub intents : after.publication_intents ≡ before.publication_intents

-- What the database asks of a new part: its index and name are new, its items are different candidates
-- that are spooled, and they are in no part.
pub record IsAcceptable (part : PublishedPart) (item_keys : List Text) (ledger : Ledger)
    : Type 0 where
  pub new_part :
      All (λ row. (row.part.index ≢ part.index) × (row.part.filename ≢ part.filename)) ledger.parts
  pub spooled : All (λ key. status_of key ledger.candidates ≡ some spooled) item_keys
  pub unassigned : All (λ key. All (λ item. item.1 ≢ key) ledger.part_items) item_keys
  pub different : AllPairs (λ a b. a ≢ b) item_keys

pub next-eq-ok :
    {A B : Type 0} (r : Result JobError A) (f : A → Result JobError B) (b : B)
    → next r f ≡ ok b
    → (a : A) × (r ≡ ok a) × (f a ≡ ok b)
next-eq-ok (ok a) f b e = (a, refl, e)
next-eq-ok (err reason) f b e = cc
next-eq-ok aborted f b e = cc

ok_injective : {A : Type 0} {x y : A} → ◌≡◌ {A = Result JobError A} (ok x) (ok y) → x ≡ y
ok_injective e = cc

-- A candidate that is marked was spooled, and only its status changes.
pub record IsMarked (key : Text) (before after : List Candidate) : Type 0 where
  pub keys : map (λ c. c.item_key) after ≡ map (λ c. c.item_key) before
  pub was_spooled : status_of key before ≡ some spooled
  pub statuses :
      (k : Text)
      → status_of k after ≡ (if same_text key k then some written else status_of k before)

some_injective : {A : Type 0} {x y : A} → ◌≡◌ {A = Option A} (some x) (some y) → x ≡ y
some_injective e = cc

spooled_only : (status : Status) → is_spooled status ≡ true → status ≡ spooled
spooled_only pending e = cc
spooled_only spooled e = refl
spooled_only written e = cc
spooled_only unsupported e = cc
spooled_only failed e = cc

same_test :
    {A : Type 0} (b b' : Bool) (x y z : A)
    → b ≡ b'
    → (if b then x else z) ≡ (if b' then x else if b then y else z)
same_test true true x y z e = refl
same_test true false x y z e = cc
same_test false true x y z e = cc
same_test false false x y z e = refl

exclusive_tests :
    {A : Type 0} (b b' : Bool) (x y z : A)
    → (b ≡ true → b' ≡ false)
    → (if b then y else if b' then x else z) ≡ (if b' then x else if b then y else z)
exclusive_tests true true x y z e = let impossible = e refl in cc
exclusive_tests true false x y z e = refl
exclusive_tests false b' x y z e = refl

pub mark_written-IsMarked :
    (key : Text) (before after : List Candidate)
    → mark_written key before ≡ some after
    → IsMarked key before after
unfolding mark_written
mark_written-IsMarked key [] after e = cc
mark_written-IsMarked key (c ∷ cs) after e = elim (Bool-cases (same_text c.item_key key)) [
  | inl same ↦ elim (Bool-cases (is_spooled c.status)) [
    | inl ready ↦
        let at_key : c.item_key ≡ key = same_text-eq c.item_key key same in
        subst (IsMarked key (c ∷ cs)) (some_injective (rw (same, ready) at e)) (record {
          keys = refl;
          was_spooled = rw same (ap some (spooled_only c.status ready));
          statuses = λ k.
              same_test (same_text c.item_key k) (same_text key k) (some written) (some c.status)
                (status_of k cs) (ap (λ name. same_text name k) at_key);
        })
    | inr unready ↦ let nothing = rw (same, unready) at e in cc
  ]
  | inr other ↦ elim (Option-cases (mark_written key cs)) [
    | inl nowhere ↦ let nothing = rw (other, nowhere) at e in cc
    | inr (marked, later) ↦
        let rest = mark_written-IsMarked key cs marked later in
        subst (IsMarked key (c ∷ cs)) (some_injective (rw (other, later) at e)) (record {
          keys = ap (c.item_key ∷◌) rest.keys;
          was_spooled = rw other rest.was_spooled;
          statuses = λ k.
              ap (λ status. if same_text c.item_key k then some c.status else status)
                (rest.statuses k)
              ∙ exclusive_tests (same_text c.item_key k) (same_text key k) (some written)
                  (some c.status) (status_of k cs)
                  (λ here.
                    ap (same_text key) (sym (same_text-eq c.item_key k here))
                    ∙ same_text_sym c.item_key key other);
        })
  ]
]

-- What the rows of the items are.
record IsAssigned (index : ℕ) (item_keys : List Text) (before after : Ledger) : Type 0 where
  parts : after.parts ≡ before.parts
  part_items : after.part_items ≡ before.part_items ++ map (λ key. (index, key)) item_keys
  candidates : map (λ c. c.item_key) after.candidates ≡ map (λ c. c.item_key) before.candidates
  were_spooled : All (λ key. status_of key before.candidates ≡ some spooled) item_keys
  statuses :
      (key : Text)
      → status_of key after.candidates
        ≡ (if has_key key item_keys then some written else status_of key before.candidates)
  intents : after.publication_intents ≡ before.publication_intents

still_spooled :
    (same : Bool) (status : Option Status)
    → (if same then some written else status) ≡ some spooled
    → status ≡ some spooled
still_spooled true status e = cc
still_spooled false status e = e

joined_tests :
    {A : Type 0} (b b' : Bool) (x z : A)
    → (if b' then x else if b then x else z) ≡ (if b || b' then x else z)
joined_tests true true x z = refl
joined_tests true false x z = refl
joined_tests false true x z = refl
joined_tests false false x z = refl

assign_items-IsAssigned :
    (index : ℕ) (item_keys : List Text) (before after : Ledger)
    → assign_items index item_keys before ≡ ok after
    → IsAssigned index item_keys before after
unfolding assign_items
assign_items-IsAssigned index [] before after e =
    subst (IsAssigned index [] before) (ok_injective e) (record {
      parts = refl;
      part_items = sym (append-nil before.part_items);
      candidates = refl;
      were_spooled = tt;
      statuses = λ key. refl;
      intents = refl;
    })
assign_items-IsAssigned index (key ∷ keys) before after e =
    let (candidates, found, more) =
      next-eq-ok (or_row (mark_written key before.candidates) _) _ after e in
    let (_, free, last) =
      next-eq-ok (row_guard (not (has_item key before.part_items)) _) _ after more in
    let marked = mark_written-IsMarked key before.candidates candidates (or_row-some _ _ _ found) in
    let rest = assign_items-IsAssigned index keys _ after last in
    record {
      parts = rest.parts;
      part_items =
          rest.part_items
          ∙ append_assoc before.part_items ((index, key) ∷ []) (map (λ key. (index, key)) keys);
      candidates = rest.candidates ∙ marked.keys;
      were_spooled = (
        marked.was_spooled,
        All-map (λ k. status_of k candidates ≡ some spooled)
            (λ k. status_of k before.candidates ≡ some spooled)
            (λ k h.
              still_spooled (same_text key k) (status_of k before.candidates)
                (sym (marked.statuses k) ∙ h))
            keys rest.were_spooled,
      );
      statuses = λ k.
          rest.statuses k
          ∙ ap (λ status. if has_key k keys then some written else status) (marked.statuses k)
          ∙ joined_tests (same_text key k) (has_key k keys) (some written)
              (status_of k before.candidates);
      intents = rest.intents;
    }
  where
    or_row-some :
        {A : Type 0} (value : Option A) (reason : JobError) (a : A)
        → or_row value reason ≡ ok a
        → value ≡ some a
    or_row-some none reason a e = cc
    or_row-some (some b) reason a e = ap some (ok_injective e)

pub has_intent-own :
    (intent : Intent) (intents : List Intent)
    → has_intent intent.part.index (intents ++ intent ∷ []) ≡ true
has_intent-own intent [] = ground arith
has_intent-own intent (other ∷ intents) = ground (arith, has_intent-own intent intents)

remove_intents-own :
    (intent : Intent) (intents : List Intent)
    → has_intent intent.part.index intents ≡ false
    → remove_intents intent.part.index (intents ++ intent ∷ []) ≡ intents
remove_intents-own intent [] e = ground arith
remove_intents-own intent (other ∷ intents) e = ground (arith, e, remove_intents-own intent intents)

-- The intent of a part, and the ledger once it is recorded.
abbrev pub recorded_in : Intent → Ledger → Ledger
recorded_in intent ledger = with_intents ledger (ledger.publication_intents ++ intent ∷ [])

pub commit_rows-IsCommitted :
    (intent : Intent) (before after : Ledger)
    → has_intent intent.part.index before.publication_intents ≡ false
    → commit_rows intent.part intent.sidecar intent.item_keys true (recorded_in intent before)
      ≡ ok after
    → IsCommitted intent.part intent.sidecar intent.item_keys before after
unfolding commit_rows clear_intent
commit_rows-IsCommitted intent before after fresh e =
    let index = intent.part.index in
    let ledger = add_part intent.part intent.sidecar (recorded_in intent before) in
    let (_, free, more) =
      next-eq-ok
        (row_guard (not (has_part intent.part before.parts)) (sql "UNIQUE constraint failed")) _
        after e in
    let (assigned, done, more') =
      next-eq-ok (assign_items index intent.item_keys ledger) _ after more in
    let (_, there, last) =
      next-eq-ok
        (row_guard (has_intent index assigned.publication_intents)
          (integrity "publication intent for part is absent"))
        _ after more' in
    let items = assign_items-IsAssigned index intent.item_keys ledger assigned done in
    subst (IsCommitted intent.part intent.sidecar intent.item_keys before) (ok_injective last)
      (record {
        parts = items.parts;
        part_items = items.part_items;
        candidates = items.candidates;
        were_spooled = items.were_spooled;
        statuses = items.statuses;
        intents =
            ap (remove_intents index) items.intents
            ∙ remove_intents-own intent before.publication_intents fresh;
      })

pub assign_items_intents :
    (index : ℕ) (item_keys : List Text) (before after : Ledger)
    → assign_items index item_keys before ≡ ok after
    → after.publication_intents ≡ before.publication_intents
assign_items_intents index item_keys before after e =
    (assign_items-IsAssigned index item_keys before after e).intents
