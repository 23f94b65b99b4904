-- ===== src/Job/Publication/Acceptance.antt =====
-- When the database takes the rows of a part: crates/pstforge-job/src/lib.rs,
-- `commit_published_part_transaction`.
use pstforge.Base.{
  ℕ, true, false, List, [], ◌∷◌, ◌++◌, some, Text, same_text, same_text-eq, ok, All, All-map,
  All-both, AllPairs, ◌≡◌, ◌≢◌, refl, ap, ◌∙◌, Bool-cases, inl, inr, arith, if◌then◌else◌,
}
use pstforge.Job.World.{
  Status, pending, spooled, written, unsupported, failed, PartRow, PublishedPart, Candidate, Intent,
  Ledger,
}
use pstforge.Job.Publication.{
  status_of, is_spooled, mark_written, has_item, has_part, has_intent, remove_intents, assign_items,
  add_part, with_intents, clear_intent, commit_rows,
}
use pstforge.Job.Publication.Rows.{
  IsAcceptable, mark_written-IsMarked, recorded_in, has_intent-own, assign_items_intents,
}

differ : (a b : Text) → a ≢ b → same_text a b ≡ false
differ a b apart = elim (Bool-cases (same_text a b)) [
  | inl same ↦ elim (apart (same_text-eq a b same)) [ ]
  | inr other ↦ other
]

mark_written_succeeds :
    (key : Text) (candidates : List Candidate)
    → status_of key candidates ≡ some spooled
    → (marked : List Candidate) × (mark_written key candidates ≡ some marked)
unfolding mark_written
mark_written_succeeds key [] e = cc
mark_written_succeeds key (c ∷ cs) e = elim (Bool-cases (same_text c.item_key key)) [
  | inl same ↦
      let ready : some c.status ≡ some spooled = rw same at e in
      (
        record { item_key = c.item_key; status = written } ∷ cs,
        rw (same, spooled_passes c.status ready) refl,
      )
  | inr other ↦
      let later : status_of key cs ≡ some spooled = rw other at e in
      let (marked, done) = mark_written_succeeds key cs later in (c ∷ marked, rw (other, done) refl)
]
  where
    spooled_passes : (status : Status) → some status ≡ some spooled → is_spooled status ≡ true
    spooled_passes pending e = cc
    spooled_passes spooled e = refl
    spooled_passes written e = cc
    spooled_passes unsupported e = cc
    spooled_passes failed e = cc

has_item-append :
    (index : ℕ) (key other : Text) (items : List (ℕ × Text))
    → has_item key items ≡ false
    → same_text other key ≡ false
    → has_item key (items ++ (index, other) ∷ []) ≡ false
has_item-append index key other [] e h = ground (arith, h)
has_item-append index key other (item ∷ items) e h =
    ground (arith, e, has_item-append index key other items)

-- A key that can still be assigned, and differs from the keys before it.
abbrev Ready : Ledger → Text → Type 0
Ready ledger key =
    (status_of key ledger.candidates ≡ some spooled) × (has_item key ledger.part_items ≡ false)

assign_items_succeeds :
    (index : ℕ) (item_keys : List Text) (ledger : Ledger)
    → All (Ready ledger) item_keys
    → AllPairs (λ a b. a ≢ b) item_keys
    → (out : Ledger) × (assign_items index item_keys ledger ≡ ok out)
unfolding assign_items
assign_items_succeeds index [] ledger ready apart = (ledger, refl)
assign_items_succeeds index (key ∷ keys) ledger ready apart =
    let (marked, done) = mark_written_succeeds key ledger.candidates ready.0.0 in
    let is_marked = mark_written-IsMarked key ledger.candidates marked done in
    let after : Ledger = record {
      candidates = marked;
      parts = ledger.parts;
      part_items = ledger.part_items ++ (index, key) ∷ [];
      publication_intents = ledger.publication_intents;
    } in
    let still : All (Ready after) keys =
      All-map (λ k. Ready ledger k × (key ≢ k)) (Ready after)
        (λ k h. (
          is_marked.statuses k
              ∙ ap (λ same. if same then some written else status_of k ledger.candidates)
                  (differ key k h.1)
              ∙ h.0.0,
          has_item-append index k key ledger.part_items h.0.1 (differ key k h.1),
        ))
        keys (All-both (Ready ledger) (λ k. key ≢ k) keys ready.1 apart.0) in
    let (out, rest) = assign_items_succeeds index keys after still apart.1 in
    (out, rw (done, ready.0.1) rest)

has_item_free :
    (key : Text) (items : List (ℕ × Text))
    → All (λ item. item.1 ≢ key) items
    → has_item key items ≡ false
has_item_free key [] h = refl
has_item_free key (item ∷ items) h = rw (differ item.1 key h.0) (has_item_free key items h.1)

has_part_new :
    (part : PublishedPart) (rows : List PartRow)
    → All (λ row. (row.part.index ≢ part.index) × (row.part.filename ≢ part.filename)) rows
    → has_part part rows ≡ false
has_part_new part [] h = refl
has_part_new part (row ∷ rows) h =
    let name = differ row.part.filename part.filename h.0.1 in
    let index = h.0.0 in let rest = has_part_new part rows h.1 in ground (arith, name, index, rest)

-- A part that is acceptable is committed.
pub commit_rows_succeeds :
    (intent : Intent) (ledger : Ledger)
    → IsAcceptable intent.part intent.item_keys ledger
    → (out : Ledger) × (commit_rows intent.part intent.sidecar intent.item_keys true
          (recorded_in intent ledger)
        ≡ ok out)
unfolding commit_rows clear_intent
commit_rows_succeeds intent ledger fits =
    let index = intent.part.index in
    let start = add_part intent.part intent.sidecar (recorded_in intent ledger) in
    let ready : All (Ready start) intent.item_keys =
      All-both (λ key. status_of key ledger.candidates ≡ some spooled)
        (λ key. has_item key ledger.part_items ≡ false) intent.item_keys fits.spooled
        (All-map (λ key. All (λ item. item.1 ≢ key) ledger.part_items)
          (λ key. has_item key ledger.part_items ≡ false)
          (λ key h. has_item_free key ledger.part_items h) intent.item_keys fits.unassigned) in
    let (assigned, done) =
      assign_items_succeeds index intent.item_keys start ready fits.different in
    let there : has_intent index assigned.publication_intents ≡ true =
      ap (has_intent index) (assign_items_intents index intent.item_keys start assigned done)
      ∙ has_intent-own intent ledger.publication_intents in
    (
      with_intents assigned (remove_intents index assigned.publication_intents),
      rw (has_part_new intent.part ledger.parts fits.new_part, done, there) refl,
    )
