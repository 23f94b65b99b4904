-- ===== src/Job/Publication.antt =====
-- The publication of a part, crates/pstforge-job/src/lib.rs: `publish_part_with_interrupt`,
-- `commit_published_part_transaction` and `reconcile_publications`. A transaction of the database takes
-- effect as a whole. `render` is the file that a sidecar is written to, and `torn` what a crash in the
-- middle of that leaves.
pub mod Rows
pub mod Acceptance
pub mod Phases
pub mod Steps
pub mod Preparation
pub mod Whole
pub mod Reconciliation
pub mod Recovery
use pstforge.Base.{
  ℕ, zero, suc, ◌+◌, Bool, true, false, not, ◌&&◌, ◌||◌, List, [], ◌∷◌, ◌++◌, Option, none, some,
  ◌==◌, length, leb, sort_by, if◌then◌else◌, Text, same_text, Result, ok, err,
}
use pstforge.Job.World.{
  JobError, PublishedPart, PartSidecar, File, Directory, set, Status, spooled, written, pending,
  unsupported, failed, Candidate, PartRow, Intent, Ledger, Disk, World, Action, pure, fail, lift,
  asks, require, or_fail, durably, check_interrupted, sync_directory, integrity, io, sql,
  event_sequence, ◌>>=◌, ◌>>◌,
}
use pstforge.Job.Checks.{
  validate_part_record, validate_sidecar, staged_part_path, sidecar_name, staged_sidecar_name,
  verify_part_artifact, verify_sidecar_artifact,
}

abbrev pub is_spooled : Status → Bool
is_spooled spooled = true
is_spooled _ = false

abbrev pub status_of : Text → List Candidate → Option Status
status_of key [] = none
status_of key (candidate ∷ candidates) =
    let later = status_of key candidates in
    if same_text candidate.item_key key then some candidate.status else later

abbrev pub keep_first : Candidate → Option (List Candidate) → Option (List Candidate)
keep_first candidate none = none
keep_first candidate (some candidates) = some (candidate ∷ candidates)

-- The update of one candidate from spooled to written, when there is one.
unfoldable pub mark_written : Text → List Candidate → Option (List Candidate)
mark_written key [] = none
mark_written key (candidate ∷ candidates) =
    let later = keep_first candidate (mark_written key candidates) in
    if same_text candidate.item_key key
    then if is_spooled candidate.status
      then some (record { item_key = candidate.item_key; status = written } ∷ candidates)
      else none
    else later

abbrev pub has_item : Text → List (ℕ × Text) → Bool
has_item key [] = false
has_item key (item ∷ items) = same_text item.1 key || has_item key items

abbrev pub has_part : PublishedPart → List PartRow → Bool
has_part part [] = false
has_part part (row ∷ rows) =
    row.part.index == part.index || same_text row.part.filename part.filename || has_part part rows

abbrev pub has_intent : ℕ → List Intent → Bool
has_intent index [] = false
has_intent index (intent ∷ intents) = intent.part.index == index || has_intent index intents

abbrev pub remove_intents : ℕ → List Intent → List Intent
remove_intents index [] = []
remove_intents index (intent ∷ intents) =
    let rest = remove_intents index intents in
    if intent.part.index == index then rest else intent ∷ rest

abbrev pub next : {A B : Type 0} → Result JobError A → (A → Result JobError B) → Result JobError B
next (ok a) f = f a
next (err e) f = err e
next Result.aborted f = Result.aborted

abbrev pub row_guard : Bool → JobError → Result JobError (Unit {0})
row_guard true e = ok tt
row_guard false e = err e

abbrev pub or_row : {A : Type 0} → Option A → JobError → Result JobError A
or_row none e = err e
or_row (some a) e = ok a

-- The candidates of a part, in turn: from spooled to written, and into the items of the part.
unfoldable pub assign_items : ℕ → List Text → Ledger → Result JobError Ledger
assign_items index [] ledger = ok ledger
assign_items index (key ∷ keys) ledger =
    next
      (or_row (mark_written key ledger.candidates)
        (integrity "candidate is not available for part assignment"))
      (λ candidates.
        next (row_guard (not (has_item key ledger.part_items)) (sql "UNIQUE constraint failed"))
          (λ _. assign_items index keys (record {
            candidates = candidates;
            parts = ledger.parts;
            part_items = ledger.part_items ++ (index, key) ∷ [];
            publication_intents = ledger.publication_intents;
          })))

abbrev pub add_part : PublishedPart → PartSidecar → Ledger → Ledger
add_part part sidecar ledger = record {
  candidates = ledger.candidates;
  parts = ledger.parts ++ record { part = part; sidecar = sidecar } ∷ [];
  part_items = ledger.part_items;
  publication_intents = ledger.publication_intents;
}

abbrev pub with_intents : Ledger → List Intent → Ledger
with_intents ledger intents = record {
  candidates = ledger.candidates;
  parts = ledger.parts;
  part_items = ledger.part_items;
  publication_intents = intents;
}

-- The deletion of the intent, which must be there.
unfoldable pub clear_intent : ℕ → Ledger → Result JobError Ledger
clear_intent index ledger =
    next
      (row_guard (has_intent index ledger.publication_intents)
        (integrity "publication intent for part is absent"))
      (λ _. ok (with_intents ledger (remove_intents index ledger.publication_intents)))

-- The rows of the transaction. The indices of parts and their names are unique.
unfoldable pub commit_rows :
    PublishedPart → PartSidecar → List Text → Bool → Ledger → Result JobError Ledger
commit_rows part sidecar item_keys clear ledger =
    next (row_guard (not (has_part part ledger.parts)) (sql "UNIQUE constraint failed")) (λ _.
      next (assign_items part.index item_keys (add_part part sidecar ledger))
        (λ assigned. if clear then clear_intent part.index assigned else ok assigned))

abbrev pub with_ledger : Disk → Ledger → Disk
with_ledger disk ledger = record {
  partial = disk.partial;
  parts = disk.parts;
  manifests = disk.manifests;
  ledger = ledger;
}

unfoldable pub commit_published_part_transaction :
    PublishedPart → PartSidecar → List Text → Bool → Action (Unit {0})
commit_published_part_transaction part sidecar item_keys clear = do
  ledger ← asks (λ disk. disk.ledger)
  committed ← lift (commit_rows part sidecar item_keys clear ledger)
  durably (λ disk. with_ledger disk committed)

-- The batch of candidates that is being recorded: whether one is open, the pack of payloads with its
-- sync, its length and where the next payload goes, and the candidates with those of the batch. The batch
-- ends with its commit, after which nothing here looks at it.
pub record CandidateBatch : Type 0 where
  pub batch_open : Bool
  pub pack_synced : Bool
  pub payload_pack_len : ℕ
  pub payload_pack_position : ℕ
  pub candidates : List Candidate

abbrev pub with_candidates : Disk → List Candidate → Disk
with_candidates disk candidates = with_ledger disk (record {
  candidates = candidates;
  parts = disk.ledger.parts;
  part_items = disk.ledger.part_items;
  publication_intents = disk.ledger.publication_intents;
})

unfoldable pub commit_batch_if : Bool → CandidateBatch → Action (Unit {0})
commit_batch_if false batch = pure tt
commit_batch_if true batch = do
  require batch.pack_synced (io "Input/output error")
  require (batch.payload_pack_len == batch.payload_pack_position)
      (integrity "payload pack length changed before durable batch commit")
  durably (λ disk. with_candidates disk batch.candidates)

unfoldable pub commit_candidate_batch : CandidateBatch → Action (Unit {0})
commit_candidate_batch batch = commit_batch_if batch.batch_open batch

-- Every candidate is spooled; a query of no row is an error of the database.
unfoldable pub check_available : List Text → List Candidate → Result JobError (Unit {0})
check_available [] candidates = ok tt
check_available (key ∷ keys) candidates =
    next (or_row (status_of key candidates) (sql "Query returned no rows")) (λ status.
      next
        (row_guard (is_spooled status) (integrity "candidate is not available for part assignment"))
        (λ _. check_available keys candidates))

unfoldable pub record_publication_intent :
    Bool → PublishedPart → PartSidecar → List Text → Action (Unit {0})
record_publication_intent active part sidecar item_keys = do
  require (not active && not (length item_keys == 0))
      (event_sequence "cannot publish an empty part during an active candidate")
  ledger ← asks (λ disk. disk.ledger)
  lift (check_available item_keys ledger.candidates)
  require (not (has_intent part.index ledger.publication_intents)) (sql "UNIQUE constraint failed")
  durably (λ disk. with_ledger disk (
      with_intents disk.ledger (
        disk.ledger.publication_intents
        ++ record { part = part; sidecar = sidecar; item_keys = item_keys } ∷ [])))

abbrev pub is_absent : Option File → Bool
is_absent none = true
is_absent (some file) = false

unfoldable pub refuse_existing : Option File → Action (Unit {0})
refuse_existing found =
    require (is_absent found) (integrity "publication destination already exists")

abbrev pub set_partial : Text → Option File → Disk → Disk
set_partial name file disk = record {
  partial = set disk.partial name file;
  parts = disk.parts;
  manifests = disk.manifests;
  ledger = disk.ledger;
}

abbrev pub move_part : Text → Text → File → Disk → Disk
move_part staged filename file disk = record {
  partial = set disk.partial staged none;
  parts = set disk.parts filename (some file);
  manifests = disk.manifests;
  ledger = disk.ledger;
}

abbrev pub move_sidecar : Text → Text → File → Disk → Disk
move_sidecar staged filename file disk = record {
  partial = set disk.partial staged none;
  parts = disk.parts;
  manifests = set disk.manifests filename (some file);
  ledger = disk.ledger;
}

-- `rename_noclobber` of a file of the staging directory into one of the others.
unfoldable pub rename_noclobber :
    Option File → Option File → (File → Disk → Disk) → Action (Unit {0})
rename_noclobber source destination move = do
  file ← or_fail source (io "No such file or directory")
  require (is_absent destination) (integrity "publication destination already exists")
  durably (move file)

module _ (euid : ℕ) (render : PartSidecar → File) (torn : File) where
  unfoldable pub write_sidecar_partial : Text → PartSidecar → Action (Unit {0})
  write_sidecar_partial name sidecar = do
    found ← asks (λ disk. disk.partial name)
    require (is_absent found) (io "File exists")
    durably (set_partial name (some torn))
    durably (set_partial name (some (render sidecar)))
    written_file ← asks (λ disk. disk.partial name)
    verify_sidecar_artifact euid written_file sidecar

  -- The last steps, from the intent on.
  unfoldable pub publish_recorded :
      Bool → Text → PublishedPart → PartSidecar → List Text → Action (Unit {0})
  publish_recorded watch staged part sidecar item_keys = do
    source ← asks (λ disk. disk.partial staged)
    destination ← asks (λ disk. disk.parts part.filename)
    rename_noclobber source destination (move_part staged part.filename)
    sync_directory
    check_interrupted watch
    published ← asks (λ disk. disk.parts part.filename)
    verify_part_artifact euid watch published part sidecar
    check_interrupted watch
    staged_sidecar ← asks (λ disk. disk.partial (staged_sidecar_name part.filename))
    manifest ← asks (λ disk. disk.manifests (sidecar_name part.filename))
    rename_noclobber staged_sidecar manifest
        (move_sidecar (staged_sidecar_name part.filename) (sidecar_name part.filename))
    sync_directory
    check_interrupted watch
    final_sidecar ← asks (λ disk. disk.manifests (sidecar_name part.filename))
    verify_sidecar_artifact euid final_sidecar sidecar
    check_interrupted watch
    commit_published_part_transaction part sidecar item_keys true

  -- The first steps: what there is is checked, and the sidecar is staged.
  unfoldable pub prepare_part : Bool → Text → PublishedPart → PartSidecar → Action (Unit {0})
  prepare_part watch staged part sidecar = do
    validate_part_record part
    validate_sidecar part sidecar
    staged_part_path staged
    source ← asks (λ disk. disk.partial staged)
    verify_part_artifact euid watch source part sidecar
    check_interrupted watch
    final ← asks (λ disk. disk.parts part.filename)
    refuse_existing final
    manifest ← asks (λ disk. disk.manifests (sidecar_name part.filename))
    refuse_existing manifest
    staged_sidecar ← asks (λ disk. disk.partial (staged_sidecar_name part.filename))
    refuse_existing staged_sidecar
    write_sidecar_partial (staged_sidecar_name part.filename) sidecar
    check_interrupted watch

  -- `active` is that a candidate is being recorded.
  unfoldable pub publish_part_with_interrupt :
      CandidateBatch
      → Bool
      → Bool
      → Text
      → PublishedPart
      → PartSidecar
      → List Text
      → Action (Unit {0})
  publish_part_with_interrupt batch watch active staged part sidecar item_keys = do
    commit_candidate_batch batch
    prepare_part watch staged part sidecar
    record_publication_intent active part sidecar item_keys
    publish_recorded watch staged part sidecar item_keys

  abbrev require_sidecar : Option File → Text → PartSidecar → Action (Unit {0})
  require_sidecar (some file) name sidecar = verify_sidecar_artifact euid (some file) sidecar
  require_sidecar none name sidecar = write_sidecar_partial name sidecar

  -- A part that stands in its place: its sidecar is put into its place too, and the part is committed.
  unfoldable pub complete_sidecar : Option File → Text → PartSidecar → Action (Unit {0})
  complete_sidecar (some file) filename sidecar = verify_sidecar_artifact euid (some file) sidecar
  complete_sidecar none filename sidecar = do
    staged_sidecar ← asks (λ disk. disk.partial (staged_sidecar_name filename))
    require_sidecar staged_sidecar (staged_sidecar_name filename) sidecar
    source ← asks (λ disk. disk.partial (staged_sidecar_name filename))
    destination ← asks (λ disk. disk.manifests (sidecar_name filename))
    rename_noclobber source destination
        (move_sidecar (staged_sidecar_name filename) (sidecar_name filename))
    sync_directory
    final_sidecar ← asks (λ disk. disk.manifests (sidecar_name filename))
    verify_sidecar_artifact euid final_sidecar sidecar

  unfoldable pub reconcile_intent : Bool → Intent → Action (Unit {0})
  reconcile_intent watch intent = do
    validate_part_record intent.part
    validate_sidecar intent.part intent.sidecar
    require (not (length intent.item_keys == 0))
        (integrity "publication intent for part has no candidates")
    final ← asks (λ disk. disk.parts intent.part.filename)
    manifest ← asks (λ disk. disk.manifests (sidecar_name intent.part.filename))
    elim final [
      | none ↦ do
        require (is_absent manifest) (integrity "part has a sidecar without its PST")
        durably (λ disk. with_ledger disk (
            with_intents disk.ledger
              (remove_intents intent.part.index disk.ledger.publication_intents)))
      | some file ↦ do
        verify_part_artifact euid watch (some file) intent.part intent.sidecar
        complete_sidecar manifest intent.part.filename intent.sidecar
        commit_published_part_transaction intent.part intent.sidecar intent.item_keys true
    ]

  unfoldable pub reconcile_intents : Bool → List Intent → Action (Unit {0})
  reconcile_intents watch [] = pure tt
  reconcile_intents watch (intent ∷ intents) = do
    reconcile_intent watch intent
    reconcile_intents watch intents

  -- The intents in the order of their parts.
  unfoldable pub reconcile_publications : Bool → Action (Unit {0})
  reconcile_publications watch = do
    intents ← asks (λ disk. disk.ledger.publication_intents)
    reconcile_intents watch (sort_by (λ a b. leb a.part.index b.part.index) intents)
