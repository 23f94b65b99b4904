-- ===== src/Job/Publication/Phases.antt =====
-- The states that `publish_part_with_interrupt` (crates/pstforge-job/src/lib.rs) goes through, and that
-- each of its steps leaves the disk in one of them, also when it fails or crashes.
use pstforge.Base.{
  ℕ, zero, suc, Bool, false, List, Option, none, some, Text, same_text, same_text_refl,
  same_text-eq, ◌≡◌, refl, sym, ap, ◌∙◌, arith, inl, inr, Bool-cases,
}
use pstforge.Job.World.{PublishedPart, PartSidecar, File, Directory, set, Intent, Ledger, Disk}
use pstforge.Job.Checks.{
  sidecar_name, staged_sidecar_name, verify_part_artifact, verify_sidecar_artifact, verify_digest,
  poll_reads, read_sidecar_artifact,
}
use pstforge.Job.Publication.{has_intent}
use pstforge.Job.Publication.Rows.{IsCommitted, recorded_in}
use pstforge.Job.Triples.{
  pure-IsReadOnly, IsReadOnly, bind-IsReadOnly, require-IsReadOnly, or_fail-IsReadOnly,
  check_interrupted-IsReadOnly,
}

-- What is published: the staged file, the disk before, and the disk before the open batch of candidates
-- was committed.
pub record Publication : Type 0 where
  pub part : PublishedPart
  pub sidecar : PartSidecar
  pub item_keys : List Text
  pub staged : Text
  pub file : File
  pub disk : Disk
  pub start : Disk

abbrev pub intent_of : Publication → Intent
intent_of p = record { part = p.part; sidecar = p.sidecar; item_keys = p.item_keys }

abbrev pub recorded_ledger : Publication → Ledger
recorded_ledger p = recorded_in (intent_of p) p.disk.ledger

module _ (render : PartSidecar → File) (p : Publication) where
  -- Nothing but the staging directory has changed, and the staged part is there.
  pub record Before (d : Disk) : Type 0 where
    pub parts : d.parts ≡ p.disk.parts
    pub manifests : d.manifests ≡ p.disk.manifests
    pub ledger : d.ledger ≡ p.disk.ledger
    pub staged : d.partial p.staged ≡ some p.file

  -- And the sidecar is staged, under another name; the places of both are free.
  pub record Staged (d : Disk) : Type 0 where
    pub before : Before d
    pub sidecar : d.partial (staged_sidecar_name p.part.filename) ≡ some (render p.sidecar)
    pub apart : same_text (staged_sidecar_name p.part.filename) p.staged ≡ false
    pub no_part : p.disk.parts p.part.filename ≡ none
    pub no_sidecar : p.disk.manifests (sidecar_name p.part.filename) ≡ none

  -- The intent is recorded, and there was none for this part before.
  pub record Recorded (d : Disk) : Type 0 where
    pub parts : d.parts ≡ p.disk.parts
    pub manifests : d.manifests ≡ p.disk.manifests
    pub ledger : d.ledger ≡ recorded_ledger p
    pub fresh : has_intent p.part.index p.disk.ledger.publication_intents ≡ false
    pub staged : d.partial p.staged ≡ some p.file
    pub sidecar : d.partial (staged_sidecar_name p.part.filename) ≡ some (render p.sidecar)
    pub apart : same_text (staged_sidecar_name p.part.filename) p.staged ≡ false
    pub no_part : p.disk.parts p.part.filename ≡ none
    pub no_sidecar : p.disk.manifests (sidecar_name p.part.filename) ≡ none

  -- The part is in its place, the sidecar not yet.
  pub record Moved (d : Disk) : Type 0 where
    pub parts : d.parts ≡ set p.disk.parts p.part.filename (some p.file)
    pub manifests : d.manifests ≡ p.disk.manifests
    pub ledger : d.ledger ≡ recorded_ledger p
    pub fresh : has_intent p.part.index p.disk.ledger.publication_intents ≡ false
    pub sidecar : d.partial (staged_sidecar_name p.part.filename) ≡ some (render p.sidecar)
    pub no_sidecar : p.disk.manifests (sidecar_name p.part.filename) ≡ none

  abbrev pub placed_manifests : Directory
  placed_manifests = set p.disk.manifests (sidecar_name p.part.filename) (some (render p.sidecar))

  -- Both are in their places, the part is not committed.
  pub record Placed (d : Disk) : Type 0 where
    pub parts : d.parts ≡ set p.disk.parts p.part.filename (some p.file)
    pub manifests : d.manifests ≡ placed_manifests
    pub ledger : d.ledger ≡ recorded_ledger p
    pub fresh : has_intent p.part.index p.disk.ledger.publication_intents ≡ false

  -- All of it is done: the part, its sidecar and its rows are there, and the intent is gone.
  pub record Committed (d : Disk) : Type 0 where
    pub parts : d.parts ≡ set p.disk.parts p.part.filename (some p.file)
    pub manifests : d.manifests ≡ placed_manifests
    pub rows : IsCommitted p.part p.sidecar p.item_keys p.disk.ledger d.ledger

  pub data Phase (d : Disk) : Type 0 where
    unbatched : d ≡ p.start → Phase d
    before : Before d → Phase d
    recorded : Recorded d → Phase d
    moved : Moved d → Phase d
    placed : Placed d → Phase d
    committed : Committed d → Phase d

poll_reads-IsReadOnly : (watch : Bool) (reads : ℕ) → IsReadOnly (poll_reads watch reads)
unfolding poll_reads
poll_reads-IsReadOnly watch zero = pure-IsReadOnly tt
poll_reads-IsReadOnly watch (suc reads) =
    bind-IsReadOnly (check_interrupted-IsReadOnly watch) (λ _. poll_reads-IsReadOnly watch reads)

verify_digest-IsReadOnly :
    (euid : ℕ) (watch : Bool) (file : File) (expected : Option Text)
    → IsReadOnly (verify_digest euid watch file expected)
unfolding verify_digest
verify_digest-IsReadOnly euid watch file none = pure-IsReadOnly tt
verify_digest-IsReadOnly euid watch file (some expected) =
    bind-IsReadOnly (poll_reads-IsReadOnly watch _) (λ _. require-IsReadOnly _ _)

pub verify_part_artifact-IsReadOnly :
    (euid : ℕ) (watch : Bool) (found : Option File) (part : PublishedPart) (sidecar : PartSidecar)
    → IsReadOnly (verify_part_artifact euid watch found part sidecar)
unfolding verify_part_artifact
verify_part_artifact-IsReadOnly euid watch found part sidecar =
    bind-IsReadOnly (or_fail-IsReadOnly found _) (λ file.
      bind-IsReadOnly (require-IsReadOnly _ _) (λ _.
        bind-IsReadOnly (require-IsReadOnly _ _)
          (λ _. verify_digest-IsReadOnly euid watch file part.sha256)))

pub verify_sidecar_artifact-IsReadOnly :
    (euid : ℕ) (found : Option File) (expected : PartSidecar)
    → IsReadOnly (verify_sidecar_artifact euid found expected)
unfolding verify_sidecar_artifact read_sidecar_artifact
verify_sidecar_artifact-IsReadOnly euid found expected =
    bind-IsReadOnly
      (bind-IsReadOnly (or_fail-IsReadOnly found _)
        (λ file. bind-IsReadOnly (require-IsReadOnly _ _) (λ _. or_fail-IsReadOnly file.sidecar _)))
      (λ actual. require-IsReadOnly _ _)

pub set_same : (d : Directory) (name : Text) (file : Option File) → set d name file name ≡ file
set_same d name file = rw same_text_refl refl

pub set_other :
    (d : Directory) (name other : Text) (file : Option File)
    → same_text other name ≡ false
    → set d name file other ≡ d other
set_other d name other file e = rw e refl

-- A name with a file and a name with none differ.
pub names_apart :
    (d : Directory) (name other : Text) (file : File)
    → d name ≡ some file
    → d other ≡ none
    → same_text other name ≡ false
names_apart d name other file e h = elim (Bool-cases (same_text other name)) [
  | inl same ↦
      let equal : some file ≡ none = sym e ∙ ap d (sym (same_text-eq other name same)) ∙ h in
      ground (arith, equal)
  | inr apart ↦ apart
]
