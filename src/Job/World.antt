-- ===== src/Job/World.antt =====
-- The durable state of a job, crates/pstforge-job/src/lib.rs: three directories and the ledger, a
-- database. An action is a run on it that may fail, or be cut off by a crash: each durable change costs
-- one of a budget, and a run with none left is aborted with what it changed before. `polls` has the
-- values of the flag of a signal, at each look at it in turn, and `syncs` whether each sync of a directory
-- succeeds. A rename is durable at once: a crash before its directory is synced leaves the disk with it or
-- without it, as a crash after or before the rename does. Serialising to JSON and back is the identity.
use pstforge.Base.{
  ℕ, zero, suc, Bool, true, false, List, Option, none, some, String, Text, same_text, if◌then◌else◌,
  Result, ok, err, aborted,
}

pub data JobError : Type 0 where
  integrity : String → JobError
  unsafe_path : JobError
  interrupted : JobError
  event_sequence : String → JobError
  io : String → JobError
  sql : String → JobError

pub record PublishedPart : Type 0 where
  pub index : ℕ
  pub filename : Text
  pub byte_len : ℕ
  pub sha256 : Option Text
  pub oversize : Bool

pub record ReconstructionCounts : Type 0 where
  pub derived : List (ℕ × ℕ)
  pub generated : List (ℕ × ℕ)

pub record PartSidecar : Type 0 where
  pub schema_version : Text
  pub producer_version : Text
  pub index : ℕ
  pub filename : Text
  pub byte_len : ℕ
  pub sha256 : Option Text
  pub published_device : Option ℕ
  pub published_inode : Option ℕ
  pub store_record_key : Text
  pub folder_count : ℕ
  pub message_count : ℕ
  pub oversize : Bool
  pub partial : Bool
  pub omitted_folders : ℕ
  pub omitted_properties : ℕ
  pub omitted_attachments : ℕ
  pub reconstructions : ReconstructionCounts

-- A file: its attributes, the digest of its bytes, and the sidecar that its bytes are the text of.
pub record File : Type 0 where
  pub is_symlink : Bool
  pub is_file : Bool
  pub uid : ℕ
  pub mode : ℕ
  pub nlink : ℕ
  pub len : ℕ
  pub dev : ℕ
  pub ino : ℕ
  pub digest : Text
  pub sidecar : Option PartSidecar

abbrev pub Directory : Type 0
Directory = Text → Option File

abbrev pub set : Directory → Text → Option File → Directory
set directory name file other = if same_text other name then file else directory other

pub data Status : Type 0 where
  pending spooled written unsupported failed : Status

pub record Candidate : Type 0 where
  pub item_key : Text
  pub status : Status

pub record PartRow : Type 0 where
  pub part : PublishedPart
  pub sidecar : PartSidecar

pub record Intent : Type 0 where
  pub part : PublishedPart
  pub sidecar : PartSidecar
  pub item_keys : List Text

pub record Ledger : Type 0 where
  pub candidates : List Candidate
  pub parts : List PartRow
  pub part_items : List (ℕ × Text)
  pub publication_intents : List Intent

pub record Disk : Type 0 where
  pub partial : Directory
  pub parts : Directory
  pub manifests : Directory
  pub ledger : Ledger

pub record World : Type 0 where
  pub disk : Disk
  pub budget : ℕ
  pub polls : ℕ → Bool
  pub syncs : ℕ → Bool

abbrev pub Action : Type 0 → Type 0
Action A = World → Result JobError A × World

module _ {A : Type 0} where
  unfoldable pub pure : A → Action A
  pure a w = (ok a, w)

  unfoldable pub fail : JobError → Action A
  fail e w = (err e, w)

  -- A result that does not depend on the state, or on the disk alone.
  unfoldable pub lift : Result JobError A → Action A
  lift r w = (r, w)

  unfoldable pub asks : (Disk → A) → Action A
  asks f w = (ok (f w.disk), w)

abbrev pub and_then :
    {A B : Type 0} → Result JobError A × World → (A → Action B) → Result JobError B × World
and_then (ok a, w) further = further a w
and_then (err e, w) further = (err e, w)
and_then (aborted, w) further = (aborted, w)

infixl 5 ◌>>=◌ ◌>>◌
unfoldable pub ◌>>=◌ : {A B : Type 0} → Action A → (A → Action B) → Action B
(m >>= further) w = and_then (m w) further

abbrev pub ◌>>◌ : {B : Type 0} → Action (Unit {0}) → Action B → Action B
m >> k = m >>= λ _. k

unfoldable pub require : Bool → JobError → Action (Unit {0})
require true e w = (ok tt, w)
require false e w = (err e, w)

unfoldable pub or_fail : {A : Type 0} → Option A → JobError → Action A
or_fail none e w = (err e, w)
or_fail (some a) e w = (ok a, w)

-- A durable change, or the crash before it.
unfoldable pub durably_in : ℕ → (Disk → Disk) → Action (Unit {0})
durably_in zero change w = (aborted, w)
durably_in (suc left) change w =
    (ok tt, record { disk = change w.disk; budget = left; polls = w.polls; syncs = w.syncs })

unfoldable pub durably : (Disk → Disk) → Action (Unit {0})
unfolding durably_in
durably change w = durably_in w.budget change w

-- A look at the flag, when there is one.
unfoldable pub check_interrupted : Bool → Action (Unit {0})
check_interrupted false w = (ok tt, w)
check_interrupted true w = (
  (if w.polls 0 then err interrupted else ok tt),
  record { disk = w.disk; budget = w.budget; polls = λ n. w.polls (suc n); syncs = w.syncs },
)

-- `sync_file` of a directory.
unfoldable pub sync_directory : Action (Unit {0})
sync_directory w = (
  (if w.syncs 0 then ok tt else err (io "Input/output error")),
  record { disk = w.disk; budget = w.budget; polls = w.polls; syncs = λ n. w.syncs (suc n) },
)
