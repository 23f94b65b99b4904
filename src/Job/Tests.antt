-- ===== src/Job/Tests.antt =====
-- Runs of the publication of crates/pstforge-job/src/lib.rs, and its theorems at concrete inputs.
use pstforge.Base.{
  ℕ, true, false, List, [], ◌∷◌, ◌++◌, Option, none, some, Text, same_text, same_option, ends_with,
  is_file_name, trim_end_in, ok, ◌≡◌, refl, arith,
}
use pstforge.Job.World.{
  PublishedPart, PartSidecar, File, Directory, set, spooled, Disk, World, pure, lift, asks, require,
  or_fail, durably, durably_in, check_interrupted, sync_directory, Candidate, ◌>>=◌,
}
use pstforge.Job.Checks.{
  validate_part_record, validate_sidecar, verify_part_artifact, verify_sidecar_artifact,
  read_sidecar_artifact, verify_digest, private_state_attributes_valid, same_sidecar,
  identity_valid, valid_blob_hash, valid_leaf_name, staged_part_path,
}
use pstforge.Job.Publication.{
  publish_part_with_interrupt, CandidateBatch, commit_candidate_batch, commit_batch_if,
  prepare_part, publish_recorded, record_publication_intent, check_available, refuse_existing,
  rename_noclobber, write_sidecar_partial, commit_published_part_transaction, commit_rows,
  assign_items, mark_written, clear_intent, reconcile_publications,
}
use pstforge.Job.Triples.{Ends, Never}
use pstforge.Job.Publication.Phases.{Publication, Committed}
use pstforge.Job.Publication.Reconciliation.{IsValid}
use pstforge.Job.Publication.Recovery.{
  AllOrNothing, publish_part-AllOrNothing, publish_part-Committed,
}

-- "a.pst"
abbrev filename : Text
filename = 97 ∷ 46 ∷ 112 ∷ 115 ∷ 116 ∷ []

-- "a.partial"
abbrev staged : Text
staged = 97 ∷ 46 ∷ 112 ∷ 97 ∷ 114 ∷ 116 ∷ 105 ∷ 97 ∷ 108 ∷ []

abbrev part : PublishedPart
part = record { index = 1; filename = filename; byte_len = 3; sha256 = none; oversize = false }

-- 32 digits.
abbrev record_key : Text
record_key =
    let eight = 48 ∷ 48 ∷ 48 ∷ 48 ∷ 48 ∷ 48 ∷ 48 ∷ 48 ∷ [] in eight ++ eight ++ eight ++ eight

abbrev sidecar : PartSidecar
sidecar = record {
  schema_version = 49 ∷ 46 ∷ 49 ∷ 46 ∷ 48 ∷ [];
  producer_version = 49 ∷ [];
  index = 1;
  filename = filename;
  byte_len = 3;
  sha256 = none;
  published_device = none;
  published_inode = none;
  store_record_key = record_key;
  folder_count = 1;
  message_count = 1;
  oversize = false;
  partial = false;
  omitted_folders = 0;
  omitted_properties = 0;
  omitted_attachments = 0;
  reconstructions = record { derived = []; generated = [] };
}

abbrev private_file : ℕ → Option PartSidecar → File
private_file len content = record {
  is_symlink = false;
  is_file = true;
  uid = 1000;
  mode = 384;
  nlink = 1;
  len = len;
  dev = 1;
  ino = 2;
  digest = [];
  sidecar = content;
}

abbrev render : PartSidecar → File
render content = private_file 100 (some content)

abbrev torn : File
torn = private_file 0 none

abbrev empty : Directory
empty name = none

abbrev item : Text
item = 107 ∷ []

abbrev disk_with : List Candidate → Disk
disk_with candidates = record {
  partial = set empty staged (some (private_file 3 none));
  parts = empty;
  manifests = empty;
  ledger = record {
    candidates = candidates;
    parts = [];
    part_items = [];
    publication_intents = [];
  };
}

abbrev disk : Disk
disk = disk_with (record { item_key = item; status = spooled } ∷ [])

-- The item is in the batch that is still open.
abbrev batch : CandidateBatch
batch = record {
  batch_open = true;
  pack_synced = true;
  payload_pack_len = 7;
  payload_pack_position = 7;
  candidates = record { item_key = item; status = spooled } ∷ [];
}

abbrev publication : Publication
publication = record {
  part = part;
  sidecar = sidecar;
  item_keys = item ∷ [];
  staged = staged;
  file = private_file 3 none;
  disk = disk;
  start = disk_with [];
}

publication-IsValid : IsValid 1000 render publication
unfolding validate_part_record validate_sidecar verify_part_artifact verify_sidecar_artifact
    verify_digest read_sidecar_artifact private_state_attributes_valid same_sidecar identity_valid
    valid_blob_hash commit_rows assign_items mark_written clear_intent same_text same_option
    ends_with is_file_name require or_fail pure ◌>>=◌
publication-IsValid = record {
  part = λ w. refl;
  sidecar = λ w. refl;
  file = λ w. refl;
  reads_back = λ w. refl;
  some_item = refl;
  no_intents = refl;
  acceptable = record {
    new_part = tt;
    spooled = (refl, tt);
    unassigned = (tt, tt);
    different = (tt, tt);
  };
}

staged_part : disk.partial staged ≡ some (private_file 3 none)
unfolding same_text
staged_part = refl

abbrev with_budget : ℕ → World
with_budget budget = record {
  disk = disk_with [];
  budget = budget;
  polls = λ n. false;
  syncs = λ n. true;
}

-- A crash before the sidecar is moved.
publish_part-AllOrNothing_example :
    Ends
      (λ _ w. AllOrNothing 1000 render torn publication publication-IsValid w.disk)
      Never
      (reconcile_publications 1000 render torn false (record {
        disk =
            (publish_part_with_interrupt 1000 render torn batch true false staged part sidecar
              (item ∷ [])
              (with_budget 5)).1.disk;
        budget = 2;
        polls = λ n. false;
        syncs = λ n. true;
      }))
publish_part-AllOrNothing_example =
    publish_part-AllOrNothing 1000 render torn publication publication-IsValid batch true false
      (with_budget 5) 2 (λ n. false) (λ n. true) refl refl staged_part (omega arith) (λ n. refl)

abbrev world_after : World
world_after =
    (publish_part_with_interrupt 1000 render torn batch true false staged part sidecar (item ∷ [])
      (with_budget 7)).1

publish_part_runs :
    publish_part_with_interrupt 1000 render torn batch true false staged part sidecar
      (item ∷ [])
      (with_budget 7)
    ≡ (ok tt, world_after)
unfolding publish_part_with_interrupt commit_candidate_batch commit_batch_if sync_directory
    prepare_part publish_recorded record_publication_intent check_available refuse_existing
    rename_noclobber write_sidecar_partial commit_published_part_transaction validate_part_record
    validate_sidecar verify_part_artifact verify_sidecar_artifact verify_digest
    read_sidecar_artifact private_state_attributes_valid same_sidecar identity_valid valid_blob_hash
    valid_leaf_name staged_part_path commit_rows assign_items mark_written clear_intent same_text
    same_option ends_with is_file_name trim_end_in require or_fail pure asks lift durably durably_in
    check_interrupted ◌>>=◌
publish_part_runs = refl

publish_part-Committed_example : Committed render publication world_after.disk
publish_part-Committed_example =
    publish_part-Committed 1000 render torn publication batch true false (with_budget 7) world_after
      refl refl staged_part publish_part_runs
