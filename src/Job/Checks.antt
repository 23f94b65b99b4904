-- ===== src/Job/Checks.antt =====
-- The checks of crates/pstforge-job/src/lib.rs on records of parts and on their files. `euid` is the
-- user of the process.
use pstforge.Base.{
  ℕ, zero, suc, ◌+◌, ◌%◌, ◌^◌, Bool, true, false, not, ◌&&◌, ◌||◌, List, [], ◌∷◌, ◌++◌, Option,
  none, some, leb, ◌==◌, div_ceil, length, if◌then◌else◌, Text, same_text, same_option, same_bool,
  ends_with, is_file_name, trim_end_matches,
}
use pstforge.Job.World.{
  PublishedPart, PartSidecar, File, Action, pure, require, or_fail, check_interrupted, integrity,
  io, unsafe_path, ◌>>=◌, ◌>>◌,
}

abbrev dot_pst : Text
dot_pst = 46 ∷ 112 ∷ 115 ∷ 116 ∷ []

abbrev dot_json : Text
dot_json = 46 ∷ 106 ∷ 115 ∷ 111 ∷ 110 ∷ []

abbrev dot_partial : Text
dot_partial = 46 ∷ 112 ∷ 97 ∷ 114 ∷ 116 ∷ 105 ∷ 97 ∷ 108 ∷ []

-- The sidecar's name is that of the part with another ending.
abbrev pub sidecar_name : Text → Text
sidecar_name filename = trim_end_matches filename dot_pst ++ dot_json

abbrev pub staged_sidecar_name : Text → Text
staged_sidecar_name filename = sidecar_name filename ++ dot_partial

unfoldable pub valid_leaf_name : Text → Bool
valid_leaf_name value = not (same_text value []) && is_file_name value

-- `staged_part_path`: the name of a staged file, or a refusal.
unfoldable pub staged_part_path : Text → Action (Unit {0})
staged_part_path filename =
    require (valid_leaf_name filename && ends_with filename dot_partial) unsafe_path

abbrev is_hex_digit : ℕ → Bool
is_hex_digit byte = (leb 48 byte && leb byte 57) || (leb 97 byte && leb byte 102)

abbrev all_hex : Text → Bool
all_hex [] = true
all_hex (byte ∷ rest) = is_hex_digit byte && all_hex rest

-- A digest is written with 64 digits.
unfoldable pub valid_blob_hash : Text → Bool
valid_blob_hash value = length value == 64 && all_hex value

abbrev hash_valid : Option Text → Bool
hash_valid none = true
hash_valid (some sha256) = valid_blob_hash sha256

unfoldable pub validate_part_record : PublishedPart → Action (Unit {0})
validate_part_record part =
    require
      (not (part.index == 0)
        && not (part.byte_len == 0)
        && not (same_text part.filename [])
        && is_file_name part.filename
        && ends_with part.filename dot_pst
        && hash_valid part.sha256)
      (integrity "invalid published part accounting record")

abbrev version_1_1 : Text
version_1_1 = 49 ∷ 46 ∷ 49 ∷ 46 ∷ 48 ∷ []

abbrev version_1_2 : Text
version_1_2 = 49 ∷ 46 ∷ 50 ∷ 46 ∷ 48 ∷ []

abbrev is_some : {A : Type 0} → Option A → Bool
is_some none = false
is_some (some a) = true

unfoldable pub identity_valid : PartSidecar → Bool
identity_valid sidecar =
    if same_text sidecar.schema_version version_1_1
    then not (is_some sidecar.published_device) && not (is_some sidecar.published_inode)
    else if same_text sidecar.schema_version version_1_2
    then is_some sidecar.published_device && is_some sidecar.published_inode
    else false

unfoldable pub validate_sidecar : PublishedPart → PartSidecar → Action (Unit {0})
validate_sidecar part sidecar =
    require
      (identity_valid sidecar
        && not (same_text sidecar.producer_version [])
        && sidecar.index == part.index
        && same_text sidecar.filename part.filename
        && sidecar.byte_len == part.byte_len
        && same_option same_text sidecar.sha256 part.sha256
        && same_bool sidecar.oversize part.oversize
        && length sidecar.store_record_key == 32
        && all_hex sidecar.store_record_key
        && not (sidecar.folder_count == 0)
        && not (sidecar.message_count == 0))
      (integrity "part sidecar disagrees with the publication record")

-- The derived equality of sidecars.
abbrev pub same_counts : List (ℕ × ℕ) → List (ℕ × ℕ) → Bool
same_counts [] [] = true
same_counts [] (y ∷ ys) = false
same_counts (x ∷ xs) [] = false
same_counts (x ∷ xs) (y ∷ ys) = x.0 == y.0 && x.1 == y.1 && same_counts xs ys

abbrev same_number : ℕ → ℕ → Bool
same_number a b = a == b

unfoldable pub same_sidecar : PartSidecar → PartSidecar → Bool
same_sidecar a b =
    same_text a.schema_version b.schema_version
    && same_text a.producer_version b.producer_version
    && a.index == b.index
    && same_text a.filename b.filename
    && a.byte_len == b.byte_len
    && same_option same_text a.sha256 b.sha256
    && same_option same_number a.published_device b.published_device
    && same_option same_number a.published_inode b.published_inode
    && same_text a.store_record_key b.store_record_key
    && a.folder_count == b.folder_count
    && a.message_count == b.message_count
    && same_bool a.oversize b.oversize
    && same_bool a.partial b.partial
    && a.omitted_folders == b.omitted_folders
    && a.omitted_properties == b.omitted_properties
    && a.omitted_attachments == b.omitted_attachments
    && same_counts a.reconstructions.derived b.reconstructions.derived
    && same_counts a.reconstructions.generated b.reconstructions.generated

abbrev agrees : Option ℕ → ℕ → Bool
agrees none actual = true
agrees (some expected) actual = expected == actual

-- The looks at the flag while a file is read in pieces of 1 MiB, the end included.
unfoldable pub poll_reads : Bool → ℕ → Action (Unit {0})
poll_reads watch zero = pure tt
poll_reads watch (suc reads) = do check_interrupted watch; poll_reads watch reads

module _ (euid : ℕ) where
  unfoldable pub private_state_attributes_valid : File → Bool
  private_state_attributes_valid file =
      file.is_file && file.uid == euid && file.mode % 64 == 0 && file.nlink == 1

  unfoldable pub verify_digest : Bool → File → Option Text → Action (Unit {0})
  verify_digest watch file none = pure tt
  verify_digest watch file (some expected) = do
    poll_reads watch (div_ceil file.len (2 ^ 20) + 1)
    require (same_text file.digest expected) (integrity "published part failed SHA-256 validation")

  -- No other process changes the file between its two looks at it.
  unfoldable pub verify_part_artifact :
      Bool → Option File → PublishedPart → PartSidecar → Action (Unit {0})
  verify_part_artifact watch found part sidecar = do
    file ← or_fail found (io "No such file or directory")
    require
        (not file.is_symlink && private_state_attributes_valid file && file.len == part.byte_len)
        (integrity "published part has an invalid type or size")
    require (agrees sidecar.published_device file.dev && agrees sidecar.published_inode file.ino)
        (integrity "published part changed while opening")
    verify_digest watch file part.sha256

  unfoldable pub read_sidecar_artifact : Option File → Action PartSidecar
  read_sidecar_artifact found = do
    file ← or_fail found (io "No such file or directory")
    require (not file.is_symlink && private_state_attributes_valid file)
        (integrity "published part sidecar has unsafe attributes")
    or_fail file.sidecar (io "invalid JSON")

  unfoldable pub verify_sidecar_artifact : Option File → PartSidecar → Action (Unit {0})
  verify_sidecar_artifact found expected = do
    actual ← read_sidecar_artifact found
    require (same_sidecar actual expected) (integrity "published part sidecar content mismatch")
