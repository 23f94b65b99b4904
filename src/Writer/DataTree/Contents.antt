-- ===== src/Writer/DataTree/Contents.antt =====
-- What a data tree holds: a reader of the blocks of Writer/DataTree that accepts a tree of the format and
-- nothing else. The source has no such function: the results on the writer are stated with it.
use pstforge.Base.{
  ℕ, zero, suc, Bool, not, List, [], ◌∷◌, ◌++◌, map, Option, none, some, leb, ◌==◌, ◌&&◌, length,
  if◌then◌else◌, true, ◌≤◌, ◌≡◌, refl, Option-cases, inl, inr, append-nil, append_assoc, arith, ◌∙◌,
  ap, sym, length-map,
}
use pstforge.Writer.Block.{
  BlockId, BlockSpec, BlockPayload, data_bytes, projected_data, subnode, intermediate_subnode,
  data_tree,
}
use pstforge.Writer.DataTree.{max_data_block_payload, max_data_tree_entries, TreeEntry}

-- The first block of an index.
unfoldable pub find_block : ℕ → List BlockSpec → Option BlockPayload
find_block index [] = none
find_block index (block ∷ blocks) =
    let later = find_block index blocks in
    if block.id.index == index then some block.payload else later

abbrev append_contents : Option (List ℕ) → Option (List ℕ) → Option (List ℕ)
append_contents (some front) (some back) = some (front ++ back)
append_contents _ _ = none

abbrev read_all : (BlockId → Option (List ℕ)) → List BlockId → Option (List ℕ)
read_all read [] = some []
read_all read (id ∷ ids) = append_contents (read id) (read_all read ids)

abbrev check_size : ℕ → Option (List ℕ) → Option (List ℕ)
check_size total none = none
check_size total (some bytes) = if length bytes == total then some bytes else none

abbrev leaf_contents : Bool → Option BlockPayload → Option (List ℕ)
leaf_contents internal (some (data_bytes bytes)) =
    if not internal && leb (length bytes) max_data_block_payload then some bytes else none
leaf_contents internal _ = none

abbrev parent_contents :
    Bool → ℕ → (BlockId → Option (List ℕ)) → Option BlockPayload → Option (List ℕ)
parent_contents internal level read (some (data_tree l total entries)) =
    if internal && (l == level) && leb (length entries) max_data_tree_entries
    then check_size total (read_all read entries)
    else none
parent_contents internal level read _ = none

-- The bytes of the tree of a level under an id, when it is well formed: a leaf is an external block of at
-- most 8,176 bytes, a parent is an internal block of its level that lists at most 1,021 blocks of the
-- level below and has the count of the bytes below it.
unfoldable pub read_tree : ℕ → List BlockSpec → BlockId → Option (List ℕ)
read_tree zero blocks id = leaf_contents id.internal (find_block id.index blocks)
read_tree (suc below) blocks id =
    parent_contents id.internal (suc below) (read_tree below blocks) (find_block id.index blocks)

-- Entries whose trees hold the bytes one behind the other, each with its count.
abbrev pub Reads : ℕ → List BlockSpec → List TreeEntry → List ℕ → Type 0
Reads level blocks [] bytes = bytes ≡ []
Reads level blocks (entry ∷ entries) bytes =
    (part : List ℕ) × (rest : List ℕ) × (read_tree level blocks entry.0 ≡ some part)
    × (length part ≡ entry.1)
    × Reads level blocks entries rest
    × (bytes ≡ part ++ rest)

pub find_block-append :
    (index : ℕ) (blocks more : List BlockSpec) (payload : BlockPayload)
    → find_block index blocks ≡ some payload
    → find_block index (blocks ++ more) ≡ some payload
unfolding find_block
find_block-append index [] more payload e = cc
find_block-append index (block ∷ blocks) more payload e =
    ground (arith, find_block-append index blocks more payload)

append_contents-eq-some :
    (front back : Option (List ℕ)) (bytes : List ℕ)
    → append_contents front back ≡ some bytes
    → (part : List ℕ) × (rest : List ℕ) × (front ≡ some part)
      × (back ≡ some rest)
      × (bytes ≡ part ++ rest)
append_contents-eq-some none none bytes e = cc
append_contents-eq-some none (some back) bytes e = cc
append_contents-eq-some (some front) none bytes e = cc
append_contents-eq-some (some front) (some back) bytes e = (front, back, refl, refl, ground arith)

module _ (read read' : BlockId → Option (List ℕ)) where
  module _ (h : (id : BlockId) (part : List ℕ) → read id ≡ some part → read' id ≡ some part) where
    read_all_extends :
        (ids : List BlockId) (bytes : List ℕ)
        → read_all read ids ≡ some bytes
        → read_all read' ids ≡ some bytes
    read_all_extends [] bytes e = e
    read_all_extends (id ∷ ids) bytes e =
        let (part, rest, here, there, whole) =
          append_contents-eq-some (read id) (read_all read ids) bytes e in
        rw (h id part here, read_all_extends ids rest there, whole) refl

    check_size_extends :
        (total : ℕ) (ids : List BlockId) (bytes : List ℕ)
        → check_size total (read_all read ids) ≡ some bytes
        → check_size total (read_all read' ids) ≡ some bytes
    check_size_extends total ids bytes e = elim (Option-cases (read_all read ids)) [
      | inl nothing ↦ ground (arith, nothing, e)
      | inr (found, there) ↦ rw (read_all_extends ids found there) (rw there at e)
    ]

    parent_contents_extends :
        (internal : Bool) (level : ℕ) (payload : BlockPayload) (bytes : List ℕ)
        → parent_contents internal level read (some payload) ≡ some bytes
        → parent_contents internal level read' (some payload) ≡ some bytes
    parent_contents_extends internal level (data_bytes _) bytes e = cc
    parent_contents_extends internal level (projected_data _) bytes e = cc
    parent_contents_extends internal level (subnode _) bytes e = cc
    parent_contents_extends internal level (intermediate_subnode _ _) bytes e = cc
    parent_contents_extends internal level (data_tree l total entries) bytes e =
        ground (arith, e, check_size_extends total entries bytes)

pub read_tree-append :
    (level : ℕ) (blocks more : List BlockSpec) (id : BlockId) (bytes : List ℕ)
    → read_tree level blocks id ≡ some bytes
    → read_tree level (blocks ++ more) id ≡ some bytes
unfolding read_tree
read_tree-append zero blocks more id bytes e = elim (Option-cases (find_block id.index blocks)) [
  | inl nothing ↦ ground (arith, nothing, e)
  | inr (payload, found) ↦ rw (find_block-append id.index blocks more payload found) (rw found at e)
]
read_tree-append (suc below) blocks more id bytes e =
    elim (Option-cases (find_block id.index blocks)) [
      | inl nothing ↦ ground (arith, nothing, e)
      | inr (payload, found) ↦ rw (find_block-append id.index blocks more payload found) (
          parent_contents_extends (read_tree below blocks) (read_tree below (blocks ++ more))
            (λ i part h. read_tree-append below blocks more i part h) id.internal (suc below)
            payload bytes (rw found at e))
    ]

module _ (level : ℕ) (blocks : List BlockSpec) where
  pub Reads-extends :
      (more : List BlockSpec) (entries : List TreeEntry) (bytes : List ℕ)
      → Reads level blocks entries bytes
      → Reads level (blocks ++ more) entries bytes
  Reads-extends more [] bytes h = h
  Reads-extends more (entry ∷ entries) bytes (part, rest, here, size, there, whole) = (
    part,
    rest,
    read_tree-append level blocks more entry.0 part here,
    size,
    Reads-extends more entries rest there,
    whole,
  )

  pub Reads-append :
      (front back : List TreeEntry) (first last : List ℕ)
      → Reads level blocks front first
      → Reads level blocks back last
      → Reads level blocks (front ++ back) (first ++ last)
  Reads-append [] back first last h k = rw h k
  Reads-append (entry ∷ front) back first last (part, rest, here, size, there, whole) k = (
    part,
    rest ++ last,
    here,
    size,
    Reads-append front back rest last there k,
    rw whole (append_assoc part rest last),
  )

  pub Reads-split :
      (front back : List TreeEntry) (bytes : List ℕ)
      → Reads level blocks (front ++ back) bytes
      → (first : List ℕ) × (last : List ℕ) × Reads level blocks front first
        × Reads level blocks back last
        × (bytes ≡ first ++ last)
  Reads-split [] back bytes h = ([], bytes, refl, h, refl)
  Reads-split (entry ∷ front) back bytes (part, rest, here, size, there, whole) =
      let (first, last, one, other, same) = Reads-split front back rest there in
      (
        part ++ first,
        last,
        (part, first, here, size, one, refl),
        other,
        whole ∙ ap (part ++◌) same ∙ sym (append_assoc part first last),
      )

  pub Reads-one :
      (entry : TreeEntry) (bytes : List ℕ)
      → read_tree level blocks entry.0 ≡ some bytes
      → length bytes ≡ entry.1
      → Reads level blocks (entry ∷ []) bytes
  Reads-one entry bytes h size = (bytes, [], h, size, refl, rw append-nil refl)

  pub read_all-Reads :
      (entries : List TreeEntry) (bytes : List ℕ)
      → Reads level blocks entries bytes
      → read_all (read_tree level blocks) (map (λ entry. entry.0) entries) ≡ some bytes
  read_all-Reads [] bytes h = rw h refl
  read_all-Reads (entry ∷ entries) bytes (part, rest, here, size, there, whole) =
      rw (here, read_all-Reads entries rest there, whole) refl

  -- A parent of the entries holds their bytes.
  pub read_tree_parent :
      (id : BlockId) (entries : List TreeEntry) (bytes : List ℕ)
      → id.internal ≡ true
      → length entries ≤ max_data_tree_entries
      → Reads level blocks entries bytes
      → find_block id.index blocks
        ≡ some (data_tree (suc level) (length bytes) (map (λ entry. entry.0) entries))
      → read_tree (suc level) blocks id ≡ some bytes
  unfolding read_tree
  read_tree_parent id entries bytes internal small reads found =
      let count = length-map (λ entry. entry.0) entries in
      rw (found, internal, read_all-Reads entries bytes reads, count) (ground arith)
