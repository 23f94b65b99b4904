-- ===== src/Writer/DataTree/RoundTrip.antt =====
-- The trees of crates/pstforge-pst/src/writer.rs hold the bytes that they were made of.
use pstforge.Base.{
  ℕ, zero, suc, ◌+◌, ◌≤◌, ◌<◌, true, false, List, [], ◌∷◌, ◌++◌, map, some, String, leb, u32_mod,
  checked, length, drop, ok, err, aborted, subst, ◌>>=◌, or_err, guard, >>=-eq-ok, All, ◌≡◌, refl,
  ap, ◌∙◌, append-nil, append_assoc, length-append, take-append-drop, length-take, length-drop,
  Option-cases, inl, inr, arith,
}
use pstforge.Writer.Error.{WriterResult, value_too_large}
use pstforge.Writer.Block.{BlockId, BlockSpec, data_bytes, data_tree}
use pstforge.Writer.DataTree.{
  TreeEntry, TreeReasons, max_data_block_payload, max_data_tree_entries, chunks_in, chunks, only,
  add_sizes, append_block, append_parent, append_numbered_parent, append_chunks, append_groups,
  append_root, take_block_id,
}
use pstforge.Writer.DataTree.Contents.{
  read_tree, Reads, read_tree_parent, Reads-extends, Reads-split, read_tree-append,
}
use pstforge.Writer.DataTree.Emission.{Emitted, append_block-Emitted}

abbrev pub concat {ℓ} : {A : Type ℓ} → List (List A) → List A
concat [] = []
concat (xs ∷ rest) = xs ++ concat rest

module _ {ℓ} {A : Type ℓ} (size : ℕ) (pos : 0 < size) where
  concat-chunks_in :
      (fuel : ℕ) (xs : List A) → length xs ≤ fuel → concat (chunks_in fuel size xs) ≡ xs
  concat-chunks_in zero [] h = refl
  concat-chunks_in zero (x ∷ xs) h = ground arith
  concat-chunks_in (suc fuel) [] h = refl
  concat-chunks_in (suc fuel) (x ∷ xs) h =
      let less : length (drop size (x ∷ xs)) ≤ fuel = rw length-drop (omega arith) in
      rw (concat-chunks_in fuel (drop size (x ∷ xs)) less) (take-append-drop size (x ∷ xs))

  pub concat-chunks : (xs : List A) → concat (chunks size xs) ≡ xs
  concat-chunks xs = concat-chunks_in (length xs) xs (omega arith)

module _ {ℓ} {A : Type ℓ} (size : ℕ) where
  All-chunks_in :
      (fuel : ℕ) (xs : List A) → All (λ chunk. length chunk ≤ size) (chunks_in fuel size xs)
  All-chunks_in zero xs = tt
  All-chunks_in (suc fuel) [] = tt
  All-chunks_in (suc fuel) (x ∷ xs) =
      (rw length-take (omega arith), All-chunks_in fuel (drop size (x ∷ xs)))

  pub All-chunks : (xs : List A) → All (λ chunk. length chunk ≤ size) (chunks size xs)
  All-chunks xs = All-chunks_in (length xs) xs

pub only-eq-some : {A : Type 0} (xs : List A) (x : A) → only xs ≡ some x → xs ≡ x ∷ []
only-eq-some [] x e = cc
only-eq-some (y ∷ []) x e = ground arith
only-eq-some (y ∷ z ∷ xs) x e = cc

add_sizes-Reads :
    (level : ℕ) (blocks : List BlockSpec) (reason : String) (entries : List TreeEntry)
    (bytes : List ℕ) (total sum : ℕ)
    → Reads level blocks entries bytes
    → add_sizes reason total entries ≡ ok sum
    → sum ≡ total + length bytes
unfolding add_sizes
add_sizes-Reads level blocks reason [] bytes total sum h e = rw h (ground arith)
add_sizes-Reads level blocks reason (entry ∷ entries) bytes total sum
      (part, rest, here, size, there, whole) e =
    let (next, added, more) =
      >>=-eq-ok (or_err (checked u32_mod (total + entry.1)) (value_too_large reason)) _ e in
    let later = add_sizes-Reads level blocks reason entries rest next sum there more in
    let same : next ≡ total + entry.1 = ground arith in rw (whole, length-append) (omega arith)

-- Two steps that do not depend on one another may be taken the other way round.
numbered_step :
    {S : Type 0} (sunk : WriterResult S) (id : BlockId) (after total : ℕ) (out : TreeEntry × ℕ × S)
    → (sunk >>= λ s. ok ((id, total), after, s)) ≡ ok out
    → ◌>>=◌ {A = BlockId × ℕ × S}
        (sunk >>= λ s. ok (id, after, s))
        (λ x. ok ((x.0, total), x.1, x.2))
      ≡ ok out
numbered_step (ok s) id after total out e = e
numbered_step (err reason) id after total out e = cc
numbered_step aborted id after total out e = cc

swap_steps :
    {S : Type 0} (taken : WriterResult (BlockId × ℕ)) (added : WriterResult ℕ)
    (sunk : BlockId × ℕ → ℕ → WriterResult S) (out : TreeEntry × ℕ × S)
    → (taken >>= λ x. added >>= λ total. sunk x total >>= λ s. ok ((x.0, total), x.1, s)) ≡ ok out
    → (added >>= λ total.
        ◌>>=◌ {A = BlockId × ℕ × S}
          (taken >>= λ x. sunk x total >>= λ s. ok (x.0, x.1, s))
          (λ x. ok ((x.0, total), x.1, x.2)))
      ≡ ok out
swap_steps (ok x) (ok total) sunk out e = numbered_step (sunk x total) x.0 x.1 total out e
swap_steps (ok x) (err reason) sunk out e = cc
swap_steps (ok x) aborted sunk out e = cc
swap_steps (err reason) added sunk out e = cc
swap_steps aborted added sunk out e = cc

pub ok_injective : {A : Type 0} {x y : A} → ◌≡◌ {A = WriterResult A} (ok x) (ok y) → x ≡ y
ok_injective e = cc

-- The tree under a root, of one of the three levels.
abbrev pub IsTree : List BlockSpec → BlockId → List ℕ → Type 0
IsTree blocks root bytes = (level : ℕ) × (level ≤ 2) × (read_tree level blocks root ≡ some bytes)

module _ {S : Type 0} (sink : BlockSpec → S → WriterResult S) (start : S) (first : ℕ) where
  -- More blocks have been handed over, and with them the property holds.
  abbrev pub Emits : List BlockSpec → ℕ → S → (List BlockSpec → Type 0) → Type 0
  Emits blocks next s P =
      (more : List BlockSpec) × Emitted sink start first (blocks ++ more) next s
      × P (blocks ++ more)

  pub append_leaf-Emits :
      (chunk : List ℕ) (blocks : List BlockSpec) (next after : ℕ) (s s' : S) (id : BlockId)
      → length chunk ≤ max_data_block_payload
      → Emitted sink start first blocks next s
      → append_block sink false (data_bytes chunk) next s ≡ ok (id, after, s')
      → Emits blocks after s' (λ all. read_tree 0 all id ≡ some chunk)
  unfolding read_tree
  append_leaf-Emits chunk blocks next after s s' id small h e =
      let (block, emitted, internal, found) =
        append_block-Emitted sink start first false (data_bytes chunk) blocks next after s s' id h
          e in
      (block ∷ [], emitted, rw (found, internal) (ground arith))

  pub append_parent-Emits :
      (below : ℕ) (reason : String) (entries : List TreeEntry) (bytes : List ℕ)
      (blocks : List BlockSpec) (next after : ℕ) (s s' : S) (entry : TreeEntry)
      → length entries ≤ max_data_tree_entries
      → Reads below blocks entries bytes
      → Emitted sink start first blocks next s
      → append_parent sink (suc below) reason entries next s ≡ ok (entry, after, s')
      → Emits blocks after s'
          (λ all. (read_tree (suc below) all entry.0 ≡ some bytes) × (length bytes ≡ entry.1))
  unfolding append_parent
  append_parent-Emits below reason entries bytes blocks next after s s' entry small reads h e =
      let (total, added, more) = >>=-eq-ok (add_sizes reason 0 entries) _ e in
      let payload = data_tree (suc below) total (map (λ entry. entry.0) entries) in
      let ((id, after', t), appended, last) =
        >>=-eq-ok (append_block sink true payload next s) _ more in
      let (block, emitted, internal, found) =
        append_block-Emitted sink start first true payload blocks next after' s t id h appended in
      let sum = add_sizes-Reads below blocks reason entries bytes 0 total reads added in
      let size : length bytes ≡ total = omega arith in
      let same : (id, total) ≡ entry = ground arith in
      let ends : after' ≡ after = ground arith in
      let sunk : t ≡ s' = ground arith in
      let tree =
        read_tree_parent below (blocks ++ block ∷ []) id entries bytes internal small
          (Reads-extends below blocks (block ∷ []) entries bytes reads) (rw size found) in
      (block ∷ [], rw (ends, sunk) at emitted, rw (← same) (tree, size))

  pub Emits_after :
      (blocks more : List BlockSpec) (next : ℕ) (s : S) (P : List BlockSpec → Type 0)
      → Emits (blocks ++ more) next s P
      → Emits blocks next s P
  Emits_after blocks more next s P (others, emitted, holds) =
      let same = append_assoc blocks more others in
      (more ++ others, rw same at emitted, rw same at holds)

  pub append_numbered_parent-append_parent :
      (level : ℕ) (reason : String) (entries : List TreeEntry) (next : ℕ) (s : S)
      (out : TreeEntry × ℕ × S)
      → append_numbered_parent sink level reason entries next s ≡ ok out
      → append_parent sink level reason entries next s ≡ ok out
  unfolding append_numbered_parent append_parent append_block
  append_numbered_parent-append_parent level reason entries next s out e =
      swap_steps (take_block_id true next) (add_sizes reason 0 entries) _ out e

  pub append_chunks-Emits :
      (parts : List (List ℕ)) (blocks : List BlockSpec) (next : ℕ) (s : S)
      (out : List TreeEntry × ℕ × S)
      → All (λ part. length part ≤ max_data_block_payload) parts
      → Emitted sink start first blocks next s
      → append_chunks sink parts next s ≡ ok out
      → Emits blocks out.1 out.2 (λ all. Reads 0 all out.0 (concat parts))
  unfolding append_chunks
  append_chunks-Emits [] blocks next s out small h e =
      let done : ([], next, s) ≡ out = ground arith in
      subst (λ out. Emits blocks out.1 out.2 (λ all. Reads 0 all out.0 [])) done
        ([], rw append-nil h, refl)
  append_chunks-Emits (part ∷ parts) blocks next s out small h e =
      let ((id, middle, t), appended, more) =
        >>=-eq-ok (append_block sink false (data_bytes part) next s) _ e in
      let (later, rest_done, last) = >>=-eq-ok (append_chunks sink parts middle t) _ more in
      let done : ((id, length part) ∷ later.0, later.1, later.2) ≡ out = ground arith in
      let (here, emitted, leaf) =
        append_leaf-Emits part blocks next middle s t id small.0 h appended in
      let (there, emitted', reads) =
        append_chunks-Emits parts (blocks ++ here) middle t later small.1 emitted rest_done in
      let leaf' = read_tree-append 0 (blocks ++ here) there id part leaf in
      subst (λ out. Emits blocks out.1 out.2 (λ all. Reads 0 all out.0 (concat (part ∷ parts))))
        done
        (Emits_after blocks here later.1 later.2
          (λ all. Reads 0 all ((id, length part) ∷ later.0) (concat (part ∷ parts)))
          (there, emitted', (part, concat parts, leaf', refl, reads, refl)))

  pub append_groups-Emits :
      (parent : List TreeEntry → ℕ → S → WriterResult (TreeEntry × ℕ × S)) (reason : String)
      → ((group : List TreeEntry) (n : ℕ) (t : S) (out : TreeEntry × ℕ × S)
          → parent group n t ≡ ok out
          → append_parent sink 1 reason group n t ≡ ok out)
      → (groups : List (List TreeEntry)) (bytes : List ℕ) (blocks : List BlockSpec) (next : ℕ)
        (s : S) (out : List TreeEntry × ℕ × S)
      → All (λ group. length group ≤ max_data_tree_entries) groups
      → Reads 0 blocks (concat groups) bytes
      → Emitted sink start first blocks next s
      → append_groups sink parent groups next s ≡ ok out
      → Emits blocks out.1 out.2 (λ all. Reads 1 all out.0 bytes)
  unfolding append_groups
  append_groups-Emits parent reason agrees [] bytes blocks next s out small reads h e =
      let done : ([], next, s) ≡ out = ground arith in
      subst (λ out. Emits blocks out.1 out.2 (λ all. Reads 1 all out.0 bytes)) done
        ([], rw append-nil h, reads)
  append_groups-Emits parent reason agrees (group ∷ groups) bytes blocks next s out small reads h
        e =
      let ((entry, middle, t), appended, more) = >>=-eq-ok (parent group next s) _ e in
      let (later, rest_done, last) = >>=-eq-ok (append_groups sink parent groups middle t) _ more in
      let done : (entry ∷ later.0, later.1, later.2) ≡ out = ground arith in
      let (front, back, one, other, whole) =
        Reads-split 0 blocks group (concat groups) bytes reads in
      let (here, emitted, (tree, size)) =
        append_parent-Emits 0 reason group front blocks next middle s t entry small.0 one h
          (agrees group next s (entry, middle, t) appended) in
      let (there, emitted', reads') =
        append_groups-Emits parent reason agrees groups back (blocks ++ here) middle t later small.1
          (Reads-extends 0 blocks here (concat groups) back other) emitted rest_done in
      let tree' = read_tree-append 1 (blocks ++ here) there entry.0 front tree in
      subst (λ out. Emits blocks out.1 out.2 (λ all. Reads 1 all out.0 bytes)) done
        (Emits_after blocks here later.1 later.2 (λ all. Reads 1 all (entry ∷ later.0) bytes)
          (there, emitted', (front, back, tree', size, reads', whole)))

  pub append_root-Emits :
      (reasons : TreeReasons) (xblocks : List TreeEntry) (bytes : List ℕ) (blocks : List BlockSpec)
      (next : ℕ) (s : S) (out : BlockId × ℕ × S)
      → Reads 1 blocks xblocks bytes
      → Emitted sink start first blocks next s
      → append_root sink reasons xblocks next s ≡ ok out
      → Emits blocks out.1 out.2 (λ all. IsTree all out.0 bytes)
  unfolding append_root
  append_root-Emits reasons xblocks bytes blocks next s out reads h e =
      elim (Option-cases (only xblocks)) [
        | inl several ↦
            let (_, room, more) =
              >>=-eq-ok
                (guard (leb (length xblocks) max_data_tree_entries)
                  (value_too_large reasons.xblock_count))
                _ (rw (append_root, several) at e) in
            let small : length xblocks ≤ max_data_tree_entries = ground arith in
            let ((entry, end, t), appended, last) =
              >>=-eq-ok (append_parent sink 2 reasons.xxblock_size xblocks next s) _ more in
            let done : (entry.0, end, t) ≡ out = ground arith in
            let (here, emitted, (tree, size)) =
              append_parent-Emits 1 reasons.xxblock_size xblocks bytes blocks next end s t entry
                small reads h appended in
            subst (λ out. Emits blocks out.1 out.2 (λ all. IsTree all out.0 bytes)) done
              (here, emitted, (2, omega arith, tree))
        | inr (xblock, single) ↦
            let done : (xblock.0, next, s) ≡ out = ok_injective (rw (append_root, single) at e) in
            let (part, rest, here, size, nothing, whole) =
              rw (only-eq-some xblocks xblock single) at reads in
            let same : bytes ≡ part = whole ∙ ap (part ++◌) nothing ∙ append-nil part in
            subst (λ out. Emits blocks out.1 out.2 (λ all. IsTree all out.0 bytes)) done
              ([], rw append-nil h, (1, omega arith, rw (append-nil, same) here))
      ]
