-- ===== src/Writer/DataTree/Total.antt =====
-- The trees that crates/pstforge-pst/src/writer.rs makes in memory: `append_data_tree` and
-- `append_data_tree_pages` into a vector of blocks, and when they succeed.
use pstforge.Base.{
  ℕ, ◌≤◌, ◌<◌, List, [], ◌∷◌, ◌++◌, String, leb, false, length, ok, guard, >>=-eq-ok, All, All-map,
  ◌≡◌, ap, ◌∙◌, append-nil, Option-cases, inl, inr, arith, subst, not, ◌==◌,
}
use pstforge.Writer.Error.{WriterResult, value_too_large, invalid_structure}
use pstforge.Writer.Block.{BlockId, BlockSpec, data_bytes}
use pstforge.Writer.DataTree.{
  TreeEntry, TreeReasons, max_data_block_payload, max_data_tree_entries, chunks, only, append_block,
  append_parent, append_numbered_parent, append_chunks, append_pages, append_groups, append_levels,
  append_data_tree_sized, append_data_tree_pages, data_reasons, heap_reasons,
}
use pstforge.Writer.DataTree.Contents.{Reads}
use pstforge.Writer.DataTree.Emission.{Emitted, Emitted-start}
use pstforge.Writer.DataTree.RoundTrip.{
  concat, concat-chunks, All-chunks, IsTree, Emits, append_chunks-Emits, append_groups-Emits,
  append_root-Emits, append_numbered_parent-append_parent, only-eq-some, Emits_after, ok_injective,
}

-- The tree of the bytes under the root, in a run of blocks from an index on that the sink was given.
abbrev pub Stores :
    {S : Type 0} → (BlockSpec → S → WriterResult S) → S → ℕ → List ℕ → BlockId × ℕ × S → Type 0
Stores sink s next bytes out =
    (blocks : List BlockSpec) × Emitted sink s next blocks out.1 out.2 × IsTree blocks out.0 bytes

-- A parent over leaves, whichever of its steps comes first.
abbrev IsParent :
    {S : Type 0}
    → (BlockSpec → S → WriterResult S)
    → String
    → (List TreeEntry → ℕ → S → WriterResult (TreeEntry × ℕ × S))
    → Type 0
IsParent {S} sink reason parent =
    (group : List TreeEntry) (n : ℕ) (t : S) (out : TreeEntry × ℕ × S)
    → parent group n t ≡ ok out
    → append_parent sink 1 reason group n t ≡ ok out

module _ {S : Type 0} (sink : BlockSpec → S → WriterResult S) (start : S) (first : ℕ) where
  pub append_levels-Emits :
      (parent : List TreeEntry → ℕ → S → WriterResult (TreeEntry × ℕ × S)) (reason : String)
      (reasons : TreeReasons) (leaves : List TreeEntry) (bytes : List ℕ) (blocks : List BlockSpec)
      (next : ℕ) (s : S) (out : BlockId × ℕ × S)
      → IsParent sink reason parent
      → Reads 0 blocks leaves bytes
      → Emitted sink start first blocks next s
      → append_levels sink parent reasons leaves next s ≡ ok out
      → Emits sink start first blocks out.1 out.2 (λ all. IsTree all out.0 bytes)
  unfolding append_levels
  append_levels-Emits parent reason reasons leaves bytes blocks next s out agrees reads h e =
      elim (Option-cases (only leaves)) [
        | inl several ↦
            let groups = chunks max_data_tree_entries leaves in
            let (found, grouped, more) =
              >>=-eq-ok (append_groups sink parent groups next s) _
                (rw (append_levels, several) at e) in
            let (here, emitted, reads') =
              append_groups-Emits sink start first parent reason agrees groups bytes blocks next s
                found (All-chunks max_data_tree_entries leaves)
                (rw (concat-chunks max_data_tree_entries (omega arith) leaves) reads) h grouped in
            Emits_after sink start first blocks here out.1 out.2 (λ all. IsTree all out.0 bytes)
              (append_root-Emits sink start first reasons found.0 bytes (blocks ++ here) found.1
                found.2 out reads' emitted more)
        | inr (leaf, single) ↦
            let done : (leaf.0, next, s) ≡ out = ok_injective (rw (append_levels, single) at e) in
            let (part, rest, here, size, nothing, whole) =
              rw (only-eq-some leaves leaf single) at reads in
            let same : bytes ≡ part = whole ∙ ap (part ++◌) nothing ∙ append-nil part in
            subst (λ out. Emits sink start first blocks out.1 out.2 (λ all. IsTree all out.0 bytes))
              done ([], rw append-nil h, (0, omega arith, rw (append-nil, same) here))
      ]

module _ {S : Type 0} (sink : BlockSpec → S → WriterResult S) where
  -- Whatever the sink is: when the bytes have been appended in chunks of 1 to 8,176 bytes, the sink has
  -- been given blocks with consecutive indices from the next one on, and from the root a reader that
  -- checks the format finds these bytes.
  pub append_data_tree_sized-Stores :
      (bytes : List ℕ) (chunk_size next : ℕ) (s : S) (out : BlockId × ℕ × S)
      → 0 < chunk_size
      → chunk_size ≤ max_data_block_payload
      → append_data_tree_sized sink bytes chunk_size next s ≡ ok out
      → Stores sink s next bytes out
  unfolding append_data_tree_sized
  append_data_tree_sized-Stores bytes chunk_size next s out pos small e =
      let parts = chunks chunk_size bytes in
      let (found, chunked, more) = >>=-eq-ok (append_chunks sink parts next s) _ e in
      let sizes =
        All-map (λ part. length part ≤ chunk_size) (λ part. length part ≤ max_data_block_payload)
          (λ part h. omega (arith, h, small)) parts (All-chunks chunk_size bytes) in
      let (blocks, emitted, reads) =
        append_chunks-Emits sink s next parts [] next s found sizes (Emitted-start sink s next)
          chunked in
      let parent = append_numbered_parent sink 1 data_reasons.tree_size in
      Emits_after sink s next [] blocks out.1 out.2 (λ all. IsTree all out.0 bytes)
        (append_levels-Emits sink s next parent data_reasons.tree_size data_reasons found.0 bytes
          blocks found.1 found.2 out
          (append_numbered_parent-append_parent sink s next 1 data_reasons.tree_size)
          (rw (concat-chunks chunk_size pos bytes) at reads) emitted more)

  append_pages-append_chunks :
      (pages : List (List ℕ)) (next : ℕ) (s : S) (out : List TreeEntry × ℕ × S)
      → append_pages sink pages next s ≡ ok out
      → (append_chunks sink pages next s ≡ ok out)
        × All (λ page. length page ≤ max_data_block_payload) pages
  unfolding append_pages append_chunks
  append_pages-append_chunks [] next s out e = (e, tt)
  append_pages-append_chunks (page ∷ pages) next s out e =
      let (_, room, more) =
        >>=-eq-ok
          (guard (leb (length page) max_data_block_payload) (value_too_large "heap data page")) _
          e in
      let ((id, after, t), appended, more') =
        >>=-eq-ok (append_block sink false (data_bytes page) next s) _ more in
      let (later, rest_done, last) = >>=-eq-ok (append_pages sink pages after t) _ more' in
      let (same, small) = append_pages-append_chunks pages after t later rest_done in
      (rw (appended, same) last, (ground arith, small))

  -- Whatever the sink is: when heap pages have been appended, there is a page at least, and the sink has
  -- been given blocks with consecutive indices from the next one on, and from the root a reader that
  -- checks the format finds the bytes of the pages, one page behind the other.
  pub append_data_tree_pages-Stores :
      (pages : List (List ℕ)) (next : ℕ) (s : S) (out : BlockId × ℕ × S)
      → append_data_tree_pages sink pages next s ≡ ok out
      → (0 < length pages) × Stores sink s next (concat pages) out
  unfolding append_data_tree_pages
  append_data_tree_pages-Stores pages next s out e =
      let (_, some_page, more) =
        >>=-eq-ok
          (guard (not (length pages == 0)) (invalid_structure "data tree must contain pages")) _
          e in
      let (found, paged, more') = >>=-eq-ok (append_pages sink pages next s) _ more in
      let (chunked, sizes) = append_pages-append_chunks pages next s found paged in
      let (blocks, emitted, reads) =
        append_chunks-Emits sink s next pages [] next s found sizes (Emitted-start sink s next)
          chunked in
      let parent = append_parent sink 1 heap_reasons.tree_size in
      (
        ground arith,
        Emits_after sink s next [] blocks out.1 out.2 (λ all. IsTree all out.0 (concat pages))
            (append_levels-Emits sink s next parent heap_reasons.tree_size heap_reasons found.0
              (concat pages) blocks found.1 found.2 out (λ group n t out h. h) reads emitted more'),
      )
