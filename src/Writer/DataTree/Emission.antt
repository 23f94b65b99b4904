-- ===== src/Writer/DataTree/Emission.antt =====
-- What the functions of Writer/DataTree hand to their sink, whatever the sink does with it: a list of
-- blocks with consecutive indices.
use pstforge.Base.{
  ℕ, suc, ◌+◌, Bool, List, [], ◌∷◌, ◌++◌, some, length, ok, ◌>>=◌, >>=-eq-ok, ◌≡◌, refl, ◌∙◌,
  length-append, arith,
}
use pstforge.Writer.Error.{WriterResult}
use pstforge.Writer.Block.{BlockId, BlockSpec, BlockPayload, new_block_id}
use pstforge.Writer.DataTree.{take_block_id, append_block}
use pstforge.Writer.DataTree.Contents.{find_block}

-- Blocks with the indices from one on, each referred to by two others.
abbrev pub IsRun : ℕ → List BlockSpec → Type 0
IsRun first [] = Unit
IsRun first (block ∷ blocks) =
    (block.id.index ≡ first) × (block.ref_count ≡ 2) × IsRun (suc first) blocks

IsRun-append :
    (first : ℕ) (blocks : List BlockSpec) (block : BlockSpec)
    → IsRun first blocks
    → block.id.index ≡ first + length blocks
    → block.ref_count ≡ 2
    → IsRun first (blocks ++ block ∷ [])
IsRun-append first [] block run here count = (omega arith, count, tt)
IsRun-append first (b ∷ blocks) block run here count =
    (run.0, run.1, IsRun-append (suc first) blocks block run.2 (omega arith) count)

-- The block behind a run is found, since no other has its index.
find_block-IsRun :
    (first : ℕ) (blocks : List BlockSpec) (block : BlockSpec)
    → IsRun first blocks
    → block.id.index ≡ first + length blocks
    → find_block block.id.index (blocks ++ block ∷ []) ≡ some block.payload
unfolding find_block
find_block-IsRun first [] block run here = ground arith
find_block-IsRun first (b ∷ blocks) block run here =
    ground (arith, run.0, find_block-IsRun (suc first) blocks block run.2 (omega arith))

take_block_id-ok :
    (internal : Bool) (next after : ℕ) (id : BlockId)
    → take_block_id internal next ≡ ok (id, after)
    → (id.internal ≡ internal) × (id.index ≡ next) × (after ≡ suc next)
unfolding take_block_id new_block_id
take_block_id-ok internal next after id e = ground arith

count_append :
    (first : ℕ) (blocks : List BlockSpec) (block : BlockSpec) (next after end : ℕ)
    → next ≡ first + length blocks
    → after ≡ suc next
    → after ≡ end
    → end ≡ first + length (blocks ++ block ∷ [])
count_append first blocks block next after end e h k = rw length-append (omega arith)

module _ {S : Type 0} (sink : BlockSpec → S → WriterResult S) where
  abbrev pub emit_all : List BlockSpec → S → WriterResult S
  emit_all [] s = ok s
  emit_all (block ∷ blocks) s = sink block s >>= emit_all blocks

  emit_all-append :
      (blocks : List BlockSpec) (block : BlockSpec) (s t u : S)
      → emit_all blocks s ≡ ok t
      → sink block t ≡ ok u
      → emit_all (blocks ++ block ∷ []) s ≡ ok u
  emit_all-append [] block s t u e h = ground (arith, e, h)
  emit_all-append (b ∷ blocks) block s t u e h =
      let (next, first, more) = >>=-eq-ok (sink b s) (emit_all blocks) e in
      rw first (emit_all-append blocks block next t u more h)

  -- From a sink on, the blocks of a run have been handed over.
  pub record Emitted (start : S) (first : ℕ) (blocks : List BlockSpec) (next : ℕ) (s : S)
      : Type 0 where
    pub runs : emit_all blocks start ≡ ok s
    pub run : IsRun first blocks
    pub count : next ≡ first + length blocks

  pub Emitted-start : (s : S) (first : ℕ) → Emitted s first [] first s
  Emitted-start s first = record { runs = refl; run = tt; count = omega arith }

  module _ (start : S) (first : ℕ) where
    pub append_block-Emitted :
        (internal : Bool) (payload : BlockPayload) (blocks : List BlockSpec) (next after : ℕ)
        (s s' : S) (id : BlockId)
        → Emitted start first blocks next s
        → append_block sink internal payload next s ≡ ok (id, after, s')
        → (block : BlockSpec) × Emitted start first (blocks ++ block ∷ []) after s'
          × (id.internal ≡ internal)
          × (find_block id.index (blocks ++ block ∷ []) ≡ some payload)
    unfolding append_block
    append_block-Emitted internal payload blocks next after s s' id h e =
        let ((id', after'), taken, more) = >>=-eq-ok (take_block_id internal next) _ e in
        let (t, emitted, last) = >>=-eq-ok (sink _ s) _ more in
        let at = take_block_id-ok internal next after' id' taken in
        let block : BlockSpec = record { id = id; payload = payload; ref_count = 2 } in
        let same : id' ≡ id = ground arith in
        let ends : after' ≡ after = ground arith in
        let sunk : t ≡ s' = ground arith in
        let here : id.index ≡ first + length blocks = rw same at (at.1 ∙ h.count) in
        (
          block,
          record {
            runs = emit_all-append blocks block start s s' h.runs (rw (same, sunk) at emitted);
            run = IsRun-append first blocks block h.run here refl;
            count = count_append first blocks block next after' after h.count at.2 ends;
          },
          rw same at at.0,
          find_block-IsRun first blocks block h.run here,
        )
