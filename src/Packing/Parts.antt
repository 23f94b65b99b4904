-- ===== src/Packing/Parts.antt =====
-- What the loop of `pack_candidates` (crates/pstforge-core/src/packing.rs) keeps of its parts.
use pstforge.Base.{
  ℕ, suc, ◌+◌, ◌<◌, ◌≤◌, ◌≡◌, ◌≢◌, refl, ◌∙◌, ◌⊎◌, Bool, true, false, List, [], ◌∷◌, ◌++◌, All,
  All-append, length, append-nil, append_assoc, Result, ok, arith,
}
use pstforge.Packing.{PackCandidate, PartAssignment, PackingError, push_part}

-- The candidates of the parts, one part behind the other.
abbrev pub all_candidates : List PartAssignment → List PackCandidate
all_candidates [] = []
all_candidates (part ∷ parts) = part.candidates ++ all_candidates parts

all_candidates-append :
    (ps qs : List PartAssignment)
    → all_candidates (ps ++ qs) ≡ all_candidates ps ++ all_candidates qs
all_candidates-append [] qs = refl
all_candidates-append (p ∷ ps) qs = rw (all_candidates-append ps qs, append_assoc) refl

-- Parts are numbered from `n` on.
abbrev pub Numbered : ℕ → List PartAssignment → Type 0
Numbered n [] = Unit
Numbered n (part ∷ parts) = (part.index ≡ n) × Numbered (suc n) parts

module _ (estimate : List PackCandidate → Result PackingError ℕ) (limit : ℕ) where
  -- A part has candidates and their estimate, which is within the limit; or it is marked, and then
  -- it is one candidate whose estimate is above the limit.
  abbrev pub IsPart : PartAssignment → Type 0
  IsPart part =
      (estimate part.candidates ≡ ok part.estimated_bytes)
      × (((part.oversize ≡ false) × (part.estimated_bytes ≤ limit) × (part.candidates ≢ []))
          ⊎ ((part.oversize ≡ true)
              × (limit < part.estimated_bytes)
              × (length part.candidates ≡ 1)))

  -- A part that was closed for its next candidate would go above the limit with it.
  abbrev pub Closed : PartAssignment → List PackCandidate → Type 0
  Closed part [] = Unit
  Closed part (next ∷ rest) =
      (part.oversize ≡ true)
      ⊎ ((e : ℕ) × (estimate (part.candidates ++ next ∷ []) ≡ ok e) × (limit < e))

  -- So for each part and the candidates behind it.
  abbrev pub Tight : List PartAssignment → List PackCandidate → Type 0
  Tight [] rest = Unit
  Tight (part ∷ parts) rest = Closed part (all_candidates parts ++ rest) × Tight parts rest

  -- The finished parts hold the candidates `done`, whatever candidates follow the open part.
  pub record Finished (done current : List PackCandidate) (parts : List PartAssignment)
      : Type 0 where
    pub kept : all_candidates parts ≡ done
    pub parted : All IsPart parts
    pub numbered : Numbered 1 parts
    pub tight : (tail : List PackCandidate) → Tight parts (current ++ tail)

  Numbered-append :
      (n : ℕ) (ps : List PartAssignment) (p : PartAssignment)
      → Numbered n ps
      → p.index ≡ length ps + n
      → Numbered n (ps ++ p ∷ [])
  Numbered-append n [] p h e = (omega arith, tt)
  Numbered-append n (q ∷ ps) p h e = (h.0, Numbered-append (suc n) ps p h.1 (omega arith))

  Tight-append :
      (ps : List PartAssignment) (p : PartAssignment) (rest : List PackCandidate)
      → Tight ps (p.candidates ++ rest)
      → Closed p rest
      → Tight (ps ++ p ∷ []) rest
  Tight-append [] p rest t c = (c, tt)
  Tight-append (q ∷ ps) p rest t c = (
    rw (all_candidates-append ps (p ∷ []), append-nil, append_assoc) t.0,
    Tight-append ps p rest t.1 c,
  )

  -- A division of the candidates `done` into parts.
  pub record IsPacking (done : List PackCandidate) (parts : List PartAssignment) : Type 0 where
    pub kept : all_candidates parts ≡ done
    pub parted : All IsPart parts
    pub numbered : Numbered 1 parts
    pub tight : Tight parts []

  all_candidates-push :
      (done : List PackCandidate) (ps : List PartAssignment) (p : PartAssignment)
      → all_candidates ps ≡ done
      → all_candidates (ps ++ p ∷ []) ≡ done ++ p.candidates
  all_candidates-push done ps p e = all_candidates-append ps (p ∷ []) ∙ rw (e, append-nil) refl

  pub push_part-Finished :
      (done current candidates : List PackCandidate) (parts parts' : List PartAssignment)
      (estimated : ℕ) (oversize : Bool)
      → Finished done candidates parts
      → IsPart (record {
        index = length parts + 1;
        candidates = candidates;
        estimated_bytes = estimated;
        oversize = oversize;
      })
      → ((tail : List PackCandidate)
          → Closed
              (record {
                index = length parts + 1;
                candidates = candidates;
                estimated_bytes = estimated;
                oversize = oversize;
              })
              (current ++ tail))
      → push_part parts candidates estimated oversize ≡ ok parts'
      → Finished (done ++ candidates) current parts'
  unfolding push_part
  push_part-Finished done current candidates parts parts' estimated oversize f part closed e =
      let new : PartAssignment = record {
        index = length parts + 1;
        candidates = candidates;
        estimated_bytes = estimated;
        oversize = oversize;
      } in
      let same : parts ++ new ∷ [] ≡ parts' = ground arith in
      rw (← same) (record {
        kept = all_candidates-push done parts new f.kept;
        parted = All-append IsPart parts (new ∷ []) f.parted (part, tt);
        numbered = Numbered-append 1 parts new f.numbered refl;
        tight = λ tail.
            Tight-append parts new (current ++ tail) (f.tight (current ++ tail)) (closed tail);
      })

  -- The open part is the last one.
  pub push_part-IsPacking :
      (done current : List PackCandidate) (parts parts' : List PartAssignment) (estimated : ℕ)
      → Finished done current parts
      → IsPart (record {
        index = length parts + 1;
        candidates = current;
        estimated_bytes = estimated;
        oversize = false;
      })
      → push_part parts current estimated false ≡ ok parts'
      → IsPacking (done ++ current) parts'
  unfolding push_part
  push_part-IsPacking done current parts parts' estimated f part e =
      let new : PartAssignment = record {
        index = length parts + 1;
        candidates = current;
        estimated_bytes = estimated;
        oversize = false;
      } in
      let same : parts ++ new ∷ [] ≡ parts' = ground arith in
      rw (← same) (record {
        kept = all_candidates-push done parts new f.kept;
        parted = All-append IsPart parts (new ∷ []) f.parted (part, tt);
        numbered = Numbered-append 1 parts new f.numbered refl;
        tight = Tight-append parts new [] (f.tight []) tt;
      })
