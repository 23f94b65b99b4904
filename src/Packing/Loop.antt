-- ===== src/Packing/Loop.antt =====
-- The loop of `pack_candidates` (crates/pstforge-core/src/packing.rs), step by step.
use pstforge.Base.{
  ℕ, ◌+◌, ◌≤◌, ◌<◌, ◌≡◌, ◌≢◌, refl, sym, subst, ◌∙◌, ◌⊎◌, inl, inr, true, false, List, [], ◌∷◌,
  ◌++◌, append-nil, append_assoc, Result, ok, >>=-eq-ok, arith, ltb, ltb→lt, length, Bool-cases,
  List-cases, append_one-≢,
}
use pstforge.Packing.{
  PackCandidate, PartAssignment, PackingError, Packer, push_part, push_oversize, close_part,
  pack_step, pack_loop, finish_parts,
}
use pstforge.Packing.Parts.{
  Finished, push_part-Finished, push_part-IsPacking, IsPacking, IsPart, Closed, Tight,
}

module _ (estimate : List PackCandidate → Result PackingError ℕ) (limit : ℕ) where
  -- The open part is empty, or has its estimate, which is within the limit.
  abbrev pub IsOpen : Packer → Type 0
  IsOpen s =
      (s.current ≡ [])
      ⊎ ((estimate s.current ≡ ok s.current_estimate)
          × (s.current_estimate ≤ limit)
          × (s.current ≢ []))

  -- The finished parts and the open one hold the candidates `done`.
  pub record Packed (done : List PackCandidate) (s : Packer) : Type 0 where
    pub finished : List PackCandidate
    pub whole : finished ++ s.current ≡ done
    pub parts_finished : Finished estimate limit finished s.current s.parts
    pub opened : IsOpen s

  Finished-grow :
      (done current more : List PackCandidate) (parts : List PartAssignment)
      → Finished estimate limit done current parts
      → Finished estimate limit done (current ++ more) parts
  Finished-grow done current more parts f = record {
    kept = f.kept;
    parted = f.parted;
    numbered = f.numbered;
    tight = λ tail. rw (append_assoc) (f.tight (more ++ tail));
  }

  Closed-oversize :
      (part : PartAssignment) (rest : List PackCandidate)
      → part.oversize ≡ true
      → Closed estimate limit part rest
  Closed-oversize part [] e = tt
  Closed-oversize part (c ∷ rest) e = inl e

  push_oversize-Packed :
      (finished : List PackCandidate) (parts : List PartAssignment) (candidate : PackCandidate)
      (estimated : ℕ) (s' : Packer)
      → Finished estimate limit finished (candidate ∷ []) parts
      → estimate (candidate ∷ []) ≡ ok estimated
      → limit < estimated
      → push_oversize parts (candidate ∷ []) estimated ≡ ok s'
      → Packed (finished ++ candidate ∷ []) s'
  unfolding push_oversize
  push_oversize-Packed finished parts candidate estimated s' f he over e =
      let (alone, pushed, same) = >>=-eq-ok (push_part parts (candidate ∷ []) estimated true) _ e in
      let same' : record { parts = alone; current = []; current_estimate = 0 } ≡ s' =
        ground arith in
      rw (← same') (record {
        finished = finished ++ candidate ∷ [];
        whole = append-nil (finished ++ candidate ∷ []);
        parts_finished =
            push_part-Finished estimate limit finished [] (candidate ∷ []) parts alone estimated
              true f (he, inr (refl, over, refl))
              (λ tail.
                Closed-oversize
                  (record {
                    index = length parts + 1;
                    candidates = candidate ∷ [];
                    estimated_bytes = estimated;
                    oversize = true;
                  })
                  tail refl)
              pushed;
        opened = inl refl;
      })

  opened-Packed :
      (finished : List PackCandidate) (parts : List PartAssignment) (current : List PackCandidate)
      (estimated : ℕ)
      → Finished estimate limit finished current parts
      → estimate current ≡ ok estimated
      → estimated ≤ limit
      → current ≢ []
      → Packed
          (finished ++ current)
          (record { parts = parts; current = current; current_estimate = estimated })
  opened-Packed finished parts current estimated f he within filled = record {
    finished = finished;
    whole = refl;
    parts_finished = f;
    opened = inr (he, within, filled);
  }

  -- A candidate that does not fit closes the open part.
  close_part-Packed :
      (done : List PackCandidate) (s s' : Packer) (candidate : PackCandidate) (proposed : ℕ)
      → Packed done s
      → s.current ≢ []
      → estimate (s.current ++ candidate ∷ []) ≡ ok proposed
      → limit < proposed
      → close_part estimate limit s candidate ≡ ok s'
      → Packed (done ++ candidate ∷ []) s'
  unfolding close_part
  close_part-Packed done s s' candidate proposed p filled hp over e =
      let (parts, pushed, more) =
        >>=-eq-ok (push_part s.parts s.current s.current_estimate false) _ e in
      let (estimated, he, last) = >>=-eq-ok (estimate (candidate ∷ [])) _ more in
      let part : IsPart estimate limit (record {
        index = length s.parts + 1;
        candidates = s.current;
        estimated_bytes = s.current_estimate;
        oversize = false;
      }) =
        elim p.opened [
          | inl none_open ↦ elim (filled none_open) [ ]
          | inr o ↦ (o.0, inl (refl, o.1, o.2))
        ] in
      let closed : Finished estimate limit (p.finished ++ s.current) (candidate ∷ []) parts =
        push_part-Finished estimate limit p.finished (candidate ∷ []) s.current s.parts parts
          s.current_estimate false p.parts_finished part (λ tail. inr (proposed, hp, over))
          pushed in
      rw (← p.whole) (elim (Bool-cases (ltb limit estimated)) [
        | inl above ↦
            push_oversize-Packed (p.finished ++ s.current) parts candidate estimated s' closed he
              (ltb→lt limit estimated above) (ground arith)
        | inr within ↦
            let same : record {
              parts = parts;
              current = candidate ∷ [];
              current_estimate = estimated;
            }
                ≡ s' =
              ground arith in
            rw (← same) (
              opened-Packed (p.finished ++ s.current) parts (candidate ∷ []) estimated closed he
                (ground arith) (ground arith))
      ])

  Finished-IsPacking :
      (done current : List PackCandidate) (parts : List PartAssignment)
      → current ≡ []
      → Finished estimate limit done current parts
      → IsPacking estimate limit done parts
  Finished-IsPacking done current parts e f = record {
    kept = f.kept;
    parted = f.parted;
    numbered = f.numbered;
    tight = subst (λ c. Tight estimate limit parts c) (append-nil current ∙ e) (f.tight []);
  }

  -- A candidate that is above the limit where no part is open is a part alone.
  oversize-Packed :
      (done : List PackCandidate) (s s' : Packer) (candidate : PackCandidate) (proposed : ℕ)
      → Packed done s
      → s.current ≡ []
      → estimate (s.current ++ candidate ∷ []) ≡ ok proposed
      → limit < proposed
      → push_oversize s.parts (s.current ++ candidate ∷ []) proposed ≡ ok s'
      → Packed (done ++ candidate ∷ []) s'
  oversize-Packed done s s' candidate proposed p none_open hp over e =
      let alone : s.current ++ candidate ∷ [] ≡ candidate ∷ [] = rw none_open in
      let same : p.finished ≡ done = sym (append-nil p.finished) ∙ rw (← none_open) p.whole in
      rw (← same) (
        push_oversize-Packed p.finished s.parts candidate proposed s'
          (rw (← alone)
            (Finished-grow p.finished s.current (candidate ∷ []) s.parts p.parts_finished))
          (rw (← alone) hp) over (rw (← alone) e))

  -- A candidate that fits joins the open part.
  join-Packed :
      (done : List PackCandidate) (s : Packer) (candidate : PackCandidate) (proposed : ℕ)
      → Packed done s
      → estimate (s.current ++ candidate ∷ []) ≡ ok proposed
      → proposed ≤ limit
      → Packed (done ++ candidate ∷ []) (record {
        parts = s.parts;
        current = s.current ++ candidate ∷ [];
        current_estimate = proposed;
      })
  join-Packed done s candidate proposed p hp within = record {
    finished = p.finished;
    whole = rw (← append_assoc, p.whole) refl;
    parts_finished = Finished-grow p.finished s.current (candidate ∷ []) s.parts p.parts_finished;
    opened = inr (hp, within, append_one-≢ s.current candidate);
  }

  pack_step-Packed :
      (done : List PackCandidate) (s s' : Packer) (candidate : PackCandidate)
      → Packed done s
      → pack_step estimate limit s candidate ≡ ok s'
      → Packed (done ++ candidate ∷ []) s'
  unfolding pack_step
  pack_step-Packed done s s' candidate p e =
      let (proposed, hp, more) = >>=-eq-ok (estimate (s.current ++ candidate ∷ [])) _ e in
      elim (Bool-cases (ltb limit proposed)) [
        | inl above ↦ elim (List-cases s.current) [
          | inl none_open ↦
              oversize-Packed done s s' candidate proposed p none_open hp
                (ltb→lt limit proposed above) (ground arith)
          | inr filled ↦
              close_part-Packed done s s' candidate proposed p (ground arith) hp
                (ltb→lt limit proposed above) (ground arith)
        ]
        | inr within ↦
            let same : record {
              parts = s.parts;
              current = s.current ++ candidate ∷ [];
              current_estimate = proposed;
            }
                ≡ s' =
              ground arith in
            rw (← same) (join-Packed done s candidate proposed p hp (ground arith))
      ]

  pub pack_loop-Packed :
      (done rest : List PackCandidate) (s s' : Packer)
      → Packed done s
      → pack_loop estimate limit s rest ≡ ok s'
      → Packed (done ++ rest) s'
  unfolding pack_loop
  pack_loop-Packed done [] s s' p e =
      let same : s ≡ s' = ground arith in rw (← same, append-nil done) p
  pack_loop-Packed done (candidate ∷ rest) s s' p e =
      let (next, step, more) = >>=-eq-ok (pack_step estimate limit s candidate) _ e in
      subst (λ l. Packed l s') (append_assoc done (candidate ∷ []) rest)
        (pack_loop-Packed (done ++ candidate ∷ []) rest next s'
          (pack_step-Packed done s next candidate p step) more)

  -- The last part has no candidate behind it.
  pub finish_parts-IsPacking :
      (done : List PackCandidate) (s : Packer) (parts : List PartAssignment)
      → Packed done s
      → finish_parts s ≡ ok parts
      → IsPacking estimate limit done parts
  unfolding finish_parts
  finish_parts-IsPacking done s parts p e = elim p.opened [
    | inl none_open ↦
        let same : s.parts ≡ parts = ground arith in
        let whole : p.finished ≡ done = sym (append-nil p.finished) ∙ rw (← none_open) p.whole in
        rw (← same, ← whole)
          (Finished-IsPacking p.finished s.current s.parts none_open p.parts_finished)
    | inr o ↦ rw (← p.whole) (
        push_part-IsPacking estimate limit p.finished s.current s.parts parts s.current_estimate
          p.parts_finished (o.0, inl (refl, o.1, o.2)) (ground arith))
  ]
