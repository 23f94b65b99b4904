-- ===== src/Job/Publication/Recovery.antt =====
-- A publication that was cut off, and the `reconcile_publications` (crates/pstforge-job/src/lib.rs) after
-- it: the part is published wholly or not at all.
use pstforge.Base.{
  ℕ, ◌≤◌, Bool, true, false, [], ◌∷◌, ◌++◌, some, sort_by, insert_sorted, Result, ok, err, aborted,
  ◌≡◌, ap, ◌∙◌, subst, arith, ◌⊎◌, inl, inr,
}
use pstforge.Job.World.{JobError, PartSidecar, File, Disk, World, pure}
use pstforge.Job.Publication.{
  reconcile_intent, reconcile_intents, reconcile_publications, publish_part_with_interrupt,
  CandidateBatch,
}
use pstforge.Job.Triples.{Ends, Triple, On, With, Never, bind_rule, asks_known}
use pstforge.Job.Publication.Phases.{
  Publication, intent_of, recorded_ledger, Before, Recorded, Moved, Placed, Committed, Phase,
  unbatched, before, recorded, moved, placed, committed,
}
use pstforge.Job.Publication.Whole.{publish_rule, batched}
use pstforge.Job.Publication.Reconciliation.{IsValid, forget_intent, finish_part, finish_ledger}

module _ (euid : ℕ) (render : PartSidecar → File) (torn : File) (p : Publication) where
  module _ (valid : IsValid euid render p) where
    settled :
        (C : Disk → Type 0)
        → ((d : Disk) → C d → d.ledger.publication_intents ≡ [])
        → Triple (With 0 C) (reconcile_publications euid render torn false) (λ _. With 0 C) Never
    unfolding reconcile_publications reconcile_intents sort_by pure
    settled C none_left =
        asks_known {P = With 0 C} _ _ [] (λ w h. none_left w.disk h.0) (record { runs = λ w h. h })

    one_intent :
        (changes : ℕ) (C D : Disk → Type 0)
        → ((d : Disk) → C d → d.ledger ≡ recorded_ledger p)
        → Triple
            (With changes C)
            (reconcile_intent euid render torn false (intent_of p))
            (λ _. With 0 D)
            Never
        → Triple
            (With changes C)
            (reconcile_publications euid render torn false)
            (λ _. With 0 D)
            Never
    unfolding reconcile_publications reconcile_intents sort_by insert_sorted pure
    one_intent changes C D is_recorded step =
        asks_known {P = With changes C} _ _ (intent_of p ∷ [])
          (λ w h.
            ap (λ l. l.publication_intents) (is_recorded w.disk h.0)
            ∙ ap (◌++ intent_of p ∷ []) valid.no_intents)
          (bind_rule step (λ _. record { runs = λ w h. h }))

    -- A disk on which the part is published, or, the batch committed, nothing but the staging directory is
    -- changed, or nothing at all.
    abbrev pub AllOrNothing : Disk → Type 0
    AllOrNothing d = (d ≡ p.start) ⊎ (Before render p d ⊎ Committed render p d)

    led :
        {D : Disk → Type 0} (P : World → Type 0) {w : World}
        → ((d : Disk) → D d → AllOrNothing d)
        → Triple P (reconcile_publications euid render torn false) (λ _. With 0 D) Never
        → P w
        → Ends (λ _ w. AllOrNothing w.disk) Never (reconcile_publications euid render torn false w)
    led {D} P {w} f t h = mapped (reconcile_publications euid render torn false w) (t.runs w h)
      where
        mapped :
            (out : Result JobError (Unit {0}) × World)
            → Ends (λ _. With 0 D) Never out
            → Ends (λ _ w. AllOrNothing w.disk) Never out
        mapped (ok a, w') h = f w'.disk h.0
        mapped (err e, w') h = h
        mapped (aborted, w') h = h

    any_phase :
        (out : Result JobError (Unit {0}) × World)
        → Ends (λ _. On (Committed render p)) (On (Phase render p)) out
        → Phase render p out.1.disk
    any_phase (ok a, w) h = committed h
    any_phase (err e, w) h = h
    any_phase (aborted, w) h = h

    reconciled :
        (w : World)
        → ((n : ℕ) → w.syncs n ≡ true)
        → p.start.ledger.publication_intents ≡ []
        → Phase render p w.disk
        → 2 ≤ w.budget
        → Ends (λ _ w. AllOrNothing w.disk) Never (reconcile_publications euid render torn false w)
    reconciled w synced idle (unbatched h) room =
        led (With 0 (λ d. d ≡ p.start)) (λ d h. inl h)
          (settled (λ d. d ≡ p.start) (λ d h. ap (λ d. d.ledger.publication_intents) h ∙ idle))
          (h, omega arith, synced)
    reconciled w synced idle (before h) room =
        led (With 0 (Before render p)) (λ d h. inr (inl h))
          (settled (Before render p)
            (λ d h. ap (λ l. l.publication_intents) h.ledger ∙ valid.no_intents))
          (h, omega arith, synced)
    reconciled w synced idle (recorded h) room =
        led (With 1 (Recorded render p)) (λ d h. inr (inl h))
          (one_intent 1 (Recorded render p) (Before render p) (λ d h. h.ledger)
            (forget_intent euid render torn p valid))
          (h, omega arith, synced)
    reconciled w synced idle (moved h) room =
        led (With 2 (Moved render p)) (λ d h. inr (inr h))
          (one_intent 2 (Moved render p) (Committed render p) (λ d h. h.ledger)
            (finish_part euid render torn p valid))
          (h, room, synced)
    reconciled w synced idle (placed h) room =
        led (With 1 (Placed render p)) (λ d h. inr (inr h))
          (one_intent 1 (Placed render p) (Committed render p) (λ d h. h.ledger)
            (finish_ledger euid render torn p valid))
          (h, omega arith, synced)
    reconciled w synced idle (committed h) room =
        led (With 0 (Committed render p)) (λ d h. inr (inr h))
          (settled (Committed render p) (λ d h. h.rows.intents ∙ valid.no_intents))
          (h, omega arith, synced)

    batched_intents :
        (is_open : Bool) (batch : CandidateBatch)
        → batched is_open batch p.start ≡ p.disk
        → p.start.ledger.publication_intents ≡ []
    batched_intents false batch same =
        ap (λ d. d.ledger.publication_intents) same ∙ valid.no_intents
    batched_intents true batch same = ap (λ d. d.ledger.publication_intents) same ∙ valid.no_intents

    -- Let a part be valid: its record, its sidecar and its staged file pass the checks of the publication,
    -- what is written of a sidecar reads back, it has items, and once the open batch of candidates is
    -- committed these are different, spooled and in no part, no part in the ledger has its index or name,
    -- and no intent is recorded. Let a run of the publication from a disk with the part in the staging
    -- directory, which may be cut off anywhere by an error, a signal or a crash, be followed by a
    -- reconciliation that can make two durable changes and that no signal and no failing sync cuts off.
    -- Then the reconciliation succeeds, and after it either the part and its sidecar are in their places,
    -- and the ledger has, against the one with the batch, a row more for the part and one for each of its
    -- items, these are written, no other status is changed and there is no intent; or the published
    -- directories and the ledger with the batch are as they were and the staged part is still there; or
    -- the disk is as it was, without the batch.
    pub publish_part-AllOrNothing :
        (batch : CandidateBatch) (watch active : Bool) (w : World) (budget : ℕ)
        (polls syncs : ℕ → Bool)
        → w.disk ≡ p.start
        → batched batch.batch_open batch p.start ≡ p.disk
        → p.disk.partial p.staged ≡ some p.file
        → 2 ≤ budget
        → ((n : ℕ) → syncs n ≡ true)
        → Ends
            (λ _ w'. AllOrNothing w'.disk)
            Never
            (reconcile_publications euid render torn false (record {
              disk =
                  (publish_part_with_interrupt euid render torn batch watch active p.staged p.part
                    p.sidecar p.item_keys w).1.disk;
              budget = budget;
              polls = polls;
              syncs = syncs;
            }))
    publish_part-AllOrNothing batch watch active w budget polls syncs same commits staged room
          synced =
        reconciled
          (record {
            disk =
                (publish_part_with_interrupt euid render torn batch watch active p.staged p.part
                  p.sidecar p.item_keys w).1.disk;
            budget = budget;
            polls = polls;
            syncs = syncs;
          })
          synced (batched_intents batch.batch_open batch commits)
          (any_phase _
            ((publish_rule euid render torn p batch watch active commits staged).runs w same))
          room

  -- A publication that reports success, from a disk with the part in the staging directory: the part and
  -- its sidecar are in their places, and the ledger has, against the one in which the open batch of
  -- candidates is committed, a row more for the part and one for each of its items, which were all
  -- spooled and are written; no other status is changed, no candidate is lost, and the intents are those
  -- of before.
  pub publish_part-Committed :
      (batch : CandidateBatch) (watch active : Bool) (w w' : World)
      → w.disk ≡ p.start
      → batched batch.batch_open batch p.start ≡ p.disk
      → p.disk.partial p.staged ≡ some p.file
      → publish_part_with_interrupt euid render torn batch watch active p.staged p.part p.sidecar
          p.item_keys w
        ≡ (ok tt, w')
      → Committed render p w'.disk
  publish_part-Committed batch watch active w w' same commits staged e =
      subst (Ends (λ _. On (Committed render p)) (On (Phase render p))) e
        ((publish_rule euid render torn p batch watch active commits staged).runs w same)
