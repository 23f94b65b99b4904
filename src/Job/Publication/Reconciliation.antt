-- ===== src/Job/Publication/Reconciliation.antt =====
-- What the reconciliation of one intent, `reconcile_publications` of crates/pstforge-job/src/lib.rs, makes
-- of each state that a publication can leave.
use pstforge.Base.{
  ℕ, true, false, not, [], ◌∷◌, ◌++◌, none, some, ◌==◌, length, ok, ◌≡◌, refl, sym, ap, ◌∙◌, arith,
}
use pstforge.Job.World.{
  PartSidecar, File, set, Intent, Ledger, World, Action, require, integrity, ◌>>◌,
}
use pstforge.Job.Checks.{
  validate_part_record, validate_sidecar, sidecar_name, verify_part_artifact,
  verify_sidecar_artifact,
}
use pstforge.Job.Publication.{
  with_intents, rename_noclobber, remove_intents, commit_published_part_transaction,
  reconcile_intent, complete_sidecar,
}
use pstforge.Job.Triples.{
  Triple, With, Never, bind_rule, asks_known, passes_rule, durably_total, sync_total,
  require_passes, or_fail_passes, lift_passes,
}
use pstforge.Job.Publication.Phases.{
  Publication, intent_of, recorded_ledger, Before, Recorded, Moved, Placed, Committed, set_same,
}
use pstforge.Job.Publication.Rows.{IsAcceptable, commit_rows-IsCommitted}
use pstforge.Job.Publication.Acceptance.{commit_rows_succeeds}

-- A part that can be published: its record, its sidecar and its staged file pass the checks, what is
-- written of a sidecar reads back, there is an item, no other intent is recorded, and the part and its
-- items are acceptable to the database.
pub record IsValid (euid : ℕ) (render : PartSidecar → File) (p : Publication) : Type 0 where
  pub part : (w : World) → validate_part_record p.part w ≡ (ok tt, w)
  pub sidecar : (w : World) → validate_sidecar p.part p.sidecar w ≡ (ok tt, w)
  pub file :
      (w : World) → verify_part_artifact euid false (some p.file) p.part p.sidecar w ≡ (ok tt, w)
  pub reads_back :
      (w : World) → verify_sidecar_artifact euid (some (render p.sidecar)) p.sidecar w ≡ (ok tt, w)
  pub some_item : not (length p.item_keys == 0) ≡ true
  pub no_intents : p.disk.ledger.publication_intents ≡ []
  pub acceptable : IsAcceptable p.part p.item_keys p.disk.ledger

remove_own : (intent : Intent) → remove_intents intent.part.index (intent ∷ []) ≡ []
remove_own intent = ground arith

module _ (euid : ℕ) (render : PartSidecar → File) (torn : File) (p : Publication) where
  module _ (valid : IsValid euid render p) where
    commit_total :
        Triple
          (With 1 (Placed render p))
          (commit_published_part_transaction p.part p.sidecar p.item_keys true)
          (λ _. With 0 (Committed render p))
          Never
    unfolding commit_published_part_transaction
    commit_total =
        let (ledger, takes) = commit_rows_succeeds (intent_of p) p.disk.ledger valid.acceptable in
        asks_known {P = With 1 (Placed render p)} _ _ (recorded_ledger p) (λ w h. h.0.ledger)
          (passes_rule _ _ ledger (lift_passes _ ledger takes) (
            durably_total {C = Placed render p} (Committed render p) 0 _ (λ d h. record {
              parts = h.parts;
              manifests = h.manifests;
              rows = commit_rows-IsCommitted (intent_of p) p.disk.ledger ledger h.fresh takes;
            })))

    complete_sidecar_total :
        Triple
          (With 2 (Moved render p))
          (complete_sidecar euid render torn none p.part.filename p.sidecar)
          (λ _. With 1 (Placed render p))
          Never
    unfolding complete_sidecar rename_noclobber
    complete_sidecar_total =
        let P = With 2 (Moved render p) in
        asks_known {P = P} _ _ (some (render p.sidecar)) (λ w h. h.0.sidecar)
          (passes_rule _ _ tt valid.reads_back (
            asks_known {P = P} _ _ (some (render p.sidecar)) (λ w h. h.0.sidecar)
              (asks_known {P = P} _ _ none
                (λ w h. ap (λ m. m (sidecar_name p.part.filename)) h.0.manifests ∙ h.0.no_sidecar)
                (bind_rule
                  (passes_rule _ _ (render p.sidecar) (or_fail_passes (render p.sidecar) _) (
                    passes_rule _ _ tt (require_passes true _ refl) (
                      durably_total {C = Moved render p} (Placed render p) 1 _ (λ d h. record {
                        parts = h.parts;
                        manifests =
                            ap (λ m. set m (sidecar_name p.part.filename) (some (render p.sidecar)))
                              h.manifests;
                        ledger = h.ledger;
                        fresh = h.fresh;
                      }))))
                  (λ _. bind_rule (sync_total (Placed render p) 1) (λ _.
                    asks_known {P = With 1 (Placed render p)} _ _ (some (render p.sidecar))
                      (λ w h.
                        ap (λ m. m (sidecar_name p.part.filename)) h.0.manifests
                        ∙ set_same p.disk.manifests (sidecar_name p.part.filename)
                            (some (render p.sidecar)))
                      (ends_passing valid.reads_back)))))))
      where
        ends_passing :
            {m : Action (Unit {0})}
            → ((w : World) → m w ≡ (ok tt, w))
            → Triple (With 1 (Placed render p)) m (λ _. With 1 (Placed render p)) Never
        ends_passing {m} passes = record { runs = λ w h. rw (passes w) h }

    -- The steps of a reconciliation that come before the part is looked for.
    checked_intent :
        (P : World → Type 0) (Q : World → Type 0) (m : Action (Unit {0}))
        → Triple P m (λ _. Q) Never
        → Triple P
            (do
              validate_part_record p.part
              validate_sidecar p.part p.sidecar
              require
                  (not (length p.item_keys == 0))
                  (integrity "publication intent for part has no candidates")
              m)
            (λ _. Q)
            Never
    checked_intent P Q m further = passes_rule _ _ tt valid.part (
        passes_rule _ _ tt valid.sidecar
          (passes_rule _ _ tt (require_passes _ _ valid.some_item) further))

    pub forget_intent :
        Triple
          (With 1 (Recorded render p))
          (reconcile_intent euid render torn false (intent_of p))
          (λ _. With 0 (Before render p))
          Never
    unfolding reconcile_intent
    forget_intent =
        let P = With 1 (Recorded render p) in
        checked_intent P (With 0 (Before render p)) _ (
          asks_known {P = P} _ _ none (λ w h. ap (λ m. m p.part.filename) h.0.parts ∙ h.0.no_part)
            (asks_known {P = P} _ _ none
              (λ w h. ap (λ m. m (sidecar_name p.part.filename)) h.0.manifests ∙ h.0.no_sidecar)
              (passes_rule _ _ tt (require_passes true _ refl) (
                durably_total {C = Recorded render p} (Before render p) 0 _ (λ d h. record {
                  parts = h.parts;
                  manifests = h.manifests;
                  ledger = ap forgotten h.ledger ∙ forgotten_recorded;
                  staged = h.staged;
                })))))
      where
        forgotten : Ledger → Ledger
        forgotten ledger =
            with_intents ledger (remove_intents p.part.index ledger.publication_intents)

        forgotten_recorded : forgotten (recorded_ledger p) ≡ p.disk.ledger
        forgotten_recorded =
            ap
              (λ intents.
                with_intents p.disk.ledger
                  (remove_intents p.part.index (intents ++ intent_of p ∷ [])))
              valid.no_intents
            ∙ ap (with_intents p.disk.ledger) (remove_own (intent_of p) ∙ sym valid.no_intents)

    pub finish_part :
        Triple
          (With 2 (Moved render p))
          (reconcile_intent euid render torn false (intent_of p))
          (λ _. With 0 (Committed render p))
          Never
    unfolding reconcile_intent
    finish_part =
        let P = With 2 (Moved render p) in
        checked_intent P (With 0 (Committed render p)) _ (
          asks_known {P = P} _ _ (some p.file)
            (λ w h.
              ap (λ m. m p.part.filename) h.0.parts
              ∙ set_same p.disk.parts p.part.filename (some p.file))
            (asks_known {P = P} _ _ none
              (λ w h. ap (λ m. m (sidecar_name p.part.filename)) h.0.manifests ∙ h.0.no_sidecar)
              (passes_rule _ _ tt valid.file
                (bind_rule complete_sidecar_total (λ _. commit_total)))))

    pub finish_ledger :
        Triple
          (With 1 (Placed render p))
          (reconcile_intent euid render torn false (intent_of p))
          (λ _. With 0 (Committed render p))
          Never
    unfolding reconcile_intent complete_sidecar
    finish_ledger =
        let P = With 1 (Placed render p) in
        checked_intent P (With 0 (Committed render p)) _ (
          asks_known {P = P} _ _ (some p.file)
            (λ w h.
              ap (λ m. m p.part.filename) h.0.parts
              ∙ set_same p.disk.parts p.part.filename (some p.file))
            (asks_known {P = P} _ _ (some (render p.sidecar))
              (λ w h.
                ap (λ m. m (sidecar_name p.part.filename)) h.0.manifests
                ∙ set_same p.disk.manifests (sidecar_name p.part.filename)
                    (some (render p.sidecar)))
              (passes_rule _ _ tt valid.file (passes_rule _ _ tt valid.reads_back commit_total))))
