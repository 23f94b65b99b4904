-- ===== src/Job/Publication/Whole.antt =====
-- `publish_part_with_interrupt` (crates/pstforge-job/src/lib.rs) as a whole: the open batch, the intent,
-- and the steps before and after it.
use pstforge.Base.{ℕ, Bool, true, false, not, some, ◌≡◌, refl, sym, ap, ◌∙◌}
use pstforge.Job.World.{pure, PartSidecar, File, Ledger, Disk, World}
use pstforge.Job.Publication.{
  has_intent, record_publication_intent, check_available, publish_part_with_interrupt,
  CandidateBatch, with_candidates, commit_batch_if, commit_candidate_batch,
}
use pstforge.Job.Triples.{
  Triple, On, bind_rule, weaken, asks_rule, require_rule, lift_rule, durably_rule,
}
use pstforge.Job.Publication.Phases.{
  Publication, intent_of, Before, Staged, Recorded, Committed, Phase, unbatched, before,
}
use pstforge.Job.Publication.Rows.{recorded_in}
use pstforge.Job.Publication.Steps.{AnyPhase, publish_recorded_rule}
use pstforge.Job.Publication.Preparation.{prepare_part_rule}

-- The disk with the batch of candidates committed, when one is open.
abbrev pub batched : Bool → CandidateBatch → Disk → Disk
batched false batch disk = disk
batched true batch disk = with_candidates disk batch.candidates

module _ (euid : ℕ) (render : PartSidecar → File) (torn : File) (p : Publication) where
  record_rule :
      (active : Bool)
      → Triple
          (On (Staged render p))
          (record_publication_intent active p.part p.sidecar p.item_keys)
          (λ _. On (Recorded render p))
          (AnyPhase euid render torn p)
  unfolding record_publication_intent
  record_rule active =
      let keep : (w : World) → Staged render p w.disk → Phase render p w.disk =
        λ w h. before h.before in
      let known : Ledger → Disk → Type 0 = λ ledger d. Staged render p d × (ledger ≡ d.ledger) in
      let keep_known : (ledger : Ledger) (w : World) → known ledger w.disk → Phase render p w.disk =
        λ ledger w h. before h.0.before in
      bind_rule (require_rule {P = On (Staged render p)} _ _ keep) (λ _.
        weaken (λ w h. h.0)
          (bind_rule (asks_rule {P = On (Staged render p)} (λ disk. disk.ledger)) (λ ledger.
            bind_rule
              (lift_rule {P = On (known ledger)} (check_available p.item_keys ledger.candidates)
                (keep_known ledger))
              (λ _.
                weaken (λ w h. h.0)
                  (bind_rule
                    (require_rule {P = On (known ledger)}
                      (not (has_intent p.part.index ledger.publication_intents)) _
                      (keep_known ledger))
                    (λ _.
                      durably_rule
                        {P = λ d.
                          known ledger d
                          × (not (has_intent p.part.index ledger.publication_intents) ≡ true)}
                        (Recorded render p) _ (λ d h. before h.0.0.before)
                        (λ d h. record {
                          parts = h.0.0.before.parts;
                          manifests = h.0.0.before.manifests;
                          ledger = ap (recorded_in (intent_of p)) h.0.0.before.ledger;
                          fresh =
                              ap (λ l. has_intent p.part.index l.publication_intents)
                                (sym (h.0.1 ∙ h.0.0.before.ledger))
                              ∙ passed_not (has_intent p.part.index ledger.publication_intents) h.1;
                          staged = h.0.0.before.staged;
                          sidecar = h.0.0.sidecar;
                          apart = h.0.0.apart;
                          no_part = h.0.0.no_part;
                          no_sidecar = h.0.0.no_sidecar;
                        })))))))
    where
      passed_not : (b : Bool) → not b ≡ true → b ≡ false
      passed_not true e = cc
      passed_not false e = refl

  before_of : (d : Disk) → d ≡ p.disk → p.disk.partial p.staged ≡ some p.file → Before render p d
  before_of d same there = record {
    parts = ap (λ d. d.parts) same;
    manifests = ap (λ d. d.manifests) same;
    ledger = ap (λ d. d.ledger) same;
    staged = ap (λ d. d.partial p.staged) same ∙ there;
  }

  batch_rule :
      (is_open : Bool) (batch : CandidateBatch)
      → batched is_open batch p.start ≡ p.disk
      → p.disk.partial p.staged ≡ some p.file
      → Triple
          (On (λ d. d ≡ p.start))
          (commit_batch_if is_open batch)
          (λ _. On (Before render p))
          (AnyPhase euid render torn p)
  unfolding commit_batch_if pure
  batch_rule false batch same there = record { runs = λ w h. before_of w.disk (h ∙ same) there }
  batch_rule true batch same there =
      bind_rule (require_rule {P = On (λ d. d ≡ p.start)} _ _ (λ w h. unbatched h)) (λ _.
        weaken (λ w h. h.0)
          (bind_rule (require_rule {P = On (λ d. d ≡ p.start)} _ _ (λ w h. unbatched h)) (λ _.
            weaken (λ w h. h.0)
              (durably_rule {P = λ d. d ≡ p.start} (Before render p) _ (λ d h. unbatched h)
                (λ d h.
                  before_of _ (ap (λ d. with_candidates d batch.candidates) h ∙ same) there)))))

  pub publish_rule :
      (batch : CandidateBatch) (watch active : Bool)
      → batched batch.batch_open batch p.start ≡ p.disk
      → p.disk.partial p.staged ≡ some p.file
      → Triple
          (On (λ d. d ≡ p.start))
          (publish_part_with_interrupt euid render torn batch watch active p.staged p.part p.sidecar
            p.item_keys)
          (λ _. On (Committed render p))
          (On (Phase render p))
  unfolding publish_part_with_interrupt commit_candidate_batch
  publish_rule batch watch active same there =
      bind_rule (batch_rule batch.batch_open batch same there) (λ _.
        bind_rule (prepare_part_rule euid render torn p watch) (λ _.
          bind_rule (record_rule active) (λ _. publish_recorded_rule euid render torn p watch)))
