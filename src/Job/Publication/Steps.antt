-- ===== src/Job/Publication/Steps.antt =====
-- Each step of `publish_part_with_interrupt` (crates/pstforge-job/src/lib.rs) from its phase to the next,
-- with the phase that an error or a crash leaves.
use pstforge.Base.{ℕ, Bool, true, Option, none, some, ok, ◌≡◌, sym, ap, ◌∙◌, ap₂}
use pstforge.Job.World.{PartSidecar, File, set, Disk, World, Action, sync_directory}
use pstforge.Job.Checks.{sidecar_name, staged_sidecar_name}
use pstforge.Job.Publication.{
  move_part, move_sidecar, with_ledger, rename_noclobber, commit_rows,
  commit_published_part_transaction, publish_recorded,
}
use pstforge.Job.Triples.{
  Triple, On, IsReadOnly, bind_rule, weaken, asks_rule, require_rule, or_fail_rule, lift_rule,
  durably_rule, read_only_rule, check_interrupted-IsReadOnly, sync_directory-IsReadOnly,
}
use pstforge.Job.Publication.Phases.{
  Publication, intent_of, Recorded, Moved, Placed, Committed, Phase, recorded, moved, placed,
  verify_part_artifact-IsReadOnly, verify_sidecar_artifact-IsReadOnly, set_other,
}
use pstforge.Job.Publication.Rows.{commit_rows-IsCommitted}

module _ (euid : ℕ) (render : PartSidecar → File) (torn : File) (p : Publication) where
  abbrev pub AnyPhase : World → Type 0
  AnyPhase = On (Phase render p)

  rename_rule :
      (P Q : Disk → Type 0) (source destination : Option File) (move : File → Disk → Disk)
      → ((d : Disk) → P d → Phase render p d)
      → ((d : Disk) (file : File) → P d → source ≡ some file → Q (move file d))
      → Triple (On P) (rename_noclobber source destination move) (λ _. On Q) AnyPhase
  unfolding rename_noclobber
  rename_rule P Q source destination move keep step =
      bind_rule (or_fail_rule {P = On P} source _ (λ w h. keep w.disk h)) (λ file.
        bind_rule
          (require_rule {P = On (λ d. P d × (source ≡ some file))} _ _ (λ w h. keep w.disk h.0))
          (λ _.
            weaken (λ w h. h.0)
              (durably_rule {P = λ d. P d × (source ≡ some file)} Q (move file) (λ d h. keep d h.0)
                (λ d h. step d file h.0 h.1))))

  -- A step that only reads, in a phase.
  pub reads_rule :
      {A : Type 0} (P : Disk → Type 0) (m : Action A)
      → ((d : Disk) → P d → Phase render p d)
      → IsReadOnly m
      → Triple (On P) m (λ _. On P) AnyPhase
  reads_rule P m keep same = read_only_rule {P = P} m keep same

  synced_rule :
      (P : Disk → Type 0)
      → ((d : Disk) → P d → Phase render p d)
      → Triple (On P) sync_directory (λ _. On P) AnyPhase
  synced_rule P keep = reads_rule P _ keep sync_directory-IsReadOnly

  commit_rule :
      Triple
        (On (Placed render p))
        (commit_published_part_transaction p.part p.sidecar p.item_keys true)
        (λ _. On (Committed render p))
        AnyPhase
  unfolding commit_published_part_transaction
  commit_rule = bind_rule (asks_rule {P = On (Placed render p)} (λ disk. disk.ledger)) (λ ledger.
      bind_rule
        (lift_rule {P = On (λ d. Placed render p d × (ledger ≡ d.ledger))}
          (commit_rows p.part p.sidecar p.item_keys true ledger) (λ w h. placed h.0))
        (λ done.
          durably_rule
            {P = λ d.
              (Placed render p d × (ledger ≡ d.ledger))
              × (commit_rows p.part p.sidecar p.item_keys true ledger ≡ ok done)}
            (Committed render p) (λ disk. with_ledger disk done) (λ d h. placed h.0.0)
            (λ d h. record {
              parts = h.0.0.parts;
              manifests = h.0.0.manifests;
              rows = commit_rows-IsCommitted (intent_of p) p.disk.ledger done h.0.0.fresh (
                  ap (commit_rows p.part p.sidecar p.item_keys true) (sym (h.0.1 ∙ h.0.0.ledger))
                  ∙ h.1);
            })))

  move_sidecar_rule :
      (source destination : Option File)
      → Triple
          (On (λ d.
            (Moved render p d × (source ≡ d.partial (staged_sidecar_name p.part.filename)))
            × (destination ≡ d.manifests (sidecar_name p.part.filename))))
          (rename_noclobber source destination
            (move_sidecar (staged_sidecar_name p.part.filename) (sidecar_name p.part.filename)))
          (λ _. On (Placed render p))
          AnyPhase
  move_sidecar_rule source destination =
      rename_rule _ (Placed render p) source destination _ (λ d h. moved h.0.0)
        (λ d file h e.
          let same : some (render p.sidecar) ≡ some file = sym h.0.0.sidecar ∙ sym h.0.1 ∙ e in
          record {
            parts = h.0.0.parts;
            manifests =
                ap₂ (λ m f. set m (sidecar_name p.part.filename) f) h.0.0.manifests (sym same);
            ledger = h.0.0.ledger;
            fresh = h.0.0.fresh;
          })

  move_part_rule :
      (source destination : Option File)
      → Triple
          (On (λ d.
            (Recorded render p d × (source ≡ d.partial p.staged))
            × (destination ≡ d.parts p.part.filename)))
          (rename_noclobber source destination (move_part p.staged p.part.filename))
          (λ _. On (Moved render p))
          AnyPhase
  move_part_rule source destination =
      rename_rule _ (Moved render p) source destination _ (λ d h. recorded h.0.0)
        (λ d file h e.
          let same : some p.file ≡ some file = sym h.0.0.staged ∙ sym h.0.1 ∙ e in
          record {
            parts = ap₂ (λ m f. set m p.part.filename f) h.0.0.parts (sym same);
            manifests = h.0.0.manifests;
            ledger = h.0.0.ledger;
            fresh = h.0.0.fresh;
            sidecar =
                set_other d.partial p.staged (staged_sidecar_name p.part.filename) none h.0.0.apart
                ∙ h.0.0.sidecar;
            no_sidecar = h.0.0.no_sidecar;
          })

  -- The steps on the intent, from the move of the part on.
  pub publish_recorded_rule :
      (watch : Bool)
      → Triple
          (On (Recorded render p))
          (publish_recorded euid render torn watch p.staged p.part p.sidecar p.item_keys)
          (λ _. On (Committed render p))
          AnyPhase
  unfolding publish_recorded
  publish_recorded_rule watch = bind_rule (asks_rule {P = On (Recorded render p)} _) (λ source.
      bind_rule (asks_rule {P = On (λ d. Recorded render p d × (source ≡ d.partial p.staged))} _)
        (λ destination. bind_rule (move_part_rule source destination) (λ _.
          bind_rule (synced_rule (Moved render p) (λ d h. moved h)) (λ _.
            bind_rule
              (reads_rule (Moved render p) _ (λ d h. moved h) (check_interrupted-IsReadOnly watch))
              (λ _. bind_rule (asks_rule {P = On (Moved render p)} _) (λ published.
                weaken (λ w h. h.0)
                  (bind_rule
                    (reads_rule (Moved render p) _ (λ d h. moved h)
                      (verify_part_artifact-IsReadOnly euid watch published p.part p.sidecar))
                    (λ _.
                      bind_rule
                        (reads_rule (Moved render p) _ (λ d h. moved h)
                          (check_interrupted-IsReadOnly watch))
                        (λ _. bind_rule (asks_rule {P = On (Moved render p)} _) (λ staged_sidecar.
                          bind_rule
                            (asks_rule
                              {P = On (λ d.
                                Moved render p d
                                × (staged_sidecar
                                    ≡ d.partial (staged_sidecar_name p.part.filename)))}
                              _)
                            (λ manifest. bind_rule (move_sidecar_rule staged_sidecar manifest) (λ _.
                              bind_rule (synced_rule (Placed render p) (λ d h. placed h)) (λ _.
                                bind_rule
                                  (reads_rule (Placed render p) _ (λ d h. placed h)
                                    (check_interrupted-IsReadOnly watch))
                                  (λ _.
                                    bind_rule (asks_rule {P = On (Placed render p)} _)
                                      (λ final_sidecar.
                                        weaken (λ w h. h.0)
                                          (bind_rule
                                            (reads_rule (Placed render p) _ (λ d h. placed h)
                                              (verify_sidecar_artifact-IsReadOnly euid final_sidecar
                                                p.sidecar))
                                            (λ _.
                                              bind_rule
                                                (reads_rule (Placed render p) _ (λ d h. placed h)
                                                  (check_interrupted-IsReadOnly watch))
                                                (λ _. commit_rule))))))))))))))))))
