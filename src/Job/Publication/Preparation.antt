-- ===== src/Job/Publication/Preparation.antt =====
-- The steps of `publish_part_with_interrupt` (crates/pstforge-job/src/lib.rs) up to the staged sidecar:
-- each from its phase to the next, with the phase that an error or a crash leaves.
use pstforge.Base.{
  ℕ, Bool, true, false, Option, none, some, Text, same_text, same_text_sym, ◌≡◌, refl, sym, ap, ◌∙◌,
}
use pstforge.Job.World.{PartSidecar, File, Disk, Action, asks, check_interrupted, ◌>>=◌, ◌>>◌}
use pstforge.Job.Checks.{
  validate_part_record, validate_sidecar, staged_part_path, sidecar_name, staged_sidecar_name,
}
use pstforge.Job.Publication.{
  set_partial, is_absent, refuse_existing, write_sidecar_partial, prepare_part,
}
use pstforge.Job.Triples.{
  Triple, On, IsReadOnly, bind_rule, weaken, asks_rule, require_rule, durably_rule,
  require-IsReadOnly, check_interrupted-IsReadOnly,
}
use pstforge.Job.Publication.Phases.{
  Publication, Before, Staged, Phase, before, verify_part_artifact-IsReadOnly,
  verify_sidecar_artifact-IsReadOnly, set_same, set_other, names_apart,
}
use pstforge.Job.Publication.Steps.{AnyPhase, reads_rule}

absent-none : (found : Option File) → is_absent found ≡ true → found ≡ none
absent-none none e = refl
absent-none (some file) e = cc

module _ (euid : ℕ) (render : PartSidecar → File) (torn : File) (p : Publication) where
  -- What holds in a phase, and a name that is free.
  refuse_rule :
      (P : Disk → Type 0) (found : Option File)
      → ((d : Disk) → P d → Phase render p d)
      → Triple
          (On P)
          (refuse_existing found)
          (λ _. On (λ d. P d × (is_absent found ≡ true)))
          (AnyPhase euid render torn p)
  unfolding refuse_existing
  refuse_rule P found keep = require_rule {P = On P} (is_absent found) _ (λ w h. keep w.disk h)

  abbrev SidecarFree : Disk → Type 0
  SidecarFree d =
      Before render p d
      × (p.disk.parts p.part.filename ≡ none)
      × (p.disk.manifests (sidecar_name p.part.filename) ≡ none)

  write_sidecar_rule :
      Triple
        (On SidecarFree)
        (write_sidecar_partial euid render torn (staged_sidecar_name p.part.filename) p.sidecar)
        (λ _. On (Staged render p))
        (AnyPhase euid render torn p)
  unfolding write_sidecar_partial
  write_sidecar_rule =
      let name = staged_sidecar_name p.part.filename in
      let apart_free : Disk → Type 0 = λ d. SidecarFree d × (same_text name p.staged ≡ false) in
      bind_rule (asks_rule {P = On SidecarFree} _) (λ found.
        bind_rule
          (require_rule {P = On (λ d. SidecarFree d × (found ≡ d.partial name))} (is_absent found) _
            (λ w h. before h.0.0))
          (λ _.
            weaken {P = On apart_free}
              (λ w h. (
                h.0.0,
                names_apart w.disk.partial p.staged name p.file h.0.0.0.staged
                    (sym h.0.1 ∙ absent-none found h.1),
              ))
              (bind_rule
                (durably_rule {P = apart_free} apart_free (set_partial name (some torn))
                  (λ d h. before h.0.0) (λ d h. (kept d name torn h.1 h.0, h.1)))
                (λ _.
                  bind_rule
                    (durably_rule {P = apart_free} (Staged render p)
                      (set_partial name (some (render p.sidecar))) (λ d h. before h.0.0)
                      (λ d h.
                        let (still, no_part, no_sidecar) = kept d name (render p.sidecar) h.1 h.0 in
                        record {
                          before = still;
                          sidecar = set_same d.partial name (some (render p.sidecar));
                          apart = h.1;
                          no_part = no_part;
                          no_sidecar = no_sidecar;
                        }))
                    (λ _. bind_rule (asks_rule {P = On (Staged render p)} _) (λ written_file.
                      weaken (λ w h. h.0)
                        (reads_rule euid render torn p (Staged render p) _ (λ d h. before h.before)
                          (verify_sidecar_artifact-IsReadOnly euid written_file p.sidecar))))))))
    where
      kept :
          (d : Disk) (name : Text) (file : File)
          → same_text name p.staged ≡ false
          → SidecarFree d
          → SidecarFree (set_partial name (some file) d)
      kept d name file apart (h, no_part, no_sidecar) = (
        record {
          parts = h.parts;
          manifests = h.manifests;
          ledger = h.ledger;
          staged =
              set_other d.partial name p.staged (some file) (same_text_sym name p.staged apart)
              ∙ h.staged;
        },
        no_part,
        no_sidecar,
      )

  validate_part_record-IsReadOnly : IsReadOnly (validate_part_record p.part)
  unfolding validate_part_record
  validate_part_record-IsReadOnly = require-IsReadOnly _ _

  validate_sidecar-IsReadOnly : IsReadOnly (validate_sidecar p.part p.sidecar)
  unfolding validate_sidecar
  validate_sidecar-IsReadOnly = require-IsReadOnly _ _

  staged_part_path-IsReadOnly : IsReadOnly (staged_part_path p.staged)
  unfolding staged_part_path
  staged_part_path-IsReadOnly = require-IsReadOnly _ _

  abbrev in_before :
      {A : Type 0} (m : Action A)
      → IsReadOnly m
      → Triple (On (Before render p)) m (λ _. On (Before render p)) (AnyPhase euid render torn p)
  in_before m same = reads_rule euid render torn p (Before render p) m (λ d h. before h) same

  places_free_rule :
      (watch : Bool)
      → Triple
          (On SidecarFree)
          (do
            staged_sidecar ← asks (λ disk. disk.partial (staged_sidecar_name p.part.filename))
            refuse_existing staged_sidecar
            write_sidecar_partial euid render torn (staged_sidecar_name p.part.filename) p.sidecar
            check_interrupted watch)
          (λ _. On (Staged render p))
          (AnyPhase euid render torn p)
  places_free_rule watch = bind_rule (asks_rule {P = On SidecarFree} _) (λ staged_sidecar.
      weaken (λ w h. h.0)
        (bind_rule (refuse_rule SidecarFree staged_sidecar (λ d h. before h.0)) (λ _.
          weaken (λ w h. h.0)
            (bind_rule write_sidecar_rule (λ _.
              reads_rule euid render torn p (Staged render p) _ (λ d h. before h.before)
                (check_interrupted-IsReadOnly watch))))))

  pub prepare_part_rule :
      (watch : Bool)
      → Triple
          (On (Before render p))
          (prepare_part euid render torn watch p.staged p.part p.sidecar)
          (λ _. On (Staged render p))
          (AnyPhase euid render torn p)
  unfolding prepare_part
  prepare_part_rule watch = bind_rule (in_before _ validate_part_record-IsReadOnly) (λ _.
      bind_rule (in_before _ validate_sidecar-IsReadOnly) (λ _.
        bind_rule (in_before _ staged_part_path-IsReadOnly) (λ _.
          bind_rule (asks_rule {P = On (Before render p)} _) (λ source.
            weaken (λ w h. h.0)
              (bind_rule
                (in_before _ (verify_part_artifact-IsReadOnly euid watch source p.part p.sidecar))
                (λ _. bind_rule (in_before _ (check_interrupted-IsReadOnly watch)) (λ _.
                  bind_rule (asks_rule {P = On (Before render p)} _) (λ final.
                    bind_rule
                      (refuse_rule (λ d. Before render p d × (final ≡ d.parts p.part.filename))
                        final (λ d h. before h.0))
                      (λ _.
                        weaken
                          {P = On (λ d. Before render p d × (p.disk.parts p.part.filename ≡ none))}
                          (λ w h. (
                            h.0.0,
                            ap (λ parts. parts p.part.filename) (sym h.0.0.parts)
                                ∙ sym h.0.1
                                ∙ absent-none final h.1,
                          ))
                          (bind_rule
                            (asks_rule
                              {P = On
                                (λ d. Before render p d × (p.disk.parts p.part.filename ≡ none))}
                              _)
                            (λ manifest.
                              bind_rule
                                (refuse_rule
                                  (λ d.
                                    (Before render p d × (p.disk.parts p.part.filename ≡ none))
                                    × (manifest ≡ d.manifests (sidecar_name p.part.filename)))
                                  manifest (λ d h. before h.0.0))
                                (λ _.
                                  weaken {P = On SidecarFree}
                                    (λ w h. (
                                      h.0.0.0,
                                      h.0.0.1,
                                      ap (λ manifests. manifests (sidecar_name p.part.filename))
                                            (sym h.0.0.0.manifests)
                                          ∙ sym h.0.1
                                          ∙ absent-none manifest h.1,
                                    ))
                                    (places_free_rule watch)))))))))))))
