-- ===== src/Governance/Promotion/Evidence.antt =====
-- What an automated promotion rests on, and that it stays behind the registry's gate.
use realtime_fraud_detection.Common.{
  ◌≡◌, refl, String, Bool, true, false, ◌⊎◌, inl, inr, Option, none, some, List, [], ◌∷◌,
  Bool-cases, or_else, ◌↔◌, arith, Option-cases, ◌∙◌, sym, ap, subst,
}
use realtime_fraud_detection.Common.Dict.{Dict, get}
use realtime_fraud_detection.Common.Floating.{Floating, ◌<ᶠ◌, lit}
use realtime_fraud_detection.Config.{Settings}
use realtime_fraud_detection.Storage.Tables.{Stamp}
use realtime_fraud_detection.Governance.Registry.{
  ModelVersion, Mlflow, IsMlflow, World, get_latest_staging_version, promote_model,
}
use realtime_fraud_detection.Governance.Registry.Gate.{IsGoverned, promote_model-IsGoverned}
use realtime_fraud_detection.Governance.Promotion.{
  DriftReport, unfair, fairness_from, approved_by, evaluate_validation_gate, notes_of,
  promote_candidate, validate_candidate, seek_candidate, maybe_auto_promote,
}

List-cases : {X : Type 0} (l : List X) → (l ≡ []) ⊎ ((x : X) × (xs : List X) × (l ≡ x ∷ xs))
List-cases [] = inl refl
List-cases (x ∷ xs) = inr (x, xs, refl)

module _ {A R S : Type 0} ⦃f : Floating A⦄ (m : Mlflow S)
    (get_run_metrics : String → Option (Dict A)) (stamp : Stamp) (db_up : Bool)
    (settings : Settings A) (model_name : String) where
  -- The evidence for a promotion of the newest staged version, and what it did to the two stores.
  pub record IsJustified (drift_report : Option DriftReport) (w w' : World A R S) : Type 0 where
    pub report : DriftReport
    pub candidate : ModelVersion
    pub metrics : Dict A
    pub notes : String
    pub enabled : settings.enable_automated_promotion ≡ true
    pub reported : drift_report ≡ some report
    pub drifted : report.any_drift_detected ≡ true
    pub staged : get_latest_staging_version m model_name w.mlflow ≡ some (some candidate)
    pub measured : get_run_metrics candidate.run_id ≡ some metrics
    pub passed : evaluate_validation_gate settings metrics ≡ []
    pub promotion :
        w'
        ≡ (promote_model m stamp db_up model_name candidate.version approved_by
            (some notes)
            (some metrics)
            w).1

  without_report :
      (w : World A R S)
      → (maybe_auto_promote m get_run_metrics stamp db_up settings model_name none w).1 ≡ w
  unfolding maybe_auto_promote
  without_report w = elim (Bool-cases settings.enable_automated_promotion) [
    | inl on ↦ rw (on, maybe_auto_promote) refl
    | inr off ↦ rw (off, maybe_auto_promote) refl
  ]

  -- the step from the gate on, for a candidate whose metrics are there
  validate-IsJustified :
      (report : DriftReport) (candidate : ModelVersion) (metrics : Dict A) (w w' : World A R S)
      → settings.enable_automated_promotion ≡ true
      → report.any_drift_detected ≡ true
      → get_latest_staging_version m model_name w.mlflow ≡ some (some candidate)
      → get_run_metrics candidate.run_id ≡ some metrics
      → w'
        ≡ (validate_candidate m get_run_metrics stamp db_up settings model_name report candidate
            w).1
      → (w' ≡ w) ⊎ IsJustified (some report) w w'
  unfolding validate_candidate promote_candidate
  validate-IsJustified report candidate metrics w w' on drift staged measured h =
      elim (List-cases (evaluate_validation_gate settings metrics)) [
        | inr (reason, reasons, failed) ↦ inl (h ∙ rw (measured, failed, validate_candidate) refl)
        | inl passed ↦ elim (Option-cases (notes_of report metrics)) [
          | inl missing ↦
              inl (h ∙ rw (measured, passed, missing, validate_candidate, promote_candidate) refl)
          | inr (notes, written) ↦ inr (record {
            report = report;
            candidate = candidate;
            metrics = metrics;
            notes = notes;
            enabled = on;
            reported = refl;
            drifted = drift;
            staged = staged;
            measured = measured;
            passed = passed;
            promotion =
                h ∙ rw (measured, passed, written, validate_candidate, promote_candidate) refl;
          })
        ]
      ]

  seek-IsJustified :
      (report : DriftReport) (w : World A R S) {w' : World A R S}
      → settings.enable_automated_promotion ≡ true
      → report.any_drift_detected ≡ true
      → w' ≡ (seek_candidate m get_run_metrics stamp db_up settings model_name report w).1
      → (w' ≡ w) ⊎ IsJustified (some report) w w'
  unfolding seek_candidate validate_candidate
  seek-IsJustified report w {w' = w'} on drift h =
      elim (Option-cases (get_latest_staging_version m model_name w.mlflow)) [
        | inl raised ↦ inl (h ∙ rw (raised, seek_candidate) refl)
        | inr (found, answered) ↦ elim (Option-cases found) [
          | inl nothing ↦ inl (h ∙ rw (answered, nothing, seek_candidate) refl)
          | inr (candidate, there) ↦ elim (Option-cases (get_run_metrics candidate.run_id)) [
            | inl unmeasured ↦
                inl (h ∙ rw (answered, there, seek_candidate, unmeasured, validate_candidate) refl)
            | inr (metrics, measured) ↦
                validate-IsJustified report candidate metrics w w' on drift
                  (answered ∙ ap some there) measured
                  (h ∙ rw (answered, there, seek_candidate) refl)
          ]
        ]
      ]

  -- An automated promotion leaves both stores as they are, or it was enabled, drift was reported, the
  -- newest staged version passed the validation gate on its own run's metrics, and all that happened is
  -- the registry's promotion of that version in the name "airflow-automated-promotion".
  pub maybe_auto_promote-IsJustified :
      (drift_report : Option DriftReport) (w : World A R S)
      → let w' =
          (maybe_auto_promote m get_run_metrics stamp db_up settings model_name drift_report w).1 in
        (w' ≡ w) ⊎ IsJustified drift_report w w'
  unfolding maybe_auto_promote seek_candidate validate_candidate promote_candidate
  maybe_auto_promote-IsJustified none w = inl (without_report w)
  maybe_auto_promote-IsJustified (some report) w =
      elim (Bool-cases settings.enable_automated_promotion) [
        | inr off ↦ inl (rw (off, maybe_auto_promote) refl)
        | inl on ↦ elim (Bool-cases report.any_drift_detected) [
          | inr calm ↦ inl (rw (on, calm, maybe_auto_promote) refl)
          | inl drift ↦ seek-IsJustified report w on drift (rw (on, drift, maybe_auto_promote) refl)
        ]
      ]

  -- In a registry that behaves as documented: if every Production version is approved on record, it
  -- is so after an automated promotion too, however it ends.
  pub maybe_auto_promote-IsGoverned :
      (laws : IsMlflow m) (drift_report : Option DriftReport) (w : World A R S)
      → IsGoverned m w
      → IsGoverned m
          (maybe_auto_promote m get_run_metrics stamp db_up settings model_name drift_report w).1
  maybe_auto_promote-IsGoverned laws drift_report w h =
      elim (maybe_auto_promote-IsJustified drift_report w) [
        | inl unchanged ↦ subst (IsGoverned m) (sym unchanged) h
        | inr j ↦ subst (IsGoverned m) (sym j.promotion) (
            promote_model-IsGoverned m laws stamp db_up model_name j.candidate.version approved_by
              (some j.notes) (some j.metrics) w h)
      ]

module _ {A : Type 0} ⦃f : Floating A⦄ where
  -- The gate gives no reason exactly where the recall and the precision, 0 if they are missing, are
  -- not below their floors and the countries' recalls are not too far apart.
  pub evaluate_validation_gate_lem :
      (settings : Settings A) (metrics : Dict A)
      → (evaluate_validation_gate settings metrics ≡ []) ↔ (
          (or_else (get "recall" metrics) (lit 0 0) <ᶠ settings.auto_promotion_min_recall ≡ false)
          × (or_else (get "precision" metrics) (lit 0 0) <ᶠ settings.auto_promotion_min_precision
              ≡ false)
          × (unfair settings (fairness_from [] metrics) ≡ []))
  unfolding evaluate_validation_gate
  evaluate_validation_gate_lem settings metrics = ground arith
