-- ===== src/Dags/Cycle.antt =====
-- What a cycle may change.
use realtime_fraud_detection.Common.{
  ℕ, ◌≡◌, ◌⊎◌, true, ap, ◌∙◌, String, Bool, false, List, ◌++◌, any, str_eq, inl, inr, Bool-cases,
  if◌then◌else◌,
}
use realtime_fraud_detection.Common.Floating.{Floating}
use realtime_fraud_detection.Common.Result.{Result-cases}
use realtime_fraud_detection.Config.{Settings}
use realtime_fraud_detection.Dags.{
  evaluate_and_promote, automated_promotion, retrain_and_promote, drift_cycle, no_drift_detected,
  CycleResult, check_failed, shown_option,
}
use realtime_fraud_detection.Dataset.{TrainingRow}
use realtime_fraud_detection.Drift.{Stats, Frame}
use realtime_fraud_detection.Drift.Check.{StoredReport, drift_detection}
use realtime_fraud_detection.Drift.Check.Decision.{reports_drift, drift_detection_lem}
use realtime_fraud_detection.Governance.Promotion.Evidence.{maybe_auto_promote-IsGoverned}
use realtime_fraud_detection.Governance.Registry.{Mlflow, IsMlflow, World}
use realtime_fraud_detection.Governance.Registry.Gate.{IsGoverned}
use realtime_fraud_detection.Storage.Governance.{approves, has_approval, get_latest_drift_report}
use realtime_fraud_detection.Storage.Tables.{Database, Stamp, DriftReportRecord}
use realtime_fraud_detection.Training.{Metrics}
use realtime_fraud_detection.Training.Governed.{run-Keeps}
use realtime_fraud_detection.Training.Learning.{Learning, Site}
use realtime_fraud_detection.Training.Pipeline.{run}
use realtime_fraud_detection.Training.Tracking.{Tracking, IsTracking}

-- a run whose reports find no drift
quiet_end :
    (failed drift : Bool) (next : String)
    → drift ≡ false
    → next ≡ (
        if failed
        then "upstream_failed"
        else if drift
        then "trigger_retrain"
        else "no_drift_detected")
    → (next ≡ "upstream_failed") ⊎ (next ≡ "no_drift_detected")
quiet_end true drift next none_found e = inl e
quiet_end false drift next none_found e =
    inr (e ∙ ap (λ b. if b then "trigger_retrain" else "no_drift_detected") none_found)

-- where a run of the check ends the cycle
abbrev pub Ends : CycleResult → Type 0
Ends result = (result ≡ no_drift_detected) ⊎ (result ≡ check_failed)

module _ {A S : Type 0} ⦃f : Floating A⦄ (m : Mlflow S) (registry : IsMlflow m) (t : Tracking A S)
    (show_list : List String → String) (db_up : Bool) (settings : Settings A) where
  evaluate_and_promote-IsGoverned :
      (stamp : Stamp) (name : String) (w : World A (StoredReport A) S)
      → IsGoverned m w
      → IsGoverned m (evaluate_and_promote m t show_list db_up settings stamp name w).1
  unfolding evaluate_and_promote
  evaluate_and_promote-IsGoverned stamp name w h =
      maybe_auto_promote-IsGoverned m (λ run_id. t.run_metrics run_id w.mlflow) stamp db_up settings
        name registry (shown_option show_list (get_latest_drift_report name w.db)) w h

  automated_promotion-IsGoverned :
      (first second : Stamp) (w : World A (StoredReport A) S)
      → IsGoverned m w
      → IsGoverned m (automated_promotion m t show_list db_up settings first second w).1
  unfolding automated_promotion
  automated_promotion-IsGoverned first second w h =
      let w1 = (evaluate_and_promote m t show_list db_up settings first "fraud_xgboost" w).1 in
      evaluate_and_promote-IsGoverned second "fraud_lightgbm" w1
        (evaluate_and_promote-IsGoverned first "fraud_xgboost" w h)

module _ {A S : Type 0} ⦃f : Floating A⦄ (stats : Stats A) (m : Mlflow S) (registry : IsMlflow m)
    (t : Tracking A S) (laws : IsTracking t m) (metrics : Metrics A) (l : Learning A)
    (generated_at : String) (show_list : List String → String) (db_up : Bool)
    (settings : Settings A) where
  retrain_and_promote-IsGoverned :
      (generated : List (TrainingRow A)) (now : ℕ) (first second : Stamp)
      (site : Site A (StoredReport A) S)
      → IsGoverned m site.world
      → IsGoverned m
          (retrain_and_promote stats m t metrics l generated_at show_list db_up settings generated
            now first second site).1.world
  unfolding retrain_and_promote
  retrain_and_promote-IsGoverned generated now first second site h =
      let done = run m t metrics l generated_at generated now db_up settings site in
      let kept : IsGoverned m done.1.world =
        (run-Keeps m registry t laws metrics l generated_at generated now db_up settings
            site).governed
          h in
      elim (Result-cases done.0) [
        | inr (e, failed) ↦ rw (failed, retrain_and_promote) kept
        | inl (r, trained) ↦
            rw (trained, retrain_and_promote)
              (automated_promotion-IsGoverned m registry t show_list db_up settings first second
                done.1.world kept)
      ]

  -- the drift check itself touches neither the registry nor the approvals
  checked-IsGoverned :
      (iso : ℕ → String) (training_df : Frame A) (now : ℕ) (first second : Stamp)
      (site : Site A (StoredReport A) S)
      → IsGoverned m site.world
      → IsGoverned m (record site.world {
        db = (drift_detection stats iso training_df now first second site.world.db).1;
      })
  unfolding has_approval
  checked-IsGoverned iso training_df now first second site h n v at =
      let (new, e, _, _) =
        drift_detection_lem stats iso training_df now first second site.world.db in
      ap (λ (d : Database A (StoredReport A)). any (approves n v "Production") d.model_approvals) e
      ∙ h n v at

  -- how a cycle ends that does not retrain
  drift_cycle-Ends :
      (iso : ℕ → String) (training_df : Frame A) (generated : List (TrainingRow A)) (now : ℕ)
      (reports approvals : Stamp × Stamp) (site : Site A (StoredReport A) S)
      → let found = drift_detection stats iso training_df now reports.0 reports.1 site.world.db in
        let (result, site') =
          drift_cycle stats m t metrics l generated_at show_list db_up settings iso training_df
            generated now reports approvals site in
        (found.0 ≡ "upstream_failed") ⊎ (found.0 ≡ "no_drift_detected")
        → Ends result × (site' ≡ record site { world = record site.world { db = found.1 } })
  unfolding drift_cycle
  drift_cycle-Ends iso training_df generated now reports approvals site (inl failed) =
      (inr (rw (failed, drift_cycle)), rw (failed, drift_cycle))
  drift_cycle-Ends iso training_df generated now reports approvals site (inr quiet) =
      (inl (rw (quiet, drift_cycle)), rw (quiet, drift_cycle))

  -- A cycle of the drift check keeps every Production version approved on record, through the retraining and the
  -- automated promotions that it triggers, however they end. If none of the reports that its check appends finds
  -- drift, it ends there, with or without a failure of the check: it trains nothing and promotes nothing, and all
  -- is as before but for those reports.
  pub drift_cycle-IsGoverned :
      (iso : ℕ → String) (training_df : Frame A) (generated : List (TrainingRow A)) (now : ℕ)
      (reports approvals : Stamp × Stamp) (site : Site A (StoredReport A) S)
      → let (result, site') =
          drift_cycle stats m t metrics l generated_at show_list db_up settings iso training_df
            generated now reports approvals site in
        let before = site.world.db in
        let db = (drift_detection stats iso training_df now reports.0 reports.1 before).1 in
        (IsGoverned m site.world → IsGoverned m site'.world)
        × (new : List (DriftReportRecord (StoredReport A))) × (db
            ≡ record before { drift_reports = before.drift_reports ++ new })
        × (reports_drift new ≡ false
            → Ends result
              × (site' ≡ record site {
                world = record site.world {
                  db = record before { drift_reports = before.drift_reports ++ new };
                };
              }))
  unfolding drift_cycle
  drift_cycle-IsGoverned iso training_df generated now reports approvals site =
      let found = drift_detection stats iso training_df now reports.0 reports.1 site.world.db in
      let checked = record site { world = record site.world { db = found.1 } } in
      let (new, frame, _, next) =
        drift_detection_lem stats iso training_df now reports.0 reports.1 site.world.db in
      (
        λ h.
            let calm = checked-IsGoverned iso training_df now reports.0 reports.1 site h in
            elim (Bool-cases (str_eq found.0 "trigger_retrain")) [
              | inr stop ↦ elim (Bool-cases (str_eq found.0 "upstream_failed")) [
                | inl e ↦ rw (stop, e, drift_cycle) calm
                | inr e ↦ rw (stop, e, drift_cycle) calm
              ]
              | inl go ↦
                  rw (go, drift_cycle)
                    (retrain_and_promote-IsGoverned generated now approvals.0 approvals.1 checked
                      calm)
            ],
        new,
        frame,
        λ none_found.
            let quiet : (found.0 ≡ "upstream_failed") ⊎ (found.0 ≡ "no_drift_detected") =
              quiet_end _ _ found.0 none_found next in
            let (ends, same) =
              drift_cycle-Ends iso training_df generated now reports approvals site quiet in
            (
              ends,
              same
                  ∙ ap
                      (λ (d : Database A (StoredReport A)). record site {
                        world = record site.world { db = d };
                      })
                      frame,
            ),
      )
