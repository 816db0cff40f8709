-- ===== src/Training/Governed.antt =====
-- Training stays in front of the registry's gate.
use realtime_fraud_detection.Common.{
  ℕ, ◌≡◌, refl, sym, ap, ◌∙◌, String, Bool, Option, none, List, [], ◌∷◌, arith, eq_iff,
  Option-cases, inl, inr, map, if◌then◌else◌,
}
use realtime_fraud_detection.Common.Dict.{Dict}
use realtime_fraud_detection.Common.Floating.{Floating, lit}
use realtime_fraud_detection.Common.Result.{Result-cases}
use realtime_fraud_detection.Config.{Settings}
use realtime_fraud_detection.Dataset.{TrainingRow, build_feedback_dataset}
use realtime_fraud_detection.Governance.Registry.{
  Mlflow, IsMlflow, World, stage_of, register_and_stage,
}
use realtime_fraud_detection.Governance.Registry.Gate.{
  IsGoverned, world-get_version, register_and_stage-IsGoverned,
}
use realtime_fraud_detection.ModelCard.{DatasetSummary}
use realtime_fraud_detection.Scoring.FeatureRow.{Row}
use realtime_fraud_detection.Training.{Metrics, TestRow, evaluate, fairness_report}
use realtime_fraud_detection.Training.Learning.{
  Sample, Example, Learning, Site, Recipe, test_rows, prepare_split, matrix, labels,
}
use realtime_fraud_detection.Training.Pipeline.{
  merged, feedback_count, dataset_summary, xgboost_recipe, lightgbm_recipe, train_xgboost,
  train_lightgbm, run,
}
use realtime_fraud_detection.Training.Run.{log_training, register_trained, train}
use realtime_fraud_detection.Training.Tracking.{
  Tracking, IsTracking, fairness_metrics, log_metrics, log_params,
}

module _ {A S : Type 0} (t : Tracking A S) (m : Mlflow S) (laws : IsTracking t m)
    (n v : String) where
  stage_of-log_params :
      (run : String) (params : Dict String) (s : S)
      → stage_of m n v (log_params t run params s) ≡ stage_of m n v s
  unfolding log_params
  stage_of-log_params run [] s = refl
  stage_of-log_params run ((key, value) ∷ params) s =
      stage_of-log_params run params (t.log_param run key value s)
      ∙ laws.stage_of-log_param run key value s n v

  stage_of-log_metrics :
      (run : String) (metrics : Dict A) (s : S)
      → stage_of m n v (log_metrics t run metrics s) ≡ stage_of m n v s
  unfolding log_metrics
  stage_of-log_metrics run [] s = refl
  stage_of-log_metrics run ((key, value) ∷ metrics) s =
      stage_of-log_metrics run metrics (t.log_metric run key value s)
      ∙ laws.stage_of-log_metric run key value s n v

  -- no log of a training touches the registry
  stage_of-log_training :
      ⦃f : Floating A⦄ (metrics : Metrics A) (l : Learning A) (generated_at : String)
      (recipe : Recipe A) (summary : DatasetSummary A) (run : String) (rows : List (TestRow A))
      (s : S)
      → stage_of m n v (log_training t metrics l generated_at recipe summary run rows s)
        ≡ stage_of m n v s
  unfolding log_training
  stage_of-log_training metrics l generated_at recipe summary run rows s =
      let params = map (λ p. (p.0, l.show p.1)) recipe.params in
      let s1 = log_params t run params s in
      let s2 = log_params t run recipe.log_param s1 in
      let evaluation = evaluate metrics (lit 5 1) rows in
      let figures = fairness_metrics (fairness_report metrics l.in_order (lit 5 1) rows) in
      let s3 = log_metrics t run evaluation s2 in
      laws.stage_of-log_text run _ _ _ n v
      ∙ laws.stage_of-log_model run _ _ _ n v
      ∙ laws.stage_of-log_text run _ _ _ n v
      ∙ stage_of-log_metrics run figures s3
      ∙ stage_of-log_metrics run evaluation s2
      ∙ stage_of-log_params run recipe.log_param s1
      ∙ stage_of-log_params run params s

module _ {A R S : Type 0} (m : Mlflow S) where
  -- approvals on record stay as they are, and no version gets to Production without one
  pub record Keeps (w w' : World A R S) : Type 0 where
    pub governed : IsGoverned m w → IsGoverned m w'
    pub same_db : w'.db ≡ w.db

  Keeps-refl : (w : World A R S) → Keeps w w
  Keeps-refl w = record { governed = λ h. h; same_db = refl }

  Keeps-trans : (u v w : World A R S) → Keeps u v → Keeps v w → Keeps u w
  Keeps-trans u v w p q = record {
    governed = λ h. q.governed (p.governed h);
    same_db = q.same_db ∙ p.same_db;
  }

  stages-Keeps :
      (w : World A R S) (s : S)
      → ((n v : String) → stage_of m n v s ≡ stage_of m n v w.mlflow)
      → Keeps w (record w { mlflow = s })
  stages-Keeps w s same = record {
    governed = λ h n v at. h n v (sym (same n v) ∙ at);
    same_db = refl;
  }

  staging-Keeps :
      (registry : IsMlflow m) (run_id name artifact_path : String) (w : World A R S)
      → Keeps w (register_and_stage m run_id name artifact_path "Staging" w).1
  unfolding register_and_stage
  staging-Keeps registry run_id name artifact_path w = record {
    governed =
        register_and_stage-IsGoverned m registry run_id name artifact_path "Staging" w
          (λ e. ground (arith, e, eq_iff "Staging" "Production"));
    same_db = ap (λ u. u.db) (world-get_version m _ _ _);
  }

module _ {A R S : Type 0} ⦃f : Floating A⦄ (m : Mlflow S) (registry : IsMlflow m) (t : Tracking A S)
    (laws : IsTracking t m) (metrics : Metrics A) (l : Learning A) (generated_at : String) where
  register_trained-Keeps :
      (recipe : Recipe A) (summary : DatasetSummary A) (id : String) (rows : List (TestRow A))
      (site : Site A R S)
      → Keeps m site.world
          (register_trained m t metrics l generated_at recipe summary id rows site).1.world
  unfolding register_trained
  register_trained-Keeps recipe summary id rows site =
      let s = log_training t metrics l generated_at recipe summary id rows site.world.mlflow in
      let logged = record site.world { mlflow = s } in
      let staged = register_and_stage m id recipe.model_name "model" "Staging" logged in
      let kept : Keeps m site.world staged.1 =
        Keeps-trans m site.world logged staged.1
          (stages-Keeps m site.world s (λ n v.
            stage_of-log_training t m laws n v metrics l generated_at recipe summary id rows
              site.world.mlflow))
          (staging-Keeps m registry id recipe.model_name "model" logged) in
      elim (Result-cases staged.0) [
        | inl (x, done) ↦ rw (done, register_trained) kept
        | inr (e, failed) ↦ rw (failed, register_trained) kept
      ]

  train-Keeps :
      (recipe : Recipe A) (summary : DatasetSummary A) (fitted : Option (Row A → A))
      (test : List (Example A)) (site : Site A R S)
      → Keeps m site.world
          (train m t metrics l generated_at recipe summary fitted test site).1.world
  unfolding train
  train-Keeps recipe summary fitted test site =
      let s = (t.start_run recipe.run_name site.world.mlflow).0 in
      let id = (t.start_run recipe.run_name site.world.mlflow).1 in
      let started = record site { world = record site.world { mlflow = s } } in
      let begun : Keeps m site.world started.world =
        stages-Keeps m site.world s (laws.stage_of-start_run recipe.run_name site.world.mlflow) in
      elim (Option-cases fitted) [
        | inl raised ↦ rw (raised, train) begun
        | inr (model, fits) ↦ elim (Option-cases (test_rows model test)) [
          | inl unsorted ↦ rw (fits, unsorted, train) begun
          | inr (rows, tested) ↦
              rw (fits, tested, train)
                (Keeps-trans m site.world started.world _ begun
                  (register_trained-Keeps recipe summary id rows started))
        ]
      ]

  train_xgboost-Keeps :
      (df : List (Sample A)) (settings : Settings A) (summary : DatasetSummary A)
      (site : Site A R S)
      → Keeps m site.world
          (train_xgboost m t metrics l generated_at df settings summary site).1.world
  unfolding train_xgboost
  train_xgboost-Keeps df settings summary site = elim (Option-cases (prepare_split l df)) [
    | inl raised ↦ rw (raised, train_xgboost) (Keeps-refl m site.world)
    | inr ((train_rows, test), parted) ↦
        rw (parted, train_xgboost)
          (train-Keeps (xgboost_recipe l settings (labels train_rows)) summary _ test site)
  ]

  train_lightgbm-Keeps :
      (df : List (Sample A)) (settings : Settings A) (summary : DatasetSummary A)
      (site : Site A R S)
      → Keeps m site.world
          (train_lightgbm m t metrics l generated_at df settings summary site).1.world
  unfolding train_lightgbm
  train_lightgbm-Keeps df settings summary site = elim (Option-cases (prepare_split l df)) [
    | inl raised ↦ rw (raised, train_lightgbm) (Keeps-refl m site.world)
    | inr ((train_rows, test), parted) ↦
        elim (Option-cases (l.fit_resample (matrix train_rows) (labels train_rows))) [
          | inl raised ↦ rw (parted, raised, train_lightgbm) (Keeps-refl m site.world)
          | inr ((xs, ys), resampled) ↦
              rw (parted, resampled, train_lightgbm)
                (train-Keeps (lightgbm_recipe l settings (labels train_rows) ys) summary _ test
                  site)
        ]
  ]

  -- A whole training, however it ends, writes nothing to the database, and no version gets to Production by it
  -- without an approval on record.
  pub run-Keeps :
      (generated : List (TrainingRow A)) (now : ℕ) (db_up : Bool) (settings : Settings A)
      (site : Site A R S)
      → Keeps m site.world
          (run m t metrics l generated_at generated now db_up settings site).1.world
  unfolding run
  run-Keeps generated now db_up settings site =
      let feedback = if db_up then build_feedback_dataset now 30 20 site.world.db else none in
      let df = merged generated feedback in
      let summary = dataset_summary metrics l df (feedback_count feedback) in
      let first = train_xgboost m t metrics l generated_at df settings summary site in
      let kept = train_xgboost-Keeps df settings summary site in
      elim (Result-cases first.0) [
        | inr (e, failed) ↦ rw (failed, run) kept
        | inl (xgb, done) ↦
            let second = train_lightgbm m t metrics l generated_at df settings summary first.1 in
            let both =
              Keeps-trans m site.world first.1.world second.1.world kept
                (train_lightgbm-Keeps df settings summary first.1) in
            elim (Result-cases second.0) [
              | inr (e, failed) ↦ rw (done, failed, run) both
              | inl (lgb, trained) ↦ rw (done, trained, run) both
            ]
      ]
