-- ===== src/Training/Trained.antt =====
-- A training, from its run to the registered version.
use realtime_fraud_detection.Common.{
  ◌≡◌, refl, sym, ap, subst, ◌∙◌, String, false, some, List, [], ◌∷◌, arith, concat, eq_refl,
  Option-cases, inl, inr, map,
}
use realtime_fraud_detection.Common.Dict.{Dict}
use realtime_fraud_detection.Common.Floating.{Floating, lit}
use realtime_fraud_detection.Common.Result.{ok}
use realtime_fraud_detection.Governance.Registry.{
  Mlflow, IsMlflow, ModelVersion, World, stage_of, get_version, register_and_stage,
}
use realtime_fraud_detection.ModelCard.{DatasetSummary}
use realtime_fraud_detection.Scoring.FeatureRow.{Row}
use realtime_fraud_detection.Training.{Metrics, TestRow}
use realtime_fraud_detection.Training.Learning.{Example, Learning, Site, Recipe, test_rows}
use realtime_fraud_detection.Training.Measured.{IsMeasured, logged-IsMeasured}
use realtime_fraud_detection.Training.Run.{
  model_card, log_training, register_trained, train, write_model_card_file,
}
use realtime_fraud_detection.Training.Tracking.{Tracking, IsTracking, log_params}

module _ {A S : Type 0} (t : Tracking A S) (m : Mlflow S) (laws : IsTracking t m) where
  log_params_lem :
      (run : String) (params : Dict String) (s : S) (r : String)
      → t.run_metrics r (log_params t run params s) ≡ t.run_metrics r s
  unfolding log_params
  log_params_lem run [] s r = refl
  log_params_lem run ((key, value) ∷ params) s r =
      log_params_lem run params (t.log_param run key value s) r
      ∙ laws.run_metrics-log_param run key value s r

module _ {A S : Type 0} ⦃f : Floating A⦄ (m : Mlflow S) (t : Tracking A S) (laws : IsTracking t m)
    (metrics : Metrics A) (l : Learning A) (generated_at : String) where
  log_training-IsMeasured :
      (recipe : Recipe A) (summary : DatasetSummary A) (run : String) (rows : List (TestRow A))
      (s : S)
      → t.run_metrics run s ≡ some []
      → (ms : Dict A) × (t.run_metrics run
            (log_training t metrics l generated_at recipe summary run rows s)
          ≡ some ms)
        × IsMeasured metrics (lit 5 1) rows ms
  unfolding log_training
  log_training-IsMeasured recipe summary run rows s fresh =
      let params = map (λ p. (p.0, l.show p.1)) recipe.params in
      let s1 = log_params t run recipe.log_param (log_params t run params s) in
      let still : t.run_metrics run s1 ≡ some [] =
        log_params_lem t m laws run recipe.log_param (log_params t run params s) run
        ∙ log_params_lem t m laws run params s run
        ∙ fresh in
      let (ms, logged, measured) =
        logged-IsMeasured t m laws run metrics (lit 5 1) l.in_order rows s1 still in
      (
        ms,
        laws.run_metrics-log_text run _ _ _ run
            ∙ laws.run_metrics-log_model run _ _ _ run
            ∙ laws.run_metrics-log_text run _ _ _ run
            ∙ logged,
        measured,
      )

module _ {S : Type 0} (m : Mlflow S) (registry : IsMlflow m) where
  stage_of-staged :
      (uri name stage : String) (s : S)
      → let (s1, v) = m.register_model uri name s in
        stage_of m name v (m.transition name v stage false s1) ≡ some stage
  stage_of-staged uri name stage s =
      let s1 = (m.register_model uri name s).0 in
      let v = (m.register_model uri name s).1 in
      ground (
        arith,
        registry.transition_lem name v stage false s1 name v,
        registry.register_lem uri name s name v,
        eq_refl name,
        eq_refl v,
      )

  version_of_stage :
      (n v stage : String) (s : S)
      → stage_of m n v s ≡ some stage
      → (x : ModelVersion) × (m.get_model_version n v s ≡ some x)
  version_of_stage n v stage s h = elim (Option-cases (m.get_model_version n v s)) [
    | inl missing ↦ absurd (ground (arith, missing, h))
    | inr found ↦ found
  ]

  get_version_lem :
      {A R : Type 0} (n v stage : String) (w : World A R S)
      → stage_of m n v w.mlflow ≡ some stage
      → (x : ModelVersion) × (get_version m n v w ≡ (ok x, w)) × (x.version ≡ v)
  unfolding get_version
  get_version_lem n v stage w h =
      let (x, found) = version_of_stage n v stage w.mlflow h in
      (x, rw (found, get_version) refl, registry.version_lem n v w.mlflow x found)

module _ {A R S : Type 0} (m : Mlflow S) (registry : IsMlflow m) (t : Tracking A S)
    (laws : IsTracking t m) where
  -- registering a version at "Staging" gives it, and leaves the runs' metrics
  register_and_stage_lem :
      (run_id name artifact_path : String) (w : World A R S) (r : String)
      → (x : ModelVersion) × ((register_and_stage m run_id name artifact_path "Staging" w).0 ≡ ok x)
        × (stage_of m name x.version
              (register_and_stage m run_id name artifact_path "Staging" w).1.mlflow
            ≡ some "Staging")
        × (t.run_metrics r (register_and_stage m run_id name artifact_path "Staging" w).1.mlflow
            ≡ t.run_metrics r w.mlflow)
  unfolding register_and_stage
  register_and_stage_lem run_id name artifact_path w r =
      let uri = concat ("runs:/" ∷ run_id ∷ "/" ∷ artifact_path ∷ []) in
      let s1 = (m.register_model uri name w.mlflow).0 in
      let v = (m.register_model uri name w.mlflow).1 in
      let s2 = m.transition name v "Staging" false s1 in
      let staged = stage_of-staged m registry uri name "Staging" w.mlflow in
      let (x, read, same) =
        get_version_lem m registry name v "Staging" (record w { mlflow = s2 }) staged in
      (
        x,
        ap (λ p. p.0) read,
        subst
            (λ u.
              stage_of m name u (get_version m name v (record w { mlflow = s2 })).1.mlflow
              ≡ some "Staging")
            (sym same) (rw read staged),
        rw read (
            laws.run_metrics-transition name v "Staging" false s1 r
            ∙ laws.run_metrics-register uri name w.mlflow r),
      )

module _ {A R S : Type 0} ⦃f : Floating A⦄ (m : Mlflow S) (registry : IsMlflow m) (t : Tracking A S)
    (laws : IsTracking t m) (metrics : Metrics A) (l : Learning A) (generated_at : String) where
  register_trained_lem :
      (recipe : Recipe A) (summary : DatasetSummary A) (run : String) (rows : List (TestRow A))
      (site : Site A R S) (x : ModelVersion)
      → let s = log_training t metrics l generated_at recipe summary run rows site.world.mlflow in
        let (staged, w) =
          register_and_stage m run recipe.model_name "model" "Staging"
            (record site.world { mlflow = s }) in
        staged ≡ ok x
        → register_trained m t metrics l generated_at recipe summary run rows site ≡ (
          ok (run, x.version),
          record {
            world = w;
            model_cards =
                write_model_card_file metrics l generated_at recipe.model_name x.version
                  (model_card metrics l generated_at recipe summary rows)
                  site.model_cards;
          },
        )
  unfolding register_trained
  register_trained_lem recipe summary run rows site x h = rw (h, register_trained)

  -- A training of a model that is fitted, on test rows with a country each, succeeds. The version that it registers is
  -- at stage "Staging", and the metrics that the promotion gate reads of its run are the evaluation of that model on
  -- the test rows: their recall, their precision, and for each country the recall on its rows.
  pub train-IsMeasured :
      (recipe : Recipe A) (summary : DatasetSummary A) (model : Row A → A) (test : List (Example A))
      (rows : List (TestRow A)) (site : Site A R S)
      → test_rows model test ≡ some rows
      → (run version : String) × (site' : Site A R S) × (train m t metrics l generated_at recipe
            summary
            (some model)
            test
            site
          ≡ (ok (run, version), site'))
        × (stage_of m recipe.model_name version site'.world.mlflow ≡ some "Staging")
        × (ms : Dict A) × (t.run_metrics run site'.world.mlflow ≡ some ms)
        × IsMeasured metrics (lit 5 1) rows ms
  unfolding train
  train-IsMeasured recipe summary model test rows site h =
      let s0 = (t.start_run recipe.run_name site.world.mlflow).0 in
      let run = (t.start_run recipe.run_name site.world.mlflow).1 in
      let started = record site { world = record site.world { mlflow = s0 } } in
      let (ms, logged, measured) =
        log_training-IsMeasured m t laws metrics l generated_at recipe summary run rows s0
          (laws.start_lem recipe.run_name site.world.mlflow) in
      let s1 = log_training t metrics l generated_at recipe summary run rows s0 in
      let (x, done, staged, kept) =
        register_and_stage_lem m registry t laws run recipe.model_name "model"
          (record site.world { mlflow = s1 }) run in
      (
        run,
        x.version,
        record {
          world =
              (register_and_stage m run recipe.model_name "model" "Staging"
                (record site.world { mlflow = s1 })).1;
          model_cards =
              write_model_card_file metrics l generated_at recipe.model_name x.version
                (model_card metrics l generated_at recipe summary rows) site.model_cards;
        },
        rw (h, train) (register_trained_lem recipe summary run rows started x done),
        staged,
        ms,
        kept ∙ logged,
        measured,
      )
