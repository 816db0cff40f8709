-- ===== src/Governance/Registry/Gate.antt =====
-- No version reaches Production without an approval on record.
use realtime_fraud_detection.Common.{
  String, ◌≡◌, ◌≢◌, refl, Bool, true, false, ◌&&◌, ◌||◌, ◌⊎◌, Option, none, some, List, [], ◌∷◌,
  ◌++◌, arith, any, concat, str_eq, eq_iff, eq_refl, Bool-cases, inl, inr, Option-cases,
}
use realtime_fraud_detection.Common.Dict.{Dict}
use realtime_fraud_detection.Common.Result.{Result, ok, err}
use realtime_fraud_detection.Storage.Tables.{Database, Stamp}
use realtime_fraud_detection.Storage.Governance.{approves, record_model_approval, has_approval}
use realtime_fraud_detection.Governance.Registry.{
  ModelVersion, Mlflow, stage_of, IsMlflow, RegistryError, mlflow_exception, database_error, World,
  get_version, register_and_stage, gated_transition, promote_model,
}

abbrev pub is_ok : {E X : Type 0} → Result E X → Bool
is_ok (ok x) = true
is_ok (err e) = false

any-append :
    {X : Type 0} (p : X → Bool) (l : List X) (x : X) → any p (l ++ x ∷ []) ≡ (any p l || p x)
unfolding any
any-append p [] x = ground arith
any-append p (y ∷ l) x = ground (arith, any-append p l x)

module _ {A R : Type 0} where
  -- a new approval approves its own promotion, and takes back no other
  pub has_approval-record_model_approval :
      (stamp : Stamp) (n v from to by : String) (notes : Option String) (metrics : Option (Dict A))
      (db : Database A R) (n' v' to' : String)
      → has_approval n' v' to' (record_model_approval stamp n v from to by notes metrics db).0
        ≡ (has_approval n' v' to' db || (str_eq n n' && str_eq v v' && str_eq to to'))
  unfolding has_approval record_model_approval
  has_approval-record_model_approval stamp n v from to by notes metrics db n' v' to' =
      any-append (approves n' v' to') db.model_approvals _

abbrev uri_of : String → String → String
uri_of run_id artifact_path = concat ("runs:/" ∷ run_id ∷ "/" ∷ artifact_path ∷ [])

module _ {A R S : Type 0} (m : Mlflow S) where
  -- Every version at stage "Production" has an approval for it.
  abbrev pub IsGoverned : World A R S → Type 0
  IsGoverned w =
      (n v : String)
      → stage_of m n v w.mlflow ≡ some "Production"
      → has_approval n v "Production" w.db ≡ true

  -- reading a version changes nothing, and gives it at its stage
  pub world-get_version : (n v : String) (w : World A R S) → (get_version m n v w).1 ≡ w
  unfolding get_version
  world-get_version n v w = elim (Option-cases (m.get_model_version n v w.mlflow)) [
    | inl none_there ↦ rw (none_there, get_version)
    | inr (x, there) ↦ rw (there, get_version)
  ]

  version-get_version :
      (n v : String) (w : World A R S) (r : ModelVersion)
      → (get_version m n v w).0 ≡ ok r
      → stage_of m n v w.mlflow ≡ some r.current_stage
  unfolding get_version
  version-get_version n v w r h = ground arith

  ok-get_version :
      (n v : String) (w : World A R S) (stage : String)
      → stage_of m n v w.mlflow ≡ some stage
      → is_ok (get_version m n v w).0 ≡ true
  unfolding get_version
  ok-get_version n v w stage h = ground arith

  module _ (laws : IsMlflow m) where
    open laws use {transition_lem, register_lem}

    -- a transition of an approved version to Production
    promoted-IsGoverned :
        (name version : String) (w : World A R S)
        → has_approval name version "Production" w.db ≡ true
        → IsGoverned w
        → IsGoverned (record w { mlflow = m.transition name version "Production" true w.mlflow })
    promoted-IsGoverned name version w approved h n v at = ground (
      arith,
      transition_lem name version "Production" true w.mlflow n v,
      h n v,
      eq_iff name n,
      eq_iff version v,
      eq_iff "Archived" "Production",
    )

    -- In a registry that behaves as documented, and whatever approvals the database has: if every
    -- Production version is approved on record, it is so after the gated transition too.
    gated_transition-IsGoverned :
        (name version : String) (w : World A R S)
        → IsGoverned w
        → IsGoverned (gated_transition m name version w).1
    unfolding gated_transition
    gated_transition-IsGoverned name version w h =
        elim (Bool-cases (has_approval name version "Production" w.db)) [
          | inl approved ↦
              rw (approved, gated_transition)
                (rw world-get_version (promoted-IsGoverned name version w approved h))
          | inr refused ↦ rw (refused, gated_transition) h
        ]

    approval-IsGoverned :
        (stamp : Stamp) (name version from by : String) (notes : Option String)
        (metrics : Option (Dict A)) (w : World A R S)
        → IsGoverned w
        → IsGoverned (record w {
          db = (record_model_approval stamp name version from "Production" by notes metrics w.db).0;
        })
    approval-IsGoverned stamp name version from by notes metrics w h n v at = ground (
      arith,
      h n v at,
      has_approval-record_model_approval stamp name version from "Production" by notes metrics w.db
          n v "Production",
    )

    -- In a registry that behaves as documented: if every Production version is approved on record,
    -- it is so after a promotion too, however it ends and whether or not the database is up.
    pub promote_model-IsGoverned :
        (stamp : Stamp) (db_up : Bool) (name version by : String) (notes : Option String)
        (metrics : Option (Dict A)) (w : World A R S)
        → IsGoverned w
        → IsGoverned (promote_model m stamp db_up name version by notes metrics w).1
    unfolding promote_model
    promote_model-IsGoverned stamp false name version by notes metrics w h =
        elim (Option-cases (m.get_model_version name version w.mlflow)) [
          | inl missing ↦ rw (missing, promote_model) h
          | inr (current, found) ↦ rw (found, promote_model) h
        ]
    promote_model-IsGoverned stamp true name version by notes metrics w h =
        elim (Option-cases (m.get_model_version name version w.mlflow)) [
          | inl missing ↦ rw (missing, promote_model) h
          | inr (current, found) ↦
              rw (found, promote_model)
                (gated_transition-IsGoverned name version _ (
                  approval-IsGoverned stamp name version current.current_stage by notes metrics w
                    h))
        ]

    -- In a registry that behaves as documented: if every Production version is approved on record,
    -- it is so after a model is registered at any stage but Production.
    pub register_and_stage-IsGoverned :
        (run_id name artifact_path target_stage : String) (w : World A R S)
        → target_stage ≢ "Production"
        → IsGoverned w
        → IsGoverned (register_and_stage m run_id name artifact_path target_stage w).1
    unfolding register_and_stage
    register_and_stage-IsGoverned run_id name artifact_path target_stage w other h =
        rw world-get_version λ n v at. ground (
          arith,
          transition_lem name (m.register_model (uri_of run_id artifact_path) name w.mlflow).1
              target_stage false (m.register_model (uri_of run_id artifact_path) name w.mlflow).0 n
              v,
          register_lem (uri_of run_id artifact_path) name w.mlflow n v,
          h n v,
          eq_iff "None" "Production",
        )

    version-gated_transition :
        (name version : String) (w : World A R S) (old : String)
        → has_approval name version "Production" w.db ≡ true
        → stage_of m name version w.mlflow ≡ some old
        → let (r, w') = gated_transition m name version w in
          (stage_of m name version w'.mlflow ≡ some "Production") × (is_ok r ≡ true)
    unfolding gated_transition get_version
    version-gated_transition name version w old approved at =
        rw (approved, gated_transition)
          (rw world-get_version (moved, ok-get_version name version _ "Production" moved))
      where
        moved :
            stage_of m name version (m.transition name version "Production" true w.mlflow)
            ≡ some "Production"
        moved = ground (
          arith,
          transition_lem name version "Production" true w.mlflow name version,
          at,
          eq_refl name,
          eq_refl version,
        )

    -- In a registry that behaves as documented: where it has the version and the database is up, a
    -- promotion returns a version, is not refused for want of an approval, and leaves it at Production.
    pub promote_model_lem :
        (stamp : Stamp) (name version by : String) (notes : Option String)
        (metrics : Option (Dict A)) (w : World A R S) (current : ModelVersion)
        → m.get_model_version name version w.mlflow ≡ some current
        → let (r, w') = promote_model m stamp true name version by notes metrics w in
          (stage_of m name version w'.mlflow ≡ some "Production") × (is_ok r ≡ true)
    unfolding promote_model
    promote_model_lem stamp name version by notes metrics w current found =
        rw (found, promote_model)
          (version-gated_transition name version _ current.current_stage
            (rw
              (
                has_approval-record_model_approval stamp name version current.current_stage
                    "Production" by notes metrics w.db name version "Production",
                eq_refl name,
                eq_refl version,
              )
              (ground arith))
            (rw (found, stage_of) refl))

    -- Where the version is missing or the database is down, a promotion raises and changes neither
    -- the registry nor the audit trail.
    pub promote_model_fails :
        (stamp : Stamp) (db_up : Bool) (name version by : String) (notes : Option String)
        (metrics : Option (Dict A)) (w : World A R S)
        → (m.get_model_version name version w.mlflow ≡ none) ⊎ (db_up ≡ false)
        → (e : RegistryError) × (promote_model m stamp db_up name version by notes metrics w
            ≡ (err e, w))
    unfolding promote_model
    promote_model_fails stamp db_up name version by notes metrics w (inl missing) =
        (mlflow_exception, rw (missing, promote_model))
    promote_model_fails stamp db_up name version by notes metrics w (inr down) =
        elim (Option-cases (m.get_model_version name version w.mlflow)) [
          | inl missing ↦ (mlflow_exception, rw (missing, promote_model))
          | inr (current, found) ↦ (database_error, rw (found, down, promote_model))
        ]
