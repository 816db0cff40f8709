-- ===== src/Drift/Check/Decision.antt =====
-- A run retrains exactly on what it recorded.
use realtime_fraud_detection.Common.{
  ℕ, String, ◌≡◌, refl, ◌∙◌, ap, sym, Bool, ◌||◌, some, List, [], ◌∷◌, ◌++◌, any, length, ltb, ◌-◌,
  arith, if◌then◌else◌, map, filter, not, ◌&&◌, Option, none, true, false, concat, leb, ◌*◌,
  Bool-cases, inl, inr,
}
use Prim.Native.String.{count as chars}
use mathlib.Core.List.{append-nil, append_assoc, map-append}
use realtime_fraud_detection.Common.Floating.{Floating}
use realtime_fraud_detection.Features.{hours}
use realtime_fraud_detection.Storage.Tables.{Database, PredictionRecord, DriftReportRecord, Stamp}
use realtime_fraud_detection.Storage.Governance.Reports.{
  report_row, windows_fit, record_drift_report-some, record_drift_report-none,
}
use realtime_fraud_detection.Storage.Feedback.{fetch_predictions_since}
use realtime_fraud_detection.Drift.{Stats, Frame, build_drift_report, to_dict}
use realtime_fraud_detection.Drift.Check.{
  StoredReport, flags_drift, check_flags, is_raised, report_on, decide_next_step, lookback_hours,
  check_model_drift, check_models, drift_detection,
}

-- one model and the rest
names_join :
    (b : Bool) (p : String → Bool) (name : String) (names xs ys : List String)
    → xs ≡ (if b then filter p (name ∷ []) else [])
    → ys ≡ (if b then filter p names else [])
    → xs ++ ys ≡ (if b then filter p (name ∷ names) else [])
unfolding filter
names_join true p name names xs ys h k =
    rw (h, k) (elim (Bool-cases (p name)) [ inl e ↦ rw e refl | inr e ↦ rw e refl ])
names_join false p name names xs ys h k = rw (h, k) refl

fails_join :
    (b : Bool) (p : String → Bool) (name : String) (names : List String) (x y : Bool)
    → x ≡ (any p (name ∷ []) && not b)
    → y ≡ (any p names && not b)
    → (x || y) ≡ (any p (name ∷ names) && not b)
unfolding any
fails_join b p name names x y h k = ground (arith, h, k)

module _ {A : Type 0} where
  abbrev pub reports_drift : List (DriftReportRecord (StoredReport A)) → Bool
  reports_drift rows = any (λ r. flags_drift r.full_report) rows

module _ {A : Type 0} ⦃f : Floating A⦄ (stats : Stats A) where
  any-append {ℓ} :
      {X : Type ℓ} (p : X → Bool) (xs ys : List X) → any p (xs ++ ys) ≡ (any p xs || any p ys)
  unfolding any
  any-append p [] ys = refl
  any-append p (x ∷ xs) ys = ground (arith, any-append p xs ys)

  -- the text of the window of a check
  abbrev pub window : (ℕ → String) → ℕ → String
  window iso now =
      concat ("live predictions " ∷ iso (now - hours lookback_hours) ∷ " .. " ∷ iso now ∷ [])

  -- the window's column takes the text
  abbrev pub fits : (ℕ → String) → ℕ → Bool
  fits iso now = leb (chars (window iso now)) 64

  -- at least 30 predictions of the last 24 hours
  abbrev pub has_traffic : ℕ → Database A (StoredReport A) → String → Bool
  has_traffic now db name =
      leb 30 (length (fetch_predictions_since (now - hours lookback_hours) (some name) 50000 db))

  build_drift_report-windows :
      (name : String) (reference current : Frame A) (columns : List String)
      (reference_window current_window : String) (xs ys : Option (List A))
      → let report =
          build_drift_report stats name reference current columns reference_window current_window xs
            ys in
        (report.reference_window ≡ reference_window) × (report.current_window ≡ current_window)
  unfolding build_drift_report
  build_drift_report-windows name reference current columns rw_text cw_text none ys = (refl, refl)
  build_drift_report-windows name reference current columns rw_text cw_text (some x) none =
      (refl, refl)
  build_drift_report-windows name reference current columns rw_text cw_text (some x) (some y) =
      (refl, refl)

  report_on-windows :
      (iso : ℕ → String) (training_df : Frame A) (name : String) (now : ℕ)
      (current older : List (PredictionRecord A))
      → let stored = report_on stats iso training_df name now current older in
        (stored.report.reference_window ≡ "synthetic training distribution (n=5000, seed=42)")
        × (stored.report.current_window ≡ window iso now)
  unfolding report_on to_dict
  report_on-windows iso training_df name now current older =
      build_drift_report-windows name training_df _ _ _ (window iso now) _ _

  -- what one check makes of the database: its own report more, or nothing
  pub record Recorded (iso : ℕ → String) (now : ℕ) (names : List String) (flagged failed : Bool)
      (db db1 : Database A (StoredReport A)) : Type 0 where
    pub new : List (DriftReportRecord (StoredReport A))
    pub frame : db1 ≡ record db { drift_reports = db.drift_reports ++ new }
    pub names_of :
        map (λ r. r.model_name) new
        ≡ (if fits iso now then filter (has_traffic now db) names else [])
    pub flags : reports_drift new ≡ flagged
    pub fails : failed ≡ (any (has_traffic now db) names && not (fits iso now))

  check_model_drift-Recorded :
      (iso : ℕ → String) (training_df : Frame A) (stamp : Stamp) (name : String) (now : ℕ)
      (db : Database A (StoredReport A))
      → let (check, db1) = check_model_drift stats iso training_df stamp name now db in
        Recorded iso now (name ∷ []) (check_flags check) (is_raised check) db db1
  unfolding check_model_drift any filter
  check_model_drift-Recorded iso training_df stamp name now db =
      let current = fetch_predictions_since (now - hours lookback_hours) (some name) 50000 db in
      let older =
        filter (λ p. ltb p.created_at (now - hours lookback_hours))
          (fetch_predictions_since (now - hours (2 * lookback_hours)) (some name) 50000 db) in
      let stored = report_on stats iso training_df name now current older in
      let (from_text, to_text) = report_on-windows iso training_df name now current older in
      let same : windows_fit stamp name stored.report.reference_window stored.report.current_window
            stored db
          ≡ fits iso now =
        ap (λ w. leb (chars w) 64 && leb (chars stored.report.current_window) 64) from_text
        ∙ ap (λ w. leb (chars w) 64) to_text in
      elim (Bool-cases (ltb (length current) 30)) [
        | inl few ↦
            let quiet : has_traffic now db name ≡ false = ground (arith, few) in
            rw (few, check_model_drift)
              (record {
                new = [];
                frame =
                    ap
                      (λ (l : List (DriftReportRecord (StoredReport A))). record db {
                        drift_reports = l;
                      })
                      (sym (append-nil db.drift_reports));
                names_of = ground (arith, quiet);
                flags = refl;
                fails = ground (arith, quiet);
              })
        | inr enough ↦
            let busy : has_traffic now db name ≡ true = ground (arith, enough) in
            elim (Bool-cases (fits iso now)) [
              | inl short ↦
                  let row =
                    report_row {A = A} stamp name stored.report.reference_window
                      stored.report.current_window stored db in
                  let done =
                    record_drift_report-some stamp name stored.report.reference_window
                      stored.report.current_window stored db (same ∙ short) in
                  rw (enough, check_model_drift, done)
                    (record {
                      new = row ∷ [];
                      frame = refl;
                      names_of = ground (arith, busy, short);
                      flags = ground arith;
                      fails = ground (arith, short);
                    })
              | inr long ↦
                  let done =
                    record_drift_report-none stamp name stored.report.reference_window
                      stored.report.current_window stored db (same ∙ long) in
                  rw (enough, check_model_drift, done)
                    (record {
                      new = [];
                      frame =
                          ap
                            (λ (l : List (DriftReportRecord (StoredReport A))). record db {
                              drift_reports = l;
                            })
                            (sym (append-nil db.drift_reports));
                      names_of = ground (arith, long);
                      flags = refl;
                      fails = ground (arith, busy, long);
                    })
            ]
      ]

  -- the reports do not count as traffic
  has_traffic-frame :
      (now : ℕ) (db db1 : Database A (StoredReport A))
      (reports : List (DriftReportRecord (StoredReport A)))
      → db1 ≡ record db { drift_reports = reports }
      → has_traffic now db1 ≡ has_traffic now db
  unfolding fetch_predictions_since
  has_traffic-frame now db db1 reports e = ap (has_traffic now) e

  check_models-Recorded :
      (iso : ℕ → String) (training_df : Frame A) (now : ℕ) (models : List (Stamp × String))
      (db : Database A (StoredReport A))
      → let (checks, db1) = check_models stats iso training_df now models db in
        Recorded iso now
          (map (λ m. m.1) models)
          (any check_flags checks)
          (any is_raised checks)
          db
          db1
  unfolding check_models any filter
  check_models-Recorded iso training_df now [] db = record {
    new = [];
    frame =
        ap (λ (l : List (DriftReportRecord (StoredReport A))). record db { drift_reports = l })
          (sym (append-nil db.drift_reports));
    names_of = ground arith;
    flags = refl;
    fails = refl;
  }
  check_models-Recorded iso training_df now ((stamp, name) ∷ models) db =
      let db1 = (check_model_drift stats iso training_df stamp name now db).1 in
      let one = check_model_drift-Recorded iso training_df stamp name now db in
      let more = check_models-Recorded iso training_df now models db1 in
      let traffic = has_traffic-frame now db db1 (db.drift_reports ++ one.new) one.frame in
      let names = map (λ (m : Stamp × String). m.1) models in
      record {
        new = one.new ++ more.new;
        frame =
            more.frame
            ∙ ap
                (λ (d : Database A (StoredReport A)). record d {
                  drift_reports = d.drift_reports ++ more.new;
                })
                one.frame
            ∙ ap
                (λ (l : List (DriftReportRecord (StoredReport A))). record db { drift_reports = l })
                (append_assoc db.drift_reports one.new more.new);
        names_of =
            map-append (λ (r : DriftReportRecord (StoredReport A)). r.model_name) one.new more.new
            ∙ names_join (fits iso now) (has_traffic now db) name names _ _ one.names_of (
                more.names_of
                ∙ ap (λ (q : String → Bool). if fits iso now then filter q names else []) traffic);
        flags = ground (
          arith,
          any-append (λ (r : DriftReportRecord (StoredReport A)). flags_drift r.full_report) one.new
              more.new,
          one.flags,
          more.flags,
        );
        fails =
            fails_join (fits iso now) (has_traffic now db) name names _ _ one.fails
              (more.fails ∙ ap (λ (q : String → Bool). any q names && not (fits iso now)) traffic);
      }

  abbrev pub model_names : List String
  model_names = "fraud_xgboost" ∷ "fraud_lightgbm" ∷ []

  -- A run of the drift check changes nothing in the database but that it appends reports. Where the text of the
  -- current window fits its column of 64 characters, the models with a new report are those with at least 30
  -- predictions of the last 24 hours, each with one; where it does not fit, there is no new report. The run
  -- fails exactly if it does not fit and a model has those predictions; else it goes on to retraining exactly if
  -- a new report finds drift.
  pub drift_detection_lem :
      (iso : ℕ → String) (training_df : Frame A) (now : ℕ) (first second : Stamp)
      (db : Database A (StoredReport A))
      → let (next, db1) = drift_detection stats iso training_df now first second db in
        (new : List (DriftReportRecord (StoredReport A))) × (db1
          ≡ record db { drift_reports = db.drift_reports ++ new })
        × (map (λ r. r.model_name) new
            ≡ (if fits iso now then filter (has_traffic now db) model_names else []))
        × (next ≡ (
            if any (has_traffic now db) model_names && not (fits iso now)
            then "upstream_failed"
            else if reports_drift new
            then "trigger_retrain"
            else "no_drift_detected"))
  unfolding drift_detection decide_next_step
  drift_detection_lem iso training_df now first second db =
      let models = (first, "fraud_xgboost") ∷ (second, "fraud_lightgbm") ∷ [] in
      let r = check_models-Recorded iso training_df now models db in
      (r.new, r.frame, r.names_of, rw (r.flags, sym r.fails) refl)
