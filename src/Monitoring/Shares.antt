-- ===== src/Monitoring/Shares.antt =====
-- The shares of a snapshot add up.
use realtime_fraud_detection.Common.{
  ℕ, ◌+◌, ◌≤◌, ◌-◌, String, ◌≡◌, ◌≢◌, refl, ap, ◌∙◌, zero, suc, Bool, true, false, ◌&&◌, leb, take,
  filter, none, List, [], ◌∷◌, arith, count, length, length-take, eq_iff, subst,
}
use realtime_fraud_detection.Common.Sort.{sort, count-sort, length-sort}
use realtime_fraud_detection.Common.Floating.{Floating}
use mathlib.Core.Path.{fun_ext}
use realtime_fraud_detection.Features.{hours}
use realtime_fraud_detection.Scoring.Decision.{Decision, approve, review, block}
use realtime_fraud_detection.Storage.Tables.{Database, PredictionRecord, AnalystFeedbackRecord}
use realtime_fraud_detection.Storage.Feedback.{
  fetch_predictions_since, fetch_feedback_with_predictions,
}
use realtime_fraud_detection.Drift.{Stats}
use realtime_fraud_detection.Monitoring.{
  BusinessMetricsSnapshot, is_block, is_review, is_approve, is_labelled, rate, compute_snapshot,
}

apart : ◌≢◌ {A = String} "false_positive" "false_negative"
apart e = ground (arith, eq_iff "false_positive" "false_negative", e)

module _ {A : Type 0} where
  count-decisions :
      (ps : List (PredictionRecord A))
      → count is_block ps + count is_review ps + count is_approve ps ≡ length ps
  unfolding count
  count-decisions [] = refl
  count-decisions (p ∷ ps) = ground (arith, count-decisions ps)

  -- a label is not two different ones
  count-labels :
      (l m : String) (rows : List (AnalystFeedbackRecord × PredictionRecord A))
      → l ≢ m
      → count (is_labelled l) rows + count (is_labelled m) rows ≤ length rows
  unfolding count
  count-labels l m [] h = omega arith
  count-labels l m ((fb, p) ∷ rows) h =
      ground (arith, count-labels l m rows h, eq_iff fb.label l, eq_iff fb.label m)

-- how many rows of a list whose first `n` are all of them
count-take :
    {X : Type 0} (p : X → Bool) (n : ℕ) (l : List X) → length l ≤ n → count p (take n l) ≡ count p l
unfolding count
count-take p zero [] h = refl
count-take p (suc n) [] h = refl
count-take p zero (x ∷ l) h = absurd (omega (arith, h))
count-take p (suc n) (x ∷ l) h = ground (arith, count-take p n l (omega (arith, h)))

count-filter :
    {X : Type 0} (p q : X → Bool) (l : List X) → count p (filter q l) ≡ count (λ x. q x && p x) l
unfolding count filter
count-filter p q [] = refl
count-filter p q (x ∷ l) = ground (arith, count-filter p q l)

module _ {A : Type 0} where
  -- the predictions of the window
  abbrev pub recent : ℕ → PredictionRecord A → Bool
  recent since r = leb since r.created_at

  -- the newest `limit` rows, where that is all of them
  count-newest :
      (p q : PredictionRecord A → Bool) (limit : ℕ) (l : List (PredictionRecord A))
      → length (filter q l) ≤ limit
      → let newest = λ (r s : PredictionRecord A). leb s.created_at r.created_at in
        count p (take limit (sort newest (filter q l))) ≡ count (λ r. q r && p r) l
  count-newest p q limit l few =
      let newest = λ (r s : PredictionRecord A). leb s.created_at r.created_at in
      count-take p limit (sort newest (filter q l))
        (omega (arith, few, length-sort newest (filter q l)))
      ∙ count-sort newest p (filter q l)
      ∙ count-filter p q l

  -- any model will do
  all_models : (since : ℕ) → (λ (r : PredictionRecord A). recent since r && true) ≡ recent since
  all_models since = fun_ext (λ r. ground arith)

  count-fetch_predictions_since :
      {R : Type 0} (p : PredictionRecord A → Bool) (since limit : ℕ) (db : Database A R)
      → length (filter (recent since) db.predictions) ≤ limit
      → count p (fetch_predictions_since since none limit db)
        ≡ count (λ r. recent since r && p r) db.predictions
  unfolding fetch_predictions_since
  count-fetch_predictions_since p since limit db few =
      subst
        (λ (q : PredictionRecord A → Bool).
          length (filter q db.predictions) ≤ limit
          → count p (
              take limit (
                sort (λ r s. leb s.created_at r.created_at)
                  (filter (λ r. recent since r && true) db.predictions)))
            ≡ count (λ r. q r && p r) db.predictions)
        (all_models since) (count-newest p (λ r. recent since r && true) limit db.predictions) few

  length-fetch_predictions_since :
      {R : Type 0} (since limit : ℕ) (db : Database A R)
      → length (filter (recent since) db.predictions) ≤ limit
      → length (fetch_predictions_since since none limit db)
        ≡ length (filter (recent since) db.predictions)
  unfolding fetch_predictions_since
  length-fetch_predictions_since since limit db few =
      let newest = λ (r s : PredictionRecord A). leb s.created_at r.created_at in
      rw (all_models since) (
        omega (
          arith,
          few,
          length-take limit (sort newest (filter (recent since) db.predictions)),
          length-sort newest (filter (recent since) db.predictions),
        ))

abbrev pub same_decision : Decision → Decision → Bool
same_decision block e = elim e [ block ↦ true | _ ↦ false ]
same_decision review e = elim e [ review ↦ true | _ ↦ false ]
same_decision approve e = elim e [ approve ↦ true | _ ↦ false ]

module _ {A R : Type 0} ⦃f : Floating A⦄ where
  -- how many predictions of the window have this decision
  abbrev pub decided_as : Decision → ℕ → Database A R → ℕ
  decided_as d since db = count (λ r. recent since r && same_decision d r.decision) db.predictions

  -- the rates of a snapshot as shares of the rows of the tables
  pub record IsShared (since : ℕ) (db : Database A R) (s : BusinessMetricsSnapshot A) : Type 0 where
    pub total : s.total_predictions ≡ length (filter (recent since) db.predictions)
    pub block_share : s.block_rate ≡ rate (decided_as block since db) s.total_predictions
    pub review_share : s.review_rate ≡ rate (decided_as review since db) s.total_predictions
    pub approve_share : s.approve_rate ≡ rate (decided_as approve since db) s.total_predictions
    pub decided :
        decided_as block since db + decided_as review since db + decided_as approve since db
        ≡ s.total_predictions

  -- Where at most 50000 predictions stand in the table from the start of the window on, the total is their number,
  -- the block, review and approve rates are the shares in it of those with this decision, and the three numbers
  -- add up to it.
  pub compute_snapshot-IsShared :
      (stats : Stats A) (now window_hours : ℕ) (db : Database A R)
      → length (filter (recent (now - hours window_hours)) db.predictions) ≤ 50000
      → IsShared (now - hours window_hours) db (compute_snapshot stats now window_hours db)
  unfolding compute_snapshot
  compute_snapshot-IsShared stats now window_hours db few =
      let since = now - hours window_hours in
      let ps = fetch_predictions_since since none 50000 db in
      let blocked = count-fetch_predictions_since is_block since 50000 db few in
      let reviewed = count-fetch_predictions_since is_review since 50000 db few in
      let approved = count-fetch_predictions_since is_approve since 50000 db few in
      record {
        total = length-fetch_predictions_since since 50000 db few;
        block_share = ap (λ n. rate n (length ps)) blocked;
        review_share = ap (λ n. rate n (length ps)) reviewed;
        approve_share = ap (λ n. rate n (length ps)) approved;
        decided = omega (arith, count-decisions ps, blocked, reviewed, approved);
      }

  -- the two error rates are shares of the sample by numbers that add up to at most it
  compute_snapshot-feedback :
      (stats : Stats A) (now window_hours : ℕ) (db : Database A R)
      → let s = compute_snapshot stats now window_hours db in
        let fbs = fetch_feedback_with_predictions (now - hours window_hours) 50000 db in
        (s.false_positive_rate
          ≡ rate (count (is_labelled "false_positive") fbs) s.feedback_sample_size)
        × (s.false_negative_rate
            ≡ rate (count (is_labelled "false_negative") fbs) s.feedback_sample_size)
        × (count (is_labelled "false_positive") fbs + count (is_labelled "false_negative") fbs
            ≤ s.feedback_sample_size)
  unfolding compute_snapshot
  compute_snapshot-feedback stats now window_hours db =
      let fbs = fetch_feedback_with_predictions (now - hours window_hours) 50000 db in
      (refl, refl, count-labels "false_positive" "false_negative" fbs apart)
