-- ===== src/Storage/Feedback/Labels.antt =====
-- The training examples that the feedback gives.
use realtime_fraud_detection.Common.{
  ℕ, ◌≤◌, String, ◌≡◌, ◌≢◌, refl, Option-cases, none, some, List, [], ◌∷◌, arith, All, length,
  eq_iff, ◌⊎◌, inl, inr, length-take-le,
}
use realtime_fraud_detection.Storage.Tables.{Database, PredictionRecord, AnalystFeedbackRecord}
use realtime_fraud_detection.Storage.Feedback.{
  LabeledExample, label_of, examples_of, fetch_labeled_training_examples,
  fetch_feedback_with_predictions,
}

-- the labels that an analyst may give
abbrev pub IsLabel : String → Type 0
IsLabel s =
    (s ≡ "confirmed_fraud")
    ⊎ (s ≡ "false_negative")
    ⊎ (s ≡ "confirmed_legitimate")
    ⊎ (s ≡ "false_positive")

-- The number of an example is 1 for the two labels that say fraud, and 0 for the two that do not.
abbrev pub IsLabeled : {A : Type 0} → LabeledExample A → Type 0
IsLabeled e =
    (((e.analyst_label ≡ "confirmed_fraud") ⊎ (e.analyst_label ≡ "false_negative")) × (e.label ≡ 1))
    ⊎ (((e.analyst_label ≡ "confirmed_legitimate") ⊎ (e.analyst_label ≡ "false_positive"))
        × (e.label ≡ 0))

label_of-known :
    (s : String) (n : ℕ)
    → label_of s ≡ some n
    → (((s ≡ "confirmed_fraud") ⊎ (s ≡ "false_negative")) × (n ≡ 1))
      ⊎ (((s ≡ "confirmed_legitimate") ⊎ (s ≡ "false_positive")) × (n ≡ 0))
unfolding label_of
label_of-known s n h = ground (
  arith,
  eq_iff s "confirmed_fraud",
  eq_iff s "false_negative",
  eq_iff s "confirmed_legitimate",
  eq_iff s "false_positive",
)

label_of-IsLabel : (s : String) → IsLabel s → label_of s ≢ none
unfolding label_of
label_of-IsLabel s h = ground (
  arith,
  eq_iff s "confirmed_fraud",
  eq_iff s "false_negative",
  eq_iff s "confirmed_legitimate",
  eq_iff s "false_positive",
)

module _ {A : Type 0} where
  examples_of-IsLabeled :
      (rows : List (AnalystFeedbackRecord × PredictionRecord A)) → All IsLabeled (examples_of rows)
  unfolding examples_of
  examples_of-IsLabeled [] = tt
  examples_of-IsLabeled ((fb, p) ∷ rest) = elim (Option-cases (label_of fb.label)) [
    | inl unknown ↦ rw (unknown, examples_of) (examples_of-IsLabeled rest)
    | inr (n, known) ↦
        rw (known, examples_of) (label_of-known fb.label n known, examples_of-IsLabeled rest)
  ]

  length-examples_of-le :
      (rows : List (AnalystFeedbackRecord × PredictionRecord A))
      → length (examples_of rows) ≤ length rows
  unfolding examples_of
  length-examples_of-le [] = omega arith
  length-examples_of-le ((fb, p) ∷ rest) = ground (arith, length-examples_of-le rest)

  length-examples_of :
      (rows : List (AnalystFeedbackRecord × PredictionRecord A))
      → All (λ r. IsLabel r.0.label) rows
      → length (examples_of rows) ≡ length rows
  unfolding examples_of
  length-examples_of [] h = refl
  length-examples_of ((fb, p) ∷ rest) h =
      ground (arith, label_of-IsLabel fb.label h.0, length-examples_of rest h.1)

module _ {A R : Type 0} where
  length-fetch_feedback-le :
      (since limit : ℕ) (db : Database A R)
      → length (fetch_feedback_with_predictions since limit db) ≤ limit
  unfolding fetch_feedback_with_predictions
  length-fetch_feedback-le since limit db = length-take-le limit _

  -- Every training example has one of the four labels, with 1 for "confirmed_fraud" and
  -- "false_negative" and 0 for the other two; and there are at most `limit` of them.
  pub fetch_labeled_training_examples_lem :
      (since limit : ℕ) (db : Database A R)
      → let examples = fetch_labeled_training_examples since limit db in
        All IsLabeled examples × (length examples ≤ limit)
  unfolding fetch_labeled_training_examples
  fetch_labeled_training_examples_lem since limit db =
      let rows = fetch_feedback_with_predictions since limit db in
      (
        examples_of-IsLabeled rows,
        omega (arith, length-examples_of-le rows, length-fetch_feedback-le since limit db),
      )

  -- Where all of the feedback that is joined has one of the four labels, none of it is left out.
  pub length-fetch_labeled_training_examples :
      (since limit : ℕ) (db : Database A R)
      → All (λ r. IsLabel r.0.label) (fetch_feedback_with_predictions since limit db)
      → length (fetch_labeled_training_examples since limit db)
        ≡ length (fetch_feedback_with_predictions since limit db)
  unfolding fetch_labeled_training_examples
  length-fetch_labeled_training_examples since limit db h =
      length-examples_of (fetch_feedback_with_predictions since limit db) h
