-- ===== src/Drift/Report.antt =====
-- What a drift report says of the frames and the scores that it was made from.
use realtime_fraud_detection.Common.{
  String, ◌≡◌, refl, ap, Bool, true, false, ◌&&◌, ◌||◌, List, [], ◌∷◌, ◌++◌, map, filter, All,
  length, leb, ltb, arith, Bool-cases, inl, inr,
}
use realtime_fraud_detection.Common.Floating.{Floating, IsOrdered, ◌≤ᶠ◌, ◌<ᶠ◌, fmax}
use realtime_fraud_detection.Drift.{
  Stats, Frame, FeatureDriftResult, DriftReport, values_of, feature_drift, compute_feature_drift,
  max_from, max_or_zero, max_psi, optional,
}

module _ {A : Type 0} ⦃f : Floating A⦄ where
  -- the flag is that of the two tests
  abbrev pub IsFlagged : A → A → FeatureDriftResult A → Type 0
  IsFlagged ks_p_value_threshold psi_threshold r =
      r.is_drifted ≡ (r.ks_p_value <ᶠ ks_p_value_threshold || psi_threshold <ᶠ r.psi)

module _ {A : Type 0} ⦃f : Floating A⦄ (stats : Stats A) where
  -- both frames have two values of the column or more
  abbrev pub is_measurable : Frame A → Frame A → String → Bool
  is_measurable reference_df current_df col =
      leb 2 (length (values_of stats reference_df col))
      && leb 2 (length (values_of stats current_df col))

  -- There is one result for each column that has two values in both frames, in the order of the columns, and
  -- for no other; each is flagged exactly if its p-value is below the one threshold or its PSI above the other.
  compute_feature_drift_lem :
      (reference_df current_df : Frame A) (cols : List String)
      (ks_p_value_threshold psi_threshold : A)
      → let results =
          compute_feature_drift stats reference_df current_df cols ks_p_value_threshold
            psi_threshold in
        (map (λ r. r.feature) results ≡ filter (is_measurable reference_df current_df) cols)
        × All (IsFlagged ks_p_value_threshold psi_threshold) results
  unfolding compute_feature_drift feature_drift filter
  compute_feature_drift_lem reference_df current_df [] ks psi = (refl, tt)
  compute_feature_drift_lem reference_df current_df (col ∷ cols) ks psi =
      let a = length (values_of stats reference_df col) in
      let b = length (values_of stats current_df col) in
      let (rest, flagged) = compute_feature_drift_lem reference_df current_df cols ks psi in
      elim (Bool-cases (ltb a 2 || ltb b 2)) [
        | inl few ↦
            let e : is_measurable reference_df current_df col ≡ false = ground (arith, few) in
            rw (few, e) (rest, flagged)
        | inr enough ↦
            let e : is_measurable reference_df current_df col ≡ true = ground (arith, enough) in
            rw (enough, e) (ap (◌∷◌ col) rest, (refl, flagged))
      ]

module _ {A : Type 0} ⦃f : Floating A⦄ where
  -- a value that can be compared: not NaN
  abbrev pub IsNumber : A → Type 0
  IsNumber x = x ≤ᶠ x ≡ true

  module _ (ordered : IsOrdered A) where
    fmax-le : (x y : A) → IsNumber x → IsNumber y → (x ≤ᶠ fmax x y ≡ true) × (y ≤ᶠ fmax x y ≡ true)
    fmax-le x y p q = ground (arith, ordered.lt-eq x y, ordered.le_total x y p q, p, q)

    max_from-le :
        (x : A) (ys : List A)
        → IsNumber x
        → All IsNumber ys
        → (x ≤ᶠ max_from x ys ≡ true) × All (λ y. y ≤ᶠ max_from x ys ≡ true) ys
    max_from-le x [] p q = (p, tt)
    max_from-le x (y ∷ ys) p q =
        let (left, right) = fmax-le x y p q.0 in
        let (least, rest) =
          max_from-le (fmax x y) ys (ordered.refl_of_le x (fmax x y) left).1 q.1 in
        (
          ordered.le_trans x (fmax x y) (max_from (fmax x y) ys) left least,
          (ordered.le_trans y (fmax x y) (max_from (fmax x y) ys) right least, rest),
        )

    max_or_zero-le : (xs : List A) → All IsNumber xs → All (λ y. y ≤ᶠ max_or_zero xs ≡ true) xs
    max_or_zero-le [] h = tt
    max_or_zero-le (x ∷ xs) h = max_from-le x xs h.0 h.1

    -- Where no PSI of a report is NaN, its largest PSI is at least that of every feature and that of the
    -- scores, if it has one.
    pub max_psi-le :
        (r : DriftReport A)
        → All IsNumber (map (λ x. x.psi) r.feature_results ++ optional r.score_psi)
        → All
            (λ y. y ≤ᶠ max_psi r ≡ true)
            (map (λ x. x.psi) r.feature_results ++ optional r.score_psi)
    unfolding max_psi
    max_psi-le r h = max_or_zero-le (map (λ x. x.psi) r.feature_results ++ optional r.score_psi) h
