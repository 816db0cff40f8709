-- ===== src/Api/Explain/Top.antt =====
-- The features that an explanation names are those that contribute most.
use realtime_fraud_detection.Common.{
  ℕ, zero, suc, ◌+◌, ◌≡◌, Bool, true, false, List, [], ◌∷◌, length, length-take, count,
  count-take-drop, take, drop, min, All, All-drop, All-take, arith,
}
use realtime_fraud_detection.Common.Floating.{Floating, IsOrdered, ◌≤ᶠ◌}
use realtime_fraud_detection.Common.Sort.{sort, Ranked, sort-Ranked, count-sort, length-sort}
use realtime_fraud_detection.Api.Explain.{FeatureContribution, stronger, top_contributions}

-- what is taken off a ranked list is before what is left
Ranked-take {ℓ} :
    {X : Type ℓ} (before : X → X → Bool) (n : ℕ) (l : List X)
    → Ranked before l
    → All (λ x. All (λ y. before x y ≡ true) (drop n l)) (take n l) × Ranked before (take n l)
Ranked-take before zero l h = (tt, tt)
Ranked-take before (suc n) [] h = (tt, tt)
Ranked-take before (suc n) (x ∷ l) h =
    let (rest, ranked) = Ranked-take before n l h.1 in
    (
      (All-drop (λ y. before x y ≡ true) n l h.0, rest),
      (All-take (λ y. before x y ≡ true) n l h.0, ranked),
    )

module _ {A : Type 0} ⦃f : Floating A⦄ where
  -- `kept` is the `n` strongest of the contributions, strongest first; `rest` are the others
  pub record IsTop (n : ℕ) (contributions kept rest : List (FeatureContribution A)) : Type 0 where
    pub split :
        (p : FeatureContribution A → Bool) → count p kept + count p rest ≡ count p contributions
    pub number : length kept ≡ min n (length contributions)
    pub ranked : Ranked stronger kept
    pub above : All (λ k. All (λ r. stronger k r ≡ true) rest) kept

  -- a contribution whose size can be compared: not NaN
  abbrev pub IsComparable : FeatureContribution A → Type 0
  IsComparable c = f.abs c.contribution ≤ᶠ f.abs c.contribution ≡ true

  module _ (ordered : IsOrdered A) where
    stronger_total :
        (c d : FeatureContribution A)
        → IsComparable c
        → IsComparable d
        → stronger c d ≡ false
        → stronger d c ≡ true
    stronger_total c d p q h = ground (
      arith,
      h,
      ordered.lt-eq (f.abs c.contribution) (f.abs d.contribution),
      ordered.lt-eq (f.abs d.contribution) (f.abs c.contribution),
    )

    stronger_trans :
        (c d e : FeatureContribution A)
        → IsComparable c
        → IsComparable d
        → IsComparable e
        → stronger c d ≡ true
        → stronger d e ≡ true
        → stronger c e ≡ true
    stronger_trans c d e p q r h k =
        let x = f.abs c.contribution in
        let y = f.abs d.contribution in
        let z = f.abs e.contribution in
        ground (
          arith,
          h,
          k,
          ordered.lt-eq x y,
          ordered.lt-eq y z,
          ordered.lt-eq x z,
          ordered.le_total x y p q,
          ordered.le_total y z q r,
          ordered.le_trans z y x,
        )

    -- Of contributions none of which is NaN, the explanation keeps the asked number (or all, if there are
    -- fewer), in descending order of absolute value, none of the others is greater than one that is kept,
    -- and together they are the contributions given, each as often.
    pub top_contributions-IsTop :
        (n : ℕ) (contributions : List (FeatureContribution A))
        → All IsComparable contributions
        → (rest : List (FeatureContribution A)) × IsTop n contributions
            (top_contributions n contributions)
            rest
    unfolding top_contributions
    top_contributions-IsTop n cs h =
        let ranked = sort-Ranked stronger IsComparable stronger_total stronger_trans cs h in
        let (above, kept) = Ranked-take stronger n (sort stronger cs) ranked in
        (
          drop n (sort stronger cs),
          record {
            split = λ p.
                omega (arith, count-take-drop p n (sort stronger cs), count-sort stronger p cs);
            number = omega (arith, length-take n (sort stronger cs), length-sort stronger cs);
            ranked = kept;
            above = above;
          },
        )
