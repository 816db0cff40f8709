-- ===== src/Features/Clean.antt =====
-- Transactions on which nothing raises.
use realtime_fraud_detection.Common.{
  ◌≡◌, refl, Bool, true, false, not, some, List, [], ◌∷◌, map, filter, any, is_some, All, arith,
  Bool-cases, inl, inr,
}
use realtime_fraud_detection.Common.Floating.{Floating, ◌≤ᶠ◌}
use realtime_fraud_detection.Common.Sort.{sort, by_key, All-sort}
use realtime_fraud_detection.Features.{
  other_kind, is_early, in_window, other_than, past_of, comparable, compute_features, try_features,
  hours, sort_by_time,
}
use realtime_fraud_detection.Schemas.{Transaction}

module _ {A : Type 0} ⦃f : Floating A⦄ where
  -- its time has a zone where `zoned` says so, is not on the first day of year 1, and its amount is a number
  pub record IsClean (zoned : Bool) (t : Transaction A) : Type 0 where
    pub kind : is_some t.zone ≡ zoned
    pub late : is_early t ≡ false
    pub number : t.amount ≤ᶠ t.amount ≡ true

  pub All-filter :
      (P : Transaction A → Type 0) (p : Transaction A → Bool) (l : List (Transaction A))
      → All P l
      → All P (filter p l)
  unfolding filter
  All-filter P p [] h = tt
  All-filter P p (x ∷ l) h = elim (Bool-cases (p x)) [
    | inl e ↦ rw e (h.0, All-filter P p l h.1)
    | inr e ↦ rw e (All-filter P p l h.1)
  ]

  kind-All :
      (zoned : Bool) (current : Transaction A) (l : List (Transaction A))
      → is_some current.zone ≡ zoned
      → All (IsClean zoned) l
      → any (other_kind current) l ≡ false
  unfolding any
  kind-All zoned current [] k h = refl
  kind-All zoned current (x ∷ l) k h = ground (arith, k, h.0.kind, kind-All zoned current l k h.1)

  number-All :
      (zoned : Bool) (l : List (Transaction A))
      → All (IsClean zoned) l
      → any (λ (x : A). not (x ≤ᶠ x)) (map (λ t. t.amount) l) ≡ false
  unfolding any
  number-All zoned [] h = refl
  number-All zoned (x ∷ l) h = ground (arith, h.0.number, number-All zoned l h.1)

  pub sort_by_time-IsClean :
      (zoned : Bool) (l : List (Transaction A))
      → All (IsClean zoned) l
      → sort_by_time l ≡ some (sort (by_key (λ t. t.event_time)) l)
  unfolding sort_by_time
  sort_by_time-IsClean zoned [] h = refl
  sort_by_time-IsClean zoned (t ∷ l) h = rw (kind-All zoned t l h.0.kind h.1, sort_by_time) refl

  pub comparable-IsClean :
      (zoned : Bool) (history : List (Transaction A)) (current : Transaction A)
      → All (IsClean zoned) history
      → IsClean zoned current
      → comparable history current ≡ true
  unfolding comparable past_of
  comparable-IsClean zoned history current h c =
      let past = past_of history current in
      let clean =
        All-sort (by_key (λ (t : Transaction A). t.event_time)) (IsClean zoned)
          (filter (other_than current) history)
          (All-filter (IsClean zoned) (other_than current) history h) in
      let window = filter (in_window current.event_time (hours 24)) past in
      ground (
        arith,
        kind-All zoned current past c.kind clean,
        c.late,
        number-All zoned window
            (All-filter (IsClean zoned) (in_window current.event_time (hours 24)) past clean),
      )

  pub try_features-IsClean :
      (zoned : Bool) (history : List (Transaction A)) (current : Transaction A)
      → All (IsClean zoned) history
      → IsClean zoned current
      → try_features history current ≡ some (compute_features history current)
  unfolding try_features
  try_features-IsClean zoned history current h c =
      rw (comparable-IsClean zoned history current h c, try_features) refl
