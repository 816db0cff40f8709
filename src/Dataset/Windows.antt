-- ===== src/Dataset/Windows.antt =====
-- Each training row is computed from the newest 500 transactions of its card before it.
use realtime_fraud_detection.Common.{
  ℕ, zero, suc, ◌+◌, ◌-◌, ◌≤◌, String, ◌≡◌, refl, sym, ap, ◌∙◌, Bool, some, List, [], ◌∷◌, ◌++◌,
  length, length-append, drop, filter, filter-append, or_else, str_eq, eq_iff, arith, ltb,
  if◌then◌else◌, Bool-cases, inl, inr,
}
use mathlib.Core.List.{append-nil}
use mathlib.Core.Path.{ap₂}
use realtime_fraud_detection.Common.Dict.{Dict, get, set, get-set}
use realtime_fraud_detection.Common.Floating.{Floating}
use realtime_fraud_detection.Schemas.{Transaction}
use realtime_fraud_detection.Dataset.{
  TrainingRow, bound_history, training_row, rows_from, build_training_dataset,
}

module _ {ℓ} {X : Type ℓ} where
  drop-nil : (n : ℕ) → drop {A = X} n [] ≡ []
  drop-nil zero = refl
  drop-nil (suc n) = refl

  drop-drop : (a b : ℕ) (xs : List X) → drop a (drop b xs) ≡ drop (b + a) xs
  drop-drop a zero xs = ap (λ n. drop n xs) (omega arith)
  drop-drop a (suc b) [] = drop-nil a ∙ sym (drop-nil (suc b + a))
  drop-drop a (suc b) (x ∷ xs) =
      let e : suc (b + a) ≡ suc b + a = omega arith in
      drop-drop a b xs ∙ ap (λ n. drop n (x ∷ xs)) e

  drop-append :
      (n : ℕ) (xs : List X) (y : X) → n ≤ length xs → drop n (xs ++ y ∷ []) ≡ drop n xs ++ y ∷ []
  drop-append zero xs y h = refl
  drop-append (suc n) [] y h = absurd (omega arith)
  drop-append (suc n) (x ∷ xs) y h = drop-append n xs y (omega arith)

  length-drop : (n : ℕ) (xs : List X) → length (drop n xs) ≡ length xs - n
  length-drop zero xs = omega arith
  length-drop (suc n) [] = omega arith
  length-drop (suc n) (x ∷ xs) = omega (arith, length-drop n xs)

  -- `xs[-500:]`
  abbrev pub newest : ℕ → List X → List X
  newest n xs = drop (length xs - n) xs

  -- cutting after each append is cutting at the end
  newest-append :
      (n : ℕ) (xs : List X) (y : X) → newest n (newest n xs ++ y ∷ []) ≡ newest n (xs ++ y ∷ [])
  newest-append n xs y =
      let b = length xs - n in
      let zs = drop b xs ++ y ∷ [] in
      ap (λ l. drop (length zs - n) l) (sym (drop-append b xs y (omega arith)))
      ∙ drop-drop (length zs - n) b (xs ++ y ∷ [])
      ∙ ap (λ k. drop k (xs ++ y ∷ []))
          (omega (
            arith,
            length-append (drop b xs) (y ∷ []),
            length-append xs (y ∷ []),
            length-drop b xs,
          ))

module _ {A : Type 0} ⦃f : Floating A⦄ where
  abbrev pub of_card : String → Transaction A → Bool
  of_card card_id t = str_eq t.card_id card_id

  abbrev pub recent : String → List (Transaction A) → List (Transaction A)
  recent card_id prior = newest 500 (filter (of_card card_id) prior)

  -- each row from the transactions before it
  abbrev pub rows_after : List (Transaction A) → List (Transaction A) → List (TrainingRow A)
  rows_after prior [] = []
  rows_after prior (t ∷ ts) =
      training_row (recent t.card_id prior) t ∷ rows_after (prior ++ t ∷ []) ts

  abbrev history_of : String → Dict (List (Transaction A)) → List (Transaction A)
  history_of card_id history = or_else (get card_id history) []

  bound_history-newest : (h : List (Transaction A)) → bound_history h ≡ newest 500 h
  unfolding bound_history
  bound_history-newest h = elim (Bool-cases (ltb 500 (length h))) [
    | inl long ↦ rw long refl
    | inr short ↦
        let e : 0 ≡ length h - 500 = ground (arith, short) in rw short (ap (λ n. drop n h) e)
  ]

  recent-append :
      (c : String) (prior : List (Transaction A)) (t : Transaction A)
      → recent c (prior ++ t ∷ [])
        ≡ (if str_eq t.card_id c then newest 500 (recent c prior ++ t ∷ []) else recent c prior)
  unfolding filter
  recent-append c prior t =
      let p = filter (of_card c) prior in
      let e = filter-append (of_card c) prior (t ∷ []) in
      elim (Bool-cases (str_eq t.card_id c)) [
        | inl this ↦
            let one : filter (of_card c) (t ∷ []) ≡ t ∷ [] = rw this refl in
            rw this (ap (newest 500) (e ∙ ap (λ l. p ++ l) one) ∙ sym (newest-append 500 p t))
        | inr other ↦
            let none_of : filter (of_card c) (t ∷ []) ≡ [] = rw other refl in
            rw other (ap (newest 500) (e ∙ ap (λ l. p ++ l) none_of ∙ append-nil p))
      ]

  -- the histories of the loop after one more transaction
  history_of-set :
      (c : String) (history : Dict (List (Transaction A))) (prior : List (Transaction A))
      (t : Transaction A)
      → ((c : String) → history_of c history ≡ recent c prior)
      → history_of c
          (set t.card_id (bound_history (history_of t.card_id history ++ t ∷ [])) history)
        ≡ recent c (prior ++ t ∷ [])
  history_of-set c history prior t h =
      let v = bound_history (history_of t.card_id history ++ t ∷ []) in
      let e = get-set c t.card_id v history in
      elim (Bool-cases (str_eq t.card_id c)) [
        | inl this ↦
            let same : t.card_id ≡ c = ground (arith, this, eq_iff t.card_id c) in
            let found : get c (set t.card_id v history) ≡ some v = e ∙ rw this refl in
            ap (λ o. or_else o []) found
            ∙ bound_history-newest (history_of t.card_id history ++ t ∷ [])
            ∙ ap (λ l. newest 500 (l ++ t ∷ [])) (h t.card_id ∙ ap (λ d. recent d prior) same)
            ∙ sym (recent-append c prior t ∙ rw this refl)
        | inr other ↦
            let found : get c (set t.card_id v history) ≡ get c history = e ∙ rw other refl in
            ap (λ o. or_else o []) found ∙ h c ∙ sym (recent-append c prior t ∙ rw other refl)
      ]

  rows_from-rows_after :
      (history : Dict (List (Transaction A))) (prior txns : List (Transaction A))
      → ((c : String) → history_of c history ≡ recent c prior)
      → rows_from history txns ≡ rows_after prior txns
  unfolding rows_from
  rows_from-rows_after history prior [] h = refl
  rows_from-rows_after history prior (t ∷ ts) h =
      ap₂ ◌∷◌ (ap (λ l. training_row l t) (h t.card_id)) (
        rows_from-rows_after
          (set t.card_id (bound_history (history_of t.card_id history ++ t ∷ [])) history)
          (prior ++ t ∷ []) ts (λ c. history_of-set c history prior t h))

  -- The training rows are those that the definition gives: each transaction's features over the newest 500
  -- transactions of its card among those before it, in their order, whatever the order of the cards.
  pub build_training_dataset_lem :
      (txns : List (Transaction A)) → build_training_dataset txns ≡ rows_after [] txns
  unfolding build_training_dataset filter get
  build_training_dataset_lem txns = rows_from-rows_after [] [] txns (λ c. refl)
