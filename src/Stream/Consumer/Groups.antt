-- ===== src/Stream/Consumer/Groups.antt =====
-- The rows of a micro-batch by cards, and in the order of their times.
use realtime_fraud_detection.Common.{
  ℕ, ◌+◌, ◌≡◌, refl, subst, String, Bool, true, Option, List, [], ◌∷◌, length, count, count-append,
  All, All-append, Bool-cases, inl, inr, arith, leb, is_some, or_else,
}
use realtime_fraud_detection.Common.Result.{ok}
use realtime_fraud_detection.Common.Sort.{sort, by_key, count-sort, All-sort}
use realtime_fraud_detection.Stream.Consumer.{
  StreamRow, same_card, add_to_card, group_from, all_timed, sort_rows,
}

abbrev pub Groups : Type 0 → Type 0
Groups A = List (Option String × List (StreamRow A))

abbrev pub is_timed : {A : Type 0} → StreamRow A → Bool
is_timed row = is_some row.event_time

module _ {A : Type 0} where
  -- how many rows of the groups pass the test
  abbrev pub count_rows : (StreamRow A → Bool) → Groups A → ℕ
  count_rows q [] = 0
  count_rows q ((card_id, rows) ∷ groups) = count q rows + count_rows q groups

  count-add_to_card :
      (q : StreamRow A → Bool) (row : StreamRow A) (groups : Groups A)
      → count_rows q (add_to_card row groups) ≡ count q (row ∷ []) + count_rows q groups
  unfolding add_to_card
  count-add_to_card q row [] = refl
  count-add_to_card q row ((c, rows) ∷ groups) =
      ground (arith, count-append q rows (row ∷ []), count-add_to_card q row groups)

  count-cons :
      (q : StreamRow A → Bool) (row : StreamRow A) (rows : List (StreamRow A))
      → count q (row ∷ rows) ≡ count q (row ∷ []) + count q rows
  unfolding count
  count-cons q row rows = ground arith

  pub count-group_from :
      (q : StreamRow A → Bool) (rows : List (StreamRow A)) (groups : Groups A)
      → count_rows q (group_from groups rows) ≡ count_rows q groups + count q rows
  unfolding group_from count
  count-group_from q [] groups = omega arith
  count-group_from q (row ∷ rows) groups = omega (
    arith,
    count-group_from q rows (add_to_card row groups),
    count-add_to_card q row groups,
    count-cons q row rows,
  )

  abbrev pub AllRows : (StreamRow A → Type 0) → Groups A → Type 0
  AllRows P [] = Unit
  AllRows P ((card_id, rows) ∷ groups) = All P rows × AllRows P groups

  add_to_card-AllRows :
      (P : StreamRow A → Type 0) (row : StreamRow A) (groups : Groups A)
      → P row
      → AllRows P groups
      → AllRows P (add_to_card row groups)
  unfolding add_to_card
  add_to_card-AllRows P row [] h k = ((h, tt), tt)
  add_to_card-AllRows P row ((c, rows) ∷ groups) h k = elim (Bool-cases (same_card c row.card_id)) [
    | inl e ↦ rw e (All-append P rows (row ∷ []) k.0 (h, tt), k.1)
    | inr e ↦ rw e (k.0, add_to_card-AllRows P row groups h k.1)
  ]

  pub group_from-AllRows :
      (P : StreamRow A → Type 0) (rows : List (StreamRow A)) (groups : Groups A)
      → All P rows
      → AllRows P groups
      → AllRows P (group_from groups rows)
  unfolding group_from
  group_from-AllRows P [] groups h k = k
  group_from-AllRows P (row ∷ rows) groups h k =
      group_from-AllRows P rows (add_to_card row groups) h.1
        (add_to_card-AllRows P row groups h.0 k)

  all_timed-All :
      (rows : List (StreamRow A)) → All (λ r. is_timed r ≡ true) rows → all_timed rows ≡ true
  all_timed-All [] h = refl
  all_timed-All (row ∷ rows) h = ground (arith, h.0, all_timed-All rows h.1)

  -- rows that all have a time can be sorted
  pub sort_rows_total :
      (rows : List (StreamRow A))
      → All (λ r. is_timed r ≡ true) rows
      → (sorted : List (StreamRow A)) × (sort_rows rows ≡ ok sorted)
  unfolding sort_rows
  sort_rows_total rows h = elim (Bool-cases (leb (length rows) 1)) [
    | inl e ↦ (rows, rw e refl)
    | inr e ↦ (sort (by_key (λ r. or_else r.event_time 0)) rows, rw (e, all_timed-All rows h) refl)
  ]

  -- sorting keeps the rows
  pub count-sort_rows :
      (q : StreamRow A → Bool) (rows sorted : List (StreamRow A))
      → sort_rows rows ≡ ok sorted
      → count q sorted ≡ count q rows
  unfolding sort_rows
  count-sort_rows q rows sorted h =
      ground (arith, h, count-sort (by_key (λ r. or_else r.event_time 0)) q rows)

  pub sort_rows-All :
      (P : StreamRow A → Type 0) (rows sorted : List (StreamRow A))
      → sort_rows rows ≡ ok sorted
      → All P rows
      → All P sorted
  unfolding sort_rows
  sort_rows-All P rows sorted h k = elim (Bool-cases (leb (length rows) 1)) [
    | inl e ↦ subst (All P) (ground (arith, h, e)) k
    | inr e ↦
        subst (All P) (ground (arith, h, e))
          (All-sort (by_key (λ r. or_else r.event_time 0)) P rows k)
  ]
