-- ===== src/Storage/Review/Queue.antt =====
-- The review queue under feedback, and what it lists.
use realtime_fraud_detection.Common.{
  ℕ, suc, ◌≤◌, String, ◌≡◌, refl, Option, none, some, List, [], ◌∷◌, arith, All, All-take, length,
  take, filter, count, length-filter, length-take, min, str_eq, eq_iff, Bool-cases, inl, inr,
  leb→le, zero, if◌then◌else◌,
}
use realtime_fraud_detection.Common.Sort.{sort, insert, length-sort, All-insert, All-sort}
use realtime_fraud_detection.Storage.Tables.{Database, ReviewCaseRecord, Stamp}
use realtime_fraud_detection.Storage.Review.{
  find_case, resolve, resolve_case, has_status, newer, submit_feedback, get_review_case,
  list_review_cases, count_review_cases,
}

module _ {A : Type 0} where
  pub find-resolve_case :
      (id j analyst : String) (now : ℕ) (l : List (ReviewCaseRecord A))
      → find_case j (resolve_case id analyst now l) ≡ elim (find_case j l) [
        | none ↦ none
        | some c ↦ if str_eq id j then some (resolve analyst now c) else some c
      ]
  unfolding find_case resolve_case
  find-resolve_case id j analyst now [] = refl
  find-resolve_case id j analyst now (r ∷ l) =
      ground
        (arith, eq_iff r.id id, eq_iff r.id j, eq_iff id j, find-resolve_case id j analyst now l)

  -- resolving a pending case takes it out of the count
  count-resolve_case :
      (id analyst : String) (now : ℕ) (l : List (ReviewCaseRecord A)) (c : ReviewCaseRecord A)
      → find_case id l ≡ some c
      → c.status ≡ "pending"
      → suc (count (has_status "pending") (resolve_case id analyst now l))
        ≡ count (has_status "pending") l
  unfolding find_case resolve_case count
  count-resolve_case id analyst now [] c h k = absurd (ground arith)
  count-resolve_case id analyst now (r ∷ l) c h k = elim (Bool-cases (str_eq r.id id)) [
    | inl this ↦ ground (arith, this, eq_iff r.status "pending")
    | inr other ↦ ground (arith, other, count-resolve_case id analyst now l c)
  ]

  -- newest first
  abbrev pub Descending : List (ReviewCaseRecord A) → Type 0
  Descending [] = Unit
  Descending (r ∷ l) = All (λ s. s.created_at ≤ r.created_at) l × Descending l

  All-le_trans :
      (n m : ℕ) (l : List (ReviewCaseRecord A))
      → n ≤ m
      → All (λ s. s.created_at ≤ n) l
      → All (λ s. s.created_at ≤ m) l
  All-le_trans n m [] h k = tt
  All-le_trans n m (x ∷ l) h k = (omega arith, All-le_trans n m l h k.1)

  insert-Descending :
      (x : ReviewCaseRecord A) (l : List (ReviewCaseRecord A))
      → Descending l
      → Descending (insert newer x l)
  unfolding insert
  insert-Descending x [] h = (tt, tt)
  insert-Descending x (y ∷ l) h = elim (Bool-cases (newer x y)) [
    | inl first ↦ rw first (
      (
        (leb→le y.created_at x.created_at first),
        All-le_trans y.created_at x.created_at l (leb→le y.created_at x.created_at first) h.0,
      ),
      h,
    )
    | inr after ↦ rw after (
      All-insert newer (λ s. s.created_at ≤ y.created_at) x l (ground arith) h.0,
      insert-Descending x l h.1,
    )
  ]

  sort-Descending : (l : List (ReviewCaseRecord A)) → Descending (sort newer l)
  unfolding sort
  sort-Descending [] = tt
  sort-Descending (x ∷ l) = insert-Descending x (sort newer l) (sort-Descending l)

  take-Descending : (n : ℕ) (l : List (ReviewCaseRecord A)) → Descending l → Descending (take n l)
  take-Descending zero l h = tt
  take-Descending (suc n) [] h = tt
  take-Descending (suc n) (x ∷ l) h =
      (All-take (λ s. s.created_at ≤ x.created_at) n l h.0, take-Descending n l h.1)

  filter-All :
      (status : String) (l : List (ReviewCaseRecord A))
      → All (λ c. c.status ≡ status) (filter (has_status status) l)
  unfolding filter
  filter-All status [] = tt
  filter-All status (x ∷ l) = ground (arith, filter-All status l, eq_iff x.status status)

module _ {A R : Type 0} where
  -- Feedback on a case resolves that case, under the analyst's name and at the time of the feedback,
  -- and changes no other; on a case that is not there it changes none.
  pub get_review_case-submit_feedback :
      (stamp : Stamp) (case_id j transaction_id analyst label : String) (notes : Option String)
      (db : Database A R)
      → get_review_case j (submit_feedback stamp case_id transaction_id analyst label notes db).0
        ≡ elim (get_review_case j db) [
          | none ↦ none
          | some c ↦ if str_eq case_id j then some (resolve analyst stamp.now c) else some c
        ]
  unfolding get_review_case submit_feedback
  get_review_case-submit_feedback stamp case_id j transaction_id analyst label notes db =
      find-resolve_case case_id j analyst stamp.now db.review_cases

  -- Feedback on a pending case takes exactly that case out of the pending count.
  pub count_review_cases-submit_feedback :
      (stamp : Stamp) (case_id transaction_id analyst label : String) (notes : Option String)
      (db : Database A R) (c : ReviewCaseRecord A)
      → get_review_case case_id db ≡ some c
      → c.status ≡ "pending"
      → let db' = (submit_feedback stamp case_id transaction_id analyst label notes db).0 in
        suc (count_review_cases "pending" db') ≡ count_review_cases "pending" db
  unfolding get_review_case submit_feedback count_review_cases
  count_review_cases-submit_feedback stamp case_id transaction_id analyst label notes db c h k =
      omega (
        arith,
        count-resolve_case case_id analyst stamp.now db.review_cases c h k,
        length-filter (has_status "pending") db.review_cases,
        length-filter (has_status "pending")
            (resolve_case case_id analyst stamp.now db.review_cases),
      )

  -- The list of a status holds cases of that status only, newest first, and as many as are counted,
  -- up to the limit.
  pub list_review_cases_lem :
      (status : String) (limit : ℕ) (db : Database A R)
      → let cases = list_review_cases status limit db in
        All (λ c. c.status ≡ status) cases
        × Descending cases
        × (length cases ≡ min limit (count_review_cases status db))
  unfolding list_review_cases count_review_cases
  list_review_cases_lem status limit db =
      let found = filter (has_status status) db.review_cases in
      (
        All-take (λ c. c.status ≡ status) limit (sort newer found)
            (All-sort newer (λ c. c.status ≡ status) found (filter-All status db.review_cases)),
        take-Descending limit (sort newer found) (sort-Descending found),
        omega (arith, length-take limit (sort newer found), length-sort newer found),
      )
