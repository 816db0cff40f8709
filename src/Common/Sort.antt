-- ===== src/Common/Sort.antt =====
-- Python's `sorted`: a stable sort, given by the test that one item may stay before another.
use mathlib.Core.List.{Permᴰ}
use mathlib.Core.List
use Prim.Native.Nat.{ℕ, suc}
use mathlib.Core.Path.{◌≡◌, refl, ap, ◌∙◌, subst, sym, ap₂}
use mathlib.Core.Logic.{◌≢◌, inl, inr}
use mathlib.Core.Bool.{Bool, true, false}
use mathlib.Core.List.{List, [], ◌∷◌, map}
use native.Mathlib.Omega.{arith}
use realtime_fraud_detection.Common.Tests.{Bool-cases, leb, if◌then◌else◌}
use realtime_fraud_detection.Common.Lists.{length, count, filter, All}

module _ {ℓ} {A : Type ℓ} (before : A → A → Bool) where
  unfoldable pub insert : A → List A → List A
  insert x [] = x ∷ []
  insert x (y ∷ ys) = if before x y then x ∷ y ∷ ys else y ∷ insert x ys

  unfoldable pub sort : List A → List A
  unfolding insert
  sort [] = []
  sort (x ∷ xs) = insert x (sort xs)

  length-insert : (x : A) (ys : List A) → length (insert x ys) ≡ suc (length ys)
  unfolding insert
  length-insert x [] = refl
  length-insert x (y ∷ ys) = ground (arith, length-insert x ys)

  pub length-sort : (xs : List A) → length (sort xs) ≡ length xs
  unfolding sort
  length-sort [] = refl
  length-sort (x ∷ xs) = length-insert x (sort xs) ∙ ap suc (length-sort xs)

  count-insert : (p : A → Bool) (x : A) (ys : List A) → count p (insert x ys) ≡ count p (x ∷ ys)
  unfolding insert count
  count-insert p x [] = refl
  count-insert p x (y ∷ ys) = ground (arith, count-insert p x ys)

  -- Sorting changes no count.
  pub count-sort : (p : A → Bool) (xs : List A) → count p (sort xs) ≡ count p xs
  unfolding sort count
  count-sort p [] = refl
  count-sort p (x ∷ xs) = ground (arith, count-insert p x (sort xs), count-sort p xs)

module _ {ℓ κ} {A : Type ℓ} (before : A → A → Bool) (P : A → Type κ) where
  pub All-insert : (x : A) (l : List A) → P x → All P l → All P (insert before x l)
  unfolding insert
  All-insert x [] h k = (h, tt)
  All-insert x (y ∷ l) h k = elim (Bool-cases (before x y)) [
    | inl first ↦ rw first (h, k)
    | inr after ↦ rw after (k.0, All-insert x l h k.1)
  ]

  -- What holds of all items holds of them when sorted.
  pub All-sort : (l : List A) → All P l → All P (sort before l)
  unfolding sort
  All-sort [] h = tt
  All-sort (x ∷ l) h = All-insert x (sort before l) h.0 (All-sort l h.1)

module _ {ℓ} {A : Type ℓ} (before : A → A → Bool) where
  -- each item may stay before all that follow it
  abbrev pub Ranked : List A → Type ℓ
  Ranked [] = Unit
  Ranked (x ∷ l) = All (λ y. before x y ≡ true) l × Ranked l

module _ {ℓ κ} {A : Type ℓ} (before : A → A → Bool) (P : A → Type κ) where
  module _ (total : (x y : A) → P x → P y → before x y ≡ false → before y x ≡ true)
      (transitive : (x y z : A)
        → P x
        → P y
        → P z
        → before x y ≡ true
        → before y z ≡ true
        → before x z ≡ true) where
    All-before :
        (x y : A) (l : List A)
        → P x
        → P y
        → All P l
        → before x y ≡ true
        → All (λ z. before y z ≡ true) l
        → All (λ z. before x z ≡ true) l
    All-before x y [] p q r h k = tt
    All-before x y (z ∷ l) p q r h k =
        (transitive x y z p q r.0 h k.0, All-before x y l p q r.1 h k.1)

    insert-Ranked :
        (x : A) (l : List A) → P x → All P l → Ranked before l → Ranked before (insert before x l)
    unfolding insert
    insert-Ranked x [] p q h = (tt, tt)
    insert-Ranked x (y ∷ l) p q h = elim (Bool-cases (before x y)) [
      | inl first ↦ rw first ((first, All-before x y l p q.0 q.1 first h.0), h)
      | inr after ↦ rw after (
        All-insert before (λ z. before y z ≡ true) x l (total x y p q.0 after) h.0,
        insert-Ranked x l p q.1 h.1,
      )
    ]

    -- Where the test is a total order, sorting puts the items in that order.
    pub sort-Ranked : (l : List A) → All P l → Ranked before (sort before l)
    unfolding sort
    sort-Ranked [] q = tt
    sort-Ranked (x ∷ l) q =
        insert-Ranked x (sort before l) q.0 (All-sort before P l q.1) (sort-Ranked l q.1)

filter-swap {ℓ} :
    {A : Type ℓ} (p : A → Bool) (a b : A) (l : List A)
    → Permᴰ (filter p (a ∷ b ∷ l)) (filter p (b ∷ a ∷ l))
unfolding filter
filter-swap p a b l = elim (Bool-cases (p a)) [
  | inl s ↦ elim (Bool-cases (p b)) [
    | inl t ↦ rw (s, t) (Permᴰ.swap refl refl)
    | inr t ↦ rw (s, t) (List.Permᴰ.refl _)
  ]
  | inr s ↦ elim (Bool-cases (p b)) [
    | inl t ↦ rw (s, t) (List.Permᴰ.refl _)
    | inr t ↦ rw (s, t) (List.Permᴰ.refl _)
  ]
]

-- `key=k` with numbers for keys
abbrev pub by_key {ℓ} : {A : Type ℓ} → (A → ℕ) → A → A → Bool
by_key k x y = leb (k x) (k y)

module _ {ℓ} {A : Type ℓ} (k : A → ℕ) where
  -- No two items of the list have one key.
  abbrev pub Apart : ℕ → List A → Type 0
  Apart n [] = Unit
  Apart n (x ∷ xs) = (n ≢ k x) × Apart n xs

  abbrev pub DistinctKeys : List A → Type 0
  DistinctKeys [] = Unit
  DistinctKeys (x ∷ xs) = Apart (k x) xs × DistinctKeys xs

  insert_comm :
      (x y : A) (l : List A)
      → k x ≢ k y
      → insert (by_key k) x (insert (by_key k) y l) ≡ insert (by_key k) y (insert (by_key k) x l)
  unfolding insert
  insert_comm x y [] h = ground arith
  insert_comm x y (z ∷ l) h = ground (arith, insert_comm x y l h)

  Apart-perm : {l m : List A} (n : ℕ) → Permᴰ l m → Apart n l → Apart n m
  Apart-perm n Permᴰ.nil h = h
  Apart-perm n (Permᴰ.cons {a = a} {b = b} e p) h = (subst (λ c. n ≢ k c) e h.0, Apart-perm n p h.1)
  Apart-perm n (Permᴰ.swap e d) h =
      (subst (λ c. n ≢ k c) d h.1.0, (subst (λ c. n ≢ k c) e h.0, h.1.1))
  Apart-perm n (Permᴰ.trans p q) h = Apart-perm n q (Apart-perm n p h)

  DistinctKeys-perm : {l m : List A} → Permᴰ l m → DistinctKeys l → DistinctKeys m
  DistinctKeys-perm Permᴰ.nil h = h
  DistinctKeys-perm (Permᴰ.cons {b = b} {l₂ = m} e p) h =
      (Apart-perm (k b) p (rw (← e) h.0), DistinctKeys-perm p h.1)
  DistinctKeys-perm (Permᴰ.swap {l = l} e d) h = (
    ((λ q. h.0.0 (ap k e ∙ sym q ∙ ap k (sym d))), subst (λ c. Apart (k c) l) d h.1.0),
    (subst (λ c. Apart (k c) l) e h.0.1, h.1.1),
  )
  DistinctKeys-perm (Permᴰ.trans p q) h = DistinctKeys-perm q (DistinctKeys-perm p h)

  Apart-filter : (n : ℕ) (p : A → Bool) (l : List A) → Apart n l → Apart n (filter p l)
  unfolding filter
  Apart-filter n p [] h = h
  Apart-filter n p (x ∷ l) h = ground (arith, Apart-filter n p l h.1)

  DistinctKeys-filter : (p : A → Bool) (l : List A) → DistinctKeys l → DistinctKeys (filter p l)
  unfolding filter
  DistinctKeys-filter p [] h = h
  DistinctKeys-filter p (x ∷ l) h = elim (Bool-cases (p x)) [
    | inl e ↦ rw e (Apart-filter (k x) p l h.0, DistinctKeys-filter p l h.1)
    | inr e ↦ rw e (DistinctKeys-filter p l h.1)
  ]

  -- Where no two keys are one, the sorted list does not depend on the order given.
  sort-perm : {l m : List A} → Permᴰ l m → DistinctKeys l → sort (by_key k) l ≡ sort (by_key k) m
  unfolding sort
  sort-perm Permᴰ.nil h = refl
  sort-perm (Permᴰ.cons {b = b} e p) h = ap₂ (insert (by_key k)) e (sort-perm p h.1)
  sort-perm (Permᴰ.swap {a = a} {b = b} {l = l} e d) h =
      rw (← e, ← d) (insert_comm a b (sort (by_key k) l) h.0.0)
  sort-perm (Permᴰ.trans p q) h = sort-perm p h ∙ sort-perm q (DistinctKeys-perm p h)

  filter-perm : (p : A → Bool) {l m : List A} → Permᴰ l m → Permᴰ (filter p l) (filter p m)
  unfolding filter
  filter-perm p Permᴰ.nil = Permᴰ.nil
  filter-perm p (Permᴰ.cons {a = a} {b = b} e q) = rw e (elim (Bool-cases (p b)) [
    | inl t ↦ rw t (Permᴰ.cons refl (filter-perm p q))
    | inr f ↦ rw f (filter-perm p q)
  ])
  filter-perm p (Permᴰ.swap {a = a} {b = b} {l = l} e d) = rw (← e, ← d) (filter-swap p a b l)
  filter-perm p (Permᴰ.trans q r) = Permᴰ.trans (filter-perm p q) (filter-perm p r)

  -- The same for the items that pass a test.
  pub sort-filter_of_perm :
      (p : A → Bool) {l m : List A}
      → Permᴰ l m
      → DistinctKeys l
      → sort (by_key k) (filter p l) ≡ sort (by_key k) (filter p m)
  sort-filter_of_perm p {l} q h = sort-perm (filter-perm p q) (DistinctKeys-filter p l h)
