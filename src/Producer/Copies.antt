-- ===== src/Producer/Copies.antt =====
-- What the producer hands over to Kafka.
use realtime_fraud_detection.Common.{
  ℕ, zero, suc, ◌≤◌, ◌≡◌, refl, sym, ap, ◌∙◌, String, Bool, true, false, List, [], ◌∷◌, ◌++◌, arith,
  inl, inr, ◌⊎◌, Bool-cases,
}
use realtime_fraud_detection.Producer.{
  Message, Kafka, IsKafka, BatchEnd, went_on, stopped, raised, message_of, attempt, attempts,
  publish, publish_batch,
}
use realtime_fraud_detection.Schemas.{Transaction}
use mathlib.Core.List.{append_assoc, append-nil}

abbrev pub replicate : {X : Type 0} → ℕ → X → List X
replicate zero x = []
replicate (suc n) x = x ∷ replicate n x

module _ {A K : Type 0} (kafka : Kafka K) (laws : IsKafka kafka) (text : Transaction A → String)
    (topic : String) where
  abbrev pub msg : Transaction A → Message
  msg = message_of kafka text topic

  attempt_lem :
      (txn : Transaction A) (k : K)
      → let (done, k') = attempt kafka text topic txn k in
        (kafka.queued k' ≡ kafka.queued k ++ msg txn ∷ [])
        ⊎ ((done ≡ false) × (kafka.queued k' ≡ kafka.queued k))
  unfolding attempt
  attempt_lem txn k =
      let law = laws.produce_lem (msg txn) k in
      let k1 = (kafka.produce (msg txn) k).1 in
      elim (Bool-cases (kafka.produce (msg txn) k).0) [
        | inl e ↦ rw (e, attempt) (inl (laws.poll_lem k1 ∙ law ∙ rw e))
        | inr e ↦ rw (e, attempt) (inr (refl, law ∙ rw e))
      ]

  -- a publication hands over at most as many copies as it has attempts, and one at least if it succeeds
  attempts_lem :
      (n : ℕ) (txn : Transaction A) (k : K)
      → let (done, k') = attempts kafka text topic n txn k in
        (j : ℕ) × (kafka.queued k' ≡ kafka.queued k ++ replicate j (msg txn))
        × (j ≤ n)
        × (done ≡ true → 1 ≤ j)
  unfolding attempts
  attempts_lem zero txn k = (0, sym (append-nil (kafka.queued k)), omega arith, λ e. cc)
  attempts_lem (suc n) txn k =
      let k1 = (attempt kafka text topic txn k).1 in
      elim (Bool-cases (attempt kafka text topic txn k).0) [
        | inl e ↦
            rw (e, attempts)
              (elim (attempt_lem txn k) [
                | inl one ↦ (1, one, omega arith, λ h. omega arith)
                | inr (failed, same) ↦ absurd (ground (arith, e, failed))
              ])
        | inr e ↦
            rw (e, attempts)
              (let (j, more, few, some_there) = attempts_lem n txn k1 in
                elim (attempt_lem txn k) [
                  | inl one ↦ (
                    suc j,
                    more
                        ∙ ap (λ q. q ++ replicate j (msg txn)) one
                        ∙ append_assoc (kafka.queued k) (msg txn ∷ []) (replicate j (msg txn)),
                    omega (arith, few),
                    λ h. omega arith,
                  )
                  | inr (failed, same) ↦ (
                    j,
                    more ∙ ap (λ q. q ++ replicate j (msg txn)) same,
                    omega (arith, few),
                    some_there,
                  )
                ])
      ]

  -- one to three copies of each transaction's message, in their order
  abbrev pub Handed : List (Transaction A) → List Message → Type 0
  Handed [] ms = ms ≡ []
  Handed (t ∷ ts) ms =
      (j : ℕ) × (rest : List Message) × (ms ≡ replicate j (msg t) ++ rest)
      × (1 ≤ j)
      × (j ≤ 3)
      × Handed ts rest

  -- at most three copies of the transaction whose publication raised
  abbrev pub IsCut : BatchEnd → List (Transaction A) → List Message → Type 0
  IsCut (went_on n) unsent extra = (unsent ≡ []) × (extra ≡ [])
  IsCut stopped unsent extra = extra ≡ []
  IsCut raised unsent extra =
      (t : Transaction A) × (ts : List (Transaction A)) × (j : ℕ) × (unsent ≡ t ∷ ts)
      × (extra ≡ replicate j (msg t))
      × (j ≤ 3)

  -- What was handed over of the transactions: those that were sent are the first of them, none is missing where the
  -- code went on to the end, and beyond them there is at most what a publication that raised had handed over.
  pub record IsHanded (txns : List (Transaction A)) (k : K) (result : BatchEnd × K) : Type 0 where
    pub sent : List (Transaction A)
    pub unsent : List (Transaction A)
    pub copies : List Message
    pub extra : List Message
    pub parted : txns ≡ sent ++ unsent
    pub queued : kafka.queued result.1 ≡ kafka.queued k ++ (copies ++ extra)
    pub handed : Handed sent copies
    pub cut : IsCut result.0 unsent extra

  -- a publication that succeeded, before what follows it
  before-IsHanded :
      (txn : Transaction A) (txns : List (Transaction A)) (k k1 : K) (result : BatchEnd × K) (j : ℕ)
      → kafka.queued k1 ≡ kafka.queued k ++ replicate j (msg txn)
      → 1 ≤ j
      → j ≤ 3
      → IsHanded txns k1 result
      → IsHanded (txn ∷ txns) k result
  before-IsHanded txn txns k k1 result j h low high r = record {
    sent = txn ∷ r.sent;
    unsent = r.unsent;
    copies = replicate j (msg txn) ++ r.copies;
    extra = r.extra;
    parted = ap (◌∷◌ txn) r.parted;
    queued =
        r.queued
        ∙ ap (λ q. q ++ (r.copies ++ r.extra)) h
        ∙ append_assoc (kafka.queued k) (replicate j (msg txn)) (r.copies ++ r.extra)
        ∙ ap (λ q. kafka.queued k ++ q)
            (sym (append_assoc (replicate j (msg txn)) r.copies r.extra));
    handed = (j, r.copies, refl, low, high, r.handed);
    cut = r.cut;
  }

  pub stopped-IsHanded : (txns : List (Transaction A)) (k : K) → IsHanded txns k (stopped, k)
  stopped-IsHanded txns k = record {
    sent = [];
    unsent = txns;
    copies = [];
    extra = [];
    parted = refl;
    queued = sym (append-nil (kafka.queued k));
    handed = refl;
    cut = refl;
  }

  pub went_on-IsHanded : (n : ℕ) (k : K) → IsHanded [] k (went_on n, k)
  went_on-IsHanded n k = record {
    sent = [];
    unsent = [];
    copies = [];
    extra = [];
    parted = refl;
    queued = sym (append-nil (kafka.queued k));
    handed = refl;
    cut = (refl, refl);
  }

  module _ (stop : ℕ → Bool) where
    pub publish_batch-IsHanded :
        (n : ℕ) (txns : List (Transaction A)) (k : K)
        → IsHanded txns k (publish_batch kafka text topic stop n txns k)
    unfolding publish_batch publish
    publish_batch-IsHanded n [] k = went_on-IsHanded n k
    publish_batch-IsHanded n (txn ∷ txns) k =
        let k1 = (publish kafka text topic txn k).1 in
        let (j, more, high, low) = attempts_lem 3 txn k in
        elim (Bool-cases (publish kafka text topic txn k).0) [
          | inr e ↦
              rw (e, publish_batch)
                (record {
                  sent = [];
                  unsent = txn ∷ txns;
                  copies = [];
                  extra = replicate j (msg txn);
                  parted = refl;
                  queued = more;
                  handed = refl;
                  cut = (txn, txns, j, refl, refl, high);
                })
          | inl e ↦ elim (Bool-cases (stop n)) [
            | inl halt ↦
                rw (e, halt, publish_batch)
                  (before-IsHanded txn txns k k1 (stopped, k1) j more (low e) high
                    (stopped-IsHanded txns k1))
            | inr on ↦
                rw (e, on, publish_batch)
                  (before-IsHanded txn txns k k1 _ j more (low e) high
                    (publish_batch-IsHanded (suc n) txns k1))
          ]
        ]
