-- ===== src/Producer/Rounds.antt =====
-- What the producer hands over in all its rounds.
use realtime_fraud_detection.Common.{
  ℕ, suc, ◌≡◌, sym, ap, subst, ◌∙◌, String, Bool, List, [], ◌∷◌, ◌++◌, Bool-cases, inl, inr,
}
use realtime_fraud_detection.Producer.{
  Message, Kafka, IsKafka, BatchEnd, went_on, stopped, raised, publish_batch, run,
}
use realtime_fraud_detection.Producer.Copies.{
  replicate, msg, Handed, IsHanded, stopped-IsHanded, went_on-IsHanded, publish_batch-IsHanded,
}
use realtime_fraud_detection.Schemas.{Transaction}
use mathlib.Core.List.{append_assoc, append-nil}

-- all the batches' items, in their order
abbrev pub flat : {X : Type 0} → List (List X) → List X
flat [] = []
flat (b ∷ bs) = b ++ flat bs

module _ {A K : Type 0} (kafka : Kafka K) (laws : IsKafka kafka) (text : Transaction A → String)
    (topic : String) where
  abbrev Hands : List (Transaction A) → List Message → Type 0
  Hands = Handed kafka laws text topic

  abbrev Gives : List (Transaction A) → K → BatchEnd × K → Type 0
  Gives = IsHanded kafka laws text topic

  Handed-append :
      (ts us : List (Transaction A)) (ms ns : List Message)
      → Hands ts ms
      → Hands us ns
      → Hands (ts ++ us) (ms ++ ns)
  Handed-append [] us ms ns h g = subst (λ l. Hands us (l ++ ns)) (sym h) g
  Handed-append (t ∷ ts) us ms ns (j, rest, e, low, high, h) g = (
    j,
    rest ++ ns,
    ap (λ l. l ++ ns) e ∙ append_assoc (replicate j (msg kafka laws text topic t)) rest ns,
    low,
    high,
    Handed-append ts us rest ns h g,
  )

  -- a batch that went on to its end, and the rounds after it
  then-IsHanded :
      (txns more : List (Transaction A)) (k k1 : K) (n : ℕ) (result : BatchEnd × K)
      → Gives txns k (went_on n, k1)
      → Gives more k1 result
      → Gives (txns ++ more) k result
  then-IsHanded txns more k k1 n result r s =
      let all_sent : txns ≡ r.sent = r.parted ∙ ap (λ l. r.sent ++ l) r.cut.0 ∙ append-nil r.sent in
      let all_queued : kafka.queued k1 ≡ kafka.queued k ++ r.copies =
        r.queued
        ∙ ap (λ l. kafka.queued k ++ (r.copies ++ l)) r.cut.1
        ∙ ap (λ l. kafka.queued k ++ l) (append-nil r.copies) in
      record {
        sent = r.sent ++ s.sent;
        unsent = s.unsent;
        copies = r.copies ++ s.copies;
        extra = s.extra;
        parted =
            ap (λ l. l ++ more) all_sent
            ∙ ap (λ l. r.sent ++ l) s.parted
            ∙ sym (append_assoc r.sent s.sent s.unsent);
        queued =
            s.queued
            ∙ ap (λ q. q ++ (s.copies ++ s.extra)) all_queued
            ∙ append_assoc (kafka.queued k) r.copies (s.copies ++ s.extra)
            ∙ ap (λ q. kafka.queued k ++ q) (sym (append_assoc r.copies s.copies s.extra));
        handed = Handed-append r.sent s.sent r.copies s.copies r.handed s.handed;
        cut = s.cut;
      }

  -- a batch that was stopped, with the flush
  flushed-IsHanded :
      (txns more : List (Transaction A)) (k k1 : K)
      → Gives txns k (stopped, k1)
      → Gives (txns ++ more) k (stopped, kafka.flush k1)
  flushed-IsHanded txns more k k1 r = record {
    sent = r.sent;
    unsent = r.unsent ++ more;
    copies = r.copies;
    extra = r.extra;
    parted = ap (λ l. l ++ more) r.parted ∙ append_assoc r.sent r.unsent more;
    queued = laws.flush_lem k1 ∙ r.queued;
    handed = r.handed;
    cut = r.cut;
  }

  raised-IsHanded :
      (txns more : List (Transaction A)) (k k1 : K)
      → Gives txns k (raised, k1)
      → Gives (txns ++ more) k (raised, k1)
  raised-IsHanded txns more k k1 r =
      let (t, ts, j, e, same, few) = r.cut in
      record {
        sent = r.sent;
        unsent = r.unsent ++ more;
        copies = r.copies;
        extra = r.extra;
        parted = ap (λ l. l ++ more) r.parted ∙ append_assoc r.sent r.unsent more;
        queued = r.queued;
        handed = r.handed;
        cut = (t, ts ++ more, j, ap (λ l. l ++ more) e, same, few);
      }

  module _ (stop : ℕ → Bool) where
    -- one round, however its batch ended
    round-IsHanded :
        (batch more : List (Transaction A)) (k : K) (end : BatchEnd) (k1 : K)
        (rest : ℕ → K → BatchEnd × K)
        → ((n : ℕ) → Gives more k1 (rest n k1))
        → Gives batch k (end, k1)
        → Gives (batch ++ more) k (elim end [
          | went_on n' ↦ rest n' k1
          | stopped ↦ (stopped, kafka.flush k1)
          | raised ↦ (raised, k1)
        ])
    round-IsHanded batch more k (went_on n) k1 rest h r =
        then-IsHanded batch more k k1 n (rest n k1) r (h n)
    round-IsHanded batch more k stopped k1 rest h r = flushed-IsHanded batch more k k1 r
    round-IsHanded batch more k raised k1 rest h r = raised-IsHanded batch more k k1 r

    -- Whatever stops the producer and however Kafka's calls fail, what it hands over is one to three copies of each of
    -- the first of the generated transactions, in their order and keyed by card, and none is left out. Only where a
    -- publication raised three times may copies of its transaction, three at most, follow them.
    pub run-IsHanded :
        (n : ℕ) (batches : List (List (Transaction A))) (k : K)
        → Gives (flat batches) k (run kafka text topic stop n batches k)
    unfolding run
    run-IsHanded n [] k = went_on-IsHanded kafka laws text topic n k
    run-IsHanded n (batch ∷ batches) k =
        let first = publish_batch kafka text topic stop (suc n) batch k in
        elim (Bool-cases (stop n)) [
          | inl halt ↦
              rw (halt, run)
                (flushed-IsHanded [] (batch ++ flat batches) k k
                  (stopped-IsHanded kafka laws text topic [] k))
          | inr on ↦
              rw (on, run)
                (round-IsHanded batch (flat batches) k first.0 first.1
                  (λ n' k1. run kafka text topic stop n' batches k1)
                  (λ n'. run-IsHanded n' batches first.1)
                  (publish_batch-IsHanded kafka laws text topic stop (suc n) batch k))
        ]
