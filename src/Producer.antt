-- ===== src/Producer.antt =====
-- src/ingestion/producer.py. confluent_kafka's producer is the interface `Kafka` over its state `K`, in which a
-- call gives `false` where it raises; `IsKafka` states that `produce` hands one message over unless it raises.
pub mod Copies
pub mod Rounds
use realtime_fraud_detection.Common.{
  ℕ, zero, suc, ◌≡◌, String, Bool, true, false, List, [], ◌∷◌, ◌++◌, if◌then◌else◌,
}
use realtime_fraud_detection.Schemas.{Transaction}

pub record Message : Type 0 where
  pub topic : String
  pub key : String
  pub value : String

pub record Kafka (K : Type 0) : Type 0 where
  pub produce : Message → K → Bool × K
  pub poll : K → Bool × K
  pub flush : K → K
  -- the messages that were handed over so far
  pub queued : K → List Message

pub record IsKafka {K : Type 0} (kafka : Kafka K) : Type 0 where
  pub produce_lem :
      (msg : Message) (k : K)
      → let (done, k') = kafka.produce msg k in
        kafka.queued k' ≡ (if done then kafka.queued k ++ msg ∷ [] else kafka.queued k)
  pub poll_lem : (k : K) → kafka.queued (kafka.poll k).1 ≡ kafka.queued k
  pub flush_lem : (k : K) → kafka.queued (kafka.flush k) ≡ kafka.queued k

-- how a batch ended: with the number of times that `stop` was read, at a signal, or by an exception
pub data BatchEnd : Type 0 where
  went_on : ℕ → BatchEnd
  stopped : BatchEnd
  raised : BatchEnd

-- `dump` is pydantic's text of a transaction, and `dumps` is `json.dumps` of `json.loads`
unfoldable pub serialize :
    {A : Type 0} → (Transaction A → String) → (String → String) → Transaction A → String
serialize dump dumps txn = dumps (dump txn)

module _ {A K : Type 0} (kafka : Kafka K) (text : Transaction A → String) (topic : String) where
  unfoldable pub message_of : Transaction A → Message
  message_of txn = record { topic = topic; key = txn.card_id; value = text txn }

  -- one attempt: the two calls of the `try`
  unfoldable pub attempt : Transaction A → K → Bool × K
  unfolding message_of
  attempt txn k =
      let (produced, k1) = kafka.produce (message_of txn) k in
      if produced then kafka.poll k1 else (false, k1)

  -- the attempts that are left under `@retry`
  unfoldable pub attempts : ℕ → Transaction A → K → Bool × K
  unfolding attempt
  attempts zero txn k = (false, k)
  attempts (suc n) txn k =
      let (done, k1) = attempt txn k in
      let rest = attempts n txn k1 in if done then (true, k1) else rest

  unfoldable pub publish : Transaction A → K → Bool × K
  unfolding attempts
  publish txn k = attempts 3 txn k

  -- `stop n` is what the n-th reading of the flag gives
  module _ (stop : ℕ → Bool) where
    unfoldable pub publish_batch : ℕ → List (Transaction A) → K → BatchEnd × K
    unfolding publish
    publish_batch n [] k = (went_on n, k)
    publish_batch n (txn ∷ txns) k =
        let (done, k1) = publish txn k in
        let rest = publish_batch (suc n) txns k1 in
        if done then (if stop n then (stopped, k1) else rest) else (raised, k1)

    -- `run` over the batches that the generator gives; `went_on` where there are no more
    unfoldable pub run : ℕ → List (List (Transaction A)) → K → BatchEnd × K
    unfolding publish_batch
    run n [] k = (went_on n, k)
    run n (batch ∷ batches) k =
        let (end, k1) = publish_batch (suc n) batch k in
        let rest : BatchEnd × K = elim end [
          | went_on n' ↦ run n' batches k1
          | stopped ↦ (stopped, kafka.flush k1)
          | raised ↦ (raised, k1)
        ] in
        if stop n then (stopped, kafka.flush k) else rest
