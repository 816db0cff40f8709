-- ===== src/Stream/Consumer/Digest.antt =====
-- What a micro-batch makes of the store: no row is lost, none counted twice, and it stays well kept.
use realtime_fraud_detection.Common.{
  ℕ, ◌+◌, ◌<◌, ◌≡◌, refl, sym, ap, ◌∙◌, subst, or_else, Bool-cases, inl, inr, String, Bool, true,
  Option, some, List, [], ◌∷◌, ◌++◌, take, count, count-append, All, arith,
}
use realtime_fraud_detection.Common.Floating.{Floating}
use realtime_fraud_detection.Common.Result.{Result, ok, err, ◌>>=◌, Result-cases}
use realtime_fraud_detection.Common.Sort.{sort, by_key}
use realtime_fraud_detection.Config.{Settings}
use realtime_fraud_detection.Schemas.{Transaction}
use realtime_fraud_detection.Stream.Redis.{Redis, IsRedis}
use realtime_fraud_detection.Stream.Store.{Codec, get_history, max_history_len}
use realtime_fraud_detection.Stream.Store.Bounded.{Holds, WellKept, get_history_lem}
use realtime_fraud_detection.Stream.Consumer.{
  StreamRow, StreamError, group_from, sort_rows, process_rows, process_groups,
  process_partition_group, card_name, validate_row, all_timed,
}
use realtime_fraud_detection.Stream.Consumer.Rows.{
  IsStable, validates, is_invalid, remembered, remembered-append, count-process_rows,
  process_rows-Holds,
}
use realtime_fraud_detection.Stream.Consumer.Groups.{
  Groups, is_timed, count_rows, count-group_from, AllRows, group_from-AllRows, sort_rows_total,
  count-sort_rows, sort_rows-All,
}

module _ {A S : Type 0} ⦃f : Floating A⦄ (redis : Redis S) (codec : Codec A) (settings : Settings A)
    (to_bool : String → Option Bool) where
  -- What a batch whose rows are counted by `tally` makes of a store: the valid transactions are those
  -- of its rows, the rest is counted as invalid, and each card remembers its own.
  pub record Digest (tally : (StreamRow A → Bool) → ℕ) (s s1 : S)
      (valid_txns : List (Transaction A)) (invalid_count : ℕ) : Type 0 where
    pub counted :
        (p : Transaction A → Bool) → count p valid_txns ≡ tally (validates codec to_bool p)
    pub refused : invalid_count ≡ tally (is_invalid codec to_bool)
    pub kept :
        (c : String) (h : List (Transaction A))
        → Holds redis codec settings c h s
        → Holds redis codec settings c (remembered valid_txns c h) s1

  kept-WellKept :
      {tally : (StreamRow A → Bool) → ℕ} {s s1 : S} {valid_txns : List (Transaction A)} {n : ℕ}
      → Digest tally s s1 valid_txns n
      → WellKept redis codec settings s
      → WellKept redis codec settings s1
  kept-WellKept {valid_txns = v} d w c = let (h, held) = w c in (remembered v c h, d.kept c h held)

  -- the step for a card whose history can be read and whose rows can be sorted
  process_groups-cons :
      (card_id : Option String) (rows sorted : List (StreamRow A)) (groups : Groups A) (s : S)
      (history : List (Transaction A))
      → get_history redis codec settings (card_name card_id) max_history_len s ≡ some history
      → sort_rows rows ≡ ok sorted
      → let (s1, v, n) = process_rows redis codec settings to_bool history sorted s in
        let (s2, rest) = process_groups redis codec settings to_bool groups s1 in
        process_groups redis codec settings to_bool ((card_id, rows) ∷ groups) s
        ≡ (s2, rest >>= λ (more, count). ok (v ++ more, n + count))
  unfolding process_groups
  process_groups-cons card_id rows sorted groups s history h k = ground (arith, h, k)

  Digest-tally :
      {tally other : (StreamRow A → Bool) → ℕ} {s s1 : S} {v : List (Transaction A)} {n : ℕ}
      → ((q : StreamRow A → Bool) → tally q ≡ other q)
      → Digest tally s s1 v n
      → Digest other s s1 v n
  Digest-tally e d = record {
    counted = λ p. d.counted p ∙ e (validates codec to_bool p);
    refused = d.refused ∙ e (is_invalid codec to_bool);
    kept = d.kept;
  }

  -- one batch after another
  Digest-then :
      {tally other : (StreamRow A → Bool) → ℕ} {s s1 s2 : S} {v w : List (Transaction A)} {n m : ℕ}
      → Digest tally s s1 v n
      → Digest other s1 s2 w m
      → Digest (λ q. tally q + other q) s s2 (v ++ w) (n + m)
  Digest-then {v = v} {w = w} d d' = record {
    counted = λ p. omega (arith, count-append p v w, d.counted p, d'.counted p);
    refused = omega (arith, d.refused, d'.refused);
    kept =
        λ c h held. rw (remembered-append v w c h) (d'.kept c (remembered v c h) (d.kept c h held));
  }

  -- the transactions of the valid rows, in the order of the rows
  pub valid_of : List (StreamRow A) → List (Transaction A)
  valid_of [] = []
  valid_of (row ∷ rows) = elim (validate_row codec.upper to_bool row) [
    | err e ↦ valid_of rows
    | ok txn ↦ txn ∷ valid_of rows
  ]

  -- The specification of a batch's transactions: card after card, the valid rows by the times of their events.
  pub by_time : Groups A → List (Transaction A)
  by_time [] = []
  by_time ((card_id, rows) ∷ groups) =
      valid_of (sort (by_key (λ r. or_else r.event_time 0)) rows) ++ by_time groups

  process_rows-valid_of :
      (history : List (Transaction A)) (rows : List (StreamRow A)) (s : S)
      → (process_rows redis codec settings to_bool history rows s).1 ≡ valid_of rows
  unfolding process_rows valid_of
  process_rows-valid_of history [] s = refl
  process_rows-valid_of history (row ∷ rows) s =
      elim (Result-cases (validate_row codec.upper to_bool row)) [
        | inr (e, refused) ↦
            rw (refused, process_rows, valid_of) (process_rows-valid_of history rows s)
        | inl (txn, valid) ↦
            rw (valid, process_rows, valid_of)
              (ap (◌∷◌ txn) (process_rows-valid_of (history ++ txn ∷ []) rows _))
      ]

  sort_rows-sort :
      (rows sorted : List (StreamRow A))
      → sort_rows rows ≡ ok sorted
      → sorted ≡ sort (by_key (λ r. or_else r.event_time 0)) rows
  unfolding sort_rows sort
  sort_rows-sort [] sorted h = cc
  sort_rows-sort (row ∷ []) sorted h = cc
  sort_rows-sort (row ∷ other ∷ rows) sorted h =
      elim (Bool-cases (all_timed (row ∷ other ∷ rows))) [
        | inl timed ↦ ground (arith, timed, h)
        | inr null ↦ ground (arith, null, h)
      ]

  module _ (laws : IsRedis redis) (lives : 0 < settings.feature_ttl_seconds) where
    process_rows-Digest :
        (history : List (Transaction A)) (rows : List (StreamRow A)) (s : S)
        → All (IsStable codec to_bool) rows
        → let (s1, valid_txns, invalid_count) =
            process_rows redis codec settings to_bool history rows s in
          Digest (λ q. count q rows) s s1 valid_txns invalid_count
    process_rows-Digest history rows s stable = record {
      counted = λ p. (count-process_rows redis codec settings to_bool p history rows s).0;
      refused = (count-process_rows redis codec settings to_bool (λ t. true) history rows s).1;
      kept = λ c h.
          process_rows-Holds redis codec settings to_bool laws lives history rows c h s stable;
    }

    process_groups-Digest :
        (groups : Groups A) (s : S)
        → AllRows (IsStable codec to_bool) groups
        → AllRows (λ r. is_timed r ≡ true) groups
        → WellKept redis codec settings s
        → let (s1, result) = process_groups redis codec settings to_bool groups s in
          (v : List (Transaction A)) × (n : ℕ) × (result ≡ ok (v, n))
          × (v ≡ by_time groups)
          × Digest (λ q. count_rows q groups) s s1 v n
    unfolding process_groups count by_time
    process_groups-Digest [] s stable timed kept =
        ([], 0, refl, refl, record { counted = λ p. refl; refused = refl; kept = λ c h held. held })
    process_groups-Digest ((card_id, rows) ∷ groups) s stable timed kept =
        let (h, held) = kept (card_name card_id) in
        let (sorted, e) = sort_rows_total rows timed.0 in
        let history = take max_history_len h in
        let stable1 = sort_rows-All (IsStable codec to_bool) rows sorted e stable.0 in
        let one = process_rows-Digest history sorted s stable1 in
        let (s1, v0, n0) = process_rows redis codec settings to_bool history sorted s in
        let (v, n, r, times, rest) =
          process_groups-Digest groups s1 stable.1 timed.1 (kept-WellKept one kept) in
        subst
          (λ (out : S × Result StreamError (List (Transaction A) × ℕ)).
            (w : List (Transaction A)) × (m : ℕ) × (out.1 ≡ ok (w, m))
            × (w ≡ by_time ((card_id, rows) ∷ groups))
            × Digest (λ q. count q rows + count_rows q groups) s out.0 w m)
          (sym (
            process_groups-cons card_id rows sorted groups s history
              (get_history_lem redis codec settings laws lives (card_name card_id) max_history_len h
                s (omega arith) held)
              e))
          (
            v0 ++ v,
            n0 + n,
            rw r refl,
            ap (λ l. l ++ v)
                  (process_rows-valid_of history sorted s
                    ∙ ap valid_of (sort_rows-sort rows sorted e))
                ∙ ap (λ l. valid_of (sort (by_key (λ r. or_else r.event_time 0)) rows) ++ l) times,
            Digest-tally (λ q. ap (λ k. k + count_rows q groups) (count-sort_rows q rows sorted e))
                (Digest-then one rest),
          )

    pub process_partition_group_lem :
        (rows : List (StreamRow A)) (s : S)
        → All (IsStable codec to_bool) rows
        → All (λ r. is_timed r ≡ true) rows
        → WellKept redis codec settings s
        → let (s1, result) = process_partition_group redis codec settings to_bool rows s in
          (v : List (Transaction A)) × (n : ℕ) × (result ≡ ok (v, n))
          × (v ≡ by_time (group_from [] rows))
          × Digest (λ q. count q rows) s s1 v n
          × WellKept redis codec settings s1
    unfolding process_partition_group
    process_partition_group_lem rows s stable timed kept =
        let (v, n, e, times, d) =
          process_groups-Digest (group_from [] rows) s
            (group_from-AllRows (IsStable codec to_bool) rows [] stable tt)
            (group_from-AllRows (λ r. is_timed r ≡ true) rows [] timed tt) kept in
        let d' = Digest-tally (λ q. omega (arith, count-group_from q rows [])) d in
        (v, n, e, times, d', kept-WellKept d' kept)
