-- ===== src/Storage/Transactions/Upsert.antt =====
-- The upsert keeps one row for each transaction, and is idempotent.
use realtime_fraud_detection.Common.{
  ℕ, ◌+◌, String, ◌≡◌, refl, true, none, some, List, [], ◌∷◌, ◌++◌, arith, is_some, str_eq, eq_iff,
  eq_refl, All, All-map, length, length-append, inl, inr, Option-cases, if◌then◌else◌,
}
use realtime_fraud_detection.Schemas.{Transaction}
use realtime_fraud_detection.Storage.Tables.{Database, TransactionRecord}
use realtime_fraud_detection.Storage.Transactions.{
  find_transaction, insert_new, insert_all, persist_transactions, get_transaction,
}

module _ {A : Type 0} where
  -- what is looked up first among the old rows, then in the new one
  find-append :
      (id : String) (table : List (TransactionRecord A)) (r : TransactionRecord A)
      → find_transaction id (table ++ r ∷ []) ≡ elim (find_transaction id table) [
        | some old ↦ some old
        | none ↦ if str_eq r.txn.transaction_id id then some r else none
      ]
  unfolding find_transaction
  find-append id [] r = ground arith
  find-append id (x ∷ table) r = ground (arith, find-append id table r)

  find-insert_new :
      (now : ℕ) (t : Transaction A) (table : List (TransactionRecord A)) (id : String)
      (r : TransactionRecord A)
      → find_transaction id table ≡ some r
      → find_transaction id (insert_new now t table).0 ≡ some r
  unfolding insert_new
  find-insert_new now t table id r h =
      ground (arith, find-append id table (record { txn = t; ingested_at = now }))

  -- a row that is there stays as it is
  find-insert_all :
      (now : ℕ) (ts : List (Transaction A)) (table : List (TransactionRecord A)) (id : String)
      (r : TransactionRecord A)
      → find_transaction id table ≡ some r
      → find_transaction id (insert_all now ts table).0 ≡ some r
  unfolding insert_all
  find-insert_all now [] table id r h = h
  find-insert_all now (t ∷ ts) table id r h =
      find-insert_all now ts (insert_new now t table).0 id r (find-insert_new now t table id r h)

  insert_new-new :
      (now : ℕ) (t : Transaction A) (table : List (TransactionRecord A))
      → find_transaction t.transaction_id table ≡ none
      → insert_new now t table ≡ (table ++ record { txn = t; ingested_at = now } ∷ [], 1)
  unfolding insert_new
  insert_new-new now t table h = ground (arith, h)

  abbrev pub IsStored : List (TransactionRecord A) → Transaction A → Type 0
  IsStored table t = (r : TransactionRecord A) × (find_transaction t.transaction_id table ≡ some r)

  insert_new-IsStored :
      (now : ℕ) (t : Transaction A) (table : List (TransactionRecord A))
      → IsStored (insert_new now t table).0 t
  unfolding insert_new
  insert_new-IsStored now t table =
      let new : TransactionRecord A = record { txn = t; ingested_at = now } in
      elim (Option-cases (find_transaction t.transaction_id table)) [
        | inl fresh ↦
            (new, ground (arith, find-append t.transaction_id table new, eq_refl t.transaction_id))
        | inr (old, found) ↦ (old, ground arith)
      ]

  -- everything of the batch is there afterwards
  insert_all-IsStored :
      (now : ℕ) (ts : List (Transaction A)) (table : List (TransactionRecord A))
      → All (IsStored (insert_all now ts table).0) ts
  unfolding insert_all
  insert_all-IsStored now [] table = tt
  insert_all-IsStored now (t ∷ ts) table =
      let table1 = (insert_new now t table).0 in
      let (r, found) = insert_new-IsStored now t table in
      (
        (r, find-insert_all now ts table1 t.transaction_id r found),
        insert_all-IsStored now ts table1,
      )

  insert_new_again :
      (now : ℕ) (t : Transaction A) (table : List (TransactionRecord A))
      → IsStored table t
      → insert_new now t table ≡ (table, 0)
  unfolding insert_new
  insert_new_again now t table (r, h) = rw (h, insert_new)

  -- a batch that is there already changes nothing
  insert_all_again :
      (now : ℕ) (ts : List (Transaction A)) (table : List (TransactionRecord A))
      → All (IsStored table) ts
      → insert_all now ts table ≡ (table, 0)
  unfolding insert_all
  insert_all_again now [] table h = refl
  insert_all_again now (t ∷ ts) table h =
      rw (insert_new_again now t table h.0) (rw (insert_all_again now ts table h.1))

  -- No transaction has two rows.
  abbrev pub IsUnique : List (TransactionRecord A) → Type 0
  IsUnique [] = Unit
  IsUnique (r ∷ rs) = (find_transaction r.txn.transaction_id rs ≡ none) × IsUnique rs

  append-IsUnique :
      (table : List (TransactionRecord A)) (r : TransactionRecord A)
      → IsUnique table
      → find_transaction r.txn.transaction_id table ≡ none
      → IsUnique (table ++ r ∷ [])
  unfolding find_transaction
  append-IsUnique [] r h k = (refl, tt)
  append-IsUnique (x ∷ table) r h k = ground (
    arith,
    append-IsUnique table r h.1,
    find-append x.txn.transaction_id table r,
    eq_iff x.txn.transaction_id r.txn.transaction_id,
    eq_iff r.txn.transaction_id x.txn.transaction_id,
  )

  insert_all-IsUnique :
      (now : ℕ) (ts : List (Transaction A)) (table : List (TransactionRecord A))
      → IsUnique table
      → IsUnique (insert_all now ts table).0
  unfolding insert_all insert_new
  insert_all-IsUnique now [] table h = h
  insert_all-IsUnique now (t ∷ ts) table h =
      insert_all-IsUnique now ts (insert_new now t table).0
        (ground (arith, append-IsUnique table (record { txn = t; ingested_at = now })))

  length-insert_all :
      (now : ℕ) (ts : List (Transaction A)) (table : List (TransactionRecord A))
      → length (insert_all now ts table).0 ≡ length table + (insert_all now ts table).1
  unfolding insert_all insert_new
  length-insert_all now [] table = omega arith
  length-insert_all now (t ∷ ts) table = ground (
    arith,
    length-insert_all now ts (insert_new now t table).0,
    length-append table (record { txn = t; ingested_at = now } ∷ []),
  )

module _ {A R : Type 0} where
  -- Persisting a batch a second time, at whatever later time, inserts nothing and changes nothing in
  -- the database, also if the batch repeats a transaction.
  pub persist_transactions_idem :
      (now later : ℕ) (ts : List (Transaction A)) (db : Database A R)
      → persist_transactions later ts (persist_transactions now ts db).0
        ≡ ((persist_transactions now ts db).0, 0)
  unfolding persist_transactions
  persist_transactions_idem now later ts db = rw (
      insert_all_again later ts (insert_all now ts db.transactions).0
        (insert_all-IsStored now ts db.transactions))

  -- A transaction that is stored keeps its row, and its time of arrival, under any batch.
  pub get_transaction-persist_transactions :
      (now : ℕ) (ts : List (Transaction A)) (db : Database A R) (id : String)
      (r : TransactionRecord A)
      → get_transaction id db ≡ some r
      → get_transaction id (persist_transactions now ts db).0 ≡ some r
  unfolding persist_transactions get_transaction
  get_transaction-persist_transactions now ts db id r h =
      find-insert_all now ts db.transactions id r h

  -- Every transaction of a batch is found afterwards, and the table grows by the number reported.
  pub persist_transactions_lem :
      (now : ℕ) (ts : List (Transaction A)) (db : Database A R)
      → let (db', n) = persist_transactions now ts db in
        All (λ t. is_some (get_transaction t.transaction_id db') ≡ true) ts
        × (length db'.transactions ≡ length db.transactions + n)
  unfolding persist_transactions get_transaction
  persist_transactions_lem now ts db = (
    All-map ts (λ t h. ground arith) (insert_all-IsStored now ts db.transactions),
    length-insert_all now ts db.transactions,
  )

  -- If no transaction has two rows, then none has two after a batch, which may repeat them.
  pub persist_transactions-IsUnique :
      (now : ℕ) (ts : List (Transaction A)) (db : Database A R)
      → IsUnique db.transactions
      → IsUnique (persist_transactions now ts db).0.transactions
  unfolding persist_transactions
  persist_transactions-IsUnique now ts db h = insert_all-IsUnique now ts db.transactions h

  -- a new transaction that begins a batch is stored as it is
  pub get_transaction-persist_first :
      (now : ℕ) (t : Transaction A) (ts : List (Transaction A)) (db : Database A R)
      → get_transaction t.transaction_id db ≡ none
      → get_transaction t.transaction_id (persist_transactions now (t ∷ ts) db).0
        ≡ some (record { txn = t; ingested_at = now })
  unfolding persist_transactions get_transaction
  get_transaction-persist_first now t ts db fresh =
      let new : TransactionRecord A = record { txn = t; ingested_at = now } in
      find-insert_all now ts (insert_new now t db.transactions).0 t.transaction_id new (
        ground (
          arith,
          find-append t.transaction_id db.transactions new,
          eq_refl t.transaction_id,
          fresh,
          insert_new-new now t db.transactions fresh,
        ))
