-- ===== src/Scoring/FeatureRow/Columns.antt =====
-- Every row has the columns that the model expects, in their order.
use realtime_fraud_detection.Common.{
  ℕ, zero, suc, ◌+◌, String, ◌≡◌, refl, Option, some, List, [], ◌∷◌, map,
}
use realtime_fraud_detection.Common.Floating.{Floating}
use realtime_fraud_detection.Common.Dict.{get}
use realtime_fraud_detection.Schemas.{
  Transaction, TransactionType, purchase, withdrawal, refund, transfer, TransactionChannel, online,
  in_store, atm, mobile,
}
use realtime_fraud_detection.Features.{FeatureVector}
use realtime_fraud_detection.Scoring.FeatureRow.{
  Row, Cell, int, feature_columns, channel_columns, type_columns, build_feature_row,
  select_model_matrix,
}

-- how many of the columns hold the number 1
abbrev pub is_one : {A : Type 0} → Option (Cell A) → ℕ
is_one (some (int (suc zero))) = 1
is_one _ = 0

abbrev pub ones : {A : Type 0} → List String → Row A → ℕ
ones [] row = 0
ones (c ∷ cs) row = is_one (get c row) + ones cs row

module _ {A : Type 0} ⦃f : Floating A⦄ where
  -- Selecting the model's columns from a row that the program built never fails, and gives the row
  -- itself: its columns are those of `FEATURE_COLUMNS`, each once and in that order, for every
  -- transaction, with or without a history.
  pub select_model_matrix-build_feature_row :
      (v : FeatureVector A) (t : Transaction A)
      → (select_model_matrix (build_feature_row v t) ≡ some (build_feature_row v t))
        × (map (λ e. e.0) (build_feature_row v t) ≡ feature_columns)
  unfolding select_model_matrix build_feature_row
  select_model_matrix-build_feature_row v t = (refl, refl)

  one_channel :
      (c : TransactionChannel) (v : FeatureVector A) (t : Transaction A)
      → ones channel_columns (build_feature_row v (record t { channel = c })) ≡ 1
  unfolding build_feature_row get
  one_channel online v t = refl
  one_channel in_store v t = refl
  one_channel atm v t = refl
  one_channel mobile v t = refl

  one_type :
      (y : TransactionType) (v : FeatureVector A) (t : Transaction A)
      → ones type_columns (build_feature_row v (record t { transaction_type = y })) ≡ 1
  unfolding build_feature_row get
  one_type purchase v t = refl
  one_type withdrawal v t = refl
  one_type refund v t = refl
  one_type transfer v t = refl

  -- Exactly one channel column and exactly one type column of a row is 1.
  pub one_hot :
      (v : FeatureVector A) (t : Transaction A)
      → (ones channel_columns (build_feature_row v t) ≡ 1)
        × (ones type_columns (build_feature_row v t) ≡ 1)
  one_hot v t = (one_channel t.channel v t, one_type t.transaction_type v t)
