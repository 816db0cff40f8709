-- ===== src/Tests/Generator.antt =====
-- The generator with random numbers that are always the smallest, and the training data.
use realtime_fraud_detection.Common.{
  ℕ, ◌+◌, ◌≤◌, ◌≡◌, refl, String, some, List, map, [], ◌∷◌, length, concat, arith,
}
use realtime_fraud_detection.Common.Floating.{Micros, micros_floating, lit}
use realtime_fraud_detection.Schemas.{validate}
use realtime_fraud_detection.Common.Int.{negsuc}
use realtime_fraud_detection.Common.Dict.{Dict, get}
use realtime_fraud_detection.Schemas.{Transaction}
use realtime_fraud_detection.Batch.Template.{csv_columns, template_rows, cells, batch_template}
use realtime_fraud_detection.Batch.Template.Size.{Complete, batch_template-IsSized}
use realtime_fraud_detection.Generator.{
  build_profile, Rng, IsRng, CardholderProfile, choice, rand_hex,
}
use realtime_fraud_detection.Generator.Traffic.{normal_transaction, stream}
use realtime_fraud_detection.Generator.Total.{Gives}
use realtime_fraud_detection.Generator.EdgeCases.{IsSpender}
use realtime_fraud_detection.Generator.Stream.{stream-Gives}
use realtime_fraud_detection.Dataset.{build_training_dataset}
use realtime_fraud_detection.Dataset.Windows.{rows_after, build_training_dataset_lem}
use realtime_fraud_detection.Tests.{first, second, other_card}

abbrev least : Rng ℕ Micros
least = record {
  uniform = λ lo hi g. (lit 0 0, g);
  random = λ g. (lit 0 0, g);
  gauss = λ mean std g. (mean, g);
  randint = λ lo hi g. (lo, g);
  position = λ n g. (0, g);
  sample = λ xs n g. (xs, g);
  ipv4_public = λ g. ("203.0.113.5", g);
  milliseconds = λ x. 5000;
  seconds = λ x. 1000000;
  show_int = λ n. "1";
  upper = λ s. s;
}

least-IsRng : IsRng least
least-IsRng = record { randint_le = λ lo hi g h. (omega arith, h); position_lt = λ n g h. h }

abbrev profile : CardholderProfile Micros
profile = record {
  card_id = "card_1";
  user_id = "user_1";
  home_country = "US";
  home_lat = lit 40 0;
  home_lon = lit 74 0;
  typical_amount_mean = lit 50 0;
  typical_amount_std = lit 10 0;
  preferred_categories = "grocery" ∷ [];
  device_ids = "device_1" ∷ [];
}

profile-IsSpender : IsSpender least profile
unfolding normal_transaction choice rand_hex validate concat
profile-IsSpender time = record { run = λ g. (_, g, refl, tt) }

stream-Gives_example :
    Gives (λ ts. (3 ≤ length ts) × (length ts ≤ 3 + 14)) (stream least (lit 5 2) (profile ∷ []) 3 0)
stream-Gives_example =
    stream-Gives least least-IsRng (lit 5 2) (profile ∷ []) 3 0 (omega arith)
      (profile-IsSpender, tt)

build_training_dataset_lem_example :
    build_training_dataset (first ∷ other_card ∷ second ∷ [])
    ≡ rows_after [] (first ∷ other_card ∷ second ∷ [])
build_training_dataset_lem_example = build_training_dataset_lem (first ∷ other_card ∷ second ∷ [])

built-IsSpender : Gives (IsSpender least) (build_profile least)
unfolding build_profile normal_transaction choice rand_hex validate concat
built-IsSpender = record { run = λ g. (_, g, refl, λ time. record { run = λ h. (_, h, refl, tt) }) }

abbrev dump : Transaction Micros → Dict String
dump t = map (λ column. (column, t.transaction_id)) csv_columns

dump-Complete : Complete dump
unfolding cells get
dump-Complete t = (_, refl)

-- for a negative number of rows
batch_template-IsSized_example :
    (ls : List (List String)) × (batch_template least dump (λ columns ls. "") 0 0 (negsuc 2)
      ≡ some "")
    × (10 ≤ length ls)
    × (length ls ≤ 5014)
    × (template_rows (negsuc 2) ≤ length ls)
    × (length ls ≤ template_rows (negsuc 2) + 14)
batch_template-IsSized_example =
    batch_template-IsSized least least-IsRng built-IsSpender dump (λ columns ls. "") 0 0 (negsuc 2)
      dump-Complete
