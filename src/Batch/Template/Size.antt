-- ===== src/Batch/Template/Size.antt =====
-- The size of the template.
use realtime_fraud_detection.Common.{
  ℕ, zero, suc, ◌+◌, ◌-◌, ◌/◌, ◌≤◌, max, ◌≡◌, refl, ap, String, some, List, [], ◌∷◌, length, map,
  All, arith,
}
use realtime_fraud_detection.Common.Dict.{Dict}
use realtime_fraud_detection.Common.Floating.{Floating, lit}
use realtime_fraud_detection.Common.Int.{ℤ, pos, negsuc}
use realtime_fraud_detection.Features.{minutes}
use realtime_fraud_detection.Batch.Template.{
  csv_columns, template_rows, cells, lines, sample_transactions, batch_template,
}
use realtime_fraud_detection.Generator.{
  Rng, IsRng, CardholderProfile, build_profile, build_profiles,
}
use realtime_fraud_detection.Generator.EdgeCases.{IsSpender}
use realtime_fraud_detection.Generator.Stream.{stream-Gives}
use realtime_fraud_detection.Generator.Total.{Gives, pure-Gives, >>=-Gives}
use realtime_fraud_detection.Schemas.{Transaction}

template_rows-bounded : (rows : ℤ) → (10 ≤ template_rows rows) × (template_rows rows ≤ 5000)
unfolding template_rows
template_rows-bounded (pos n) = (omega arith, omega arith)
template_rows-bounded (negsuc n) = (omega arith, omega arith)

module _ {A V : Type 0} (dump : Transaction A → Dict V) where
  -- each record has the columns
  abbrev pub Complete : Type 0
  Complete = (t : Transaction A) → (vs : List V) × (cells csv_columns (dump t) ≡ some vs)

  lines-map :
      (complete : Complete) (ts : List (Transaction A))
      → (ls : List (List V)) × (lines (map dump ts) ≡ some ls) × (length ls ≡ length ts)
  unfolding lines
  lines-map complete [] = ([], refl, refl)
  lines-map complete (t ∷ ts) =
      let (vs, e) = complete t in
      let (ls, d, n) = lines-map complete ts in (vs ∷ ls, rw (e, d, lines) refl, ap suc n)

module _ {G A : Type 0} ⦃f : Floating A⦄ (rng : Rng G A) where
  module _ (laws : IsRng rng) (spender : Gives (IsSpender rng) (build_profile rng)) where
    -- profiles of valid cardholders, as many as asked for
    abbrev Population : ℕ → List (CardholderProfile A) → Type 0
    Population n ps = All (IsSpender rng) ps × (length ps ≡ n)

    build_profiles-Gives : (n : ℕ) → Gives (Population n) (build_profiles rng n)
    unfolding build_profiles
    build_profiles-Gives zero = pure-Gives (Population 0) [] (tt, refl)
    build_profiles-Gives (suc n) =
        >>=-Gives (IsSpender rng) (Population (suc n)) (build_profile rng) _ spender (λ p h.
          >>=-Gives (Population n) (Population (suc n)) (build_profiles rng n) _
            (build_profiles-Gives n)
            (λ ps v. pure-Gives (Population (suc n)) (p ∷ ps) ((h, v.0), ap suc v.1)))

    abbrev Asked : ℕ → List (Transaction A) → Type 0
    Asked rows ts = (rows ≤ length ts) × (length ts ≤ rows + 14)

    sample_transactions-Gives :
        (rows start : ℕ) → Gives (Asked rows) (sample_transactions rng rows start)
    unfolding sample_transactions
    sample_transactions-Gives rows start =
        >>=-Gives (Population (max 20 (rows / 10))) (Asked rows) _ _
          (build_profiles-Gives (max 20 (rows / 10)))
          (λ ps v. stream-Gives rng laws (lit 12 2) ps rows start (omega (arith, v.1)) v.0)

    -- Where every profile that is drawn gives valid normal transactions, and a dumped transaction has the
    -- columns, the template is a file of these columns, whatever number of rows is asked for, also a negative
    -- one: it raises nothing, and has at least 10 rows and at most 5014, and at least `template_rows rows` and at
    -- most 14 more.
    pub batch_template-IsSized :
        {V : Type 0} (dump : Transaction A → Dict V) (to_csv : List String → List (List V) → String)
        (seeded : G) (now : ℕ) (rows : ℤ)
        → Complete dump
        → (ls : List (List V)) × (batch_template rng dump to_csv seeded now rows
            ≡ some (to_csv csv_columns ls))
          × (10 ≤ length ls)
          × (length ls ≤ 5014)
          × (template_rows rows ≤ length ls)
          × (length ls ≤ template_rows rows + 14)
    unfolding batch_template
    batch_template-IsSized dump to_csv seeded now rows complete =
        let (low, high) = template_rows-bounded rows in
        let (ts, g, e, (least, most)) =
          (sample_transactions-Gives (template_rows rows) (now - minutes 360)).run seeded in
        let (ls, d, n) = lines-map dump complete ts in
        (
          ls,
          rw (e, d, batch_template) refl,
          omega (arith, low, least, n),
          omega (arith, high, most, n),
          omega (arith, least, n),
          omega (arith, most, n),
        )
