-- ===== src/Startup/Brokers.antt =====
-- KAFKA_BOOTSTRAP_SERVERS with more than one broker.
use Prim.Native.String
use realtime_fraud_detection.Common.{
  suc, ◌+◌, ◌≤◌, ◌≡◌, refl, sym, subst, String, Bool, true, false, Option, none, List, [], ◌∷◌,
  length, str_eq, some, arith, if◌then◌else◌, concat,
}
use realtime_fraud_detection.Common.Int.{ℤ}
use realtime_fraud_detection.Common.Result.{err}
use realtime_fraud_detection.Config.{Settings}
use realtime_fraud_detection.Pii.{split, onto_first}
use realtime_fraud_detection.Startup.{
  Platform, value_error, Process, kafka_target, targets_of, main,
}
use realtime_fraud_detection.Startup.Launch.{main-no_targets}
use text.Mathlib.TextLemmas.{nil-append, cons-append}

length-onto_first :
    (c : String) (l : List String) → 1 ≤ length l → length (onto_first c l) ≡ length l
length-onto_first c [] h = ground arith
length-onto_first c (part ∷ parts) h = refl

split-cons :
    (sep s : String) (b : Bool) (c : String)
    → 1 ≤ length (split sep s)
    → length (if b then "" ∷ split sep s else onto_first c (split sep s))
      ≡ (if b then suc (length (split sep s)) else length (split sep s))
split-cons sep s true c h = refl
split-cons sep s false c h = length-onto_first c (split sep s) h

length-split-pos : (sep s : String) → 1 ≤ length (split sep s)
unfolding split
length-split-pos sep String.[] = ground arith
length-split-pos sep (String.◌∷◌ c s) =
    let h = length-split-pos sep s in
    ground
      (arith, h, split-cons sep s (str_eq (String.◌∷◌ c String.[]) sep) (String.◌∷◌ c String.[]) h)

-- the parts of two texts one after the other: the last of the first and the first of the second are one
length-split-append :
    (sep s t : String)
    → suc (length (split sep (String.◌++◌ s t))) ≡ length (split sep s) + length (split sep t)
unfolding split
length-split-append sep String.[] t = rw (nil-append t) (ground arith)
length-split-append sep (String.◌∷◌ c s) t = rw (cons-append c s t) (
    ground (
      arith,
      length-split-append sep s t,
      split-cons sep s (str_eq (String.◌∷◌ c String.[]) sep) (String.◌∷◌ c String.[])
          (length-split-pos sep s),
      split-cons sep (String.◌++◌ s t) (str_eq (String.◌∷◌ c String.[]) sep)
          (String.◌∷◌ c String.[]) (length-split-pos sep (String.◌++◌ s t)),
    ))

kafka_target-none :
    (int : String → Option ℤ) (parts : List String)
    → 3 ≤ length parts
    → kafka_target int parts ≡ none
unfolding kafka_target
kafka_target-none int [] h = absurd (omega (arith, h))
kafka_target-none int (a ∷ []) h = absurd (omega (arith, h))
kafka_target-none int (a ∷ b ∷ []) h = absurd (omega (arith, h))
kafka_target-none int (a ∷ b ∷ c ∷ parts) h = refl

three_parts : (a b c : String) → 3 ≤ length (split ":" (concat (a ∷ ":" ∷ b ∷ ":" ∷ c ∷ [])))
unfolding concat
three_parts a b c =
    let colon : length (split ":" ":") ≡ 2 = unfold split in refl in
    let app = length-split-append ":" in
    let l1 = app c "" in
    let l2 = app ":" (String.◌++◌ c "") in
    let l3 = app b (String.◌++◌ ":" (String.◌++◌ c "")) in
    let l4 = app ":" (String.◌++◌ b (String.◌++◌ ":" (String.◌++◌ c ""))) in
    let l5 = app a (String.◌++◌ ":" (String.◌++◌ b (String.◌++◌ ":" (String.◌++◌ c "")))) in
    let pos = length-split-pos ":" in
    omega (arith, colon, l1, l2, l3, l4, l5, pos a, pos b, pos c, pos "")

module _ {A E : Type 0} (os : Platform E) (show_int : ℤ → String) (int : String → Option ℤ)
    (settings : Settings A) where
  targets_of-none :
      (a b c : String)
      → settings.kafka_bootstrap_servers ≡ concat (a ∷ ":" ∷ b ∷ ":" ∷ c ∷ [])
      → targets_of int settings ≡ none
  unfolding targets_of
  targets_of-none a b c h =
      let none_lem =
        kafka_target-none int (split ":" settings.kafka_bootstrap_servers)
          (subst (λ s. 3 ≤ length (split ":" s)) (sym h) (three_parts a b c)) in
      rw (none_lem, targets_of) refl

  -- Where KAFKA_BOOTSTRAP_SERVERS has a second colon, as the addresses of two brokers have, `main` ends with
  -- a `ValueError` at every command and at every state of the system, which it leaves as it is: no service is
  -- waited for and the command is not run.
  pub main-brokers :
      (a b c : String) (command : List String) (p : Process E)
      → settings.kafka_bootstrap_servers ≡ concat (a ∷ ":" ∷ b ∷ ":" ∷ c ∷ [])
      → main os show_int int settings command p ≡ some (err value_error, p)
  main-brokers a b c command p h =
      main-no_targets os show_int int settings command p (targets_of-none a b c h)
