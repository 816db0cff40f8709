-- ===== src/Pii/Redaction.antt =====
-- The two ways of redacting give the same, which is each entry masked in its place.
use realtime_fraud_detection.Common.{
  String, ◌≡◌, ◌≢◌, refl, sym, ap, ◌∙◌, none, some, [], ◌∷◌, ◌++◌, str_eq, eq_iff, eq_refl, arith,
  Bool-cases, inl, inr,
}
use mathlib.Core.List.{append-nil, append_assoc}
use realtime_fraud_detection.Common.Dict.{Dict, get, set}
use realtime_fraud_detection.Pii.{
  Value, redacted, redact_from, redact_dict, redact_key, redact_keys, keys_of, redact_pii_processor,
}

module _ {ℓ} {V : Type ℓ} where
  -- no key of the second is one of the first
  abbrev Apart : Dict V → Dict V → Type ℓ
  Apart copy [] = Unit
  Apart copy ((k, v) ∷ d) = (get k copy ≡ none) × Apart copy d

  -- a dict has each of its keys once
  abbrev pub IsDict : Dict V → Type ℓ
  IsDict [] = Unit
  IsDict ((k, v) ∷ d) = (get k d ≡ none) × IsDict d

  Apart-nil : (d : Dict V) → Apart [] d
  unfolding get
  Apart-nil [] = tt
  Apart-nil ((k, v) ∷ d) = (refl, Apart-nil d)

  get-append-none :
      (j k : String) (v : V) (d : Dict V) → get j d ≡ none → k ≢ j → get j (d ++ (k, v) ∷ []) ≡ none
  unfolding get
  get-append-none j k v [] h n = ground (arith, eq_iff k j, n)
  get-append-none j k v ((i, w) ∷ d) h n = ground (arith, h, get-append-none j k v d, n)

  set-append_new : (k : String) (v : V) (d : Dict V) → get k d ≡ none → set k v d ≡ d ++ (k, v) ∷ []
  unfolding get set
  set-append_new k v [] h = refl
  set-append_new k v ((i, w) ∷ d) h = ground (arith, h, set-append_new k v d)

  get-append_here :
      (k : String) (v : V) (pre d : Dict V) → get k pre ≡ none → get k (pre ++ (k, v) ∷ d) ≡ some v
  unfolding get
  get-append_here k v [] d h = ground (arith, eq_refl k)
  get-append_here k v ((i, w) ∷ pre) d h = ground (arith, h, get-append_here k v pre d)

  set-append_here :
      (k : String) (v w : V) (pre d : Dict V)
      → get k pre ≡ none
      → set k w (pre ++ (k, v) ∷ d) ≡ pre ++ (k, w) ∷ d
  unfolding get set
  set-append_here k v w [] d h = ground (arith, eq_refl k)
  set-append_here k v w ((i, u) ∷ pre) d h = ground (arith, h, set-append_here k v w pre d)

  -- one more key, which the rest does not have
  Apart-append :
      (copy : Dict V) (k : String) (v : V) (d : Dict V)
      → get k d ≡ none
      → Apart copy d
      → Apart (copy ++ (k, v) ∷ []) d
  unfolding get
  Apart-append copy k v [] h a = tt
  Apart-append copy k v ((j, w) ∷ d) h a = elim (Bool-cases (str_eq j k)) [
    | inl same ↦ absurd (ground (arith, same, h))
    | inr apart ↦ (
      get-append-none j k v copy a.0 (λ e. ground (arith, apart, eq_iff j k, e)),
      Apart-append copy k v d (ground (arith, apart, h)) a.1,
    )
  ]

module _ {ℓ} {X : Type ℓ} (digest : String → String) where
  -- each entry masked in its place
  abbrev pub masked_entries : Dict (Value X) → Dict (Value X)
  masked_entries [] = []
  masked_entries ((k, v) ∷ d) = (k, redacted digest k v) ∷ masked_entries d

  redact_from_lem :
      (copy d : Dict (Value X))
      → Apart copy d
      → IsDict d
      → redact_from digest copy d ≡ copy ++ masked_entries d
  unfolding redact_from
  redact_from_lem copy [] a u = sym (append-nil copy)
  redact_from_lem copy ((k, v) ∷ d) a u =
      let w = redacted digest k v in
      ap (λ c. redact_from digest c d) (set-append_new k w copy a.0)
      ∙ redact_from_lem (copy ++ (k, w) ∷ []) d (Apart-append copy k w d u.0 a.1) u.1
      ∙ append_assoc copy ((k, w) ∷ []) (masked_entries d)

  redact_key_here :
      (copy : Dict (Value X)) (k : String) (v : Value X) (d : Dict (Value X))
      → get k copy ≡ none
      → redact_key digest k (copy ++ (k, v) ∷ d) ≡ copy ++ (k, redacted digest k v) ∷ d
  unfolding redact_key
  redact_key_here copy k v d h =
      rw (get-append_here k v copy d h, redact_key)
        (set-append_here k v (redacted digest k v) copy d h)

  redact_keys_lem :
      (copy d : Dict (Value X))
      → Apart copy d
      → IsDict d
      → redact_keys digest (keys_of d) (copy ++ d) ≡ copy ++ masked_entries d
  unfolding redact_keys
  redact_keys_lem copy [] a u = refl
  redact_keys_lem copy ((k, v) ∷ d) a u =
      let w = redacted digest k v in
      ap (redact_keys digest (keys_of d))
        (redact_key_here copy k v d a.0 ∙ sym (append_assoc copy ((k, w) ∷ []) d))
      ∙ redact_keys_lem (copy ++ (k, w) ∷ []) d (Apart-append copy k w d u.0 a.1) u.1
      ∙ append_assoc copy ((k, w) ∷ []) (masked_entries d)

  -- Masking a log entry in place gives what masking a copy of it gives, and both leave its keys and their order as
  -- they are: each entry is that of the same place, masked if its key is one of the personal ones and it is a text.
  pub redact_pii_processor-redact_dict :
      (d : Dict (Value X))
      → IsDict d
      → (redact_pii_processor digest d ≡ masked_entries d)
        × (redact_dict digest d ≡ masked_entries d)
  unfolding redact_pii_processor redact_dict
  redact_pii_processor-redact_dict d u =
      (redact_keys_lem [] d (Apart-nil d) u, redact_from_lem [] d (Apart-nil d) u)
