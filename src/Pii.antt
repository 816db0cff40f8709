-- ===== src/Pii.antt =====
-- src/common/pii.py: the masking of identifiers. `digest` is the hexadecimal SHA-256 of a text, the salt
-- before it.
pub mod Redaction
use Prim.Native.String
use realtime_fraud_detection.Common.{
  ℕ, zero, suc, String, Bool, true, false, ◌&&◌, ◌||◌, Option, none, some, List, [], ◌∷◌, length,
  concat, join, str_eq, ◌==◌, if◌then◌else◌,
}
use realtime_fraud_detection.Common.Dict.{Dict, get, set}
use realtime_fraud_detection.Features.{contains}

-- a value of a log entry
pub data Value {ℓ} (X : Type ℓ) : Type ℓ where
  text : String → Value X
  other : X → Value X

abbrev pub pii_field_names : List String
pii_field_names =
    "card_id" ∷ "ip_address" ∷ "client_ip" ∷ "device_id" ∷ "user_id" ∷ "email" ∷ "analyst_id" ∷ []

-- `s[:n]`
unfoldable pub take_chars : ℕ → String → String
take_chars zero s = ""
take_chars (suc n) String.[] = ""
take_chars (suc n) (String.◌∷◌ c s) = String.◌∷◌ c (take_chars n s)

abbrev pub starts_with : String → String → Bool
starts_with String.[] s = true
starts_with (String.◌∷◌ p ps) String.[] = false
starts_with (String.◌∷◌ p ps) (String.◌∷◌ c s) =
    str_eq (String.◌∷◌ p String.[]) (String.◌∷◌ c String.[]) && starts_with ps s

-- `p in s`
unfoldable pub within : String → String → Bool
within p String.[] = starts_with p String.[]
within p (String.◌∷◌ c s) = starts_with p (String.◌∷◌ c s) || within p s

-- one more character of the first part
abbrev pub onto_first : String → List String → List String
onto_first c [] = c ∷ []
onto_first c (part ∷ parts) = concat (c ∷ part ∷ []) ∷ parts

-- `s.split(sep)` at a separator of one character
unfoldable pub split : String → String → List String
split sep String.[] = "" ∷ []
split sep (String.◌∷◌ c s) =
    let parts = split sep s in
    if str_eq (String.◌∷◌ c String.[]) sep
    then "" ∷ parts
    else onto_first (String.◌∷◌ c String.[]) parts

-- the last part, and the last two, replaced
abbrev pub hide_last : String → List String → List String
hide_last x [] = []
hide_last x (p ∷ []) = x ∷ []
hide_last x (p ∷ q ∷ parts) = p ∷ hide_last x (q ∷ parts)

abbrev pub hide_last_two : String → List String → List String
hide_last_two x [] = []
hide_last_two x (p ∷ []) = p ∷ []
hide_last_two x (p ∷ q ∷ []) = x ∷ x ∷ []
hide_last_two x (p ∷ q ∷ r ∷ parts) = p ∷ hide_last_two x (q ∷ r ∷ parts)

-- `d.keys()`
abbrev pub keys_of {ℓ} : {V : Type ℓ} → Dict V → List String
keys_of [] = []
keys_of ((key, value) ∷ entries) = key ∷ keys_of entries

module _ (digest : String → String) where
  -- a text that is empty is given back
  unfoldable pub mask_identifier : String → ℕ → String
  unfolding take_chars
  mask_identifier value keep_prefix =
      if str_eq value ""
      then value
      else concat (take_chars keep_prefix value ∷ "***" ∷ take_chars 6 (digest value) ∷ [])

  unfoldable pub mask_ip_address : String → String
  unfolding within split
  mask_ip_address ip =
      if str_eq ip ""
      then ip
      else if within ":" ip
      then join ":" (hide_last_two "xxxx" (split ":" ip))
      else if length (split "." ip) == 4
      then join "." (hide_last "xxx" (split "." ip))
      else mask_identifier ip 4

  abbrev pub masked : String → String → String
  masked key value = if within "ip" key then mask_ip_address value else mask_identifier value 6

  -- what becomes of one entry
  abbrev pub redacted {ℓ} : {X : Type ℓ} → String → Value X → Value X
  redacted key (other x) = other x
  redacted key (text value) =
      if contains key pii_field_names then text (masked key value) else text value

  module _ {ℓ} {X : Type ℓ} where
    -- the loop over the items, with the copy so far
    unfoldable pub redact_from : Dict (Value X) → Dict (Value X) → Dict (Value X)
    redact_from copy [] = copy
    redact_from copy ((key, value) ∷ items) = redact_from (set key (redacted key value) copy) items

    unfoldable pub redact_dict : Dict (Value X) → Dict (Value X)
    unfolding redact_from
    redact_dict entries = redact_from [] entries

    -- the update of one key in place
    unfoldable pub redact_key : String → Dict (Value X) → Dict (Value X)
    redact_key key event_dict = elim (get key event_dict) [
      | none ↦ event_dict
      | some value ↦ set key (redacted key value) event_dict
    ]

    unfoldable pub redact_keys : List String → Dict (Value X) → Dict (Value X)
    unfolding redact_key
    redact_keys [] event_dict = event_dict
    redact_keys (key ∷ keys) event_dict = redact_keys keys (redact_key key event_dict)

    unfoldable pub redact_pii_processor : Dict (Value X) → Dict (Value X)
    unfolding redact_keys
    redact_pii_processor event_dict = redact_keys (keys_of event_dict) event_dict
