-- ===== src/Tests/Pii.antt =====
-- A log entry, with a digest that is always the same.
use realtime_fraud_detection.Common.{ℕ, ◌≡◌, refl, String, [], ◌∷◌, concat, join}
use realtime_fraud_detection.Common.Dict.{Dict, get}
use realtime_fraud_detection.Pii.{
  Value, text, other, mask_identifier, mask_ip_address, redact_dict, redact_pii_processor,
}
use realtime_fraud_detection.Pii.Redaction.{masked_entries, redact_pii_processor-redact_dict}

abbrev digest : String → String
digest s = "0123456789abcdef"

abbrev entry : Dict (Value ℕ)
entry =
    ("event", text "scored")
    ∷ ("card_id", text "card_a1b2c3d4e5f6")
    ∷ ("latency", other 12)
    ∷ ("client_ip", text "203.0.113.5")
    ∷ []

-- the prefix has six characters, `_` and one of the identifier's own among them
mask_identifier_card : mask_identifier digest "card_a1b2c3d4e5f6" 6 ≡ "card_a***012345"
unfolding mask_identifier concat
mask_identifier_card = refl

mask_ip_address_v4 : mask_ip_address digest "203.0.113.5" ≡ "203.0.113.xxx"
unfolding mask_ip_address concat join
mask_ip_address_v4 = refl

mask_ip_address_v6 : mask_ip_address digest "2001:db8::1" ≡ "2001:db8:xxxx:xxxx"
unfolding mask_ip_address concat join
mask_ip_address_v6 = refl

redact_pii_processor-redact_dict_example :
    (redact_pii_processor digest entry ≡ masked_entries digest entry)
    × (redact_dict digest entry ≡ masked_entries digest entry)
unfolding get
redact_pii_processor-redact_dict_example =
    redact_pii_processor-redact_dict digest entry (refl, (refl, (refl, (refl, tt))))
