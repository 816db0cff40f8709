-- ===== src/Schemas/Constraints.antt =====
-- What a validated transaction satisfies.
use Prim.Native.String.{count as chars}
use realtime_fraud_detection.Common.{
  ℕ, Bool, refl, not, ◌≤◌, String, ◌≡◌, true, false, ◌&&◌, subst, some, arith, Bool-cases, inl, inr,
}
use mathlib.Core.Option.{some-injective}
use realtime_fraud_detection.Common.Int.{negsuc}
use realtime_fraud_detection.Common.Floating.{Floating, ◌≤ᶠ◌, ◌<ᶠ◌, lit}
use realtime_fraud_detection.Schemas.{
  Transaction, fits, fits_option, texts_ok, numbers_ok, validate,
}

-- The declared bounds that validation leaves as they are. (The currency and the country are
-- rewritten in upper case after their length was checked.)
pub record IsInRange {A : Type 0} ⦃f : Floating A⦄ (t : Transaction A) : Type 0 where
  pub positive : t.amount ≤ᶠ lit 0 0 ≡ false
  pub capped : lit 1000000 0 <ᶠ t.amount ≡ false
  pub south : t.latitude <ᶠ f.of_int (negsuc 89) ≡ false
  pub north : lit 90 0 <ᶠ t.latitude ≡ false
  pub west : t.longitude <ᶠ f.of_int (negsuc 179) ≡ false
  pub east : lit 180 0 <ᶠ t.longitude ≡ false
  pub transaction_id : (1 ≤ chars t.transaction_id) × (chars t.transaction_id ≤ 64)
  pub card_id : (1 ≤ chars t.card_id) × (chars t.card_id ≤ 64)
  pub user_id : (1 ≤ chars t.user_id) × (chars t.user_id ≤ 64)
  pub merchant_id : (1 ≤ chars t.merchant_id) × (chars t.merchant_id ≤ 64)
  pub merchant_category : (1 ≤ chars t.merchant_category) × (chars t.merchant_category ≤ 32)
  pub device_id : fits_option 64 t.device_id ≡ true
  pub ip_address : fits_option 45 t.ip_address ≡ true

both : (a b : Bool) → a && b ≡ true → (a ≡ true) × (b ≡ true)
both true b h = (refl, h)
both false b h = cc

unless : (b : Bool) → not b ≡ true → b ≡ false
unless true h = cc
unless false h = refl

fits-bounds : (lo hi : ℕ) (s : String) → fits lo hi s ≡ true → (lo ≤ chars s) × (chars s ≤ hi)
fits-bounds lo hi s h = ground (arith, h)

module _ {A : Type 0} ⦃f : Floating A⦄ where
  IsInRange-respelled :
      (t : Transaction A) (c d : String)
      → texts_ok t && numbers_ok t ≡ true
      → IsInRange (record t { currency = c; country = d })
  unfolding texts_ok numbers_ok
  IsInRange-respelled t c d h =
      let (texts, numbers) = both (texts_ok t) (numbers_ok t) h in
      let (u8, t9) = both _ _ texts in
      let (u7, t8) = both _ _ u8 in
      let (u6, _) = both _ _ u7 in
      let (u5, t6) = both _ _ u6 in
      let (u4, t5) = both _ _ u5 in
      let (u3, _) = both _ _ u4 in
      let (u2, t3) = both _ _ u3 in
      let (t1, t2) = both _ _ u2 in
      let (m5, n6) = both _ _ numbers in
      let (m4, n5) = both _ _ m5 in
      let (m3, n4) = both _ _ m4 in
      let (m2, n3) = both _ _ m3 in
      let (n1, n2) = both _ _ m2 in
      record {
        positive = unless _ n1;
        capped = unless _ n2;
        south = unless _ n3;
        north = unless _ n4;
        west = unless _ n5;
        east = unless _ n6;
        transaction_id = fits-bounds 1 64 t.transaction_id t1;
        card_id = fits-bounds 1 64 t.card_id t2;
        user_id = fits-bounds 1 64 t.user_id t3;
        merchant_id = fits-bounds 1 64 t.merchant_id t5;
        merchant_category = fits-bounds 1 32 t.merchant_category t6;
        device_id = t8;
        ip_address = t9;
      }

  -- A transaction that validation gives back has an amount that is not 0 or less and not above 1,000,000,
  -- a position that is not off the globe (each may be NaN), and texts but the currency and the country within
  -- their lengths.
  pub validate-IsInRange :
      (upper : String → String) (t v : Transaction A) → validate upper t ≡ some v → IsInRange v
  unfolding validate
  validate-IsInRange upper t v h = elim (Bool-cases (texts_ok t && numbers_ok t)) [
    | inl e ↦
        subst IsInRange (some-injective _ _ (rw e at h))
          (IsInRange-respelled t (upper t.currency) (upper t.country) e)
    | inr e ↦ absurd (ground arith)
  ]
