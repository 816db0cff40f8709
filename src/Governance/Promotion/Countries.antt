-- ===== src/Governance/Promotion/Countries.antt =====
-- Which country a metric of a run is about: the texts that the gate takes apart.
use Prim.Native.Char.{Char, code, len_utf8}
use Prim.Native.String.{len, slice, ◌++◌ as str_append}
use Prim.Native.String.append
use Prim.Native.String.len
use Prim.Native.String.slice
use native.Mathlib.Nat.{add-sub_cancel_left}
use text.Mathlib.TextPositions.{
  slice_all, slice-append_left, slice-append_right, len-append, starts_with-append,
}
use text.Mathlib.Text.{starts_with}
use text.Mathlib.TextLemmas.{append_assoc}
use realtime_fraud_detection.Common.{
  ℕ, zero, suc, ◌+◌, ◌-◌, String, ◌≡◌, ◌≢◌, refl, ap, sym, ◌∙◌, true, false, ◌⊎◌, inl, inr, Option,
  none, some, [], ◌∷◌, arith, eq_iff, eq_refl, str_eq, All, if◌then◌else◌, leb, subst, Bool-cases,
}
use mathlib.Core.Bool.{false≢true}
use realtime_fraud_detection.Common.Dict.{Dict, get, set, get-set}
use realtime_fraud_detection.Governance.Promotion.{
  ends_with, remove_prefix, remove_suffix, country_of, is_fairness, fairness_from,
}

-- what lies from a position to the end is a suffix
slice-suffix : (s : String) (a : ℕ) → (u : String) × (str_append u (slice s a (len s)) ≡ s)
slice-suffix String.[] a =
    (String.[], append.nil (slice String.[] a (len String.[])) ∙ slice.nil a _)
slice-suffix (String.◌∷◌ c s) zero = (String.[], append.nil _ ∙ slice_all (String.◌∷◌ c s))
slice-suffix (String.◌∷◌ c s) (suc a) =
    let (u, same) = slice-suffix s (suc a - len_utf8 c) in
    (
      String.◌∷◌ c u,
      rw (slice.cons-suc, len.cons, add-sub_cancel_left, append.cons) (ap (String.◌∷◌ c) same),
    )

-- the number of a text's last character
last_code : ℕ → String → ℕ
last_code n String.[] = n
last_code n (String.◌∷◌ c s) = last_code (code c) s

last_code-append :
    (n : ℕ) (s : String) (c : Char) (t : String)
    → last_code n (str_append s (String.◌∷◌ c t)) ≡ last_code (code c) t
unfolding last_code
last_code-append n String.[] c t = rw append.nil
last_code-append n (String.◌∷◌ d s) c t = rw append.cons (last_code-append (code d) s c t)

ends_with-append : (s t : String) → ends_with (str_append s t) t ≡ true
ends_with-append s t =
    let begin : len s + len t - len t ≡ len s = omega arith in
    let fits : leb (len t) (len s + len t) ≡ true = ground arith in
    rw (len-append, begin, fits, slice-append_right) (eq_refl t)

suffix_of-ends_with : (s t : String) → ends_with s t ≡ true → (u : String) × (str_append u t ≡ s)
suffix_of-ends_with s t h =
    let (u, same) = slice-suffix s (len s - len t) in
    let found : slice s (len s - len t) (len s) ≡ t =
      ground (arith, h, eq_iff (slice s (len s - len t) (len s)) t) in
    (u, subst (λ v. str_append u v ≡ s) found same)

remove_prefix-append : (s t : String) → remove_prefix s (str_append s t) ≡ t
remove_prefix-append s t = rw (starts_with-append, len-append) (slice-append_right s t)

remove_suffix-append : (s t : String) → remove_suffix t (str_append s t) ≡ s
remove_suffix-append s t =
    let begin : len s + len t - len t ≡ len s = omega arith in
    rw (ends_with-append, len-append, begin) (slice-append_left s t)

-- the parts of a metric's name such as "fairness_US_recall"
key-country_of : (c : String) → country_of (str_append "fairness_" (str_append c "_recall")) ≡ c
key-country_of c =
    ap (remove_suffix "_recall") (remove_prefix-append "fairness_" (str_append c "_recall"))
    ∙ remove_suffix-append c "_recall"

key-is_fairness :
    (c : String) → is_fairness (str_append "fairness_" (str_append c "_recall")) ≡ true
key-is_fairness c =
    let start : starts_with (str_append "fairness_" (str_append c "_recall")) "fairness_" ≡ true =
      starts_with-append "fairness_" (str_append c "_recall") in
    let end : ends_with (str_append "fairness_" (str_append c "_recall")) "_recall" ≡ true =
      subst (λ v. ends_with v "_recall" ≡ true) (append_assoc "fairness_" c "_recall")
        (ends_with-append (str_append "fairness_" c) "_recall") in
    rw (start, end)

-- a text that ends in another letter is no recall
other-is_fairness :
    (s : String) (d : Char) (t : String)
    → last_code (code d) t ≢ 108
    → is_fairness (str_append s (String.◌∷◌ d t)) ≡ false
unfolding last_code
other-is_fairness s d t h =
    elim (Bool-cases (ends_with (str_append s (String.◌∷◌ d t)) "_recall")) [
      | inl e ↦
          let (u, same) = suffix_of-ends_with (str_append s (String.◌∷◌ d t)) "_recall" e in
          absurd (
            h (
              sym (last_code-append 0 s d t)
              ∙ ap (last_code 0) (sym same)
              ∙ last_code-append 0 u "_" "recall"))
      | inr e ↦ ground (arith, e)
    ]

figure_lem :
    (c : String) (d : Char) (t : String)
    → last_code (code d) t ≢ 108
    → is_fairness (str_append "fairness_" (str_append c (String.◌∷◌ d t))) ≡ false
figure_lem c d t h =
    subst (λ v. is_fairness v ≡ false) (append_assoc "fairness_" c (String.◌∷◌ d t))
      (other-is_fairness (str_append "fairness_" c) d t h)

-- the other figures of a country are not read as recalls
pub count-is_fairness :
    (c : String) → is_fairness (str_append "fairness_" (str_append c "_count")) ≡ false
unfolding last_code
count-is_fairness c = figure_lem c "_" "count" (λ e. absurd (omega (arith, e)))

pub precision-is_fairness :
    (c : String) → is_fairness (str_append "fairness_" (str_append c "_precision")) ≡ false
unfolding last_code
precision-is_fairness c = figure_lem c "_" "precision" (λ e. absurd (omega (arith, e)))

pub positive_rate-is_fairness :
    (c : String) → is_fairness (str_append "fairness_" (str_append c "_positive_rate")) ≡ false
unfolding last_code
positive_rate-is_fairness c = figure_lem c "_" "positive_rate" (λ e. absurd (omega (arith, e)))

pub other-fairness_key :
    (t k : String) → starts_with k "fairness_" ≡ false → str_eq (str_append "fairness_" t) k ≡ false
other-fairness_key t k h = elim (Bool-cases (str_eq (str_append "fairness_" t) k)) [
  | inl e ↦ absurd (
      false≢true (
        sym h
        ∙ ap (λ v. starts_with v "fairness_") (sym ((eq_iff (str_append "fairness_" t) k).0 e))
        ∙ starts_with-append "fairness_" t))
  | inr e ↦ e
]

abbrev pub recall_key : String → String
recall_key c = str_append "fairness_" (str_append c "_recall")

-- of a recall's name the gate reads the country that it was made of
abbrev pub IsReadable : String → Type 0
IsReadable k = (is_fairness k ≡ false) ⊎ ((c : String) × (k ≡ recall_key c))

recall_key_inj : (c d : String) → recall_key c ≡ recall_key d → c ≡ d
recall_key_inj c d h = sym (key-country_of c) ∙ ap country_of h ∙ key-country_of d

pub eq-recall_key : (c d : String) → str_eq (recall_key c) (recall_key d) ≡ str_eq c d
eq-recall_key c d = elim (Bool-cases (str_eq c d)) [
  | inl e ↦ (eq_iff (recall_key c) (recall_key d)).1 (ap recall_key ((eq_iff c d).0 e)) ∙ sym e
  | inr e ↦ elim (Bool-cases (str_eq (recall_key c) (recall_key d))) [
    | inl k ↦ absurd (
        false≢true (
          sym e ∙ (eq_iff c d).1 (recall_key_inj c d ((eq_iff (recall_key c) (recall_key d)).0 k))))
    | inr k ↦ k ∙ sym e
  ]
]

pub other-recall_key : (k c : String) → is_fairness k ≡ false → str_eq k (recall_key c) ≡ false
other-recall_key k c h = elim (Bool-cases (str_eq k (recall_key c))) [
  | inl e ↦
      absurd
        (false≢true (sym h ∙ ap is_fairness ((eq_iff k (recall_key c)).0 e) ∙ key-is_fairness c))
  | inr e ↦ e
]

module _ {A : Type 0} where
  fairness_from-nil : (seen : Dict A) → fairness_from seen [] ≡ seen
  unfolding fairness_from
  fairness_from-nil seen = refl

  fairness_from-skip :
      (seen ms : Dict A) (k : String) (v : A)
      → is_fairness k ≡ false
      → fairness_from seen ((k, v) ∷ ms) ≡ fairness_from seen ms
  unfolding fairness_from
  fairness_from-skip seen ms k v h =
      ap (λ b. fairness_from (if b then set (country_of k) v seen else seen) ms) h

  fairness_from-take :
      (seen ms : Dict A) (c : String) (v : A)
      → fairness_from seen ((recall_key c, v) ∷ ms) ≡ fairness_from (set c v seen) ms
  unfolding fairness_from
  fairness_from-take seen ms c v =
      ap (λ b. fairness_from (if b then set (country_of (recall_key c)) v seen else seen) ms)
        (key-is_fairness c)
      ∙ ap (λ d. fairness_from (set d v seen) ms) (key-country_of c)

  -- no key stands twice
  abbrev pub Distinct : Dict A → Type 0
  Distinct [] = Unit
  Distinct ((k, v) ∷ d) = (get k d ≡ none) × Distinct d

  abbrev pub else_get : Option A → Option A → Option A
  else_get none o = o
  else_get (some v) o = some v

  -- the first of a key is the only one
  first_seen :
      (c d : String) (v : A) (seen ms : Dict A)
      → get (recall_key d) ms ≡ none
      → else_get (get (recall_key c) ms) (get c (set d v seen))
        ≡ else_get (if str_eq d c then some v else get (recall_key c) ms) (get c seen)
  first_seen c d v seen ms new = elim (Bool-cases (str_eq d c)) [
    | inl e ↦
        let same : d ≡ c = (eq_iff d c).0 e in
        let none_left : get (recall_key c) ms ≡ none =
          subst (λ j. get (recall_key j) ms ≡ none) same new in
        rw (get-set c d v seen, e, none_left)
    | inr e ↦ rw (get-set c d v seen, e)
  ]

  -- What the gate reads for a country is the metric of that country's name.
  pub get-fairness_from :
      (c : String) (seen ms : Dict A)
      → Distinct ms
      → All (λ (e : String × A). IsReadable e.0) ms
      → get c (fairness_from seen ms) ≡ else_get (get (recall_key c) ms) (get c seen)
  unfolding get
  get-fairness_from c seen [] h r = ap (get c) (fairness_from-nil seen)
  get-fairness_from c seen ((k, v) ∷ ms) h (inl other, r) =
      rw (fairness_from-skip seen ms k v other, other-recall_key k c other)
        (get-fairness_from c seen ms h.1 r)
  get-fairness_from c seen ((k, v) ∷ ms) h (inr (d, e), r) =
      let new : get (recall_key d) ms ≡ none = subst (λ j. get j ms ≡ none) e h.0 in
      rw (e, fairness_from-take seen ms d v, eq-recall_key d c)
        (get-fairness_from c (set d v seen) ms h.1 r ∙ first_seen c d v seen ms new)
