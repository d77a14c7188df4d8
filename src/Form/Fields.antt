-- ===== src/Form/Fields.antt =====
-- `FormData::encode` beside the parsing of application/x-www-form-urlencoded.
use coro_http.Base.{
  ℕ, zero, suc, ◌≤◌, ◌<◌, ◌≡◌, ◌≢◌, refl, ap, true, false, none, some, [], ◌∷◌, ◌++◌, ◌⊎◌, inl, inr,
  Bytes, length, arith, All, split_at, split_at-append, split_at-All, length-append, All-append,
  sym, ◌∙◌, append-nil, append_assoc,
}
use coro_http.Base.Dict.{Dict}
use coro_http.Form.{FormData, is_unreserved, url_encode, encode_fields, encode}
use coro_http.Form.Escapes.{AreBytes, IsSafe, url_decode, url_decode-url_encode, url_encode-IsSafe}

-- A field, decoded at its first `=`.
pub parse_pair : Bytes → Bytes × Bytes
parse_pair text = elim (split_at b'=' text) [
  | none ↦ (url_decode text, [])
  | some (k, v) ↦ (url_decode k, url_decode v)
]

-- The fields between the `&`, of which there are fewer than the text has characters.
pub parse_pairs : ℕ → Bytes → Dict Bytes
unfolding parse_pair
parse_pairs zero text = []
parse_pairs (suc fuel) text = elim (split_at b'&' text) [
  | none ↦ parse_pair text ∷ []
  | some (p, rest) ↦ parse_pair p ∷ parse_pairs fuel rest
]

pub parse_form : Bytes → Dict Bytes
unfolding parse_pairs
parse_form [] = []
parse_form (c ∷ cs) = parse_pairs (length (c ∷ cs)) (c ∷ cs)

-- A safe text holds neither separator.
IsSafe-avoids :
    (d : ℕ) (s : Bytes) → is_unreserved d ≡ false → d ≢ b'%' → IsSafe s → All (λ c. c ≢ d) s
IsSafe-avoids d [] u n h = tt
IsSafe-avoids d (c ∷ cs) u n h = (λ e. go e h.0, IsSafe-avoids d cs u n h.1)
  where
    go : c ≡ d → (is_unreserved c ≡ true) ⊎ (c ≡ b'%') → ⊥
    go e (inl safe) = ground (arith, ap is_unreserved e)
    go e (inr percent) = n (sym e ∙ percent)

encoded_avoids :
    (d : ℕ) (s : Bytes)
    → is_unreserved d ≡ false
    → d ≢ b'%'
    → AreBytes s
    → All (λ c. c ≢ d) (url_encode s)
encoded_avoids d s u n h = IsSafe-avoids d (url_encode s) u n (url_encode-IsSafe s h)

-- One field as `encode` writes it.
pub print_pair : Bytes → Bytes → Bytes
print_pair k v = url_encode k ++ (b'=' ∷ url_encode v)

print_pair_avoids : (k v : Bytes) → AreBytes k → AreBytes v → All (λ c. c ≢ b'&') (print_pair k v)
unfolding print_pair is_unreserved
print_pair_avoids k v h n =
    All-append (λ c. c ≢ b'&') (url_encode k) (b'=' ∷ url_encode v)
      (encoded_avoids b'&' k refl (omega arith) h)
      (omega arith, encoded_avoids b'&' v refl (omega arith) n)

parse_pair-print_pair :
    (k v : Bytes) → AreBytes k → AreBytes v → parse_pair (print_pair k v) ≡ (k, v)
unfolding parse_pair print_pair is_unreserved
parse_pair-print_pair k v h n =
    rw
      (
        split_at-append b'=' (url_encode k) (url_encode v)
            (encoded_avoids b'=' k refl (omega arith) h),
        parse_pair,
      )
      (rw (url_decode-url_encode k h, url_decode-url_encode v n))

abbrev pub AreByteFields : Dict Bytes → Type 0
AreByteFields = All λ f. AreBytes f.0 × AreBytes f.1

encode_fields-cons :
    (k v : Bytes) (m : Dict Bytes)
    → encode_fields true ((k, v) ∷ m) ≡ print_pair k v ++ encode_fields false m
unfolding encode_fields print_pair
encode_fields-cons k v m = simp append_assoc

encode_fields_one : (k v : Bytes) → encode_fields true ((k, v) ∷ []) ≡ print_pair k v
unfolding encode_fields print_pair
encode_fields_one k v = simp append-nil

encode_fields-false :
    (f : Bytes × Bytes) (m : Dict Bytes)
    → encode_fields false (f ∷ m) ≡ b'&' ∷ encode_fields true (f ∷ m)
unfolding encode_fields
encode_fields-false f m = refl

parse_last :
    (fuel : ℕ) (text : Bytes)
    → split_at b'&' text ≡ none
    → parse_pairs (suc fuel) text ≡ parse_pair text ∷ []
unfolding parse_pairs
parse_last fuel text e = rw (e, parse_pairs)

parse_pairs-encode_fields :
    (fuel : ℕ) (k v : Bytes) (m : Dict Bytes)
    → length m < fuel
    → AreByteFields ((k, v) ∷ m)
    → parse_pairs fuel (encode_fields true ((k, v) ∷ m)) ≡ (k, v) ∷ m
unfolding parse_pairs
parse_pairs-encode_fields zero k v m l h = absurd (omega arith)
parse_pairs-encode_fields (suc fuel) k v [] l h =
    ap (parse_pairs (suc fuel)) (encode_fields_one k v)
    ∙ parse_last fuel (print_pair k v)
        (split_at-All b'&' (print_pair k v) (print_pair_avoids k v h.0.0 h.0.1))
    ∙ rw (parse_pair-print_pair k v h.0.0 h.0.1)
parse_pairs-encode_fields (suc fuel) k v (f ∷ m) l h =
    rw
      (
        encode_fields-cons k v (f ∷ m),
        encode_fields-false f m,
        split_at-append b'&' (print_pair k v) (encode_fields true (f ∷ m))
            (print_pair_avoids k v h.0.0 h.0.1),
        parse_pairs,
      )
      (rw (
        parse_pair-print_pair k v h.0.0 h.0.1,
        parse_pairs-encode_fields fuel f.0 f.1 m (omega arith) h.1,
      ))

length-encode_fields : (m : Dict Bytes) → length m ≤ length (encode_fields false m)
unfolding encode_fields
length-encode_fields [] = omega arith
length-encode_fields (f ∷ m) = omega (
  arith,
  length-encode_fields m,
  length-append (url_encode f.0) (b'=' ∷ (url_encode f.1 ++ encode_fields false m)),
  length-append (url_encode f.1) (encode_fields false m),
)

parse_nonempty : (text : Bytes) → text ≢ [] → parse_form text ≡ parse_pairs (length text) text
unfolding parse_form
parse_nonempty [] h = absurd (h refl)
parse_nonempty (c ∷ cs) h = refl

print_pair-ne-nil : (k v rest : Bytes) → print_pair k v ++ rest ≢ []
unfolding print_pair
print_pair-ne-nil k v rest e = absurd (
    omega (
      arith,
      ap length e,
      length-append (print_pair k v) rest,
      length-append (url_encode k) (b'=' ∷ url_encode v),
    ))

enough : (k v : Bytes) (m : Dict Bytes) → length m < length (encode_fields true ((k, v) ∷ m))
unfolding print_pair
enough k v m = omega (
  arith,
  ap length (encode_fields-cons k v m),
  length-append (print_pair k v) (encode_fields false m),
  length-append (url_encode k) (b'=' ∷ url_encode v),
  length-encode_fields m,
)

form_fields : (m : Dict Bytes) → AreByteFields m → parse_form (encode_fields true m) ≡ m
form_fields [] h = unfold encode_fields parse_form in refl
form_fields ((k, v) ∷ m) h =
    parse_nonempty _
      (λ e. print_pair-ne-nil k v (encode_fields false m) (sym (encode_fields-cons k v m) ∙ e))
    ∙ parse_pairs-encode_fields _ k v m (enough k v m) h

-- The body that `encode` writes for any fields of bytes is parsed back to the same fields, in the
-- same order.
pub parse_form-encode : (f : FormData) → AreByteFields f.fields → parse_form (encode f) ≡ f.fields
unfolding encode
parse_form-encode f h = form_fields f.fields h
