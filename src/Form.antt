-- ===== src/Form.antt =====
-- include/coro_http/form_data.hpp, in the C locale.
pub mod Escapes
pub mod Fields
mod Tests
use coro_http.Base.{
  ℕ, ◌+◌, ◌/◌, ◌%◌, Bool, true, false, ◌&&◌, ◌||◌, List, [], ◌∷◌, ◌++◌, Bytes, codes, ltb, leb,
  ◌==◌, if◌then◌else◌,
}
use coro_http.Base.Dict.{Dict, insert}

-- The characters that `url_encode` keeps.
pub is_unreserved : ℕ → Bool
is_unreserved c =
    leb b'0' c && leb c b'9'
    || leb b'A' c && leb c b'Z'
    || leb b'a' c && leb c b'z'
    || c == b'-'
    || c == b'_'
    || c == b'.'
    || c == b'~'

-- A digit under `std::hex` and `std::uppercase`.
pub hex_digit : ℕ → ℕ
hex_digit n = if ltb n 10 then n + b'0' else n + 55

pub encode_char : ℕ → Bytes
unfolding is_unreserved hex_digit
encode_char c =
    if is_unreserved c then c ∷ [] else b'%' ∷ hex_digit (c / 16) ∷ hex_digit (c % 16) ∷ []

pub url_encode : Bytes → Bytes
unfolding encode_char
url_encode [] = []
url_encode (c ∷ cs) = encode_char c ++ url_encode cs

pub record FormData : Type 0 where
  pub fields : Dict Bytes

pub add : Bytes → Bytes → FormData → FormData
add key v f = record { fields = insert key v f.fields }

-- `FormData::set`
pub set : Bytes → Bytes → FormData → FormData
unfolding add
set key v f = add key v f

-- The loop of `encode`, with its flag `first`.
pub encode_fields : Bool → Dict Bytes → Bytes
encode_fields first [] = []
encode_fields first (field ∷ m) =
    (if first then [] else b'&' ∷ [])
    ++ (url_encode field.0 ++ (b'=' ∷ (url_encode field.1 ++ encode_fields false m)))

pub encode : FormData → Bytes
unfolding encode_fields
encode f = encode_fields true f.fields

pub content_type : Bytes
content_type = codes "application/x-www-form-urlencoded"

pub no_fields : FormData → Bool
no_fields f = elim f.fields [ [] ↦ true | _ ↦ false ]

pub clear : FormData → FormData
clear f = record { fields = [] }
