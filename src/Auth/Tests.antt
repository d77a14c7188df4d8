-- ===== src/Auth/Tests.antt =====
-- Runs of the encoders.
use coro_http.Base.{◌≡◌, refl, [], ◌∷◌, codes, arith}
use coro_http.Auth.{base64_encode, basic}
use coro_http.Auth.Base64.{rfc4648, base64_encode-rfc4648}

encodes : basic (codes "Aladdin") (codes "open sesame") ≡ codes "Basic QWxhZGRpbjpvcGVuIHNlc2FtZQ=="
unfolding basic
encodes = refl

base64_encode-rfc4648_example :
    base64_encode (0xff ∷ 0 ∷ 7 ∷ 0x80 ∷ []) ≡ rfc4648 (0xff ∷ 0 ∷ 7 ∷ 0x80 ∷ [])
base64_encode-rfc4648_example = base64_encode-rfc4648 (0xff ∷ 0 ∷ 7 ∷ 0x80 ∷ []) (omega arith)
