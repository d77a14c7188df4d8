-- ===== src/Form/Tests.antt =====
-- Runs of the form encoder.
use coro_http.Base.{◌≡◌, refl, [], ◌∷◌, Bytes, codes, equal, less, arith}
use coro_http.Base.Dict.{insert}
use coro_http.Form.{FormData, url_encode, add, encode}
use coro_http.Form.Fields.{parse_form, parse_form-encode}

abbrev spaced : Bytes
spaced = codes "a b&c=d~"

encodes : url_encode spaced ≡ codes "a%20b%26c%3Dd~"
unfolding url_encode
encodes = refl

abbrev two_fields : FormData
two_fields = record { fields = (codes "k&", codes "v=1") ∷ (codes "name", codes "") ∷ [] }

adds :
    add (codes "k&") (codes "v=1") (add (codes "name") (codes "") (record { fields = [] }))
    ≡ two_fields
unfolding add insert equal less
adds = refl

parse_form-encode_example : parse_form (encode two_fields) ≡ two_fields.fields
parse_form-encode_example = parse_form-encode two_fields (omega arith)
