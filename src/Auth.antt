-- ===== src/Auth.antt =====
-- include/coro_http/auth.hpp. `int val` is its 32-bit pattern, whose left shift drops the high bits;
-- only its low 12 bits are read. `valb` is never below -6, and `bits` stands for `valb + 6`, the
-- number of bits of `val` that are not written.
pub mod Base64
pub mod Decode
mod Tests
use coro_http.Base.{
  ℕ, zero, suc, ◌+◌, ◌-◌, ◌*◌, ◌/◌, ◌%◌, ◌^◌, Bool, true, false, List, [], ◌∷◌, ◌++◌, Bytes, codes,
  length, get_or, ltb, ◌==◌, if◌then◌else◌,
}

abbrev pub base64_chars : Bytes
base64_chars = codes "ABCDEFGHIJKLMNOPQRSTUVWXYZabcdefghijklmnopqrstuvwxyz0123456789+/"

pub base64_char : ℕ → ℕ
base64_char i = get_or base64_chars i 0

-- `val = (val << 8) + c`
pub push_byte : ℕ → ℕ → ℕ
push_byte val c = (val * 256 + c) % 2 ^ 32

-- The loop `while (valb >= 0)`: the characters pushed, and the bits left over. Each round takes 6
-- from `bits`, which is fuel enough.
pub write_bits : ℕ → ℕ → ℕ → Bytes × ℕ
write_bits zero val bits = ([], bits)
write_bits (suc fuel) val bits =
    let rest = write_bits fuel val (bits - 6) in
    if ltb bits 6 then ([], bits) else (base64_char (val / 2 ^ (bits - 6) % 64) ∷ rest.0, rest.1)

-- The characters pushed by the loop over the input, and behind it for the bits left over.
pub encode_loop : Bytes → ℕ → ℕ → Bytes
unfolding write_bits
encode_loop [] val bits =
    if ltb 0 bits then base64_char (val * 256 % 2 ^ 32 / 2 ^ (bits + 2) % 64) ∷ [] else []
encode_loop (c ∷ cs) val bits =
    let r = write_bits (bits + 8) (push_byte val c) (bits + 8) in
    r.0 ++ encode_loop cs (push_byte val c) r.1

-- The loop `while (result.size() % 4)`, which makes three rounds at most.
pub pad : ℕ → Bytes → Bytes
pad zero result = result
pad (suc fuel) result =
    let padded = pad fuel (result ++ (b'=' ∷ [])) in
    if length result % 4 == 0 then result else padded

pub base64_encode : Bytes → Bytes
unfolding encode_loop pad base64_char push_byte
base64_encode input = pad 3 (encode_loop input 0 0)

pub data AuthType : Type 0 where
  no_auth basic_auth bearer_auth : AuthType

-- `Auth::basic`
pub basic : Bytes → Bytes → Bytes
unfolding base64_encode
basic username password = codes "Basic " ++ base64_encode (username ++ (b':' ∷ password))

-- `Auth::bearer`
pub bearer : Bytes → Bytes
bearer token = codes "Bearer " ++ token

-- `Auth::api_key`
pub api_key : Bytes → Bytes → Bytes × Bytes
api_key key_value header_name = (header_name, key_value)
