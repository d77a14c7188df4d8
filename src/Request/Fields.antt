-- ===== src/Request/Fields.antt =====
-- The text of a request as a server reads it (RFC 9112): request line, header fields, body.
use coro_http.Base.{
  ℕ, zero, suc, ◌<◌, ◌≡◌, ◌≢◌, refl, sym, false, Option, none, some, [], ◌∷◌, ◌++◌, Bytes, split_at,
  split_at-append, strip_prefix, is_empty, length, All, All-append, arith, append_assoc,
}
use coro_http.Base.Dict.{Dict}
use coro_http.Request.{header_line, header_lines}

-- A line and the text behind its end.
pub read_line : Bytes → Option (Bytes × Bytes)
read_line text = elim (split_at b'\r' text) [
  | none ↦ none
  | some (line, rest) ↦ elim (strip_prefix (b'\n' ∷ []) rest) [
    | none ↦ none
    | some later ↦ some (line, later)
  ]
]

-- A field line: a name, a colon, a space, a value.
pub read_field : Bytes → Option (Bytes × Bytes)
read_field line = elim (split_at b':' line) [
  | none ↦ none
  | some (name, rest) ↦ elim (strip_prefix (b' ' ∷ []) rest) [
    | none ↦ none
    | some v ↦ some (name, v)
  ]
]

-- A field in front of those read later.
pub put_field : Option (Bytes × Bytes) → Option (Dict Bytes × Bytes) → Option (Dict Bytes × Bytes)
put_field (some field) (some (fields, body)) = some (field ∷ fields, body)
put_field f later = none

-- The fields up to the empty line, of at most so many lines, and the text behind it.
pub read_fields : ℕ → Bytes → Option (Dict Bytes × Bytes)
unfolding read_line read_field put_field
read_fields zero text = none
read_fields (suc lines) text = elim (read_line text) [
  | none ↦ none
  | some ([], body) ↦ some ([], body)
  | some (c ∷ cs, rest) ↦ put_field (read_field (c ∷ cs)) (read_fields lines rest)
]

-- The request line, the fields and the body, of at most so many lines of header.
unfoldable pub read_request : ℕ → Bytes → Option (Bytes × Dict Bytes × Bytes)
unfolding read_fields
read_request lines text = elim (read_line text) [
  | none ↦ none
  | some (line, rest) ↦ elim (read_fields lines rest) [
    | none ↦ none
    | some (fields, body) ↦ some (line, fields, body)
  ]
]

abbrev pub HasNoCr : Bytes → Type 0
HasNoCr = All λ c. c ≢ b'\r'

-- A name and a value that stand on one line, the name not empty and without a colon.
pub record IsField (field : Bytes × Bytes) : Type 0 where
  pub name_line : HasNoCr field.0
  pub name_colon : All (λ c. c ≢ b':') field.0
  pub name_some : is_empty field.0 ≡ false
  pub value_line : HasNoCr field.1

pub read_line-append :
    (line rest : Bytes)
    → HasNoCr line
    → read_line (line ++ (b'\r' ∷ b'\n' ∷ rest)) ≡ some (line, rest)
unfolding read_line strip_prefix
read_line-append line rest h = rw (split_at-append b'\r' line (b'\n' ∷ rest) h, read_line) refl

read_field-append :
    (name v : Bytes)
    → All (λ c. c ≢ b':') name
    → read_field (name ++ (b':' ∷ b' ' ∷ v)) ≡ some (name, v)
unfolding read_field strip_prefix
read_field-append name v h = rw (split_at-append b':' name (b' ' ∷ v) h, read_field) refl

-- One field line in front of the rest.
read_fields-header_line :
    (lines : ℕ) (name v rest : Bytes)
    → IsField (name, v)
    → read_fields (suc lines) (header_line name v rest)
      ≡ put_field (some (name, v)) (read_fields lines rest)
unfolding read_fields header_line
read_fields-header_line lines [] v rest f = absurd (unfold is_empty in ground (arith, f.name_some))
read_fields-header_line lines (c ∷ cs) v rest f =
    let line = (c ∷ cs) ++ (b':' ∷ b' ' ∷ v) in
    let is_line : HasNoCr line =
      All-append _ (c ∷ cs) (b':' ∷ b' ' ∷ v) f.name_line
        (ground arith, (ground arith, f.value_line)) in
    rw
      (
        sym (append_assoc (c ∷ cs) (b':' ∷ b' ' ∷ v) (b'\r' ∷ b'\n' ∷ rest)),
        read_line-append line rest is_line,
        read_fields,
        read_field-append (c ∷ cs) v f.name_colon,
      )
      refl

pub read_fields-header_lines :
    (fields : Dict Bytes) (lines : ℕ) (body : Bytes)
    → All IsField fields
    → length fields < lines
    → read_fields lines (header_lines fields (b'\r' ∷ b'\n' ∷ body)) ≡ some (fields, body)
unfolding read_fields header_lines
read_fields-header_lines fields zero body h lt = absurd (omega arith)
read_fields-header_lines [] (suc lines) body h lt =
    rw (read_line-append [] body tt, read_fields) refl
read_fields-header_lines (f ∷ fs) (suc lines) body h lt =
    rw
      (
        read_fields-header_line lines f.0 f.1 (header_lines fs (b'\r' ∷ b'\n' ∷ body)) h.0,
        read_fields-header_lines fs lines body h.1 (omega arith),
        put_field,
      )
      refl
