-- ===== src/Yenc.antt =====
-- internal/nzb/yenc.go: the decoding of a line of an article's body. Bytes are numbers below 256, and
-- arithmetic on them is `% 256`.
use stremio_server_go.Common.{
  ℕ, zero, suc, ◌+◌, ◌%◌, ◌≡◌, ◌≤◌, ◌<◌, refl, ap, List, [], ◌∷◌, ◌++◌, Option, none, some, ◌==◌,
  if◌then◌else◌, ◌||◌, true, false, Bool, arith, Bool-cases, inl, inr, length,
}
use stremio_server_go.Common.Weigh.{All}
pub mod Article
mod Tests

-- `append(out, …)`, if the rest of the line decodes.
unfoldable pub prepend : ℕ → Option (List ℕ) → Option (List ℕ)
prepend b none = none
prepend b (some out) = some (b ∷ out)

unfoldable mutual
  -- The loop over the bytes of a line; `none` is the error of an escape character at the end.
  pub decode_line : List ℕ → Option (List ℕ)
  decode_line [] = some []
  decode_line (b ∷ raw) =
      if b == 61 then decode_escaped raw else prepend ((b + 214) % 256) (decode_line raw)

  -- The byte after an escape character.
  pub decode_escaped : List ℕ → Option (List ℕ)
  decode_escaped [] = none
  decode_escaped (b ∷ raw) = prepend ((b + 150) % 256) (decode_line raw)

-- The yEnc format: the encoded value of a byte, and the values that must be escaped.
abbrev pub encoded : ℕ → ℕ
encoded b = (b + 42) % 256

abbrev pub is_critical : ℕ → Bool
is_critical e = (e == 0) || ((e == 13) || ((e == 10) || (e == 61)))

unfoldable pub encode_line : List ℕ → List ℕ
encode_line [] = []
encode_line (b ∷ bs) =
    if is_critical (encoded b)
    then 61 ∷ (((b + 106) % 256) ∷ encode_line bs)
    else encoded b ∷ encode_line bs

abbrev pub IsByte : ℕ → Type 0
IsByte b = b < 256

-- Every list of bytes, encoded to a line as the format says with each critical value escaped, is
-- decoded to itself.
pub decode_line-encode_line : (bs : List ℕ) → All IsByte bs → decode_line (encode_line bs) ≡ some bs
unfolding decode_line decode_escaped encode_line prepend
decode_line-encode_line [] h = refl
decode_line-encode_line (b ∷ bs) h = elim (Bool-cases (is_critical (encoded b))) [
  | inl crit ↦ ground (arith, decode_line-encode_line bs h.1)
  | inr plain ↦ ground (arith, decode_line-encode_line bs h.1)
]
