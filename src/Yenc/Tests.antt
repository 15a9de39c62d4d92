-- ===== src/Yenc/Tests.antt =====
-- Runs of the yEnc decoder, and its theorems at inputs that meet their hypotheses.
use stremio_server_go.Common.{true, ℕ, none, ◌≡◌, refl, List, [], ◌∷◌, ◌++◌, some, false, arith}
use stremio_server_go.Common.Weigh.{All}
use stremio_server_go.Yenc.{
  IsByte, decode_line, decode_escaped, prepend, encode_line, decode_line-encode_line,
}
use stremio_server_go.Yenc.Article.{
  decode_yenc, encode_lines, join, trailer, ybegin_tag, yend_tag, decode_yenc-ybegin_tag, drop_cr,
  IsShort,
}

-- 19 is encoded as `=`, and 214 as NUL.
abbrev some_bytes : List ℕ
some_bytes = 19 ∷ (214 ∷ (255 ∷ []))

some_bytes-encode_line : encode_line some_bytes ≡ 61 ∷ (125 ∷ (61 ∷ (64 ∷ (41 ∷ []))))
unfolding encode_line
some_bytes-encode_line = refl

lone_escape : decode_line (41 ∷ (61 ∷ [])) ≡ none
unfolding decode_line decode_escaped prepend
lone_escape = refl

some_bytes-IsByte : All IsByte some_bytes
some_bytes-IsByte = (omega arith, (omega arith, (omega arith, tt)))

some_bytes-IsShort : IsShort some_bytes
unfolding encode_line
some_bytes-IsShort = omega arith

decode_line-encode_line_example : decode_line (encode_line some_bytes) ≡ some some_bytes
decode_line-encode_line_example = decode_line-encode_line some_bytes some_bytes-IsByte

-- The trailer's line ends with a carriage return.
decode_yenc-ybegin_tag_example :
    decode_yenc true false [] (
      (ybegin_tag ++ (32 ∷ []))
      ∷ (encode_lines (some_bytes ∷ (some_bytes ∷ [])) ++ ((yend_tag ++ (13 ∷ [])) ∷ [])))
    ≡ trailer (yend_tag ++ drop_cr (13 ∷ [])) (join (some_bytes ∷ (some_bytes ∷ [])))
decode_yenc-ybegin_tag_example =
    decode_yenc-ybegin_tag true (32 ∷ []) (some_bytes ∷ (some_bytes ∷ [])) (13 ∷ []) []
      (some_bytes-IsByte, (some_bytes-IsByte, tt)) (omega arith)
      (some_bytes-IsShort, (some_bytes-IsShort, tt)) (omega arith)
