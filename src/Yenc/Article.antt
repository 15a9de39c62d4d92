-- ===== src/Yenc/Article.antt =====
-- The loop of `decodeYenc` of internal/nzb/yenc.go over the lines of an article, for a destination that
-- accepts every write. A line is what stands between two newlines, as `bufio.ScanLines` splits the
-- article. The fields of the header lines and the check of the trailer are left out: the result names
-- the trailer's line.
use stremio_server_go.Common.{
  ℕ, ◌≡◌, refl, sym, ap, ◌∙◌, List, [], ◌∷◌, ◌++◌, none, some, if◌then◌else◌, true, false, Bool,
  arith, ◌+◌, ◌%◌, ◌<◌, leb, length, ◌==◌, Option, Bool-cases, inl, inr,
}
use stremio_server_go.Common.Text.{has_prefix}
use stremio_server_go.Common.Weigh.{All}
use stremio_server_go.Yenc.{
  decode_line, decode_line-encode_line, encode_line, IsByte, encoded, is_critical,
}
use mathlib.Core.List.{append_assoc, append-nil}

abbrev pub ybegin_tag : List ℕ
ybegin_tag = 61 ∷ (121 ∷ (98 ∷ (101 ∷ (103 ∷ (105 ∷ (110 ∷ []))))))

abbrev pub ypart_tag : List ℕ
ypart_tag = 61 ∷ (121 ∷ (112 ∷ (97 ∷ (114 ∷ (116 ∷ [])))))

abbrev pub yend_tag : List ℕ
yend_tag = 61 ∷ (121 ∷ (101 ∷ (110 ∷ (100 ∷ []))))

abbrev pub yenc_max_line : ℕ
yenc_max_line = 262144

-- `bufio.ScanLines` drops one carriage return before the newline.
unfoldable pub drop_cr : List ℕ → List ℕ
drop_cr [] = []
drop_cr (b ∷ []) = if b == 13 then [] else b ∷ []
drop_cr (b ∷ (c ∷ line)) = b ∷ drop_cr (c ∷ line)

-- `scanner.Scan` and `scanner.Bytes` at a line: a line that, with its newline, does not fit into the
-- buffer ends the scan with an error.
unfoldable pub scan_line : List ℕ → Option (List ℕ)
scan_line line = if leb yenc_max_line (length line) then none else some (drop_cr line)

-- How a decode ends, with the bytes written until then.
pub data Outcome : Type 0 where
  trailer : (line : List ℕ) (out : List ℕ) → Outcome
  yend_without_ybegin : (out : List ℕ) → Outcome
  escape_at_end_of_line : (out : List ℕ) → Outcome
  no_ybegin : (out : List ℕ) → Outcome
  no_yend : (out : List ℕ) → Outcome
  scan_failed : (out : List ℕ) → Outcome

pub data Progress : Type 0 where
  going : (in_body : Bool) (out : List ℕ) → Progress
  finished : Outcome → Progress

-- A line of the data section.
unfoldable pub data_line : Bool → List ℕ → List ℕ → Progress
data_line false raw out = going false out
data_line true raw out = elim (decode_line raw) [
  | none ↦ finished (escape_at_end_of_line out)
  | some bs ↦ going true (out ++ bs)
]

-- One round of the loop.
unfoldable pub round : Bool → List ℕ → List ℕ → Progress
round in_body raw out =
    if has_prefix raw ybegin_tag
    then going true out
    else if has_prefix raw ypart_tag
    then going in_body out
    else if has_prefix raw yend_tag
    then (if in_body then finished (trailer raw out) else finished (yend_without_ybegin out))
    else data_line in_body raw out

-- What follows the loop; `fails` says that reading the article fails after its last line.
unfoldable pub after_lines : Bool → Bool → List ℕ → Outcome
after_lines fails in_body out =
    if fails then scan_failed out else if in_body then no_yend out else no_ybegin out

-- `decodeYenc`, from a state of its loop on.
unfoldable pub decode_yenc : Bool → Bool → List ℕ → List (List ℕ) → Outcome
decode_yenc fails in_body out [] = after_lines fails in_body out
decode_yenc fails in_body out (line ∷ lines) = elim (scan_line line) [
  | none ↦ scan_failed out
  | some raw ↦ elim (round in_body raw out) [
    | going b o ↦ decode_yenc fails b o lines
    | finished r ↦ r
  ]
]

abbrev pub encode_lines : List (List ℕ) → List (List ℕ)
encode_lines [] = []
encode_lines (bs ∷ bss) = encode_line bs ∷ encode_lines bss

abbrev pub join : List (List ℕ) → List ℕ
join [] = []
join (bs ∷ bss) = bs ++ join bss

-- A line of encoded data is taken for no header and no trailer: no escaped value is a `y`.
encode_line-plain :
    (bs : List ℕ) (tag : List ℕ) → has_prefix (encode_line bs) (61 ∷ (121 ∷ tag)) ≡ false
unfolding has_prefix encode_line
encode_line-plain [] tag = refl
encode_line-plain (b ∷ bs) tag = ground arith

data_line_lem :
    (raw bs out : List ℕ)
    → decode_line raw ≡ some bs
    → data_line true raw out ≡ going true (out ++ bs)
unfolding data_line
data_line_lem raw bs out e = ground arith

round-encode_line :
    (bs : List ℕ) (out : List ℕ)
    → All IsByte bs
    → round true (encode_line bs) out ≡ going true (out ++ bs)
unfolding round
round-encode_line bs out h =
    is_data (encode_line-plain bs (98 ∷ (101 ∷ (103 ∷ (105 ∷ (110 ∷ []))))))
      (encode_line-plain bs (112 ∷ (97 ∷ (114 ∷ (116 ∷ [])))))
      (encode_line-plain bs (101 ∷ (110 ∷ (100 ∷ []))))
    ∙ data_line_lem (encode_line bs) bs out (decode_line-encode_line bs h)
  where
    is_data :
        has_prefix (encode_line bs) ybegin_tag ≡ false
        → has_prefix (encode_line bs) ypart_tag ≡ false
        → has_prefix (encode_line bs) yend_tag ≡ false
        → round true (encode_line bs) out ≡ data_line true (encode_line bs) out
    is_data d e f = simp (d, e, f)

round-yend_tag :
    (rest out : List ℕ)
    → round true (yend_tag ++ rest) out ≡ finished (trailer (yend_tag ++ rest) out)
unfolding round has_prefix
round-yend_tag rest out = ground arith

-- Encoded data has no carriage return to drop, and a header line keeps its tag.
drop_cr-encode_line : (bs : List ℕ) → All IsByte bs → drop_cr (encode_line bs) ≡ encode_line bs
unfolding encode_line drop_cr
drop_cr-encode_line [] h = refl
drop_cr-encode_line (b ∷ bs) h =
    let rest = drop_cr-encode_line bs h.1 in
    elim (Bool-cases (is_critical (encoded b))) [
      | inl crit ↦
          let e = (b + 106) % 256 in
          let not_cr : (e == 13) ≡ false = ground (arith, h.0) in
          rw crit (keeps 61 (e ∷ encode_line bs) refl (keeps e (encode_line bs) not_cr rest))
      | inr plain ↦ rw plain (keeps (encoded b) (encode_line bs) (ground arith) rest)
    ]
  where
    keeps :
        (c : ℕ) (line : List ℕ)
        → (c == 13) ≡ false
        → drop_cr line ≡ line
        → drop_cr (c ∷ line) ≡ c ∷ line
    keeps c [] n e = rw (drop_cr, n) refl
    keeps c (d ∷ line) n e = rw (drop_cr, e) refl

drop_cr-ybegin_tag : (rest : List ℕ) → drop_cr (ybegin_tag ++ rest) ≡ ybegin_tag ++ drop_cr rest
unfolding drop_cr
drop_cr-ybegin_tag [] = refl
drop_cr-ybegin_tag (c ∷ rest) = refl

drop_cr-yend_tag : (rest : List ℕ) → drop_cr (yend_tag ++ rest) ≡ yend_tag ++ drop_cr rest
unfolding drop_cr
drop_cr-yend_tag [] = refl
drop_cr-yend_tag (c ∷ rest) = refl

scan_line-short :
    (line raw : List ℕ)
    → length line < yenc_max_line
    → drop_cr line ≡ raw
    → scan_line line ≡ some raw
unfolding scan_line
scan_line-short line raw h e = ground (arith, h, e)

decode_yenc_going :
    (fails in_body b : Bool) (line raw out o : List ℕ) (lines : List (List ℕ))
    → scan_line line ≡ some raw
    → round in_body raw out ≡ going b o
    → decode_yenc fails in_body out (line ∷ lines) ≡ decode_yenc fails b o lines
unfolding decode_yenc
decode_yenc_going fails in_body b line raw out o lines s e = ground (arith, s, e)

decode_yenc_finished :
    (fails in_body : Bool) (line raw out : List ℕ) (lines : List (List ℕ)) (r : Outcome)
    → scan_line line ≡ some raw
    → round in_body raw out ≡ finished r
    → decode_yenc fails in_body out (line ∷ lines) ≡ r
unfolding decode_yenc
decode_yenc_finished fails in_body line raw out lines r s e = ground (arith, s, e)

-- An encoded line that the scanner's buffer holds.
abbrev pub IsShort : List ℕ → Type 0
IsShort bs = length (encode_line bs) < yenc_max_line

-- In the data section, any lines of encoded data and then a line that begins with `=yend`, each shorter
-- than the scanner's limit, decode to the bytes that were encoded, after those already written, and the
-- trailer is reached.
pub decode_yenc-encode_lines :
    (fails : Bool) (bss : List (List ℕ)) (out rest : List ℕ) (more : List (List ℕ))
    → All (All IsByte) bss
    → All IsShort bss
    → length (yend_tag ++ rest) < yenc_max_line
    → decode_yenc fails true out (encode_lines bss ++ ((yend_tag ++ rest) ∷ more))
      ≡ trailer (yend_tag ++ drop_cr rest) (out ++ join bss)
decode_yenc-encode_lines fails [] out rest more h k l =
    decode_yenc_finished fails true (yend_tag ++ rest) (yend_tag ++ drop_cr rest) out more _
      (scan_line-short (yend_tag ++ rest) _ l (drop_cr-yend_tag rest))
      (round-yend_tag (drop_cr rest) out)
    ∙ ap (λ t. trailer (yend_tag ++ drop_cr rest) t) (sym (append-nil out))
decode_yenc-encode_lines fails (bs ∷ bss) out rest more h k l =
    decode_yenc_going fails true true (encode_line bs) (encode_line bs) out (out ++ bs)
      (encode_lines bss ++ ((yend_tag ++ rest) ∷ more))
      (scan_line-short (encode_line bs) _ k.0 (drop_cr-encode_line bs h.0))
      (round-encode_line bs out h.0)
    ∙ (decode_yenc-encode_lines fails bss (out ++ bs) rest more h.1 k.1 l
        ∙ ap (λ t. trailer (yend_tag ++ drop_cr rest) t) (append_assoc out bs (join bss)))

round-ybegin_tag :
    (in_body : Bool) (rest out : List ℕ) → round in_body (ybegin_tag ++ rest) out ≡ going true out
unfolding round has_prefix
round-ybegin_tag in_body rest out = ground arith

-- An article of a `=ybegin` line, any lines of data encoded as the format says, and a `=yend` line, all
-- of them shorter than the scanner's limit, is decoded to exactly that data, with no line of it taken
-- for a header or the trailer, also when reading would fail after the article's last line.
pub decode_yenc-ybegin_tag :
    (fails : Bool) (begin : List ℕ) (bss : List (List ℕ)) (rest : List ℕ) (more : List (List ℕ))
    → All (All IsByte) bss
    → length (ybegin_tag ++ begin) < yenc_max_line
    → All IsShort bss
    → length (yend_tag ++ rest) < yenc_max_line
    → decode_yenc fails false []
        ((ybegin_tag ++ begin) ∷ (encode_lines bss ++ ((yend_tag ++ rest) ∷ more)))
      ≡ trailer (yend_tag ++ drop_cr rest) (join bss)
decode_yenc-ybegin_tag fails begin bss rest more h g k l =
    decode_yenc_going fails false true (ybegin_tag ++ begin) (ybegin_tag ++ drop_cr begin) [] []
      (encode_lines bss ++ ((yend_tag ++ rest) ∷ more))
      (scan_line-short (ybegin_tag ++ begin) _ g (drop_cr-ybegin_tag begin))
      (round-ybegin_tag false (drop_cr begin) [])
    ∙ decode_yenc-encode_lines fails bss [] rest more h k l
