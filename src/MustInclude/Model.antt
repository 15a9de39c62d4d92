-- ===== src/MustInclude/Model.antt =====
-- The cache of compiled filters of internal/api/regexcache.go. A compiled expression is of any type `Re`;
-- `compile` and `quote` stand for regexp.Compile and regexp.QuoteMeta, and `program` for the parsing and
-- compiling with regexp/syntax, none when that fails. `ll` is the list from its front, and `idx` the set
-- of its keys.
use stremio_server_go.Common.{
  ℕ, zero, suc, ◌+◌, ◌-◌, ◌*◌, Bool, false, ◌&&◌, ◌||◌, List, [], ◌∷◌, ◌++◌, Option, none, some,
  ltb, leb, ◌==◌, if◌then◌else◌, length, take, drop,
}
use stremio_server_go.Common.Text.{codes, same_text, contains}

abbrev pub must_include_cache_max : ℕ
must_include_cache_max = 128

abbrev pub must_include_cache_max_len : ℕ
must_include_cache_max_len = 512

abbrev pub must_include_cache_max_prog_bytes : ℕ
must_include_cache_max_prog_bytes = 65536

abbrev pub must_include_inst_bytes : ℕ
must_include_inst_bytes = 48

abbrev pub must_include_rune_bytes : ℕ
must_include_rune_bytes = 4

-- The runes of an instruction: the identity of their table and their number.
pub record Inst : Type 0 where
  pub table : ℕ
  pub runes : ℕ

unfoldable pub is_seen : ℕ → List ℕ → Bool
is_seen t [] = false
is_seen t (s ∷ seen) = (t == s) || is_seen t seen

-- The loop over the instructions.
unfoldable pub cost_fits : ℕ → List ℕ → List Inst → Bool
cost_fits cost seen [] = leb cost must_include_cache_max_prog_bytes
cost_fits cost seen (i ∷ insts) =
    let same = cost_fits cost seen insts in
    let more = cost_fits (cost + i.runes * must_include_rune_bytes) seen insts in
    let first = cost_fits (cost + i.runes * must_include_rune_bytes) (i.table ∷ seen) insts in
    if ltb must_include_cache_max_prog_bytes cost
    then false
    else if i.runes == 0
    then same
    else if leb i.runes 2
    then more
    else if is_seen i.table seen
    then same
    else first

-- `strings.LastIndex(v, "/")`
unfoldable pub last_slash : List ℕ → Option ℕ
last_slash [] = none
last_slash (c ∷ v) = elim (last_slash v) [
  | some i ↦ some (i + 1)
  | none ↦ if c == 47 then some 0 else none
]

pub record MustIncludeEntry {ℓ} (Re : Type ℓ) : Type ℓ where
  pub key : List ℕ
  pub re : Re

module _ {ℓ} {Re : Type ℓ} where
  -- `idx[key]`
  unfoldable pub find : List ℕ → List (MustIncludeEntry Re) → Option (MustIncludeEntry Re)
  find k [] = none
  find k (e ∷ l) = if same_text e.key k then some e else find k l

  unfoldable pub remove : List ℕ → List (MustIncludeEntry Re) → List (MustIncludeEntry Re)
  remove k [] = []
  remove k (e ∷ l) = if same_text e.key k then l else e ∷ remove k l

  -- `mustIncludeLRU.get`, which moves what it finds to the front.
  unfoldable pub get : List (MustIncludeEntry Re) → List ℕ → List (MustIncludeEntry Re) × Option Re
  get ll k = elim (find k ll) [ none ↦ (ll, none) | some e ↦ (e ∷ remove k ll, some e.re) ]

  -- The list without its back.
  unfoldable pub drop_back : List (MustIncludeEntry Re) → List (MustIncludeEntry Re)
  drop_back [] = []
  drop_back (e ∷ []) = []
  drop_back (e ∷ (f ∷ l)) = e ∷ drop_back (f ∷ l)

  -- `for c.ll.Len() > mustIncludeCacheMax`, on the number of entries.
  unfoldable pub shrink : ℕ → List (MustIncludeEntry Re) → List (MustIncludeEntry Re)
  shrink zero l = l
  shrink (suc n) l =
      let rest = shrink n (drop_back l) in if ltb must_include_cache_max (length l) then rest else l

  -- `mustIncludeLRU.put`
  unfoldable pub put : List (MustIncludeEntry Re) → List ℕ → Re → List (MustIncludeEntry Re)
  put ll k re = elim (find k ll) [
    | some e ↦ record { key = k; re = re } ∷ remove k ll
    | none ↦ shrink (suc (length ll)) (record { key = k; re = re } ∷ ll)
  ]

  module _ (compile : List ℕ → Option Re) (quote : List ℕ → List ℕ)
      (program : Re → Option (List Inst)) where
    unfoldable pub compile_plain : List ℕ → Option Re
    compile_plain v = compile (quote v)

    -- The expression between the slashes, with the flags after the second one.
    unfoldable pub compile_between : List ℕ → List ℕ → List ℕ → Option Re
    compile_between v body flags =
        elim (compile (if contains flags (codes "i") then codes "(?i)" ++ body else body)) [
          | some re ↦ some re
          | none ↦ compile_plain v
        ]

    unfoldable pub compile_must_include_one : List ℕ → Option Re
    compile_must_include_one v =
        let plain = compile_plain v in
        if ltb 1 (length v) && same_text (take 1 v) (codes "/")
        then (elim (last_slash v) [
          | none ↦ plain
          | some i ↦
              if ltb 0 i
              then compile_between v (take (i - 1) (drop 1 v)) (drop (i + 1) v)
              else plain
        ])
        else plain

    unfoldable pub must_include_cacheable : Re → Bool
    must_include_cacheable re = elim (program re) [
      | none ↦ false
      | some insts ↦ cost_fits (length insts * must_include_inst_bytes) [] insts
    ]

    -- What is put after a miss.
    unfoldable pub keep :
        List (MustIncludeEntry Re) → List ℕ → Option Re → List (MustIncludeEntry Re)
    keep ll v none = ll
    keep ll v (some re) = if must_include_cacheable re then put ll v re else ll

    unfoldable pub cached_must_include :
        List (MustIncludeEntry Re) → List ℕ → List (MustIncludeEntry Re) × Option Re
    cached_must_include ll v =
        let (hit_ll, hit) = get ll v in
        let re = compile_must_include_one v in
        if ltb must_include_cache_max_len (length v)
        then (ll, re)
        else elim hit [ some found ↦ (hit_ll, some found) | none ↦ (keep ll v re, re) ]
