-- ===== src/MustInclude/Tests.antt =====
-- The cache of filters on small inputs, and the theorem at a concrete one. An expression stands for its
-- own text here.
use stremio_server_go.Common.{
  ℕ, ◌≡◌, refl, true, List, [], ◌∷◌, Option, none, some, arith, if◌then◌else◌,
}
use stremio_server_go.Common.Text.{codes, same_text, contains, has_prefix}
use stremio_server_go.MustInclude.Model.{
  Inst, keep, last_slash, compile_between, compile_plain, cost_fits, is_seen,
  compile_must_include_one, cached_must_include,
}
use stremio_server_go.MustInclude.System.{
  IsValid, here, next, kept, cached_must_include-compile_must_include_one,
}

-- Texts with a star at their start do not compile.
abbrev compiles : List ℕ → Option (List ℕ)
compiles v = if has_prefix v (codes "*") then none else some v

abbrev quoted : List ℕ → List ℕ
quoted v = 92 ∷ v

-- One instruction for each character, and a table of three runes.
abbrev program_of : List ℕ → Option (List Inst)
program_of v = some (record { table = 1; runes = 3 } ∷ (record { table = 1; runes = 3 } ∷ []))

between_slashes :
    compile_must_include_one compiles quoted program_of (codes "/mkv/i") ≡ some (codes "(?i)mkv")
unfolding compile_must_include_one compile_between compile_plain last_slash contains has_prefix
    same_text
between_slashes = refl

not_compiled :
    compile_must_include_one compiles quoted program_of (codes "/*/") ≡ some (quoted (codes "/*/"))
unfolding compile_must_include_one compile_between compile_plain last_slash contains has_prefix
    same_text
not_compiled = refl

-- The shared table is counted once: 2 * 48 + 3 * 4 bytes.
counted_once :
    cost_fits 65524 [] (record { table = 1; runes = 3 } ∷ (record { table = 1; runes = 3 } ∷ []))
    ≡ true
unfolding cost_fits is_seen
counted_once = refl

cached_must_include-compile_must_include_one_example :
    ((cached_must_include compiles quoted program_of
        (keep compiles quoted program_of []
          (codes "mkv")
          (compile_must_include_one compiles quoted program_of (codes "mkv")))
        (codes "mkv")).1
      ≡ compile_must_include_one compiles quoted program_of (codes "mkv"))
    × IsValid compiles quoted program_of (
        keep compiles quoted program_of []
          (codes "mkv")
          (compile_must_include_one compiles quoted program_of (codes "mkv")))
cached_must_include-compile_must_include_one_example =
    cached_must_include-compile_must_include_one compiles quoted program_of
      (keep compiles quoted program_of [] (codes "mkv")
        (compile_must_include_one compiles quoted program_of (codes "mkv")))
      (codes "mkv") (next here (kept (codes "mkv") (omega arith)))
