-- ===== src/Utility.antt =====
-- osss-ucx/src/shmemu/unitparse.c and threadlevels.c: the scaling units of a size, and the names of the
-- thread levels. A string is the list of its characters' codes. `toupper` is a function of the C library
-- and a parameter.
use paw.Prelude.{
  ℕ, zero, suc, ◌*◌, ◌%◌, ◌^◌, ◌<◌, ◌≡◌, refl, sym, arith, Bool, true, false, Option, none, some,
  List, [], ◌∷◌, ◌++◌, ◌==◌, if◌then◌else◌,
}

-- "KMGTPE"
abbrev units_string : List ℕ
units_string = 75 ∷ 77 ∷ 71 ∷ 84 ∷ 80 ∷ 69 ∷ []

abbrev multiplier : ℕ
multiplier = 1024

-- The walk over the units from `usp` on; `none` where it reaches the end.
find_unit : List ℕ → ℕ → ℕ → Option ℕ
find_unit [] u bytes = none
find_unit (c ∷ usp) u bytes =
    let rest = find_unit usp u (bytes * multiplier % 2 ^ 64) in if c == u then some bytes else rest

-- `none` is the answer -1, which comes with a size of 0.
parse_unit : (ℕ → ℕ) → ℕ → Option ℕ
unfolding find_unit
parse_unit toupper u = find_unit units_string (toupper u) multiplier

-- SINGLE, FUNNELED, SERIALIZED and MULTIPLE, from 0 on.
abbrev threads_table : List (ℕ × List ℕ)
threads_table =
    (0, 83 ∷ 73 ∷ 78 ∷ 71 ∷ 76 ∷ 69 ∷ [])
    ∷ (1, 70 ∷ 85 ∷ 78 ∷ 78 ∷ 69 ∷ 76 ∷ 69 ∷ 68 ∷ [])
    ∷ (2, 83 ∷ 69 ∷ 82 ∷ 73 ∷ 65 ∷ 76 ∷ 73 ∷ 90 ∷ 69 ∷ 68 ∷ [])
    ∷ (3, 77 ∷ 85 ∷ 76 ∷ 84 ∷ 73 ∷ 80 ∷ 76 ∷ 69 ∷ [])
    ∷ []

-- "unknown"
abbrev unknown : List ℕ
unknown = 117 ∷ 110 ∷ 107 ∷ 110 ∷ 111 ∷ 119 ∷ 110 ∷ []

name_in : List (ℕ × List ℕ) → ℕ → List ℕ
name_in [] tl = unknown
name_in ((level, name) ∷ table) tl =
    let rest = name_in table tl in if level == tl then name else rest

thread_name : ℕ → List ℕ
unfolding name_in
thread_name = name_in threads_table

-- `strncmp(name, tn, strlen(name)) == 0`
starts_with : List ℕ → List ℕ → Bool
starts_with [] tn = true
starts_with (c ∷ name) [] = false
starts_with (c ∷ name) (d ∷ tn) = let rest = starts_with name tn in if c == d then rest else false

-- `NONE` is `none`.
level_in : List (ℕ × List ℕ) → List ℕ → Option ℕ
unfolding starts_with
level_in [] tn = none
level_in ((level, name) ∷ table) tn =
    let rest = level_in table tn in if starts_with name tn then some level else rest

thread_level : List ℕ → Option ℕ
unfolding level_in
thread_level = level_in threads_table

-- The name of each level is read as that level, whatever follows it.
thread_round_trip :
    (tl : ℕ) (after : List ℕ) → tl < 4 → thread_level (thread_name tl ++ after) ≡ some tl
unfolding thread_level thread_name
thread_round_trip zero after lt = refl
thread_round_trip (suc zero) after lt = refl
thread_round_trip (suc (suc zero)) after lt = refl
thread_round_trip (suc (suc (suc zero))) after lt = refl
thread_round_trip (suc (suc (suc (suc tl)))) after lt = absurd (omega arith)

-- What any other number has for a name is not read as a level.
unknown_level : (tl : ℕ) → 3 < tl → thread_level (thread_name tl) ≡ none
unfolding thread_level thread_name
unknown_level tl lt =
    let single : (0 == tl) ≡ false = ground (arith, lt) in
    let funneled : (1 == tl) ≡ false = ground (arith, lt) in
    let serialized : (2 == tl) ≡ false = ground (arith, lt) in
    let multiple : (3 == tl) ≡ false = ground (arith, lt) in
    rw (single, funneled, serialized, multiple) refl

-- A unit `k` places into "KMGTPE" scales by the power `k + 1` of 1024, which fits 64 bits.
nth : List ℕ → ℕ → Option ℕ
nth [] k = none
nth (c ∷ list) zero = some c
nth (c ∷ list) (suc k) = nth list k

parse_unit_scale :
    (toupper : ℕ → ℕ) (u k : ℕ)
    → nth units_string k ≡ some (toupper u)
    → parse_unit toupper u ≡ some (2 ^ (10 * suc k))
unfolding parse_unit nth
parse_unit_scale toupper u zero e = let f : 75 ≡ toupper u = cc in rw (sym f) refl
parse_unit_scale toupper u (suc zero) e = let f : 77 ≡ toupper u = cc in rw (sym f) refl
parse_unit_scale toupper u (suc (suc zero)) e = let f : 71 ≡ toupper u = cc in rw (sym f) refl
parse_unit_scale toupper u (suc (suc (suc zero))) e = let f : 84 ≡ toupper u = cc in rw (sym f) refl
parse_unit_scale toupper u (suc (suc (suc (suc zero)))) e =
    let f : 80 ≡ toupper u = cc in rw (sym f) refl
parse_unit_scale toupper u (suc (suc (suc (suc (suc zero))))) e =
    let f : 69 ≡ toupper u = cc in rw (sym f) refl
parse_unit_scale toupper u (suc (suc (suc (suc (suc (suc k)))))) e = absurd (cc)
