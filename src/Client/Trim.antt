-- ===== src/Client/Trim.antt =====
-- client_util.cpp: white space off the ends of a text.
use mathlib.Core.Option
use csf_hw.Prelude.{ℕ, suc, ◌+◌, not, [], ◌∷◌, Option, none, some, take, drop, if◌then◌else◌}
use csf_hw.Text.{Str, has}

abbrev pub whitespace : Str
whitespace = b' ' ∷ b'\n' ∷ b'\r' ∷ b'\t' ∷ 12 ∷ 11 ∷ []

-- `none` is `npos`.
unfoldable pub find_first_not_of : Str → Str → Option ℕ
find_first_not_of cs [] = none
find_first_not_of cs (c ∷ s) =
    let rest = Option.map suc (find_first_not_of cs s) in if not (has c cs) then some 0 else rest

unfoldable pub find_last_not_of : Str → Str → Option ℕ
find_last_not_of cs [] = none
find_last_not_of cs (c ∷ s) = elim (find_last_not_of cs s) [
  | some n ↦ some (suc n)
  | none ↦ if not (has c cs) then some 0 else none
]

unfoldable pub ltrim : Str → Str
ltrim s = elim (find_first_not_of whitespace s) [ none ↦ [] | some start ↦ drop start s ]

unfoldable pub rtrim : Str → Str
rtrim s = elim (find_last_not_of whitespace s) [ none ↦ [] | some end ↦ take (end + 1) s ]

unfoldable pub trim : Str → Str
trim s = rtrim (ltrim s)
