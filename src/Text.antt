-- ===== src/Text.antt =====
-- `std::string` and C strings as lists of bytes, with the operations that the sources call on them.
pub mod Equality
pub mod Split
pub mod Decimal
pub use Prim.Native.String.{String}
use Prim.Native.Char.{code}
use csf_hw.Prelude.{
  ℕ, zero, suc, Bool, true, false, ◌&&◌, ◌||◌, List, [], ◌∷◌, length, ◌==◌, if◌then◌else◌,
}

abbrev pub Str : Type 0
Str = List ℕ

-- The bytes of a literal; every literal of the sources is ASCII.
abbrev pub codes : String → Str
codes String.[] = []
codes (String.◌∷◌ c s) = code c ∷ codes s

-- `operator==`
unfoldable pub str_eq : Str → Str → Bool
str_eq [] [] = true
str_eq (x ∷ xs) (y ∷ ys) = x == y && str_eq xs ys
str_eq _ _ = false

unfoldable pub has : ℕ → Str → Bool
has d [] = false
has d (c ∷ s) = c == d || has d s

-- What a `char *` shows of its bytes: those before the first NUL.
unfoldable pub c_str : Str → Str
c_str [] = []
c_str (c ∷ s) = if c == 0 then [] else c ∷ c_str s

-- `std::getline (iss, token, d)` on the unread text: the token, and what stays unread.
unfoldable pub getline_token : ℕ → Str → Str
getline_token d [] = []
getline_token d (c ∷ s) = if c == d then [] else c ∷ getline_token d s

unfoldable pub getline_rest : ℕ → Str → Str
getline_rest d [] = []
getline_rest d (c ∷ s) = if c == d then s else getline_rest d s

-- `while (std::getline (iss, token, d)) result.push_back (token);` with a bound on its rounds.
-- At the end of the text `getline` fails and the loop ends.
unfoldable pub getline_loop : ℕ → ℕ → Str → List Str
unfolding getline_token getline_rest
getline_loop d zero s = []
getline_loop d (suc rounds) [] = []
getline_loop d (suc rounds) (c ∷ s) =
    getline_token d (c ∷ s) ∷ getline_loop d rounds (getline_rest d (c ∷ s))

-- Each round takes a byte at least, so as many rounds as bytes are enough.
unfoldable pub tokens : ℕ → Str → List Str
unfolding getline_loop
tokens d s = getline_loop d (length s) s
