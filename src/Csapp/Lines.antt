-- ===== src/Csapp/Lines.antt =====
-- The line that `rio_readlineb` is documented to hand out, for input of a known shape.
use csf_hw.Prelude.{
  ℕ, zero, suc, ◌≤◌, ◌<◌, ◌≡◌, refl, false, [], ◌∷◌, ◌++◌, length, take, drop, arith,
}
use csf_hw.Text.{Str, has}
use csf_hw.Csapp.{line_head, line_tail}

-- A line that fits is handed out with its newline.
pub line_head-line :
    (n : ℕ) (line rest : Str)
    → has b'\n' line ≡ false
    → length line < n
    → line_head n (line ++ b'\n' ∷ rest) ≡ line ++ b'\n' ∷ []
unfolding line_head has
line_head-line zero line rest h fits = absurd (omega arith)
line_head-line (suc n) [] rest h fits = ground arith
line_head-line (suc n) (c ∷ line) rest h fits = ground (arith, line_head-line n line rest)

pub line_tail-line :
    (n : ℕ) (line rest : Str)
    → has b'\n' line ≡ false
    → length line < n
    → line_tail n (line ++ b'\n' ∷ rest) ≡ rest
unfolding line_tail has
line_tail-line zero line rest h fits = absurd (omega arith)
line_tail-line (suc n) [] rest h fits = ground arith
line_tail-line (suc n) (c ∷ line) rest h fits = ground (arith, line_tail-line n line rest)

-- A longer line is cut after `n` bytes, and its rest is left for the next call.
pub line_head_cut :
    (n : ℕ) (line rest : Str)
    → has b'\n' line ≡ false
    → n ≤ length line
    → line_head n (line ++ rest) ≡ take n line
unfolding line_head has
line_head_cut zero line rest h long = refl
line_head_cut (suc n) [] rest h long = absurd (omega arith)
line_head_cut (suc n) (c ∷ line) rest h long = ground (arith, line_head_cut n line rest)

pub line_tail_cut :
    (n : ℕ) (line rest : Str)
    → has b'\n' line ≡ false
    → n ≤ length line
    → line_tail n (line ++ rest) ≡ drop n line ++ rest
unfolding line_tail has
line_tail_cut zero line rest h long = refl
line_tail_cut (suc n) [] rest h long = absurd (omega arith)
line_tail_cut (suc n) (c ∷ line) rest h long = ground (arith, line_tail_cut n line rest)
