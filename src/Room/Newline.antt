-- ===== src/Room/Newline.antt =====
-- `remove_newline` cuts a text before its first newline.
use csf_hw.Prelude.{ℕ, ◌≡◌, refl, false, [], ◌∷◌, ◌++◌, arith, ◌==◌, if◌then◌else◌}
use csf_hw.Text.{Str, has}
use csf_hw.Room.{remove_newline}

remove_newline-cons :
    (c : ℕ) (s : Str) → remove_newline (c ∷ s) ≡ (if c == b'\n' then [] else c ∷ remove_newline s)
unfolding remove_newline
remove_newline-cons c s = ground arith

-- What stands before the newline is kept.
pub remove_newline-line :
    (line rest : Str) → has b'\n' line ≡ false → remove_newline (line ++ b'\n' ∷ rest) ≡ line
unfolding has
remove_newline-line [] rest h = remove_newline-cons b'\n' rest
remove_newline-line (c ∷ line) rest h =
    ground (arith, remove_newline-cons c (line ++ b'\n' ∷ rest), remove_newline-line line rest)

pub remove_newline_none : (s : Str) → has b'\n' s ≡ false → remove_newline s ≡ s
unfolding has
remove_newline_none [] h = unfold remove_newline in refl
remove_newline_none (c ∷ s) h = ground (arith, remove_newline-cons c s, remove_newline_none s)

pub has-remove_newline : (s : Str) → has b'\n' (remove_newline s) ≡ false
unfolding has
has-remove_newline [] = unfold remove_newline in refl
has-remove_newline (c ∷ s) = ground (arith, remove_newline-cons c s, has-remove_newline s)

pub remove_newline_idem : (s : Str) → remove_newline (remove_newline s) ≡ remove_newline s
remove_newline_idem s = remove_newline_none (remove_newline s) (has-remove_newline s)
