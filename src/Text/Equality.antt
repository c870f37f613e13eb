-- ===== src/Text/Equality.antt =====
-- Comparison of texts decides equality; laws of `has` and `c_str`.
use csf_hw.Prelude.{ℕ, ◌≤◌, ◌≡◌, refl, ◌≢◌, ◌↔◌, true, false, ◌||◌, [], ◌∷◌, ◌++◌, length, arith}
use csf_hw.Text.{Str, str_eq, has, c_str}

pub str_eq_iff : (s t : Str) → (str_eq s t ≡ true) ↔ (s ≡ t)
unfolding str_eq
str_eq_iff (x ∷ s) (y ∷ t) = ground (arith, str_eq_iff s t)
str_eq_iff _ _ = ground arith

pub str_eq_refl : (s : Str) → str_eq s s ≡ true
str_eq_refl s = (str_eq_iff s s).1 refl

pub str_eq_of_ne : (s t : Str) → s ≢ t → str_eq s t ≡ false
str_eq_of_ne s t h = ground (arith, str_eq_iff s t)

pub has-append : (d : ℕ) (s t : Str) → has d (s ++ t) ≡ (has d s || has d t)
unfolding has
has-append d [] t = refl
has-append d (c ∷ s) t = ground (arith, has-append d s t)

pub has-append_false :
    (d : ℕ) (s t : Str) → has d s ≡ false → has d t ≡ false → has d (s ++ t) ≡ false
has-append_false d s t hs ht = ground (arith, has-append d s t)

-- A text with no NUL in it is shown whole.
pub c_str_whole : (s : Str) → has 0 s ≡ false → c_str s ≡ s
unfolding has c_str
c_str_whole [] h = refl
c_str_whole (c ∷ s) h = ground (arith, c_str_whole s)

pub has-c_str : (s : Str) → has 0 (c_str s) ≡ false
unfolding has c_str
has-c_str [] = refl
has-c_str (c ∷ s) = ground (arith, has-c_str s)

pub c_str_idem : (s : Str) → c_str (c_str s) ≡ c_str s
c_str_idem s = c_str_whole (c_str s) (has-c_str s)

pub length-c_str-le : (s : Str) → length (c_str s) ≤ length s
unfolding c_str
length-c_str-le [] = omega arith
length-c_str-le (c ∷ s) = ground (arith, length-c_str-le s)
