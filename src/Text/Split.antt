-- ===== src/Text/Split.antt =====
-- What the `std::getline` loop makes of a text, field by field.
use csf_hw.Prelude.{ℕ, zero, suc, ◌≤◌, ◌≡◌, refl, ap, false, [], ◌∷◌, ◌++◌, length, arith}
use csf_hw.Text.{Str, has, getline_token, getline_rest, getline_loop, tokens}

length-getline_rest-le : (d : ℕ) (s : Str) → length (getline_rest d s) ≤ length s
unfolding getline_rest
length-getline_rest-le d [] = omega arith
length-getline_rest-le d (c ∷ s) = ground (arith, length-getline_rest-le d s)

length-getline_rest-lt : (d c : ℕ) (s : Str) → length (getline_rest d (c ∷ s)) ≤ length s
unfolding getline_rest
length-getline_rest-lt d c s = ground (arith, length-getline_rest-le d s)

-- More rounds than bytes change nothing: the loop ends by the failure of `getline`.
pub getline_loop_enough :
    (d f g : ℕ) (s : Str) → length s ≤ f → length s ≤ g → getline_loop d f s ≡ getline_loop d g s
unfolding getline_loop
getline_loop_enough d zero zero [] hf hg = refl
getline_loop_enough d zero (suc g) [] hf hg = refl
getline_loop_enough d (suc f) zero [] hf hg = refl
getline_loop_enough d (suc f) (suc g) [] hf hg = refl
getline_loop_enough d zero g (c ∷ s) hf hg = absurd (omega arith)
getline_loop_enough d (suc f) zero (c ∷ s) hf hg = absurd (omega arith)
getline_loop_enough d (suc f) (suc g) (c ∷ s) hf hg = ap (◌∷◌ (getline_token d (c ∷ s))) (
    getline_loop_enough d f g (getline_rest d (c ∷ s)) (omega (arith, length-getline_rest-lt d c s))
      (omega (arith, length-getline_rest-lt d c s)))

pub getline_token-append : (d : ℕ) (t r : Str) → has d t ≡ false → getline_token d (t ++ d ∷ r) ≡ t
unfolding getline_token has
getline_token-append d [] r h = ground arith
getline_token-append d (c ∷ t) r h = ground (arith, getline_token-append d t r)

pub getline_rest-append : (d : ℕ) (t r : Str) → has d t ≡ false → getline_rest d (t ++ d ∷ r) ≡ r
unfolding getline_rest has
getline_rest-append d [] r h = ground arith
getline_rest-append d (c ∷ t) r h = ground (arith, getline_rest-append d t r)

getline_token_last : (d : ℕ) (t : Str) → has d t ≡ false → getline_token d t ≡ t
unfolding getline_token has
getline_token_last d [] h = refl
getline_token_last d (c ∷ t) h = ground (arith, getline_token_last d t)

getline_rest_last : (d : ℕ) (t : Str) → has d t ≡ false → getline_rest d t ≡ []
unfolding getline_rest has
getline_rest_last d [] h = refl
getline_rest_last d (c ∷ t) h = ground (arith, getline_rest_last d t)

tokens-cons :
    (d c : ℕ) (s : Str)
    → tokens d (c ∷ s) ≡ getline_token d (c ∷ s) ∷ tokens d (getline_rest d (c ∷ s))
unfolding tokens
tokens-cons d c s = ap (◌∷◌ (getline_token d (c ∷ s))) (
    getline_loop_enough d (length s) (length (getline_rest d (c ∷ s))) (getline_rest d (c ∷ s))
      (length-getline_rest-lt d c s) (omega arith))

-- A field that ends at a delimiter is the first token.
pub tokens-field : (d : ℕ) (t r : Str) → has d t ≡ false → tokens d (t ++ d ∷ r) ≡ t ∷ tokens d r
tokens-field d [] r h =
    rw (tokens-cons d d r, getline_token-append d [] r h, getline_rest-append d [] r h)
tokens-field d (c ∷ t) r h = rw (
  tokens-cons d c (t ++ d ∷ r),
  getline_token-append d (c ∷ t) r h,
  getline_rest-append d (c ∷ t) r h,
)

pub tokens-empty : (d : ℕ) → tokens d [] ≡ []
unfolding tokens
tokens-empty d = refl

-- The last field is a token only if it is not empty.
pub tokens_last : (d c : ℕ) (t : Str) → has d (c ∷ t) ≡ false → tokens d (c ∷ t) ≡ (c ∷ t) ∷ []
tokens_last d c t h = rw (
  tokens-cons d c t,
  getline_token_last d (c ∷ t) h,
  getline_rest_last d (c ∷ t) h,
  tokens-empty d,
)
