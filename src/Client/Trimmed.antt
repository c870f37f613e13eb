-- ===== src/Client/Trimmed.antt =====
-- What the trim functions of client_util.cpp take off, and what they leave.
use csf_hw.Prelude.{
  ℕ, suc, ◌+◌, ◌≡◌, refl, sym, subst, ap, ◌∙◌, Bool, true, false, not, ◌&&◌, Bool-cases,
  Option-cases, inl, inr, [], ◌∷◌, ◌++◌, some, none, take, arith, if◌then◌else◌,
}
use csf_hw.Text.{Str, has}
use csf_hw.Client.Trim.{whitespace, find_first_not_of, find_last_not_of, ltrim, rtrim, trim}

abbrev pub white : ℕ → Bool
white c = has c whitespace

abbrev pub all_white : Str → Bool
all_white [] = true
all_white (c ∷ s) = white c && all_white s

-- No white space at the start; none at the end.
abbrev pub starts_black : Str → Bool
starts_black [] = true
starts_black (c ∷ s) = not (white c)

abbrev pub ends_black : Str → Bool
ends_black [] = true
ends_black (c ∷ []) = not (white c)
ends_black (c ∷ d ∷ s) = ends_black (d ∷ s)

ltrim-white : (c : ℕ) (s : Str) → white c ≡ true → ltrim (c ∷ s) ≡ ltrim s
unfolding ltrim find_first_not_of
ltrim-white c s w = ground arith

ltrim_black : (c : ℕ) (s : Str) → white c ≡ false → ltrim (c ∷ s) ≡ c ∷ s
unfolding ltrim find_first_not_of
ltrim_black c s b = ground arith

pub ltrim-Splits :
    (s : Str)
    → (left : Str) × (s ≡ left ++ ltrim s)
      × (all_white left ≡ true)
      × (starts_black (ltrim s) ≡ true)
unfolding ltrim find_first_not_of
ltrim-Splits [] = ([], refl, refl, refl)
ltrim-Splits (c ∷ s) = elim (Bool-cases (white c)) [
  | inl w ↦
      (let (left, e, all, starts) = ltrim-Splits s in
        (
          c ∷ left,
          rw (ltrim-white c s w) (ap (λ t. c ∷ t) e),
          rw w all,
          rw (ltrim-white c s w) starts,
        ))
  | inr b ↦ ([], rw (ltrim_black c s b) refl, refl, rw (ltrim_black c s b) (rw b refl))
]

-- The last kept character decides what stays.
rtrim_nothing : (s : Str) → find_last_not_of whitespace s ≡ none → rtrim s ≡ []
unfolding rtrim
rtrim_nothing s e = rw (rtrim, e) refl

rtrim-some : (s : Str) (n : ℕ) → find_last_not_of whitespace s ≡ some n → rtrim s ≡ take (suc n) s
unfolding rtrim
rtrim-some s n e = rw (rtrim, e) (ap (λ k. take k s) {x = n + 1} {y = suc n} (omega arith))

rtrim-none :
    (c : ℕ) (s : Str)
    → find_last_not_of whitespace s ≡ none
    → rtrim (c ∷ s) ≡ (if white c then [] else c ∷ [])
rtrim-none c s e = elim (Bool-cases (white c)) [
  | inl w ↦ rw w (rtrim_nothing (c ∷ s) (unfold find_last_not_of in rw e (rw w refl)))
  | inr b ↦ rw b (rtrim-some (c ∷ s) 0 (unfold find_last_not_of in rw e (rw b refl)))
]

rtrim_more :
    (c : ℕ) (s : Str) (n : ℕ) → find_last_not_of whitespace s ≡ some n → rtrim (c ∷ s) ≡ c ∷ rtrim s
rtrim_more c s n e =
    rtrim-some (c ∷ s) (suc n) (unfold find_last_not_of in rw e refl)
    ∙ ap (λ t. c ∷ t) (sym (rtrim-some s n e))

-- What a text and its right-trimmed version have to do with each other.
record TrimsRight (s t : Str) : Type 0 where
  right : Str
  split : s ≡ t ++ right
  all : all_white right ≡ true
  ends : ends_black t ≡ true

rtrim_kept :
    (s : Str) (n : ℕ)
    → find_last_not_of whitespace s ≡ some n
    → (d : ℕ) × (t : Str) × (rtrim s ≡ d ∷ t)
unfolding find_last_not_of
rtrim_kept [] n e = ground arith
rtrim_kept (d ∷ s) n e = (d, take n s, rtrim-some (d ∷ s) n e)

ends_black-cons : (c : ℕ) (s t : Str) (d : ℕ) → t ≡ d ∷ s → ends_black (c ∷ t) ≡ ends_black t
ends_black-cons c s t d e = rw e refl

trim_one :
    (c : ℕ) (s : Str) → all_white s ≡ true → TrimsRight (c ∷ s) (if white c then [] else c ∷ [])
trim_one c s all = elim (Bool-cases (white c)) [
  | inl w ↦ rw w (record { right = c ∷ s; split = refl; all = rw w all; ends = refl })
  | inr b ↦ rw b (record { right = s; split = refl; all = all; ends = rw b refl })
]

rtrim-TrimsRight : (s : Str) → TrimsRight s (rtrim s)
unfolding rtrim find_last_not_of
rtrim-TrimsRight [] = record { right = []; split = refl; all = refl; ends = refl }
rtrim-TrimsRight (c ∷ s) =
    let r = rtrim-TrimsRight s in
    elim (Option-cases (find_last_not_of whitespace s)) [
      | inl nothing ↦ subst (TrimsRight (c ∷ s)) (sym (rtrim-none c s nothing)) (
          trim_one c s
            (ap all_white (r.split ∙ ap (λ t. t ++ r.right) (rtrim_nothing s nothing)) ∙ r.all))
      | inr (n, found) ↦ subst (TrimsRight (c ∷ s)) (sym (rtrim_more c s n found)) (
          let (d, t, e) = rtrim_kept s n found in
          record {
            right = r.right;
            split = ap (λ u. c ∷ u) r.split;
            all = r.all;
            ends = ends_black-cons c t (rtrim s) d e ∙ r.ends;
          })
    ]

-- A text that starts with no white space still does when its end is trimmed.
starts_black_prefix :
    (s t right : Str) → s ≡ t ++ right → starts_black s ≡ true → starts_black t ≡ true
starts_black_prefix s [] right e h = refl
starts_black_prefix s (c ∷ t) right e h = sym (ap starts_black e) ∙ h

pub record Trims (s : Str) : Type 0 where
  pub left : Str
  pub right : Str
  pub split : s ≡ left ++ (trim s ++ right)
  pub left_white : all_white left ≡ true
  pub right_white : all_white right ≡ true
  pub starts : starts_black (trim s) ≡ true
  pub ends : ends_black (trim s) ≡ true

-- Every text is some white space, then what `trim` returns, then some white space, and what `trim`
-- returns neither starts nor ends with white space.
pub trim-Trims : (s : Str) → Trims s
unfolding trim
trim-Trims s =
    let (left, e, left_white, starts) = ltrim-Splits s in
    let r = rtrim-TrimsRight (ltrim s) in
    record {
      left = left;
      right = r.right;
      split = e ∙ ap (λ t. left ++ t) r.split;
      left_white = left_white;
      right_white = r.all;
      starts = starts_black_prefix (ltrim s) (rtrim (ltrim s)) r.right r.split starts;
      ends = r.ends;
    }
