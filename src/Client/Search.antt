-- ===== src/Client/Search.antt =====
-- What `std::string::find` finds, in sender.cpp.
use csf_hw.Prelude.{
  ℕ, suc, Option, ◌≡◌, refl, sym, ◌∙◌, ap, ◌≢◌, true, Bool-cases, inl, inr, [], ◌∷◌, ◌++◌, some,
  none, arith,
}
use csf_hw.Text.{Str}
use csf_hw.Client.Sender.{starts_with, find_str}

-- `sub` stands nowhere in the text.
abbrev pub Lacks : Str → Str → Type 0
Lacks sub s = (before after : Str) → s ≢ before ++ (sub ++ after)

starts_with-prefix : (sub s : Str) → starts_with sub s ≡ true → (after : Str) × (s ≡ sub ++ after)
unfolding starts_with
starts_with-prefix [] s h = (s, refl)
starts_with-prefix (x ∷ sub) [] h = ground arith
starts_with-prefix (x ∷ sub) (c ∷ s) h =
    let (after, e) = starts_with-prefix sub s (ground arith) in (after, ground arith)

pub starts_with-append : (sub after : Str) → starts_with sub (sub ++ after) ≡ true
unfolding starts_with
starts_with-append [] after = refl
starts_with-append (x ∷ sub) after = ground (arith, starts_with-append sub after)

pub find_str_here : (sub s : Str) → starts_with sub s ≡ true → find_str sub s ≡ some 0
unfolding find_str
find_str_here sub [] h = rw h refl
find_str_here sub (c ∷ s) h = rw h refl

pub find_str-none : (sub s : Str) → Lacks sub s → find_str sub s ≡ none
unfolding find_str
find_str-none sub [] lacks = elim (Bool-cases (starts_with sub [])) [
  | inl here ↦ (let (after, e) = starts_with-prefix sub [] here in absurd (lacks [] after e))
  | inr other ↦ rw other refl
]
find_str-none sub (c ∷ s) lacks = elim (Bool-cases (starts_with sub (c ∷ s))) [
  | inl here ↦ (let (after, e) = starts_with-prefix sub (c ∷ s) here in absurd (lacks [] after e))
  | inr other ↦
      rw
        (
          other,
          find_str-none sub s (λ before after e. lacks (c ∷ before) after (ap (λ t. c ∷ t) e)),
        )
        refl
]

pub find_str_found :
    (sub before after : Str) → (n : ℕ) × (find_str sub (before ++ (sub ++ after)) ≡ some n)
unfolding find_str
find_str_found sub [] after = (0, find_str_here sub (sub ++ after) (starts_with-append sub after))
find_str_found sub (c ∷ before) after =
    let (n, found) = find_str_found sub before after in
    elim (Bool-cases (starts_with sub (c ∷ (before ++ (sub ++ after))))) [
      | inl here ↦ (0, rw here refl)
      | inr other ↦ (suc n, rw (other, found) refl)
    ]

pub find_str-Lacks : (sub s : Str) → find_str sub s ≡ none → Lacks sub s
find_str-Lacks sub s missing before after e =
    let (n, found) = find_str_found sub before after in
    let both : ◌≡◌ {A = Option ℕ} none (some n) = sym missing ∙ ap (find_str sub) e ∙ found in
    absurd (ground arith)
