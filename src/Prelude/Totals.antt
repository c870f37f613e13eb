-- ===== src/Prelude/Totals.antt =====
-- Sums over a list of threads, and lists joined over it.
use Prim.Native.Nat.{ℕ, zero, suc, ◌+◌, ◌≤◌, ◌<◌}
use mathlib.Core.Path.{◌≡◌, refl, sym, ap, ◌∙◌}
use mathlib.Core.Logic.{◌≢◌, ◌⊎◌, inl, inr}
use mathlib.Core.List.{List, [], ◌∷◌, ◌++◌, append-nil}
use mathlib.Core.Option.{some, some-injective}
use native.Mathlib.Omega.{arith}
use csf_hw.Prelude.Lists.{get_elem?, set}

pub zero-or-pos : (n : ℕ) → (n ≡ 0) ⊎ (0 < n)
zero-or-pos zero = inl refl
zero-or-pos (suc n) = inr (omega arith)

module _ {A : Type 0} (w : A → ℕ) where
  unfoldable pub total : List A → ℕ
  total [] = 0
  total (p ∷ ps) = w p + total ps

  pub total-set :
      (ps : List A) (i : ℕ) (p q : A)
      → get_elem? ps i ≡ some p
      → total (set ps i q) + w p ≡ total ps + w q
  unfolding total
  total-set [] i p q e = ground arith
  total-set (r ∷ ps) zero p q e = omega (arith, ap w (some-injective r p e))
  total-set (r ∷ ps) (suc i) p q e = omega (arith, total-set ps i p q e)

  pub total-ge : (ps : List A) (i : ℕ) (p : A) → get_elem? ps i ≡ some p → w p ≤ total ps
  unfolding total
  total-ge [] i p e = ground arith
  total-ge (r ∷ ps) zero p e = omega (arith, ap w (some-injective r p e))
  total-ge (r ∷ ps) (suc i) p e = omega (arith, total-ge ps i p e)

  -- Two threads count twice.
  pub total-ge_two :
      (ps : List A) (i j : ℕ) (p q : A)
      → get_elem? ps i ≡ some p
      → get_elem? ps j ≡ some q
      → i ≢ j
      → w p + w q ≤ total ps
  unfolding total
  total-ge_two [] i j p q e f d = ground arith
  total-ge_two (r ∷ ps) zero zero p q e f d = absurd (d refl)
  total-ge_two (r ∷ ps) zero (suc j) p q e f d =
      omega (arith, total-ge ps j q f, ap w (some-injective r p e))
  total-ge_two (r ∷ ps) (suc i) zero p q e f d =
      omega (arith, total-ge ps i p e, ap w (some-injective r q f))
  total-ge_two (r ∷ ps) (suc i) (suc j) p q e f d =
      omega (arith, total-ge_two ps i j p q e f (λ h. d (ap suc h)))

  pub total-pos :
      (ps : List A) → 0 < total ps → (i : ℕ) × (p : A) × (get_elem? ps i ≡ some p) × (0 < w p)
  unfolding total
  total-pos [] h = absurd (omega arith)
  total-pos (p ∷ ps) h = elim (zero-or-pos (w p)) [
    | inl none_here ↦ (let (i, q, at, pos_) = total-pos ps (omega arith) in (suc i, q, at, pos_))
    | inr here_ ↦ (0, p, refl, here_)
  ]

  pub total-concat : (ps : List A) (p : A) → total (ps ++ p ∷ []) ≡ total ps + w p
  unfolding total
  total-concat [] p = omega arith
  total-concat (r ∷ ps) p = omega (arith, total-concat ps p)

pub total-le :
    {A : Type 0} (f g : A → ℕ) (ps : List A)
    → ((j : ℕ) (q : A) → get_elem? ps j ≡ some q → f q ≤ g q)
    → total f ps ≤ total g ps
unfolding total
total-le f g [] h = omega arith
total-le f g (p ∷ ps) h = omega (arith, h 0 p refl, total-le f g ps (λ j. h (suc j)))

module _ {A B : Type 0} (f : A → List B) where
  unfoldable pub gather : List A → List B
  gather [] = []
  gather (p ∷ ps) = f p ++ gather ps

  pub gather_empty :
      (ps : List A) → ((j : ℕ) (q : A) → get_elem? ps j ≡ some q → f q ≡ []) → gather ps ≡ []
  unfolding gather
  gather_empty [] h = refl
  gather_empty (p ∷ ps) h = rw (h 0 p refl) (gather_empty ps (λ j. h (suc j)))

  -- What the only thread with something to give has.
  pub gather_alone :
      (ps : List A) (i : ℕ) (p : A)
      → get_elem? ps i ≡ some p
      → ((j : ℕ) (q : A) → i ≢ j → get_elem? ps j ≡ some q → f q ≡ [])
      → gather ps ≡ f p
  unfolding gather
  gather_alone [] i p e h = ground arith
  gather_alone (r ∷ ps) zero p e h =
      rw (gather_empty ps (λ j q. h (suc j) q (λ d. absurd (omega arith))))
        (append-nil (f r) ∙ ap f (some-injective r p e))
  gather_alone (r ∷ ps) (suc i) p e h =
      rw (h 0 r (λ d. absurd (omega arith)) refl)
        (gather_alone ps i p e (λ j q d. h (suc j) q (λ s. d (suc_injective s))))
    where
      suc_injective : {m n : ℕ} → suc m ≡ suc n → m ≡ n
      suc_injective s = omega arith

  pub gather-set_same :
      (ps : List A) (i : ℕ) (p q : A)
      → get_elem? ps i ≡ some p
      → f q ≡ f p
      → gather (set ps i q) ≡ gather ps
  unfolding gather
  gather-set_same [] i p q e h = refl
  gather-set_same (r ∷ ps) zero p q e h =
      ap (λ xs. xs ++ gather ps) (h ∙ sym (ap f (some-injective r p e)))
  gather-set_same (r ∷ ps) (suc i) p q e h = ap (λ xs. f r ++ xs) (gather-set_same ps i p q e h)

  pub gather-concat : (ps : List A) (p : A) → f p ≡ [] → gather (ps ++ p ∷ []) ≡ gather ps
  unfolding gather
  gather-concat [] p h = rw h refl
  gather-concat (r ∷ ps) p h = ap (λ xs. f r ++ xs) (gather-concat ps p h)

pub gather_cong :
    {A B : Type 0} (f g : A → List B) (ps : List A)
    → ((j : ℕ) (q : A) → get_elem? ps j ≡ some q → f q ≡ g q)
    → gather f ps ≡ gather g ps
unfolding gather
gather_cong f g [] h = refl
gather_cong f g (p ∷ ps) h =
    rw (h 0 p refl) (ap (λ xs. g p ++ xs) (gather_cong f g ps (λ j. h (suc j))))
