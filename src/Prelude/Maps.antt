-- ===== src/Prelude/Maps.antt =====
-- A function applied to each element of a list, with native indices.
use mathlib.Core.Option
use Prim.Native.Nat.{ℕ, zero, suc}
use mathlib.Core.Path.{◌≡◌, refl, sym, ap, ap₂, ◌∙◌}
use mathlib.Core.List.{List, [], ◌∷◌, ◌++◌, map}
use mathlib.Core.Option.{Option, none, some, some-injective}
use native.Mathlib.Omega.{arith}
use csf_hw.Prelude.Lists.{length, get_elem?, set}

module _ {A B : Type 0} (f : A → B) where
  pub length-map : (xs : List A) → length (map f xs) ≡ length xs
  length-map [] = refl
  length-map (x ∷ xs) = ap suc (length-map xs)

  pub get_elem?-map : (xs : List A) (i : ℕ) → get_elem? (map f xs) i ≡ Option.map f (get_elem? xs i)
  get_elem?-map [] i = refl
  get_elem?-map (x ∷ xs) zero = refl
  get_elem?-map (x ∷ xs) (suc i) = get_elem?-map xs i

  pub map-set : (xs : List A) (i : ℕ) (x : A) → map f (set xs i x) ≡ set (map f xs) i (f x)
  map-set [] i x = refl
  map-set (y ∷ xs) zero x = refl
  map-set (y ∷ xs) (suc i) x = ap (λ ys. f y ∷ ys) (map-set xs i x)

  pub map-concat : (xs : List A) (x : A) → map f (xs ++ x ∷ []) ≡ map f xs ++ f x ∷ []
  map-concat [] x = refl
  map-concat (y ∷ xs) x = ap (λ ys. f y ∷ ys) (map-concat xs x)

  -- An update that the function does not see.
  pub map-set_same :
      (xs : List A) (i : ℕ) (x y : A)
      → get_elem? xs i ≡ some x
      → f y ≡ f x
      → map f (set xs i y) ≡ map f xs
  map-set_same [] i x y at e = refl
  map-set_same (z ∷ xs) zero x y at e =
      ap (λ w. w ∷ map f xs) (e ∙ sym (ap f (some-injective z x at)))
  map-set_same (z ∷ xs) (suc i) x y at e = ap (λ ys. f z ∷ ys) (map-set_same xs i x y at e)

  -- Where two lists have the same images, the elements have.
  pub get_same :
      (xs ys : List A) (i : ℕ) {x : A}
      → map f ys ≡ map f xs
      → get_elem? xs i ≡ some x
      → (y : A) × (get_elem? ys i ≡ some y) × (f y ≡ f x)
  get_same xs ys i {x} e at = found (get_elem? ys i) refl (
      sym (get_elem?-map ys i)
      ∙ ap (λ zs. get_elem? zs i) e
      ∙ get_elem?-map xs i
      ∙ ap (Option.map f) at)
    where
      found :
          (o : Option A)
          → get_elem? ys i ≡ o
          → Option.map f o ≡ some (f x)
          → (y : A) × (get_elem? ys i ≡ some y) × (f y ≡ f x)
      found none at_y s = absurd (ground arith)
      found (some y) at_y s = (y, at_y, some-injective (f y) (f x) s)

-- Lists with the same elements at each index.
pub get_elem?_ext :
    {A : Type 0} (xs ys : List A) → ((i : ℕ) → get_elem? xs i ≡ get_elem? ys i) → xs ≡ ys
get_elem?_ext [] [] h = refl
get_elem?_ext [] (y ∷ ys) h = absurd (differ (h 0))
  where
    differ : {A : Type 0} {y : A} → ¬ (◌≡◌ {A = Option A} none (some y))
    differ e = cc
get_elem?_ext (x ∷ xs) [] h = absurd (differ (h 0))
  where
    differ : {A : Type 0} {x : A} → ¬ (◌≡◌ {A = Option A} (some x) none)
    differ e = cc
get_elem?_ext (x ∷ xs) (y ∷ ys) h =
    ap₂ (λ z zs. z ∷ zs) (some-injective x y (h 0)) (get_elem?_ext xs ys (λ i. h (suc i)))
