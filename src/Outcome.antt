-- ===== src/Outcome.antt =====
-- How a run of the C++ code can end. `undefined` is undefined behaviour (a null or dangling
-- pointer, an access past the end of a vector or deque), `exited n text` is a call of `exit (n)`
-- after `text` was printed on the standard error stream, `aborted` is an exception that nothing
-- catches, and `unfinished` says that the rounds allowed to a loop ran out.
use csf_hw.Prelude.{ℕ, refl, ap, ◌≡◌, List, Option, none, some}

pub data Outcome {ℓ} (A : Type ℓ) : Type ℓ where
  done : A → Outcome A
  undefined : Outcome A
  exited : ℕ → List ℕ → Outcome A
  aborted : Outcome A
  unfinished : Outcome A

infixl 5 ◌>>=◌
abbrev pub ◌>>=◌ {ℓ κ} : {A : Type ℓ} {B : Type κ} → Outcome A → (A → Outcome B) → Outcome B
done a >>= f = f a
undefined >>= f = undefined
exited n text >>= f = exited n text
aborted >>= f = aborted
unfinished >>= f = unfinished

-- An exception where there is no value.
abbrev pub or_throw {ℓ} : {A : Type ℓ} → Option A → Outcome A
or_throw none = aborted
or_throw (some a) = done a

-- A pointer that refers to nothing may not be followed.
abbrev pub deref {ℓ} : {A : Type ℓ} → Option A → Outcome A
deref none = undefined
deref (some a) = done a

pub done-injective {ℓ} : {A : Type ℓ} {a b : A} → ◌≡◌ {A = Outcome A} (done a) (done b) → a ≡ b
done-injective e = cc

-- What a sequence returns, its first part has returned first.
pub bind-done {ℓ κ} :
    {A : Type ℓ} {B : Type κ} (m : Outcome A) (f : A → Outcome B) (b : B)
    → m >>= f ≡ done b
    → (a : A) × (m ≡ done a) × (f a ≡ done b)
bind-done (done a) f b e = (a, refl, e)
bind-done undefined f b e = cc
bind-done (exited n text) f b e = cc
bind-done aborted f b e = cc
bind-done unfinished f b e = cc

pub deref-done {ℓ} : {A : Type ℓ} (o : Option A) (a : A) → deref o ≡ done a → o ≡ some a
deref-done none a e = cc
deref-done (some x) a e = ap some (done-injective e)
