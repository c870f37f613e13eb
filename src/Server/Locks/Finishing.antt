-- ===== src/Server/Locks/Finishing.antt =====
-- Steps that only finish what was begun, and how far each of them leads.
use csf_hw.Prelude.{
  ℕ, ◌+◌, ◌*◌, ◌≤◌, ◌<◌, ◌≡◌, refl, sym, ap, ◌∙◌, ◌⊎◌, inl, inr, Bool, true, false, some, length,
  get_elem?, set, arith, subst,
}
use mathlib.Core.Option.{some-injective}
use csf_hw.Server.Locks.{
  Memory, Lock, Spot, outside, within, releasing, visiting, asking, pushing, posting, unlocking,
  fetching, taking, Move, go_on, stop_drain, lock, run, unlock, begin, skip, compose, finish,
  lock_queue, push_back, post, unlock_queue, wait, lock_own, take, Machine, move, Reach, next,
}
use csf_hw.Server.Locks.Owners.{owns}
use csf_hw.Server.Locks.Moving.{is_finished}
use csf_hw.Server.Locks.Progress.{Behind, itself, owner}

-- The thread is in a method that has a guard or that waits for one.
unfoldable pub is_inside : Spot → Bool
is_inside (outside p) = false
is_inside _ = true

-- Steps of threads that are inside: nothing new is begun.
pub data Finishing : Machine → Machine → Type 0 where
  rest : {s : Machine} → Finishing s s
  go :
      {s t : Machine} (i : ℕ) {p q : Spot} {m : Memory}
      → get_elem? s.threads i ≡ some p
      → is_inside p ≡ true
      → Move i s.memory p m q
      → Finishing (record { memory = m; threads = set s.threads i q }) t
      → Finishing s t

-- The calls whose work has not begun, and what the others have still to do.
unfoldable pub starting : Spot → ℕ
starting (within p) = 1
starting _ = 0

unfoldable pub steps_left : Spot → ℕ
steps_left (outside p) = 0
steps_left (within p) = 0
steps_left (releasing l q) = 1
steps_left (visiting loop) = 2 + 6 * length loop.rest
steps_left (asking loop u msg) = 7 + 6 * length loop.rest
steps_left (pushing loop u msg) = 6 + 6 * length loop.rest
steps_left (posting loop u) = 5 + 6 * length loop.rest
steps_left (unlocking loop u) = 4 + 6 * length loop.rest
steps_left (fetching u granted r) = 3
steps_left (taking u granted r) = 2

pub Move-shorter :
    {i : ℕ} {m after : Memory} {p q : Spot}
    → Move i m p after q
    → is_inside p ≡ true
    → ((starting q + 1 ≡ starting p) ⊎ ((starting q ≡ starting p) × (steps_left q < steps_left p)))
unfolding is_inside starting steps_left
Move-shorter (go_on u a) h = absurd (ground arith)
Move-shorter stop_drain h = absurd (ground arith)
Move-shorter (lock g free) h = absurd (ground arith)
Move-shorter (run g b a) h = inl (omega arith)
Move-shorter unlock h = inr (refl, omega arith)
Move-shorter (begin at at_user) h = inl (omega arith)
Move-shorter (skip e at same) h = inr (refl, omega (arith, ap length e))
Move-shorter (compose e at differ at_room) h = inr (refl, omega (arith, ap length e))
Move-shorter (finish e) h = inr (refl, omega arith)
Move-shorter (lock_queue free) h = inr (refl, omega arith)
Move-shorter (push_back at) h = inr (refl, omega arith)
Move-shorter (post at) h = inr (refl, omega arith)
Move-shorter unlock_queue h = inr (refl, omega arith)
Move-shorter (wait at e) h = absurd (ground arith)
Move-shorter (lock_own free) h = inr (refl, omega arith)
Move-shorter (take at e) h = inr (refl, omega arith)

-- Who owns a lock is inside.
owner_inside : (l : Lock) (q : Spot) → 1 ≤ owns l q → is_inside q ≡ true
unfolding owns is_inside
owner_inside l (outside p) h = absurd (omega arith)
owner_inside l _ h = refl

pub inside_unfinished : (p : Spot) → is_inside p ≡ true → is_finished p ≡ false
unfolding is_inside is_finished
inside_unfinished (outside p) h = absurd (ground arith)
inside_unfinished _ h = refl

pub Behind-inside :
    {s : Machine} {i k : ℕ} (p q : Spot)
    → Behind s i k
    → get_elem? s.threads i ≡ some p
    → is_inside p ≡ true
    → get_elem? s.threads k ≡ some q
    → is_inside q ≡ true
Behind-inside p q itself at h at_k =
    subst (λ x. is_inside x ≡ true) (some-injective p q (sym at ∙ at_k)) h
Behind-inside p q (owner {l = l} {q = x} at_i w at_j own behind) at h at_k =
    Behind-inside x q behind at_j (owner_inside l x own) at_k

unfoldable pub carry_on : {s t : Machine} → Reach s → Finishing s t → Reach t
carry_on reach rest = reach
carry_on reach (go i at h mv more) = carry_on (next reach (move i at mv)) more
