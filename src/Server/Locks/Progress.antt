-- ===== src/Server/Locks/Progress.antt =====
-- The locks do not block the server's threads for good.
use csf_hw.Prelude.{
  ℕ, ◌≤◌, ◌≡◌, refl, sym, ◌∙◌, inl, inr, true, false, none, some, get_elem?, Bool-cases,
  Option-cases, arith, total-pos, subst,
}
use mathlib.Core.Option.{some-injective}
use csf_hw.Server.Threads.{held}
use csf_hw.Server.Locks.{
  Lock, of_queue, guard_of, Spot, outside, visiting, asking, fetching, Machine, Reach,
}
use csf_hw.Server.Locks.Owners.{owns, Reach-IsOwned}
use csf_hw.Server.Locks.Refines.{Reach-Shown}
use csf_hw.Server.Locks.Moving.{waits, is_finished, CanMove, spot-CanMove}

-- `k` is `i`, or it owns the lock that `i` waits for, or one that such an owner waits for.
pub data Behind (s : Machine) : ℕ → ℕ → Type 0 where
  itself : {i : ℕ} → Behind s i i
  owner :
      {i j k : ℕ} {l : Lock} {p q : Spot}
      → get_elem? s.threads i ≡ some p
      → waits p ≡ some l
      → get_elem? s.threads j ≡ some q
      → 1 ≤ owns l q
      → Behind s j k
      → Behind s i k

-- Some thread that the thread at `i` is behind can move.
abbrev pub GoesOn : Machine → ℕ → Type 0
GoesOn s i =
    (k : ℕ) × (q : Spot) × (get_elem? s.threads k ≡ some q) × Behind s i k × CanMove k s.memory q

-- Who owns a lock is not outside, and who owns a queue's lock waits for none.
owner_busy : (l : Lock) (q : Spot) → 1 ≤ owns l q → is_finished q ≡ false
unfolding owns is_finished
owner_busy l (outside p) h = absurd (omega arith)
owner_busy l _ h = refl

queue_owner : (u : ℕ) (q : Spot) → 1 ≤ owns (of_queue u) q → waits q ≡ none
unfolding owns waits guard_of
queue_owner u (outside p) h = absurd (omega arith)
queue_owner u (visiting loop) h = absurd (omega arith)
queue_owner u (asking loop v msg) h = absurd (omega arith)
queue_owner u (fetching v granted r) h = absurd (omega arith)
queue_owner u _ h = refl

-- Who owns a lock and waits for another one waits for a queue's.
owner_waits : (l k : Lock) (q : Spot) → 1 ≤ owns l q → waits q ≡ some k → (u : ℕ) × (k ≡ of_queue u)
unfolding owns waits
owner_waits l k (outside p) h e = absurd (omega arith)
owner_waits l k (asking loop u msg) h e = (u, sym (some-injective _ _ e))
owner_waits l k (fetching u granted r) h e = absurd (omega arith)
owner_waits l k _ h e = absurd (ground arith)

lock_owner :
    {s : Machine} (l : Lock)
    → Reach s
    → s.memory.locks l ≡ true
    → (j : ℕ) × (q : Spot) × (get_elem? s.threads j ≡ some q) × (1 ≤ owns l q)
lock_owner {s} l reach held = total-pos (owns l) s.threads (ground (arith, Reach-IsOwned reach l))

-- A thread goes on if the owner of the lock that it waits for does.
wait-GoesOn :
    {s : Machine} (i : ℕ) (p : Spot)
    → Reach s
    → get_elem? s.threads i ≡ some p
    → is_finished p ≡ false
    → ((l : Lock)
        → waits p ≡ some l
        → s.memory.locks l ≡ true
        → (j : ℕ) (q : Spot) → get_elem? s.threads j ≡ some q
        → 1 ≤ owns l q
        → GoesOn s j)
    → GoesOn s i
wait-GoesOn {s} i p reach at o owners =
    let (w, reach_w, shows, _) = Reach-Shown reach in
    let can = spot-CanMove reach_w reach shows i p at o in
    elim (Option-cases (waits p)) [
      | inl no_lock ↦ (i, p, at, itself, can (λ l e. absurd (ground arith)))
      | inr (l, e) ↦ elim (Bool-cases (s.memory.locks l)) [
        | inr free ↦ (i, p, at, itself, can (λ k e'. rw (some-injective k l (sym e' ∙ e)) free))
        | inl held ↦
            let (j, q, at_j, owns_l) = lock_owner l reach held in
            let (k, x, at_k, behind, moves) = owners l e held j q at_j owns_l in
            (k, x, at_k, owner at e at_j owns_l behind, moves)
      ]
    ]

waits_not : (x : Spot) (k : Lock) → waits x ≡ none → ¬ (waits x ≡ some k)
waits_not x k n e = ground arith

-- In every state that the server's threads can reach with their locks, for each thread that has not
-- returned and has not followed a null pointer there is a thread that can move, which is the same
-- thread, or owns the lock that it waits for, or owns a lock that such an owner waits for: there is
-- no deadlock, and no thread that goes on needs a message, a room or a user that is not there.
pub Reach-GoesOn :
    {s : Machine} (i : ℕ) (p : Spot)
    → Reach s
    → get_elem? s.threads i ≡ some p
    → is_finished p ≡ false
    → GoesOn s i
Reach-GoesOn {s} i p reach at o = wait-GoesOn i p reach at o (λ l e held j q at_j owns_l.
    wait-GoesOn j q reach at_j (owner_busy l q owns_l) (λ k e' held' n x at_n owns_k.
      let (u, is) = owner_waits l k q owns_l e' in
      wait-GoesOn n x reach at_n (owner_busy k x owns_k) (λ k' e''.
        absurd (waits_not x k' (queue_owner u x (subst (λ y. 1 ≤ owns y x) is owns_k)) e''))))
