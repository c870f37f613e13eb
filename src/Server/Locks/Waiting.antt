-- ===== src/Server/Locks/Waiting.antt =====
-- What `dequeue` finds on both sides of its semaphore.
use csf_hw.Prelude.{
  ℕ, ◌≤◌, ◌<◌, ◌≡◌, refl, sym, ap, ◌∙◌, ◌≢◌, ◌⊎◌, inl, inr, true, List, [], ◌∷◌, some, length,
  get_elem?, arith, ◌==◌, ==_iff, total, total-ge, total-le, total-pos, zero-or-pos,
}
use mathlib.Core.Option.{some-injective}
use csf_hw.Message.{Message}
use csf_hw.Server.Spec.{queue_in}
use csf_hw.Server.Threads.{draining}
use csf_hw.Server.Locks.{of_queue, Loop, Spot, outside, posting, fetching, taking, Machine, Reach}
use csf_hw.Server.Locks.Owners.{one_if, one_if-le, owns, Reach-IsOwned}
use csf_hw.Server.Locks.Loops.{Reach-AllStand}
use csf_hw.Server.Locks.Counts.{lags, avail_in, Reach-IsTallied}

-- In every state that the server's threads can reach with their locks, a thread that
-- `sem_timedwait` has let through and that holds the lock of its user's queue finds a message
-- there: `front` is never called on an empty deque, whoever else sends to that queue.
pub granted_finds :
    {s : Machine} (i r : ℕ)
    → Reach s
    → get_elem? s.threads i ≡ some (taking i true r)
    → queue_in s.memory.store.users i ≢ []
unfolding lags
granted_finds {s} i r reach at e = omega (
  arith,
  Reach-IsTallied reach i,
  ap length e,
  total-ge (lags i) s.threads i (taking i true r) at,
  ap one_if ((==_iff i i).1 refl),
)

-- The thread has pushed a message for `v` that it has not announced yet.
abbrev pub IsPosting : ℕ → Spot → Type 0
IsPosting v p = (loop : Loop) × (p ≡ posting loop v)

one_if-eq : (u i : ℕ) → 0 < one_if (u == i) → u ≡ i
one_if-eq u i h = ground arith

own_thread :
    (i j u r : ℕ) (p : Spot) (threads : List Spot)
    → u ≡ j
    → u ≡ i
    → get_elem? threads i ≡ some (outside (draining r))
    → get_elem? threads j ≡ some p
    → outside (draining r) ≡ p
own_thread i j u r p threads e f at at_j =
    some-injective _ _ (sym at ∙ ap (get_elem? threads) (sym f ∙ e) ∙ at_j)

-- Only the user's own thread is on the other side of the semaphore.
lagging :
    (i j r : ℕ) (p : Spot) (s : Machine)
    → Reach s
    → get_elem? s.threads i ≡ some (outside (draining r))
    → get_elem? s.threads j ≡ some p
    → 0 < lags i p
    → IsPosting i p × (lags i p ≤ owns (of_queue i) p)
unfolding lags owns
lagging i j r (posting loop u) s reach at at_j h =
    ((loop, ap (posting loop) (one_if-eq u i h)), ground (arith, ==_iff i u, ==_iff u i))
lagging i j r (fetching u true x) s reach at at_j h = absurd (
    not_fetching
      (own_thread i j u r _ s.threads (Reach-AllStand reach j _ at_j) (one_if-eq u i h) at at_j))
  where
    not_fetching : ¬ (outside (draining r) ≡ fetching u true x)
    not_fetching e = cc
lagging i j r (taking u true x) s reach at at_j h = absurd (
    not_taking
      (own_thread i j u r _ s.threads (Reach-AllStand reach j _ at_j) (one_if-eq u i h) at at_j))
  where
    not_taking : ¬ (outside (draining r) ≡ taking u true x)
    not_taking e = cc
lagging i j r _ s reach at at_j h = absurd (omega arith)

first : (xs : List Message) → length xs ≤ 1 → (xs ≡ []) ⊎ ((msg : Message) × (xs ≡ msg ∷ []))
first [] h = inl refl
first (msg ∷ []) h = inr (msg, refl)
first (msg ∷ x ∷ xs) h = absurd (omega arith)

-- In every state that the server's threads can reach with their locks, if a receiver's thread is at
-- `dequeue` and its user's semaphore is 0, so that `sem_timedwait` would fail now and `dequeue`
-- return null, then the queue is empty, or it holds one message alone, whose sender is between
-- `push_back` and `sem_post`.
pub expiring_finds :
    {s : Machine} (i r : ℕ)
    → Reach s
    → get_elem? s.threads i ≡ some (outside (draining r))
    → avail_in s.memory.store.users i ≡ 0
    → (queue_in s.memory.store.users i ≡ [])
      ⊎ ((msg : Message) × (queue_in s.memory.store.users i ≡ msg ∷ [])
          × (j : ℕ) × (loop : Loop) × (get_elem? s.threads j ≡ some (posting loop i)))
expiring_finds {s} i r reach at none_left = elim (first (queue_in s.memory.store.users i) few) [
  | inl empty ↦ inl empty
  | inr (msg, one) ↦
      let (j, p, at_j, h) = total-pos (lags i) s.threads (omega (arith, counted, ap length one)) in
      let ((loop, is), _) = lagging i j r p s reach at at_j h in
      inr (msg, one, j, loop, at_j ∙ ap some is)
]
  where
    counted : total (lags i) s.threads ≡ length (queue_in s.memory.store.users i)
    counted = omega (arith, Reach-IsTallied reach i, none_left)

    few : length (queue_in s.memory.store.users i) ≤ 1
    few = omega (
      arith,
      counted,
      total-le (lags i) (owns (of_queue i)) s.threads
          (λ j q at_j. bound j q at_j (zero-or-pos (lags i q))),
      Reach-IsOwned reach (of_queue i),
      one_if-le (s.memory.locks (of_queue i)),
    )
      where
        bound :
            (j : ℕ) (q : Spot)
            → get_elem? s.threads j ≡ some q
            → (lags i q ≡ 0) ⊎ (0 < lags i q)
            → lags i q ≤ owns (of_queue i) q
        bound j q at_j (inl h) = omega (arith, h)
        bound j q at_j (inr h) = (lagging i j r q s reach at at_j h).1
