-- ===== src/MessageQueue/Progress.antt =====
-- The threads of a queue do not block one another for good, and leave it consistent.
use csf_hw.Prelude.{
  ℕ, ◌<◌, ◌≡◌, refl, ◌≢◌, ◌⊎◌, inl, inr, true, false, List, [], ◌∷◌, some, get_elem?, arith, total,
  total-pos,
}
use csf_hw.Message.{Message}
use csf_hw.MessageQueue.Fifo.{IsCounted}
use csf_hw.MessageQueue.Safety.{Reach-Inv, front_defined}
use csf_hw.MessageQueue.Threads.{
  Shared, Pc, idle, entering, pushing, posting, waiting, locking, taking, leaving, Move, push_back,
  post, unlock, take, give_up, System, Reach, holds, owes,
}

-- Some move leads on from here.
abbrev pub CanMove : Shared → Pc → Type 0
CanMove m p = (m' : Shared) × (q : Pc) × Move m p m' q

List-cases :
    (ms : List Message) → (ms ≡ []) ⊎ ((msg : Message) × (rest : List Message) × (ms ≡ msg ∷ rest))
List-cases [] = inl refl
List-cases (msg ∷ rest) = inr (msg, rest, refl)

holder-CanMove :
    (m : Shared) (p : Pc) → 0 < holds p → (p ≡ taking true → m.m_messages ≢ []) → CanMove m p
holder-CanMove m (pushing msg) h full = (_, _, push_back)
holder-CanMove m posting h full = (_, _, post)
holder-CanMove m (taking true) h full = elim (List-cases m.m_messages) [
  | inl e ↦ absurd (full refl e)
  | inr (msg, rest, e) ↦ (_, _, take e)
]
holder-CanMove m (taking false) h full = (_, _, give_up)
holder-CanMove m leaving h full = (_, _, unlock)
holder-CanMove m idle h full = absurd (omega arith)
holder-CanMove m (entering msg) h full = absurd (omega arith)
holder-CanMove m waiting h full = absurd (omega arith)
holder-CanMove m (locking granted) h full = absurd (omega arith)

-- In every state that threads can reach from a new queue, if the lock is held then some thread
-- holds it and has a next move, so a thread that waits for its guard never waits for a stuck one.
pub holder_goes_on :
    {n : ℕ} {s : System}
    → Reach n s
    → s.mem.m_lock ≡ true
    → (i : ℕ) × (p : Pc) × (get_elem? s.threads i ≡ some p) × (holds p ≡ 1) × CanMove s.mem p
holder_goes_on {s} r held =
    let (i, p, at, owner) = total-pos holds s.threads (ground (arith, (Reach-Inv r).owned)) in
    (
      i,
      p,
      at,
      holds-one p owner,
      holder-CanMove s.mem p owner (λ e. front_defined r i (rw e at at)),
    )
  where
    holds-one : (p : Pc) → 0 < holds p → holds p ≡ 1
    holds-one (pushing _) h = refl
    holds-one _ h = ground arith

-- In every state that threads can reach from a new queue, if no thread is between the semaphore and
-- the deque, the semaphore counts the queued messages.
pub quiescent-IsCounted :
    {n : ℕ} {s : System}
    → Reach n s
    → total owes s.threads ≡ 0
    → IsCounted (record { m_avail = s.mem.m_avail; m_messages = s.mem.m_messages })
quiescent-IsCounted r quiet = omega (arith, (Reach-Inv r).counted)
