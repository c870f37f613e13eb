-- ===== src/Server/Locks/Settling.antt =====
-- What the server's threads have begun, they can finish.
use csf_hw.Prelude.{
  ℕ, zero, suc, ◌≤◌, ◌<◌, ◌≡◌, refl, ap, ◌∙◌, inl, inr, true, false, List, [], ◌∷◌, some, get_elem?,
  arith, total, total-set, total-pos, zero-or-pos, map, gather, ◌++◌, append-nil,
}
use csf_hw.Server.{Store}
use csf_hw.Server.Spec.{queue_in}
use csf_hw.Server.Threads.{Place}
use csf_hw.Server.Locks.{Memory, Lock, Spot, outside, Move, Machine, move, Reach, next}
use csf_hw.Server.Locks.Owners.{one_if, owns, Reach-IsOwned}
use csf_hw.Server.Locks.Owed.{owed}
use csf_hw.Server.Locks.Shows.{on_the_way}
use csf_hw.Server.Locks.History.{sent_in, received_in}
use csf_hw.Server.Locks.Delivered.{sent_in-received_in}
use csf_hw.Server.Locks.Progress.{Reach-GoesOn}
use csf_hw.Server.Locks.Finishing.{
  is_inside, Finishing, rest, go, starting, steps_left, Move-shorter, inside_unfinished,
  Behind-inside, carry_on,
}

-- All that was begun has been finished: every thread is outside all guards, no lock is held, and
-- each user has received all that was sent to it, or it waits in the user's queue.
pub record Settles {s : Machine} (reach : Reach s) : Type 0 where
  pub settled : Machine
  pub finishing : Finishing s settled
  pub places : List Place
  pub threads_lem : settled.threads ≡ map outside places
  pub locks_lem : (l : Lock) → settled.memory.locks l ≡ false
  pub delivered :
      (j : ℕ)
      → sent_in j (carry_on reach finishing)
        ≡ received_in j (carry_on reach finishing) ++ queue_in settled.memory.store.users j

inside_count : Spot → ℕ
inside_count p = one_if (is_inside p)

all_outside :
    (threads : List Spot)
    → total inside_count threads ≡ 0
    → (places : List Place) × (threads ≡ map outside places)
unfolding total inside_count is_inside
all_outside [] h = ([], refl)
all_outside (outside p ∷ threads) h =
    let (places, same) = all_outside threads (omega (arith, h)) in
    (p ∷ places, ap (λ ts. outside p ∷ ts) same)
all_outside (_ ∷ threads) h = absurd (omega (arith, h))

no_owner : (l : Lock) (places : List Place) → total (owns l) (map outside places) ≡ 0
unfolding total owns
no_owner l [] = refl
no_owner l (p ∷ places) = omega (arith, no_owner l places)

nothing_left :
    (j : ℕ) (st : Store) (places : List Place) → on_the_way j st (map outside places) ≡ []
unfolding on_the_way gather owed
nothing_left j st [] = refl
nothing_left j st (p ∷ places) = nothing_left j st places

outside-Settles : {s : Machine} (reach : Reach s) → total inside_count s.threads ≡ 0 → Settles reach
unfolding carry_on
outside-Settles {s} reach h =
    let (places, same) = all_outside s.threads h in
    record {
      settled = s;
      finishing = rest;
      places = places;
      threads_lem = same;
      locks_lem =
          λ l. ground (arith, Reach-IsOwned reach l, ap (total (owns l)) same, no_owner l places);
      delivered = λ j.
          sent_in-received_in j reach
          ∙ ap (λ x. received_in j reach ++ (queue_in s.memory.store.users j ++ x))
              (ap (on_the_way j s.memory.store) same ∙ nothing_left j s.memory.store places)
          ∙ ap (◌++◌ (received_in j reach)) (append-nil (queue_in s.memory.store.users j));
    }

first-Settles :
    {s : Machine} {p q : Spot} {m : Memory} (reach : Reach s) (i : ℕ)
    (at : get_elem? s.threads i ≡ some p) (h : is_inside p ≡ true) (mv : Move i s.memory p m q)
    → Settles (next reach (move i at mv))
    → Settles reach
unfolding carry_on
first-Settles reach i at h mv f = record {
  settled = f.settled;
  finishing = go i at h mv f.finishing;
  places = f.places;
  threads_lem = f.threads_lem;
  locks_lem = f.locks_lem;
  delivered = f.delivered;
}

counted_inside : (p : Spot) → 0 < inside_count p → is_inside p ≡ true
unfolding inside_count
counted_inside p h = ground arith

-- A thread that is inside can take a step, or one that it is behind.
inside_goes_on :
    {s : Machine}
    → Reach s
    → 0 < total inside_count s.threads
    → (k : ℕ) × (p : Spot) × (get_elem? s.threads k ≡ some p)
      × (is_inside p ≡ true)
      × (m : Memory) × (q : Spot) × Move k s.memory p m q
inside_goes_on {s} reach h =
    let (i, p, at, some_inside) = total-pos inside_count s.threads h in
    let inside = counted_inside p some_inside in
    let (k, x, at_k, behind, (m, q, mv)) = Reach-GoesOn i p reach at (inside_unfinished p inside) in
    (k, x, at_k, Behind-inside p x behind at inside at_k, m, q, mv)

-- A step of a thread that is inside, and then what follows for the state after it.
one_step :
    (a : ℕ)
    → ((s : Machine) (reach : Reach s) → total starting s.threads < a → Settles reach)
    → (s : Machine) (reach : Reach s) → total starting s.threads ≤ a
    → ((t : Machine) (there : Reach t)
        → total starting t.threads ≤ a
        → total steps_left t.threads < total steps_left s.threads
        → Settles there)
    → Settles reach
one_step a fewer s reach ha shorter = elim (zero-or-pos (total inside_count s.threads)) [
  | inl none_inside ↦ outside-Settles reach none_inside
  | inr some_inside ↦
      let (k, p, at, h, m, q, mv) = inside_goes_on reach some_inside in
      let a_lem = total-set starting s.threads k p q at in
      let b_lem = total-set steps_left s.threads k p q at in
      first-Settles reach k at h mv (elim (Move-shorter mv h) [
        | inl e ↦ fewer _ (next reach (move k at mv)) (omega (arith, e, a_lem, ha))
        | inr (same, lt) ↦
            shorter _ (next reach (move k at mv)) (omega (arith, same, a_lem, ha))
              (omega (arith, lt, b_lem))
      ])
]

shorter_first :
    (a : ℕ)
    → ((s : Machine) (reach : Reach s) → total starting s.threads < a → Settles reach)
    → (b : ℕ) (s : Machine) (reach : Reach s) → total starting s.threads ≤ a
    → total steps_left s.threads ≤ b
    → Settles reach
shorter_first a fewer zero s reach ha hb =
    one_step a fewer s reach ha (λ t there ht lt. absurd (omega (arith, hb, lt)))
shorter_first a fewer (suc b) s reach ha hb =
    one_step a fewer s reach ha
      (λ t there ht lt. shorter_first a fewer b t there ht (omega (arith, hb, lt)))

fewer_first : (a : ℕ) (s : Machine) (reach : Reach s) → total starting s.threads < a → Settles reach
fewer_first zero s reach h = absurd (omega arith)
fewer_first (suc a) s reach h =
    shorter_first a (fewer_first a) (total steps_left s.threads) s reach (omega (arith, h))
      (omega arith)

-- From every state that the server's threads can reach with their locks, steps of threads that are
-- in a method with a guard lead to a state in which every thread is outside all guards and no lock
-- is held, and in which each user has received, in order, all that the broadcasts begun owe to it,
-- but for what waits in its queue: whatever was begun can be finished, with nothing new begun.
pub Reach-Settles : {s : Machine} (reach : Reach s) → Settles reach
Reach-Settles {s} reach = fewer_first (suc (total starting s.threads)) s reach (omega arith)
