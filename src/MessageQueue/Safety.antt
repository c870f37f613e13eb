-- ===== src/MessageQueue/Safety.antt =====
-- What holds whichever way the threads of a queue interleave.
use csf_hw.Prelude.{
  ℕ, ◌+◌, ◌≤◌, ◌≡◌, refl, ap, ◌∙◌, ◌≢◌, Bool, true, false, List, [], ◌∷◌, ◌++◌, append_assoc, some,
  get_elem?, set, length, length-append, arith, total, total-set, total-ge, total-ge_two,
}
use csf_hw.MessageQueue.Counting.{total-all_idle}
use csf_hw.MessageQueue.Threads.{
  Shared, Pc, taking, Move, call_enqueue, lock_enqueue, push_back, post, unlock, call_dequeue,
  wait_granted, wait_expired, lock_dequeue, take, give_up, System, Step, pick, Reach, here, next,
  holds, owes,
}

abbrev pub held_count : Bool → ℕ
held_count true = 1
held_count false = 0

held_count-le : (b : Bool) → held_count b ≤ 1
held_count-le true = omega arith
held_count-le false = omega arith

-- The lock has one owner if it is held; the semaphore and the threads under way account for every
-- message in the deque; and what came out, with what is left, is what went in, in order.
pub record Inv (m : Shared) (ps : List Pc) : Type 0 where
  pub owned : total holds ps ≡ held_count m.m_lock
  pub counted : m.m_avail + total owes ps ≡ length m.m_messages
  pub ordered : m.put ≡ m.got ++ m.m_messages

Move-Inv :
    {m m' : Shared} {p q : Pc} (ps ps' : List Pc)
    → Move m p m' q
    → total holds ps' + holds p ≡ total holds ps + holds q
    → total owes ps' + owes p ≡ total owes ps + owes q
    → holds p ≤ total holds ps
    → Inv m ps
    → Inv m' ps'
Move-Inv ps ps' (call_enqueue msg) h o l v = ground arith
Move-Inv ps ps' (lock_enqueue free) h o l v = ground arith
Move-Inv {m} ps ps' (push_back {msg}) h o l v = record {
  owned = ground arith;
  counted = omega (arith, v.counted, length-append m.m_messages (msg ∷ []));
  ordered = rw v.ordered (append_assoc m.got m.m_messages (msg ∷ []));
}
Move-Inv ps ps' post h o l v = ground arith
Move-Inv ps ps' unlock h o l v = ground arith
Move-Inv ps ps' call_dequeue h o l v = ground arith
Move-Inv ps ps' (wait_granted some_left) h o l v = ground arith
Move-Inv ps ps' (wait_expired none_left) h o l v = ground arith
Move-Inv ps ps' (lock_dequeue {granted} free) h o l v = ground arith
Move-Inv {m} ps ps' (take {msg} {rest} e) h o l v = record {
  owned = ground arith;
  counted = omega (arith, v.counted, ap length e);
  ordered = simp append_assoc (v.ordered ∙ rw e);
}
Move-Inv ps ps' give_up h o l v = ground arith

Step-Inv : {s t : System} → Step s t → Inv s.mem s.threads → Inv t.mem t.threads
Step-Inv {s} (pick i {p} {q} at mv) v =
    Move-Inv s.threads (set s.threads i q) mv (total-set holds s.threads i p q at)
      (total-set owes s.threads i p q at) (total-ge holds s.threads i p at) v

-- Every state that `n` threads can reach from a new queue keeps the invariant.
pub Reach-Inv : {n : ℕ} {s : System} → Reach n s → Inv s.mem s.threads
Reach-Inv {n} here = record {
  owned = total-all_idle holds n refl;
  counted = omega (arith, total-all_idle owes n refl);
  ordered = refl;
}
Reach-Inv (next r st) = Step-Inv st (Reach-Inv r)

-- In every state that threads can reach from a new queue, two different threads are never both
-- between the constructor and the destructor of their guards.
pub mutual_exclusion :
    {n : ℕ} {s : System}
    → Reach n s
    → (i j : ℕ) (p q : Pc) → get_elem? s.threads i ≡ some p
    → get_elem? s.threads j ≡ some q
    → i ≢ j
    → ¬ ((holds p ≡ 1) × (holds q ≡ 1))
mutual_exclusion {s} r i j p q at_i at_j differ (in_i, in_j) = omega (
  arith,
  total-ge_two holds s.threads i j p q at_i at_j differ,
  owned,
  held_count-le s.mem.m_lock,
)
  where
    open (Reach-Inv r) use {owned}

-- In every state that any number of threads calling `enqueue` and `dequeue` can reach from a new
-- queue, however they interleave, a thread that `sem_timedwait` let through and that holds the lock
-- finds the deque not empty: `front` is never called on an empty deque.
pub front_defined :
    {n : ℕ} {s : System}
    → Reach n s
    → (i : ℕ) → get_elem? s.threads i ≡ some (taking true)
    → s.mem.m_messages ≢ []
front_defined {s} r i at e =
    omega (arith, total-ge owes s.threads i (taking true) at, counted, ap length e)
  where
    open (Reach-Inv r) use {counted}

-- In every state that threads can reach from a new queue, the messages put in so far are, in order,
-- those taken out so far followed by those in the deque: none is lost, doubled or overtaken.
pub delivered_in_order :
    {n : ℕ} {s : System} → Reach n s → s.mem.put ≡ s.mem.got ++ s.mem.m_messages
delivered_in_order r = (Reach-Inv r).ordered
