-- ===== src/MessageQueue/Threads.antt =====
-- Threads that call `enqueue` and `dequeue` of one queue, one access to shared memory at a time.
use csf_hw.Prelude.{
  ℕ, zero, suc, ◌-◌, ◌<◌, ◌≡◌, Bool, true, false, List, [], ◌∷◌, ◌++◌, some, get_elem?, set,
}
use csf_hw.Message.{Message}
use csf_hw.MessageQueue.{sem_post}

-- The members of the queue. `put` and `got` record the messages that went in and came out.
pub record Shared : Type 0 where
  pub m_lock : Bool  -- held by a thread
  pub m_avail : ℕ
  pub m_messages : List Message
  pub put : List Message
  pub got : List Message

-- Where a thread stands, with its local variables.
pub data Pc : Type 0 where
  idle : Pc
  entering : Message → Pc  -- `enqueue`, at its guard
  pushing : Message → Pc  -- before `push_back`
  posting : Pc  -- before `sem_post`
  waiting : Pc  -- `dequeue`, at `sem_timedwait`
  locking : Bool → Pc  -- at its guard, with `sem == 0`
  taking : Bool → Pc  -- before `if (sem == 0)`
  leaving : Pc  -- before the guard's destructor

-- At `taking true` with an empty deque `front` is undefined, and there is no move.
pub data Move (m : Shared) : Pc → Shared → Pc → Type 0 where
  call_enqueue : (msg : Message) → Move m idle m (entering msg)
  lock_enqueue :
      {msg : Message}
      → m.m_lock ≡ false
      → Move m (entering msg) (record m { m_lock = true }) (pushing msg)
  push_back :
      {msg : Message}
      → Move m
          (pushing msg)
          (record m { m_messages = m.m_messages ++ msg ∷ []; put = m.put ++ msg ∷ [] })
          posting
  post : Move m posting (record m { m_avail = sem_post m.m_avail }) leaving
  unlock : Move m leaving (record m { m_lock = false }) idle
  call_dequeue : Move m idle m waiting
  wait_granted :
      0 < m.m_avail → Move m waiting (record m { m_avail = m.m_avail - 1 }) (locking true)
  wait_expired : m.m_avail ≡ 0 → Move m waiting m (locking false)
  lock_dequeue :
      {granted : Bool}
      → m.m_lock ≡ false
      → Move m (locking granted) (record m { m_lock = true }) (taking granted)
  take :
      {msg : Message} {rest : List Message}
      → m.m_messages ≡ msg ∷ rest
      → Move m (taking true) (record m { m_messages = rest; got = m.got ++ msg ∷ [] }) leaving
  give_up : Move m (taking false) m leaving

pub record System : Type 0 where
  pub mem : Shared
  pub threads : List Pc

pub data Step (s : System) : System → Type 0 where
  pick :
      (i : ℕ) {p q : Pc} {m : Shared}
      → get_elem? s.threads i ≡ some p
      → Move s.mem p m q
      → Step s (record { mem = m; threads = set s.threads i q })

abbrev pub all_idle : ℕ → List Pc
all_idle zero = []
all_idle (suc n) = idle ∷ all_idle n

-- A new queue and `n` threads outside its methods.
abbrev pub start : ℕ → System
start n = record {
  mem = record { m_lock = false; m_avail = 0; m_messages = []; put = []; got = [] };
  threads = all_idle n;
}

pub data Reach (n : ℕ) : System → Type 0 where
  here : Reach n (start n)
  next : {s t : System} → Reach n s → Step s t → Reach n t

-- Between the constructor and the destructor of a guard.
abbrev pub holds : Pc → ℕ
holds (pushing _) = 1
holds posting = 1
holds (taking _) = 1
holds leaving = 1
holds _ = 0

-- A message has been granted and is still queued, or is queued and not yet announced.
abbrev pub owes : Pc → ℕ
owes (locking true) = 1
owes (taking true) = 1
owes posting = 1
owes _ = 0
