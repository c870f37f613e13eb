-- ===== src/MessageQueue.antt =====
-- message_queue.h and message_queue.cpp: the queue of messages that wait for a receiver. Here each
-- method runs alone; MessageQueue/Threads has the threads that call them. Messages are values: the
-- pointer that is queued is the only one to its message.
pub mod Threads
pub mod Counting
pub mod Safety
pub mod Progress
pub mod Fifo
use csf_hw.Prelude.{ℕ, zero, suc, Bool, true, false, List, [], ◌∷◌, ◌++◌, Option, none, some}
use csf_hw.Outcome.{Outcome, done, undefined, ◌>>=◌}
use csf_hw.Message.{Message}

pub record MessageQueue : Type 0 where
  pub m_avail : ℕ  -- the value of the semaphore
  pub m_messages : List Message

-- `MessageQueue ()`: the semaphore starts at 0.
abbrev pub new_queue : MessageQueue
new_queue = record { m_avail = 0; m_messages = [] }

abbrev pub sem_post : ℕ → ℕ
sem_post n = suc n

-- `sem_timedwait` returns 0 and takes one if there is one when its second is over; else it fails.
abbrev pub sem_timedwait : ℕ → Bool × ℕ
sem_timedwait zero = (false, zero)
sem_timedwait (suc n) = (true, n)

unfoldable pub enqueue : Message → MessageQueue → MessageQueue
enqueue msg q = record q { m_messages = q.m_messages ++ msg ∷ []; m_avail = sem_post q.m_avail }

-- `m_messages.front ()` and `m_messages.pop_front ()`: undefined on an empty deque.
unfoldable pub pop_front : List Message → Outcome (Message × List Message)
pop_front [] = undefined
pop_front (msg ∷ rest) = done (msg, rest)

-- `dequeue` from the second lock on.
unfoldable pub take_message : Bool → MessageQueue → Outcome (Option Message × MessageQueue)
unfolding pop_front
take_message true q = do
  (msg, rest) ← pop_front q.m_messages
  done (some msg, record q { m_messages = rest })
take_message false q = done (none, q)

unfoldable pub dequeue : MessageQueue → Outcome (Option Message × MessageQueue)
unfolding take_message
dequeue q =
    let (granted, avail) = sem_timedwait q.m_avail in
    take_message granted (record q { m_avail = avail })
