-- ===== src/MessageQueue/Fifo.antt =====
-- Called by one thread at a time, a queue is a list that grows at its end and shrinks at its head.
use csf_hw.Prelude.{
  ℕ, zero, suc, map, append-nil, ◌≡◌, refl, List, [], ◌∷◌, ◌++◌, append_assoc, length,
  length-append, Option, none, some, ap, ◌∙◌, arith,
}
use csf_hw.Outcome.{Outcome, done, ◌>>=◌}
use csf_hw.Message.{Message}
use csf_hw.MessageQueue.{MessageQueue, new_queue, enqueue, dequeue}

-- The semaphore counts the messages.
abbrev pub IsCounted : MessageQueue → Type 0
IsCounted q = q.m_avail ≡ length q.m_messages

-- What a reader gets from a list of messages, and the list that is left.
abbrev pub head_of : List Message → Option Message
head_of [] = none
head_of (msg ∷ rest) = some msg

abbrev pub tail_of : List Message → List Message
tail_of [] = []
tail_of (msg ∷ rest) = rest

pub enqueue-IsCounted : (msg : Message) (q : MessageQueue) → IsCounted q → IsCounted (enqueue msg q)
unfolding enqueue
enqueue-IsCounted msg q h = omega (arith, length-append q.m_messages (msg ∷ []))

dequeue_parts :
    (avail : ℕ) (msgs : List Message)
    → avail ≡ length msgs
    → (q : MessageQueue) × (dequeue (record { m_avail = avail; m_messages = msgs })
        ≡ done (head_of msgs, q))
      × (q.m_messages ≡ tail_of msgs)
      × IsCounted q
unfolding dequeue
dequeue_parts avail [] h = (record { m_avail = 0; m_messages = [] }, rw h, refl, refl)
dequeue_parts avail (msg ∷ rest) h =
    (record { m_avail = length rest; m_messages = rest }, rw h, refl, refl)

-- If the semaphore counts the messages, `dequeue` is defined and returns the oldest message, or
-- null exactly if there is none; it leaves the others in order, and the semaphore counts them
-- again.
pub dequeue_lem :
    (q : MessageQueue)
    → IsCounted q
    → (q' : MessageQueue) × (dequeue q ≡ done (head_of q.m_messages, q'))
      × (q'.m_messages ≡ tail_of q.m_messages)
      × IsCounted q'
dequeue_lem q h = dequeue_parts q.m_avail q.m_messages h

unfoldable pub enqueue_all : List Message → MessageQueue → MessageQueue
enqueue_all [] q = q
enqueue_all (msg ∷ msgs) q = enqueue_all msgs (enqueue msg q)

-- `n` calls of `dequeue`, and what they return.
unfoldable pub dequeue_all : ℕ → MessageQueue → Outcome (List (Option Message))
dequeue_all zero q = done []
dequeue_all (suc n) q = do (got, q') ← dequeue q; more ← dequeue_all n q'; done (got ∷ more)

enqueue_all-IsCounted :
    (msgs : List Message) (q : MessageQueue)
    → IsCounted q
    → IsCounted (enqueue_all msgs q) × ((enqueue_all msgs q).m_messages ≡ q.m_messages ++ msgs)
unfolding enqueue_all
enqueue_all-IsCounted [] q h = (h, simp append-nil)
enqueue_all-IsCounted (msg ∷ msgs) q h =
    let (counted, holds) = enqueue_all-IsCounted msgs (enqueue msg q) (enqueue-IsCounted msg q h) in
    (counted, holds ∙ unfold enqueue in append_assoc q.m_messages (msg ∷ []) msgs)

dequeue_all-counted :
    (msgs : List Message) (q : MessageQueue)
    → IsCounted q
    → q.m_messages ≡ msgs
    → dequeue_all (length msgs) q ≡ done (map some msgs)
unfolding dequeue_all
dequeue_all-counted [] q h e = refl
dequeue_all-counted (msg ∷ msgs) q h e =
    let (q', returns, left, counted) = dequeue_lem q h in
    rw (returns, e) (rw (dequeue_all-counted msgs q' counted (left ∙ ap tail_of e)) refl)

-- The messages put on a new queue come out by as many calls of `dequeue`, all of them and in the
-- same order.
pub dequeue_all-enqueue_all :
    (msgs : List Message)
    → dequeue_all (length msgs) (enqueue_all msgs new_queue) ≡ done (map some msgs)
dequeue_all-enqueue_all msgs =
    let (counted, holds) = enqueue_all-IsCounted msgs new_queue refl in
    dequeue_all-counted msgs (enqueue_all msgs new_queue) counted holds
