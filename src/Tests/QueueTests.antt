-- ===== src/Tests/QueueTests.antt =====
-- Runs of message_queue.cpp, and its theorems at concrete inputs.
use csf_hw.Prelude.{List, ◌≡◌, refl, ◌≢◌, true, false, [], ◌∷◌, some, arith}
use csf_hw.Outcome.{done}
use csf_hw.Text.{codes}
use csf_hw.Message.{Message, make_message, tag_delivery}
use csf_hw.MessageQueue.{MessageQueue, new_queue, dequeue}
use csf_hw.MessageQueue.Threads.{
  System, idle, pushing, taking, call_enqueue, lock_enqueue, push_back, post, unlock, call_dequeue,
  wait_granted, lock_dequeue, pick, Reach, here, next,
}
use csf_hw.MessageQueue.Safety.{front_defined}

abbrev hello : Message
hello = make_message tag_delivery (codes "lobby:ann:hi")

abbrev one_message : MessageQueue
one_message = record { m_avail = 1; m_messages = hello ∷ [] }

dequeue_run : dequeue one_message ≡ done (some hello, new_queue)
unfolding dequeue
dequeue_run = refl

-- Thread 0 is inside `enqueue`, thread 1 outside.
abbrev enqueuing : System
enqueuing = record {
  mem = record { m_lock = true; m_avail = 0; m_messages = []; put = []; got = [] };
  threads = pushing hello ∷ idle ∷ [];
}

Reach-enqueuing : Reach 2 enqueuing
Reach-enqueuing =
    next (next here (pick 0 refl (call_enqueue hello))) (pick 0 refl (lock_enqueue refl))

-- Thread 0 is through, and thread 1 is inside `dequeue` with a message granted.
abbrev dequeuing : System
dequeuing = record {
  mem = record { m_lock = true; m_avail = 0; m_messages = hello ∷ []; put = hello ∷ []; got = [] };
  threads = idle ∷ taking true ∷ [];
}

-- Thread 0 is through, and nobody is inside.
abbrev enqueued : System
enqueued = record {
  mem = record { m_lock = false; m_avail = 1; m_messages = hello ∷ []; put = hello ∷ []; got = [] };
  threads = idle ∷ idle ∷ [];
}

Reach-enqueued : Reach 2 enqueued
Reach-enqueued =
    next (next (next Reach-enqueuing (pick 0 refl push_back)) (pick 0 refl post))
      (pick 0 refl unlock)

Reach-dequeuing : Reach 2 dequeuing
Reach-dequeuing =
    next
      (next (next Reach-enqueued (pick 1 refl call_dequeue))
        (pick 1 refl (wait_granted (omega arith))))
      (pick 1 refl (lock_dequeue refl))

front_defined_example : ◌≢◌ {A = List Message} (hello ∷ []) []
front_defined_example = front_defined Reach-dequeuing 1 refl
