-- ===== src/Tests/LocksTests.antt =====
-- A run of the server's threads with their locks: ann as a sender, bob as a receiver, both in room
-- `r`.
use csf_hw.Prelude.{
  ◌++◌, ℕ, ◌⊎◌, ◌≢◌, ◌≡◌, refl, true, false, [], ◌∷◌, Option, some, get_elem?, arith,
}
use csf_hw.Text.{codes, str_eq}
use csf_hw.Message.{Message, make_message, tag_join, tag_sendall, tag_delivery}
use csf_hw.Room.{
  Room, add_member, member_exists, set_insert, set_has, remove_newline, find_char, delivery_text,
}
use csf_hw.Server.{find_or_create_room, at_room, create_user}
use csf_hw.Server.Spec.{queue_in}
use csf_hw.Server.Threads.{
  draining, heard, take, request_of, greeted, answered, tell_if, hear, seek, enter, look_tell,
  answer, greet, admit, enroll,
}
use csf_hw.Server.Locks.{
  of_queue, visiting, outside, posting, fetching, Loop, put_lock, guard_of, is_unguarded,
  is_broadcast, go_on, lock, run, unlock, begin, skip, compose, lock_queue, push_back, post,
  unlock_queue, wait, lock_own, Spot, Memory, Move, Step, Machine, login, move, Reach, here, next,
}
use csf_hw.MessageQueue.{take_message, pop_front}
use csf_hw.Server.Locks as Locks
use csf_hw.Server.Locks.Owed.{owed_rest}
use csf_hw.Server.Locks.Races.{Moves-exclude}
use csf_hw.Server.Locks.Guarding.{Guards, Step-Guards}
use csf_hw.Server.Locks.Shows.{on_the_way}
use csf_hw.Server.Locks.Refines.{Histories, Reach-Shown}
use csf_hw.Server.Locks.History.{sent_in, received_in, sent_by, received_by}
use csf_hw.Server.Locks.Delivered.{sent_in-received_in}
use csf_hw.Server.Locks.Moving.{is_finished}
use csf_hw.Server.Locks.Progress.{GoesOn, Reach-GoesOn}
use csf_hw.Server.Locks.Serial.{machine_of, Reach-Serial}
use csf_hw.Tests.ThreadsTests.{telling_hi}
use csf_hw.Server.Locks.Settling.{Settles, Reach-Settles}
use csf_hw.Server.Locks.Waiting.{granted_finds, expiring_finds}

abbrev join_r : Option Message
join_r = some (make_message tag_join (codes "r"))

abbrev say_hi : Option Message
say_hi = some (make_message tag_sendall (codes "hi"))

-- Bob has joined, and ann is about to.
abbrev bob_in : (s : Machine) × Reach s
unfolding find_or_create_room at_room create_user heard take request_of str_eq greeted put_lock
    guard_of is_unguarded is_broadcast add_member set_insert
bob_in = (
  _,
  next
      (next
        (next
          (next
            (next
              (next
                (next (next (next here (login (codes "ann") true)) (login (codes "bob") false))
                  (move 1 refl (go_on refl (greet join_r))))
                (move 1 refl (lock refl refl)))
              (move 1 refl (run refl refl (admit refl))))
            (move 1 refl unlock))
          (move 1 refl (lock refl refl)))
        (move 1 refl (run refl refl (enroll refl))))
      (move 1 refl unlock),
)

-- Ann has joined too.
abbrev both_in : (s : Machine) × Reach s
unfolding find_or_create_room at_room create_user heard take request_of str_eq greeted answered
    tell_if member_exists set_has put_lock guard_of is_unguarded is_broadcast add_member set_insert
both_in = (
  _,
  next
      (next
        (next
          (next
            (next
              (next
                (next (next (bob_in.1) (move 0 refl (go_on refl (hear join_r))))
                  (move 0 refl (lock refl refl)))
                (move 0 refl (run refl refl (seek refl))))
              (move 0 refl unlock))
            (move 0 refl (lock refl refl)))
          (move 0 refl (run refl refl (enter refl))))
        (move 0 refl unlock))
      (move 0 refl (go_on refl answer)),
)

-- Ann's broadcast has begun, and has still to visit both.
abbrev begun : (s : Machine) × Reach s
unfolding find_or_create_room at_room create_user heard take request_of str_eq greeted answered
    tell_if member_exists set_has put_lock guard_of is_unguarded is_broadcast add_member set_insert
begun = (
  _,
  next
      (next
        (next (next (both_in.1) (move 0 refl (go_on refl (hear say_hi))))
          (move 0 refl (go_on refl (look_tell refl))))
        (move 0 refl (lock refl refl)))
      (move 0 refl (begin refl refl)),
)

-- It has pushed the message for bob.
abbrev pushed : (s : Machine) × Reach s
unfolding find_or_create_room at_room create_user heard take request_of str_eq greeted answered
    tell_if member_exists set_has put_lock guard_of is_unguarded is_broadcast add_member set_insert
    remove_newline find_char delivery_text
pushed = (
  _,
  next
      (next
        (next (next (begun.1) (move 0 refl (skip refl refl refl)))
          (move 0 refl (compose refl refl refl refl)))
        (move 0 refl (lock_queue refl)))
      (move 0 refl (push_back refl)),
)

-- It has announced it, and bob's thread is about to take it.
abbrev granted : (s : Machine) × Reach s
unfolding find_or_create_room at_room create_user heard take request_of str_eq greeted answered
    tell_if member_exists set_has put_lock guard_of is_unguarded is_broadcast add_member set_insert
    remove_newline find_char delivery_text
granted = (
  _,
  next
      (next (next (next (pushed.1) (move 0 refl (post refl))) (move 0 refl unlock_queue))
        (move 1 refl (wait refl refl)))
      (move 1 refl (lock_own refl)),
)

-- What is shown while ann's broadcast is under way.
Reach-Shown_example : Histories pushed.1
Reach-Shown_example = Reach-Shown pushed.1

-- In that state ann's thread can announce the message, and bob's can wait for it.
abbrev before_post : Spot
before_post = posting (record { room = 0; sender = codes "ann"; text = codes "hi"; rest = [] }) 1

abbrev posts : (m : Memory) × (q : Spot) × Move 0 pushed.0.memory before_post m q
unfolding pushed
posts = (_, _, post refl)

abbrev waits : (m : Memory) × (q : Spot) × Move 1 pushed.0.memory (outside (draining 0)) m q
unfolding pushed
waits = (_, _, wait refl refl)

abbrev the_room : Room
the_room = record { room_name = codes "r"; members = 0 ∷ 1 ∷ [] }

Moves-exclude_example :
    ((posts.0.store.m_rooms ≡ pushed.0.memory.store.m_rooms)
      ⊎ (waits.0.store.m_rooms ≡ pushed.0.memory.store.m_rooms))
    × ((get_elem? posts.0.store.rooms 0 ≡ some the_room)
        ⊎ (get_elem? waits.0.store.rooms 0 ≡ some the_room))
    × ((queue_in posts.0.store.users 1 ≡ queue_in pushed.0.memory.store.users 1)
        ⊎ (queue_in waits.0.store.users 1 ≡ queue_in pushed.0.memory.store.users 1))
unfolding pushed
Moves-exclude_example =
    Moves-exclude 0 1 before_post (outside (draining 0)) posts.1 waits.1 posts.0 waits.0 0 1
      the_room pushed.1 refl refl (λ e. omega (arith, e)) posts.2 waits.2 refl

abbrev at_both : Spot
at_both = visiting (record { room = 0; sender = codes "ann"; text = codes "hi"; rest = 0 ∷ 1 ∷ [] })

-- Ann's thread passes her own user over.
abbrev skipped : (t : Machine) × Step begun.0 t
unfolding begun
skipped = (_, move 0 refl (skip refl refl refl))

Step-Guards_example : Guards 0 at_both begun.0.memory skipped.0.memory
unfolding begun
Step-Guards_example = Step-Guards 0 at_both begun.1 refl skipped.1

-- Bob's wait has expired meanwhile, and he is behind ann, whose thread has the lock of his queue.
abbrev blocked : (s : Machine) × Reach s
unfolding pushed
blocked = (_, next pushed.1 (move 1 refl (wait refl refl)))

Reach-GoesOn_example : GoesOn blocked.0 1
unfolding blocked is_finished
Reach-GoesOn_example = Reach-GoesOn 1 (fetching 1 false 0) blocked.1 refl refl

granted_finds_example : queue_in granted.0.memory.store.users 1 ≢ []
unfolding granted
granted_finds_example = granted_finds 1 0 granted.1 refl

expiring_finds_example :
    (queue_in pushed.0.memory.store.users 1 ≡ [])
    ⊎ ((msg : Message) × (queue_in pushed.0.memory.store.users 1 ≡ msg ∷ [])
        × (j : ℕ) × (loop : Loop) × (get_elem? pushed.0.threads j ≡ some (posting loop 1)))
unfolding pushed
expiring_finds_example = expiring_finds 1 0 pushed.1 refl refl

-- Bob's thread takes the message; ann's still holds the lock of the room.
abbrev taken : (s : Machine) × Reach s
unfolding granted take_message pop_front
taken = (_, next granted.1 (move 1 refl (Locks.take refl refl)))

sent_in-received_in_example :
    sent_in 1 taken.1
    ≡ received_in 1 taken.1
      ++ (queue_in taken.0.memory.store.users 1
          ++ on_the_way 1 taken.0.memory.store taken.0.threads)
sent_in-received_in_example = sent_in-received_in 1 taken.1

bob_receives : received_in 1 taken.1 ≡ make_message tag_delivery (codes "r:ann:hi") ∷ []
unfolding taken granted pushed begun both_in bob_in received_in received_by
bob_receives = refl

ann_sends : sent_in 1 taken.1 ≡ make_message tag_delivery (codes "r:ann:hi") ∷ []
unfolding taken granted pushed begun both_in bob_in sent_in sent_by owed_rest remove_newline
    find_char delivery_text set_has str_eq
ann_sends = refl

Reach-Settles_example : Settles blocked.1
Reach-Settles_example = Reach-Settles blocked.1

-- The run of Tests/ThreadsTests, with locks.
Reach-Serial_example : Reach (machine_of telling_hi.0)
Reach-Serial_example = Reach-Serial telling_hi.1
