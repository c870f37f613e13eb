-- ===== src/Tests/ThreadsTests.antt =====
-- A run of the server's threads: ann as a sender, bob as a receiver, both in room `r`.
use csf_hw.Prelude.{◌≡◌, refl, true, false, [], ◌∷◌, ◌++◌, Option, some, get_elem?}
use csf_hw.Text.{codes, str_eq}
use csf_hw.Message.{Message, make_message, tag_join, tag_sendall, tag_delivery}
use csf_hw.Room.{
  Room, add_member, member_exists, set_insert, set_has, broadcast_message, broadcast_loop, deliver,
  remove_newline, find_char, delivery_text,
}
use csf_hw.MessageQueue.{enqueue, dequeue, pop_front, take_message}
use csf_hw.Server.Chat.{broadcast_in}
use csf_hw.Room.Broadcast.{delivery}
use csf_hw.Server.{find_or_create_room, at_room, create_user}
use csf_hw.Server.Spec.{queue_in}
use csf_hw.Server.Threads.{
  draining, heard, take, request_of, greeted, answered, tell_if, telling, hear, seek, enter,
  look_tell, tell, answer, greet, admit, enroll, drain, World, login, act, Reach, here, next,
}
use csf_hw.Server.Threads.Reachable.{IsSafe, Reach-IsSafe}
use csf_hw.Server.Threads.History.{queued_in, taken_in, taken_by, queued_in-taken_in}
use csf_hw.Server.Threads.Delivery.{taken_in-queued_in}
use csf_hw.Server.Threads.Progress.{Calls, CanAct, Reach-CanAct, telling-draining}

abbrev join_r : Option Message
join_r = some (make_message tag_join (codes "r"))

abbrev say_hi : Option Message
say_hi = some (make_message tag_sendall (codes "hi"))

-- Bob joins while ann does.
abbrev joined : (w : World) × Reach w
unfolding find_or_create_room at_room create_user heard take request_of str_eq greeted
joined = (
  _,
  next
      (next
        (next
          (next
            (next
              (next
                (next (next (next here (login (codes "ann") true)) (login (codes "bob") false))
                  (act 1 refl (greet join_r)))
                (act 0 refl (hear join_r)))
              (act 0 refl (seek refl)))
            (act 1 refl (admit refl)))
          (act 1 refl (enroll refl)))
        (act 0 refl (enter refl)))
      (act 0 refl answer),
)

-- The test on the members is true, and ann is about to tell.
abbrev pub telling_hi : (w : World) × Reach w
unfolding find_or_create_room at_room create_user heard take request_of str_eq greeted answered
    tell_if member_exists set_has add_member set_insert
telling_hi = (_, next (next joined.1 (act 0 refl (hear say_hi))) (act 0 refl (look_tell refl)))

Reach-IsSafe_example : IsSafe telling_hi.0
Reach-IsSafe_example = Reach-IsSafe telling_hi.1

Reach-CanAct_example :
    Calls 0 telling_hi.0.store (telling (codes "hi") 0)
    × CanAct 0 telling_hi.0.store (telling (codes "hi") 0)
unfolding find_or_create_room at_room create_user heard take request_of str_eq greeted answered
    tell_if member_exists set_has add_member set_insert
Reach-CanAct_example = Reach-CanAct 0 (telling (codes "hi") 0) telling_hi.1 refl refl

-- The state after the text is sent.
told : CanAct 0 telling_hi.0.store (telling (codes "hi") 0)
unfolding find_or_create_room at_room create_user heard take request_of str_eq greeted answered
    tell_if member_exists set_has add_member set_insert
told = (Reach-CanAct 0 (telling (codes "hi") 0) telling_hi.1 refl refl).1

telling-draining_example :
    (room : Room) × (get_elem? telling_hi.0.store.rooms 0 ≡ some room)
    × (queue_in told.0.users 1
        ≡ queue_in telling_hi.0.store.users 1
          ++ delivery room.room_name (codes "ann") (codes "hi") ∷ [])
unfolding find_or_create_room at_room create_user heard take request_of str_eq greeted answered
    tell_if member_exists set_has add_member set_insert
telling-draining_example =
    telling-draining 0 1 0 (codes "hi") _ _ telling_hi.1 refl refl refl refl refl told.2

-- Bob's thread takes the text, and its queue is empty again.
abbrev drained_hi : (w : World) × Reach w
unfolding find_or_create_room at_room create_user heard take request_of str_eq greeted answered
    tell_if member_exists set_has add_member set_insert broadcast_in broadcast_message
    broadcast_loop deliver enqueue remove_newline find_char delivery_text dequeue pop_front
    take_message
drained_hi = (_, next (next telling_hi.1 (act 0 refl (tell refl))) (act 1 refl (drain refl refl)))

queued_in-taken_in_example :
    queued_in 1 drained_hi.1 ≡ taken_in 1 drained_hi.1 ++ queue_in drained_hi.0.store.users 1
queued_in-taken_in_example = queued_in-taken_in 1 drained_hi.1

bob_takes : taken_in 1 drained_hi.1 ≡ make_message tag_delivery (codes "r:ann:hi") ∷ []
unfolding taken_in taken_by drained_hi
bob_takes = refl

-- Before Bob's thread takes the text.
abbrev told_hi : (w : World) × Reach w
unfolding find_or_create_room at_room create_user heard take request_of str_eq greeted answered
    tell_if member_exists set_has add_member set_insert broadcast_in broadcast_message
    broadcast_loop deliver enqueue remove_newline find_char delivery_text
told_hi = (_, next telling_hi.1 (act 0 refl (tell refl)))

taken_in-queued_in_example :
    (now : World) × (there : Reach now) × (get_elem? now.threads 1 ≡ some (draining 0))
    × (taken_in 1 there ≡ queued_in 1 told_hi.1)
    × (queue_in now.store.users 1 ≡ [])
    × (now.store.rooms ≡ told_hi.0.store.rooms)
unfolding told_hi
taken_in-queued_in_example = taken_in-queued_in 1 0 told_hi.1 refl
