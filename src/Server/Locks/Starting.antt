-- ===== src/Server/Locks/Starting.antt =====
-- The first step of `broadcast_message`, beside the one act that it is without locks.
use csf_hw.Prelude.{
  ℕ, ◌<◌, ◌≡◌, refl, sym, ap, ◌∙◌, ◌≢◌, inl, inr, true, [], ◌++◌, append-nil, append_assoc, some,
  length, get_elem?, set, get_elem?-lt, arith, Bool-cases,
}
use csf_hw.Text.{Str}
use csf_hw.User.{User}
use csf_hw.Room.{Room, set_has}
use csf_hw.Server.{Store}
use csf_hw.Server.Rooms.{IsValid}
use csf_hw.Server.Session.Sendall.{Tells, broadcast_in-Tells}
use csf_hw.Server.Spec.{queue_in}
use csf_hw.Server.Spec.Tell.{delivery_to, queue_in-delivery_to}
use csf_hw.Server.Threads.{telling, tell, World}
use csf_hw.Server.Threads as Threads
use csf_hw.Server.Threads.Reachable.{Reach-IsSafe}
use csf_hw.Server.Locks.{guard_of, Loop, Spot, within, visiting, Machine, Reach}
use csf_hw.Server.Locks.Owners.{owns}
use csf_hw.Server.Locks.Loops.{owns_room}
use csf_hw.Server.Locks.Alike.{usernames, titles, user_count, room_count}
use csf_hw.Server.Locks.Owed.{
  owed_rest, owed, owed_rest_none, others_owe_nothing, IsHeading, Visits-member,
}
use csf_hw.Server.Locks.Shows.{nothing, place_of, on_the_way, Shows, acting}
use csf_hw.Server.Locks.Steady.{on_the_way-set}
use csf_hw.Server.Locks.Delivering.{owed_rest-delivery_to, on_the_way_alone, on_the_way_alone_set}
use csf_hw.Server.Locks.Quiet.{Grown}
use csf_hw.Server.Threads.History.{queued_by, taken_by}
use csf_hw.Server.Locks.Told.{Tells-names, broadcast_in-rooms}

module _ {w : World} {s : Machine} (reach_w : Threads.Reach w) (reach : Reach s) (shows : Shows w s)
    (i : ℕ) where
  abbrev st : Store
  st = s.memory.store

  -- The thread whose broadcast begins.
  module _ (payload : Str) (r : ℕ) (room : Room) (x : User)
      (at : get_elem? s.threads i ≡ some (within (telling payload r)))
      (at_room : get_elem? st.rooms r ≡ some room) (at_user : get_elem? st.users i ≡ some x) where
    abbrev loop : Loop
    loop = record { room = r; sender = x.username; text = payload; rest = room.members }

    start-owed :
        (v : ℕ)
        → owed_rest v (titles st.rooms) (usernames st.users) loop
          ≡ delivery_to v i r payload w.store
    start-owed v = owed_rest-delivery_to v i r payload room x w.store st shows.like at_room at_user

    start-IsHeading :
        (v : ℕ) → set_has v room.members ≡ true → IsHeading v st.rooms (within (telling payload r))
    unfolding owns guard_of
    start-IsHeading v has = (
      r,
      Visits-member v room.members r st.rooms (room, at_room, [], refl) has,
      omega (arith, owns_room r 0),
    )

    start-way :
        (v : ℕ)
        → on_the_way v st (set s.threads i (visiting loop))
          ≡ on_the_way v st s.threads ++ delivery_to v i r payload w.store
    unfolding owed
    start-way v = elim (Bool-cases (set_has v room.members)) [
      | inl has ↦
          let others : (j : ℕ) (q : Spot)
              → i ≢ j
              → get_elem? s.threads j ≡ some q
              → owed v (titles st.rooms) (usernames st.users) q ≡ [] =
            λ j q differ at_j.
              others_owe_nothing reach_w reach shows.like i j v _ q _ _ at at_j differ
                (start-IsHeading v has) in
          rw
            (
              on_the_way_alone v st s.threads i _ at others,
              on_the_way_alone_set v st s.threads i _ (visiting loop) at others,
            )
            (start-owed v)
      | inr misses ↦
          on_the_way-set v st s.threads i _ (visiting loop) at (owed_rest_none v _ _ loop misses)
          ∙ sym (append-nil _)
          ∙ ap (λ y. on_the_way v st s.threads ++ y)
              (sym (owed_rest_none v _ _ loop misses) ∙ start-owed v)
    ]

    pub start :
        Grown reach_w reach shows i at s.memory
          (visiting loop)
          (λ j. owed_rest j (titles st.rooms) (usernames st.users) loop)
          nothing
    unfolding place_of queued_by taken_by
    start =
        acting reach_w shows i at s.memory (visiting loop) t.told (tell t.returns)
          (record {
            m_rooms_lem = t.map_lem ∙ shows.like.m_rooms_lem;
            rooms_lem =
                broadcast_in-rooms r i payload w.store t.told valid r_lt i_lt t.returns
                ∙ shows.like.rooms_lem;
            names_lem = Tells-names t ∙ shows.like.names_lem;
          })
          (λ v.
            queue_in-delivery_to r i payload w.store valid t v
            ∙ ap (λ y. y ++ delivery_to v i r payload w.store) (shows.queues v)
            ∙ append_assoc (queue_in st.users v) (on_the_way v st s.threads)
                (delivery_to v i r payload w.store)
            ∙ ap (λ y. queue_in st.users v ++ y) (sym (start-way v)))
          _ nothing (λ j. (sym (start-owed j), refl))
      where
        valid : IsValid w.store
        valid = (Reach-IsSafe reach_w).valid

        i_lt : i < length w.store.users
        i_lt = omega (arith, user_count shows.like, get_elem?-lt st.users i at_user)

        r_lt : r < length w.store.rooms
        r_lt = omega (arith, room_count shows.like, get_elem?-lt st.rooms r at_room)

        t : Tells r i payload w.store
        t = broadcast_in-Tells r i payload w.store valid i_lt r_lt
