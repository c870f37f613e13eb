-- ===== src/Server/Locks/Broadcasting.antt =====
-- The further steps of `broadcast_message`, which the server without locks does not see.
use csf_hw.Prelude.{
  ℕ, ◌≡◌, refl, sym, ap, ◌∙◌, true, false, List, [], ◌∷◌, ◌++◌, append-nil, some, length, get_elem?,
  set, get_elem?-lt, map-set_same, get_elem?-set_self, arith, ==_iff, subst,
}
use csf_hw.Text.{str_eq}
use csf_hw.Message.{Message, make_message, tag_delivery}
use csf_hw.User.{User}
use csf_hw.Room.{Room, set_has, remove_newline, delivery_text}
use csf_hw.Room.Newline.{remove_newline_idem}
use csf_hw.Room.Members.{IsOrdered, Above-IsOrdered}
use csf_hw.Server.{Store}
use csf_hw.Server.Rooms.{IsValid}
use csf_hw.Server.Membership.{AllMembers-get}
use csf_hw.Server.Spec.{queue_in, name_in}
use csf_hw.Server.Threads.{telling, tell, World}
use csf_hw.Server.Threads as Threads
use csf_hw.Server.Threads.Reachable.{Reach-IsSafe}
use csf_hw.Server.Locks.{
  put_user, Loop, visiting, asking, pushing, posting, cut_name, Machine, Reach,
}
use csf_hw.Server.Locks.Owners.{owns}
use csf_hw.Server.Locks.Loops.{Visits, Reach-AllStand, owns_room}
use csf_hw.Server.Locks.Alike.{Alike, usernames, titles, room_like, members_like}
use csf_hw.Server.Locks.Owed.{
  entry, owed_next, owed_rest, owed, others_owe_nothing, IsHeading, Visits-member,
}
use csf_hw.Server.Locks.Shows.{place_of, Shows, silent}
use csf_hw.Server.Locks.Steady.{on_the_way-store}
use csf_hw.Server.Locks.Delivering.{
  push, push_back-queue, owed_rest-skip, owed_rest-compose, entry-usernames, entry-titles,
}
use csf_hw.Server.Locks.Quiet.{Goal, stay, on_the_way-kept}

cut_name_idem : (room : Room) → cut_name (cut_name room) ≡ cut_name room
cut_name_idem room = rw (remove_newline_idem room.room_name) refl

IsOrdered-append : (xs ys : List ℕ) → IsOrdered (xs ++ ys) → IsOrdered ys
IsOrdered-append [] ys h = h
IsOrdered-append (x ∷ xs) ys h = IsOrdered-append xs ys (Above-IsOrdered x (xs ++ ys) h)

Visits-IsOrdered :
    (rest : List ℕ) (r : ℕ) (a s : Store)
    → IsValid a
    → Alike a s
    → Visits rest r s.rooms
    → IsOrdered rest
Visits-IsOrdered rest r a s valid like (room, at, before, e) =
    let (room', at', cut) = room_like like r room at in
    IsOrdered-append before rest (
      subst IsOrdered (members_like room' room cut ∙ e)
        (AllMembers-get (length a.users) a.rooms r valid.members at').0)

module _ {w : World} {s : Machine} (reach_w : Threads.Reach w) (reach : Reach s) (shows : Shows w s)
    (i : ℕ) where
  abbrev st : Store
  st = s.memory.store

  module _ (loop : Loop) (u : ℕ) (us : List ℕ) (x : User)
      (at : get_elem? s.threads i ≡ some (visiting loop)) (e : loop.rest ≡ u ∷ us)
      (at_u : get_elem? st.users u ≡ some x) where
    named : entry (usernames st.users) u ≡ x.username
    named = entry-usernames st.users u ∙ rw (name_in, at_u) refl

    pub pass :
        str_eq x.username loop.sender ≡ true
        → Goal reach_w reach shows i at s.memory (visiting (record loop { rest = us }))
    unfolding owed place_of
    pass same =
        stay reach_w reach shows i at s.memory _ refl refl
          (λ v. owed_rest-skip v u us (titles st.rooms) (usernames st.users) loop e (rw named same))

    same_titles :
        (room : Room)
        → get_elem? st.rooms loop.room ≡ some room
        → titles (set st.rooms loop.room (cut_name room)) ≡ titles st.rooms ++ []
    same_titles room at_room =
        map-set_same (λ (y : Room). remove_newline y.room_name) st.rooms loop.room room
          (cut_name room) at_room (remove_newline_idem room.room_name)
        ∙ sym (append-nil (titles st.rooms))

    rest :
        (v : ℕ) (room : Room)
        → str_eq x.username loop.sender ≡ false
        → get_elem? st.rooms loop.room ≡ some room
        → owed_next v u
              (make_message tag_delivery (delivery_text room.room_name loop.sender loop.text))
            ++ owed_rest v
                (titles (set st.rooms loop.room (cut_name room)))
                (usernames st.users)
                (record loop { rest = us })
          ≡ owed_rest v (titles (set st.rooms loop.room (cut_name room))) (usernames st.users) loop
    rest v room differ at_room =
        owed_rest-compose v u us _ (usernames st.users) loop room.room_name e
          (subst IsOrdered e (
            Visits-IsOrdered loop.rest loop.room w.store st (Reach-IsSafe reach_w).valid shows.like
              (Reach-AllStand reach i (visiting loop) at)))
          (rw named differ)
          (entry-titles (set st.rooms loop.room (cut_name room)) loop.room (cut_name room) (
              get_elem?-set_self st.rooms loop.room (cut_name room)
                (get_elem?-lt st.rooms loop.room at_room))
            ∙ remove_newline_idem room.room_name)

    pub write :
        (room : Room)
        → str_eq x.username loop.sender ≡ false
        → get_elem? st.rooms loop.room ≡ some room
        → Goal reach_w reach shows i at
            (record s.memory {
              store = record st { rooms = set st.rooms loop.room (cut_name room) };
            })
            (asking
              (record loop { rest = us })
              u
              (make_message tag_delivery (delivery_text room.room_name loop.sender loop.text)))
    unfolding owed place_of
    write room differ at_room =
        silent reach_w shows i at _ _ refl
          (record {
            m_rooms_lem = shows.like.m_rooms_lem;
            rooms_lem =
                shows.like.rooms_lem
                ∙ sym (
                    map-set_same cut_name st.rooms loop.room room (cut_name room) at_room
                      (cut_name_idem room));
            names_lem = shows.like.names_lem;
          })
          (λ v.
            ap (λ y. queue_in st.users v ++ y)
              (on_the_way-kept reach_w reach shows i at v _ _ [] (same_titles room at_room) refl
                (rest v room differ at_room)))

  module _ (loop : Loop) (u : ℕ) (msg : Message) (x : User)
      (at : get_elem? s.threads i ≡ some (pushing loop u msg))
      (at_u : get_elem? st.users u ≡ some x) where
    same_names : usernames (set st.users u (push msg x)) ≡ usernames st.users
    same_names = map-set_same (λ (y : User). y.username) st.users u x (push msg x) at_u refl

    heading : IsHeading u st.rooms (pushing loop u msg)
    unfolding owns set_has
    heading = (
      loop.room,
      Visits-member u (u ∷ loop.rest) loop.room st.rooms
          (Reach-AllStand reach i (pushing loop u msg) at) (ground (arith, ==_iff u u)),
      owns_room loop.room _,
    )

    pub give : Goal reach_w reach shows i at (put_user u (push msg x) s.memory) (posting loop u)
    unfolding place_of
    give =
        silent reach_w shows i at _ _ refl
          (record {
            m_rooms_lem = shows.like.m_rooms_lem;
            rooms_lem = shows.like.rooms_lem;
            names_lem = shows.like.names_lem ∙ sym same_names;
          })
          (λ v.
            push_back-queue u i loop msg x st _ s.threads at at_u
              (λ y. on_the_way-store y st _ _ refl same_names) v
              (λ j q differ at_j.
                others_owe_nothing reach_w reach shows.like i j u _ q _ _ at at_j differ heading))
