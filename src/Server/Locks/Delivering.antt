-- ===== src/Server/Locks/Delivering.antt =====
-- The steps of a broadcast keep count of what is still to be delivered.
use mathlib.Core.Option
use csf_hw.Prelude.{
  ℕ, ◌≡◌, refl, sym, ap, ◌∙◌, ◌≢◌, true, false, List, [], ◌∷◌, ◌++◌, append_assoc, Option, none,
  some, get_elem?, set, get_elem?-lt, get_elem?-map, get_elem?-set_self, get_elem?-set_ne,
  gather_alone, arith, ℕ_discrete, subst,
}
use csf_hw.Text.{Str, str_eq}
use csf_hw.Message.{Message, make_message, tag_delivery}
use csf_hw.User.{User}
use csf_hw.Room.{Room, set_has, remove_newline, member_exists}
use csf_hw.Room.Members.{Above, set_has-below}
use csf_hw.Room.Newline.{remove_newline_idem}
use csf_hw.Room.Broadcast.{delivery, delivery_text_named}
use csf_hw.Server.{Store}
use csf_hw.Server.Spec.{queue_in, name_in}
use csf_hw.Server.Spec.Tell.{delivery_to}
use csf_hw.Server.Locks.{Loop, Spot, pushing, posting}
use csf_hw.Server.Locks.Alike.{Alike, usernames, titles, room_like, members_like}
use csf_hw.Server.Locks.Owed.{entry, owed_next, owed_rest, owed}
use csf_hw.Server.Locks.Shows.{on_the_way}
use csf_hw.Server.Locks.Steady.{queue_in-set, on_the_way-set}

pub entry-usernames : (users : List User) (v : ℕ) → entry (usernames users) v ≡ name_in users v
entry-usernames users v =
    rw (entry, get_elem?-map (λ (u : User). u.username) users v) (go (get_elem? users v))
  where
    go :
        (o : Option User)
        → (elim (Option.map (λ (u : User). u.username) o) [ none ↦ [] | some name ↦ name ])
          ≡ (elim o [ none ↦ [] | some u ↦ u.username ])
    go none = refl
    go (some u) = refl

pub entry-titles :
    (rooms : List Room) (r : ℕ) (room : Room)
    → get_elem? rooms r ≡ some room
    → entry (titles rooms) r ≡ remove_newline room.room_name
entry-titles rooms r room at =
    rw (entry, get_elem?-map (λ (x : Room). remove_newline x.room_name) rooms r, at) refl

-- A member with the sender's name gets nothing.
pub owed_rest-skip :
    (v u : ℕ) (us : List ℕ) (ts ns : List Str) (loop : Loop)
    → loop.rest ≡ u ∷ us
    → str_eq (entry ns u) loop.sender ≡ true
    → owed_rest v ts ns (record loop { rest = us }) ≡ owed_rest v ts ns loop
unfolding owed_rest set_has
owed_rest-skip v u us ts ns loop e same = elim (ℕ_discrete u v) [
  | yes h ↦ ground (arith, e, h)
  | no h ↦ ground (arith, e)
]

pub delivery_cut :
    (name sender text : Str)
    → delivery (remove_newline name) sender text ≡ delivery name sender text
delivery_cut name sender text =
    ap (make_message tag_delivery)
      (delivery_text_named (remove_newline name) name sender text (remove_newline_idem name))

-- The message of a member is the one that the loop owed it.
pub owed_rest-compose :
    (v u : ℕ) (us : List ℕ) (ts ns : List Str) (loop : Loop) (name : Str)
    → loop.rest ≡ u ∷ us
    → Above u us
    → str_eq (entry ns u) loop.sender ≡ false
    → entry ts loop.room ≡ remove_newline name
    → owed_next v u (delivery name loop.sender loop.text)
        ++ owed_rest v ts ns (record loop { rest = us })
      ≡ owed_rest v ts ns loop
unfolding owed_rest set_has
owed_rest-compose v u us ts ns loop name e above differ named = elim (ℕ_discrete u v) [
  | yes h ↦
      ground (arith, e, h, named, set_has-below v u us, delivery_cut name loop.sender loop.text)
  | no h ↦ ground (arith, e)
]

-- When only one thread is on its way to the user.
pub on_the_way_alone :
    (v : ℕ) (st : Store) (threads : List Spot) (i : ℕ) (p : Spot)
    → get_elem? threads i ≡ some p
    → ((j : ℕ) (q : Spot)
        → i ≢ j
        → get_elem? threads j ≡ some q
        → owed v (titles st.rooms) (usernames st.users) q ≡ [])
    → on_the_way v st threads ≡ owed v (titles st.rooms) (usernames st.users) p
unfolding on_the_way
on_the_way_alone v st threads i p at others = gather_alone _ threads i p at others

pub on_the_way_alone_set :
    (v : ℕ) (st : Store) (threads : List Spot) (i : ℕ) (p q : Spot)
    → get_elem? threads i ≡ some p
    → ((j : ℕ) (q : Spot)
        → i ≢ j
        → get_elem? threads j ≡ some q
        → owed v (titles st.rooms) (usernames st.users) q ≡ [])
    → on_the_way v st (set threads i q) ≡ owed v (titles st.rooms) (usernames st.users) q
on_the_way_alone_set v st threads i p q at others =
    on_the_way_alone v st (set threads i q) i q
      (get_elem?-set_self threads i q (get_elem?-lt threads i at))
      (λ j x differ there. others j x differ (sym (get_elem?-set_ne threads i j q differ) ∙ there))

abbrev pub push : Message → User → User
push msg x = record x { mqueue = record x.mqueue { m_messages = x.mqueue.m_messages ++ msg ∷ [] } }

module _ (u i : ℕ) (loop : Loop) (msg : Message) (x : User) (st after : Store) (threads : List Spot)
    (at : get_elem? threads i ≡ some (pushing loop u msg)) (at_u : get_elem? st.users u ≡ some x)
    (same : (v : ℕ)
      → on_the_way v after (set threads i (posting loop u))
        ≡ on_the_way v st (set threads i (posting loop u))) where
  push_back_self :
      ((j : ℕ) (q : Spot)
        → i ≢ j
        → get_elem? threads j ≡ some q
        → owed u (titles st.rooms) (usernames st.users) q ≡ [])
      → queue_in (set st.users u (push msg x)) u
          ++ on_the_way u after (set threads i (posting loop u))
        ≡ queue_in st.users u ++ on_the_way u st threads
  unfolding owed
  push_back_self others =
      rw
        (
          queue_in-set st.users u x (push msg x) u at_u,
          same u,
          on_the_way_alone u st threads i (pushing loop u msg) at others,
          on_the_way_alone_set u st threads i (pushing loop u msg) (posting loop u) at others,
        )
        (ground (
          arith,
          at_u,
          append_assoc x.mqueue.m_messages (msg ∷ [])
              (owed_rest u (titles st.rooms) (usernames st.users) loop),
        ))

  push_back_other :
      (v : ℕ)
      → u ≢ v
      → queue_in (set st.users u (push msg x)) v
          ++ on_the_way v after (set threads i (posting loop u))
        ≡ queue_in st.users v ++ on_the_way v st threads
  unfolding owed
  push_back_other v differ =
      rw
        (
          queue_in-set st.users u x (push msg x) v at_u,
          same v,
          on_the_way-set v st threads i (pushing loop u msg) (posting loop u) at (ground arith),
        )
        (ground arith)

  -- `push_back` moves the message from the way into the queue.
  pub push_back-queue :
      (v : ℕ)
      → ((j : ℕ) (q : Spot)
          → i ≢ j
          → get_elem? threads j ≡ some q
          → owed u (titles st.rooms) (usernames st.users) q ≡ [])
      → queue_in (set st.users u (push msg x)) v
          ++ on_the_way v after (set threads i (posting loop u))
        ≡ queue_in st.users v ++ on_the_way v st threads
  push_back-queue v others = elim (ℕ_discrete u v) [
    | yes h ↦
        subst
          (λ n.
            queue_in (set st.users u (push msg x)) n
              ++ on_the_way n after (set threads i (posting loop u))
            ≡ queue_in st.users n ++ on_the_way n st threads)
          h (push_back_self others)
    | no h ↦ push_back_other v h
  ]

-- What a loop owes at its start.
pub owed_rest-delivery_to :
    (v user r : ℕ) (text : Str) (room : Room) (x : User) (a s : Store)
    → Alike a s
    → get_elem? s.rooms r ≡ some room
    → get_elem? s.users user ≡ some x
    → owed_rest v
        (titles s.rooms)
        (usernames s.users)
        (record { room = r; sender = x.username; text = text; rest = room.members })
      ≡ delivery_to v user r text a
unfolding owed_rest member_exists
owed_rest-delivery_to v user r text room x a s like at at_user =
    let (room', at', cut) = room_like like r room at in
    ground (
      arith,
      entry-titles s.rooms r room at,
      at',
      cut,
      members_like room' room cut,
      entry-usernames s.users v,
      entry-usernames s.users user,
      entry-usernames a.users v,
      entry-usernames a.users user,
      like.names_lem,
      at_user,
      ap (λ (y : Room). y.room_name) cut,
      delivery_cut room.room_name x.username text,
      delivery_cut room'.room_name x.username text,
    )
