-- ===== src/Server/Spec/Tell.antt =====
-- A text to all, as the users of the chat see it.
use mathlib.Core.Option.{some-injective}
use csf_hw.Prelude.{
  ℕ, List, ◌≡◌, refl, sym, ap, fun_ext, ◌∙◌, Bool, false, not, ◌&&◌, [], ◌∷◌, ◌++◌, none, some,
  get_elem?, get_elem?-none, length, append-nil, Option-cases, inl, inr, arith, if◌then◌else◌,
}
use csf_hw.Text.{Str, str_eq}
use csf_hw.User.{User}
use csf_hw.Message.{Message, make_message, tag_delivery}
use csf_hw.MessageQueue.{enqueue}
use csf_hw.Room.{Room, remove_newline, member_exists}
use csf_hw.Room.Members.{set_has_above}
use csf_hw.Room.Broadcast.{delivered, delivery, delivery_text_named}
use csf_hw.Server.{Store, find_room}
use csf_hw.Server.Rooms.{IsValid, find_room-Named}
use csf_hw.Server.Membership.{member_at, AllMembers-get}
use csf_hw.Server.Session.Sendall.{Tells}
use csf_hw.Server.Spec.{view, room_has, queue_in, name_in, tell}

queue-delivered :
    (sender : Str) (msg : Message) (member : Bool) (u : User)
    → (delivered sender msg member u).mqueue.m_messages
      ≡ u.mqueue.m_messages ++ (if member && not (str_eq u.username sender) then msg ∷ [] else [])
unfolding enqueue
queue-delivered sender msg member u = ground (arith, append-nil u.mqueue.m_messages)

name-delivered :
    (sender : Str) (msg : Message) (member : Bool) (u : User)
    → (delivered sender msg member u).username ≡ u.username
name-delivered sender msg member u = ground arith

abbrev pub name_of_room : List Room → ℕ → Str
name_of_room rooms r = elim (get_elem? rooms r) [ none ↦ [] | some room ↦ room.room_name ]

-- What a text to all in the room at `r` puts on the queue of `v`.
abbrev pub delivery_to : ℕ → ℕ → ℕ → Str → Store → List Message
delivery_to v user r text st =
    if member_at v r st.rooms && not (str_eq (name_in st.users v) (name_in st.users user))
    then delivery (name_of_room st.rooms r) (name_in st.users user) text ∷ []
    else []

module _ (r user : ℕ) (text : Str) (st : Store) (valid : IsValid st)
    (t : Tells r user text st) where
  sender_lem : name_in st.users user ≡ t.sender.username
  sender_lem = rw (name_in, t.at_user) refl

  not_member : (v : ℕ) → get_elem? st.users v ≡ none → member_exists v t.room ≡ false
  unfolding member_exists
  not_member v missing =
      set_has_above (length st.users) v t.room.members (get_elem?-none st.users v missing)
        (AllMembers-get (length st.users) st.rooms r valid.members t.at).1

  -- By pointers.
  pub queue_in-delivery_to :
      (v : ℕ) → queue_in t.told.users v ≡ queue_in st.users v ++ delivery_to v user r text st
  queue_in-delivery_to v = elim (Option-cases (get_elem? st.users v)) [
    | inl missing ↦ ground (arith, t.each v, t.at, not_member v missing)
    | inr (u, at) ↦ ground (
      arith,
      t.each v,
      t.at,
      sender_lem,
      queue-delivered t.sender.username (delivery t.room.room_name t.sender.username text)
          (member_exists v t.room) u,
    )
  ]

  name_in-told : (v : ℕ) → name_in t.told.users v ≡ name_in st.users v
  name_in-told v = elim (Option-cases (get_elem? st.users v)) [
    | inl missing ↦ ground (arith, t.each v)
    | inr (u, at) ↦ ground (
      arith,
      t.each v,
      name-delivered t.sender.username (delivery t.room.room_name t.sender.username text)
          (member_exists v t.room) u,
    )
  ]

module _ (r user : ℕ) (k text : Str) (st : Store) (valid : IsValid st) (t : Tells r user text st)
    (held : find_room k st.m_rooms ≡ some r) where
  room_has-told : (v : ℕ) (j : Str) → room_has t.told v j ≡ room_has st v j
  room_has-told v j = elim (Option-cases (find_room j st.m_rooms)) [
    | inl missing ↦ ground (arith, t.map_lem)
    | inr (q, at) ↦ ground (arith, t.map_lem, t.member v q)
  ]

  member_lem : (v : ℕ) → room_has st v k ≡ member_exists v t.room
  member_lem v = ground (arith, t.at)

  delivery_lem :
      delivery t.room.room_name t.sender.username text ≡ delivery k t.sender.username text
  delivery_lem =
      let (room, at, named) = find_room-Named k st.rooms 0 r st.m_rooms valid.keyed held in
      ap (make_message tag_delivery) (
        delivery_text_named t.room.room_name k t.sender.username text (
          ap (λ (x : Room). remove_newline x.room_name) (some-injective t.room room (sym t.at ∙ at))
          ∙ named))

  queue_in-told :
      (v : ℕ)
      → queue_in t.told.users v
        ≡ queue_in st.users v
          ++ (if room_has st v k && not (str_eq (name_in st.users v) (name_in st.users user))
              then delivery k (name_in st.users user) text ∷ []
              else [])
  queue_in-told v =
      queue_in-delivery_to r user text st valid t v
      ∙ ground (arith, member_lem v, t.at, sender_lem r user text st valid t, delivery_lem)

  pub view-told : view t.told ≡ tell user k text (view st)
  unfolding view
  view-told = λ i. record {
    is_in = fun_ext (λ v. fun_ext (λ j. room_has-told v j)) i;
    queue = fun_ext queue_in-told i;
    username = fun_ext (name_in-told r user text st valid t) i;
  }
