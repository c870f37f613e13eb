-- ===== src/Room/Broadcast.antt =====
-- Who gets what by `broadcast_message`.
use mathlib.Core.Option
use csf_hw.Prelude.{
  ℕ, ◌≡◌, refl, ◌∙◌, ◌≢◌, inl, inr, Bool, true, not, ◌&&◌, List, [], ◌∷◌, some, get_elem?, length,
  length-set, get_elem?-set_self, get_elem?-set_ne, get_elem?-total, get_elem?-lt, arith,
  if◌then◌else◌, Option-cases, get_elem?-none, get_elem?_outside, ℕ_discrete,
}
use csf_hw.Outcome.{done}
use csf_hw.Text.{Str, str_eq}
use csf_hw.Message.{Message, make_message, tag_delivery}
use csf_hw.MessageQueue.{enqueue}
use csf_hw.User.{User}
use csf_hw.Room.Members.{Above, IsOrdered, Above-IsOrdered, AllBelow, set_has-below}
use csf_hw.Room.Newline.{remove_newline_idem}
use csf_hw.Room.{
  Room, set_has, remove_newline, delivery_text, deliver, broadcast_loop, broadcast_message,
  member_exists,
}

-- What becomes of a user who is, or is not, a member.
abbrev pub delivered : Str → Message → Bool → User → User
delivered sender msg member user =
    if member && not (str_eq user.username sender)
    then record user { mqueue = enqueue msg user.mqueue }
    else user

pub delivery_text_named :
    (a b sender text : Str)
    → remove_newline a ≡ remove_newline b
    → delivery_text a sender text ≡ delivery_text b sender text
unfolding delivery_text
delivery_text_named a b sender text e = rw e

abbrev pub delivery : Str → Str → Str → Message
delivery name sender text = make_message tag_delivery (delivery_text name sender text)

module _ (sender text : Str) (u : ℕ) (user : User) (s : Room × List User) where
  abbrev delivery_done : Room × List User
  delivery_done = deliver sender text u user s

  abbrev pushed : User
  pushed = record user { mqueue = enqueue (delivery s.0.room_name sender text) user.mqueue }

  deliver-members : delivery_done.0.members ≡ s.0.members
  unfolding deliver
  deliver-members = ground arith

  deliver-name : remove_newline delivery_done.0.room_name ≡ remove_newline s.0.room_name
  unfolding deliver
  deliver-name = ground (arith, remove_newline_idem s.0.room_name)

  deliver-length : length delivery_done.1 ≡ length s.1
  unfolding deliver
  deliver-length = ground (arith, length-set s.1 u pushed)

  deliver_self :
      get_elem? s.1 u ≡ some user
      → get_elem? delivery_done.1 u
        ≡ some (delivered sender (delivery s.0.room_name sender text) true user)
  unfolding deliver
  deliver_self at = ground (arith, get_elem?-set_self s.1 u pushed, get_elem?-lt s.1 u at)

  deliver-other : (v : ℕ) → u ≢ v → get_elem? delivery_done.1 v ≡ get_elem? s.1 v
  unfolding deliver
  deliver-other v d = ground (arith, get_elem?-set_ne s.1 u v pushed)

module _ (sender text : Str) where
  -- The effect of the loop over `us` on the room and on all users.
  pub record Delivers (name : Str) (us : List ℕ) (s : Room × List User) : Type 0 where
    pub result : Room × List User
    pub returns : broadcast_loop sender text us s ≡ done result
    pub members : result.0.members ≡ s.0.members
    pub name_lem : remove_newline result.0.room_name ≡ remove_newline s.0.room_name
    pub count : length result.1 ≡ length s.1
    pub each :
        (v : ℕ) (user : User)
        → get_elem? s.1 v ≡ some user
        → get_elem? result.1 v
          ≡ some (delivered sender (delivery name sender text) (set_has v us) user)

  deliver-each :
      (name : Str) (u : ℕ) (us : List ℕ) (user : User) (s : Room × List User)
      → get_elem? s.1 u ≡ some user
      → remove_newline s.0.room_name ≡ remove_newline name
      → Above u us
      → (d : Delivers name us (deliver sender text u user s)) → (v : ℕ) (user' : User)
      → get_elem? s.1 v ≡ some user'
      → get_elem? d.result.1 v
        ≡ some (delivered sender (delivery name sender text) (set_has v (u ∷ us)) user')
  unfolding set_has
  deliver-each name u us user s at named above d v user' at' = elim (ℕ_discrete u v) [
    | yes same ↦ ground (
      arith,
      set_has-below u u us,
      d.each u (delivered sender (delivery s.0.room_name sender text) true user)
          (deliver_self sender text u user s at),
      delivery_text_named s.0.room_name name sender text named,
    )
    | no differ ↦ ground (arith, d.each v user' (deliver-other sender text u user s v differ ∙ at'))
  ]

  deliver-Delivers :
      (name : Str) (u : ℕ) (us : List ℕ) (user : User) (s : Room × List User)
      → get_elem? s.1 u ≡ some user
      → remove_newline s.0.room_name ≡ remove_newline name
      → Above u us
      → Delivers name us (deliver sender text u user s)
      → Delivers name (u ∷ us) s
  unfolding broadcast_loop
  deliver-Delivers name u us user s at named above d = record {
    result = d.result;
    returns = rw at d.returns;
    members = d.members ∙ deliver-members sender text u user s;
    name_lem = d.name_lem ∙ deliver-name sender text u user s;
    count = d.count ∙ deliver-length sender text u user s;
    each = deliver-each name u us user s at named above d;
  }

  loop-Delivers :
      (name : Str) (us : List ℕ) (s : Room × List User)
      → IsOrdered us
      → AllBelow (length s.1) us
      → remove_newline s.0.room_name ≡ remove_newline name
      → Delivers name us s
  unfolding broadcast_loop set_has
  loop-Delivers name [] s o below named = record {
    result = s;
    returns = refl;
    members = refl;
    name_lem = refl;
    count = refl;
    each = λ v user at. at;
  }
  loop-Delivers name (u ∷ us) s o below named =
      let (user, at) = get_elem?-total s.1 u below.0 in
      deliver-Delivers name u us user s at named o (
        loop-Delivers name us (deliver sender text u user s) (Above-IsOrdered u us o)
          (rw (deliver-length sender text u user s) below.1)
          (deliver-name sender text u user s ∙ named))

  -- A broadcast never follows a dangling pointer. It leaves the members, the number of users and
  -- the room's name up to its newline as they are; every member whose name is not the sender's
  -- gets one delivery at the end of the queue, and every other user is left alone.
  pub record Broadcasts (room : Room) (users : List User) : Type 0 where
    pub result : Room × List User
    pub returns : broadcast_message sender text room users ≡ done result
    pub members : result.0.members ≡ room.members
    pub name_lem : remove_newline result.0.room_name ≡ remove_newline room.room_name
    pub count : length result.1 ≡ length users
    pub each :
        (v : ℕ)
        → get_elem? result.1 v
          ≡ Option.map
              (delivered sender (delivery room.room_name sender text) (member_exists v room))
              (get_elem? users v)

  -- If the members of a room are ordered and are users, a broadcast follows no dangling pointer,
  -- every member whose name is not the sender's gets exactly one `delivery` with the text
  -- `room:sender:message`, newlines cut off, at the end of the queue, every other user is left as
  -- before, and the members, the number of users and the room's name up to a newline stay.
  pub broadcast_message-Broadcasts :
      (room : Room) (users : List User)
      → IsOrdered room.members
      → AllBelow (length users) room.members
      → Broadcasts room users
  unfolding broadcast_message member_exists
  broadcast_message-Broadcasts room users o below = record {
    result = d.result;
    returns = d.returns;
    members = d.members;
    name_lem = d.name_lem;
    count = d.count;
    each = λ v. elim (Option-cases (get_elem? users v)) [
      | inl absent ↦
          rw (absent, get_elem?_outside d.result.1 v (rw d.count (get_elem?-none users v absent)))
      | inr (user, at) ↦ rw at (d.each v user at)
    ];
  }
    where
      d : Delivers room.room_name room.members (room, users)
      d = loop-Delivers room.room_name room.members (room, users) o below refl
