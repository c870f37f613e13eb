-- ===== src/Server/Locks/Told.antt =====
-- A broadcast keeps the users' names, and the rooms' up to a newline.
use mathlib.Core.Option
use csf_hw.Prelude.{
  ℕ, ◌<◌, ◌≡◌, refl, sym, ap, ◌∙◌, Bool, Option, none, some, map, length, get_elem?, set,
  get_elem?-map, map-set_same, get_elem?_ext, arith, subst, get_elem?-total,
}
use csf_hw.Outcome.{done, done-injective}
use csf_hw.Text.{Str}
use csf_hw.Message.{Message}
use csf_hw.User.{User}
use csf_hw.Room.{Room, remove_newline, member_exists}
use csf_hw.Room.Broadcast.{delivered, delivery, broadcast_message-Broadcasts}
use csf_hw.Server.{Store}
use csf_hw.Server.Chat.{broadcast_in}
use csf_hw.Server.Rooms.{IsValid}
use csf_hw.Server.Membership.{AllMembers-get}
use csf_hw.Server.Session.Sendall.{Tells}
use csf_hw.Server.Locks.{cut_name}
use csf_hw.Server.Locks.Alike.{usernames}

username-delivered :
    (sender : Str) (msg : Message) (member : Bool) (u : User)
    → (delivered sender msg member u).username ≡ u.username
username-delivered sender msg member u = ground arith

pub Tells-names :
    {r user : ℕ} {text : Str} {st : Store}
    → (t : Tells r user text st) → usernames t.told.users ≡ usernames st.users
Tells-names {r} {user} {text} {st} t = get_elem?_ext _ _ (λ v.
    get_elem?-map (λ (u : User). u.username) t.told.users v
    ∙ ap (Option.map (λ (u : User). u.username)) (t.each v)
    ∙ same (get_elem? st.users v) v
    ∙ sym (get_elem?-map (λ (u : User). u.username) st.users v))
  where
    same :
        (o : Option User) (v : ℕ)
        → Option.map
            (λ (u : User). u.username)
            (Option.map
              (delivered t.sender.username
                (delivery t.room.room_name t.sender.username text)
                (member_exists v t.room))
              o)
          ≡ Option.map (λ (u : User). u.username) o
    same none v = refl
    same (some u) v = ap some (
        username-delivered t.sender.username (delivery t.room.room_name t.sender.username text)
          (member_exists v t.room) u)

cut_name-eq :
    (x y : Room)
    → x.members ≡ y.members
    → remove_newline x.room_name ≡ remove_newline y.room_name
    → cut_name x ≡ cut_name y
cut_name-eq x y m n = λ i. record { room_name = n i; members = m i }

pub broadcast_in-rooms :
    (r user : ℕ) (text : Str) (st told : Store)
    → IsValid st
    → r < length st.rooms
    → user < length st.users
    → broadcast_in r user text st ≡ done told
    → map cut_name told.rooms ≡ map cut_name st.rooms
unfolding broadcast_in
broadcast_in-rooms r user text st told v hr hu e =
    go (get_elem?-total st.rooms r hr) (get_elem?-total st.users user hu)
  where
    go :
        (room : Room) × (get_elem? st.rooms r ≡ some room)
        → (sender : User) × (get_elem? st.users user ≡ some sender)
        → map cut_name told.rooms ≡ map cut_name st.rooms
    go (room, at) (sender, at_user) =
        let proper = AllMembers-get (length st.users) st.rooms r v.members at in
        let b = broadcast_message-Broadcasts sender.username text room st.users proper.0 proper.1 in
        let returns : broadcast_in r user text st
            ≡ done (record st { rooms = set st.rooms r b.result.0; users = b.result.1 }) =
          rw at (rw at_user (rw b.returns refl)) in
        subst (λ (x : Store). map cut_name x.rooms ≡ map cut_name st.rooms)
          (done-injective (sym returns ∙ e))
          (map-set_same cut_name st.rooms r room b.result.0 at
            (cut_name-eq b.result.0 room b.members b.name_lem))
