-- ===== src/Server/Threads/Effects.antt =====
-- What one act can do to a valid store: only memberships of its own user change, and queues.
use mathlib.Core.Option
use mathlib.Core.Option.{some-injective}
use csf_hw.Prelude.{
  ℕ, ◌≤◌, ◌<◌, ◌≡◌, refl, sym, ap, ◌∙◌, ◌≢◌, Bool, true, false, not, ◌&&◌, ◌||◌, [], ◌∷◌, some,
  length, length-set, length-append, get_elem?, get_elem?-set_self, get_elem?-set_ne, get_elem?-lt,
  inl, inr, Option-cases, arith, ◌==◌, ==_iff, ℕ_discrete, subst, Option, Bool-cases,
}
use csf_hw.Outcome.{done, done-injective}
use csf_hw.Text.{Str, str_eq}
use csf_hw.Message.{Message}
use csf_hw.User.{User}
use csf_hw.MessageQueue.{MessageQueue, dequeue}
use csf_hw.MessageQueue.Fifo.{IsCounted, dequeue_lem, enqueue-IsCounted}
use csf_hw.Room.{add_member, remove_member, new_room, member_exists}
use csf_hw.Room.Broadcast.{delivered, delivery}
use csf_hw.Server.{Store, find_or_create_room, at_room}
use csf_hw.Server.Chat.{broadcast_in}
use csf_hw.Server.Rooms.{IsValid, Finds, find_or_create_room-Finds}
use csf_hw.Server.Membership.{member_at, Changes, at_room-Changes}
use csf_hw.Server.Session.Join.{member_at_new}
use csf_hw.Server.Session.Sendall.{Tells, broadcast_in-Tells}
use csf_hw.Server.Threads.{put_queue}

-- The semaphore of every user's queue counts its messages.
abbrev pub AllCounted : Store → Type 0
AllCounted st = (v : ℕ) (u : User) → get_elem? st.users v ≡ some u → IsCounted u.mqueue

-- The store stays valid, no room and no user goes, and nobody else joins or leaves.
pub record Affects (user : ℕ) (st after : Store) : Type 0 where
  pub valid : IsValid after
  pub counted : AllCounted after
  pub user_count : length after.users ≡ length st.users
  pub room_count : length st.rooms ≤ length after.rooms
  pub others : (v q : ℕ) → user ≢ v → member_at v q after.rooms ≡ member_at v q st.rooms

pub same-Affects : (user : ℕ) (st : Store) → IsValid st → AllCounted st → Affects user st st
same-Affects user st v c = record {
  valid = v;
  counted = c;
  user_count = refl;
  room_count = omega arith;
  others = λ w q d. refl;
}

module _ (user r : ℕ) (st after : Store) (v : IsValid st) (c : AllCounted st)
    (user_lt : user < length st.users) (room_lt : r < length st.rooms) where
  ch : Changes user r st
  ch = at_room-Changes user r st v user_lt room_lt

  pub add-Affects :
      at_room r (add_member user) st ≡ done after
      → Affects user st after
        × ((q : ℕ) → member_at user q after.rooms ≡ (r == q || member_at user q st.rooms))
  add-Affects e =
      subst
        (λ (s : Store).
          Affects user st s
          × ((q : ℕ) → member_at user q s.rooms ≡ (r == q || member_at user q st.rooms)))
        (done-injective (sym ch.joins ∙ e))
        (
          record {
            valid = ch.joined_valid;
            counted = rw ch.joined_users c;
            user_count = ap length ch.joined_users;
            room_count = omega (arith, ch.joined_count);
            others = λ w q d. ground (arith, ch.joined_member w q, ==_iff user w);
          },
          λ q. ground (arith, ch.joined_member user q, ==_iff user user),
        )

  pub remove-Affects :
      at_room r (remove_member user) st ≡ done after
      → Affects user st after
        × ((q : ℕ) → member_at user q after.rooms ≡ (not (r == q) && member_at user q st.rooms))
  remove-Affects e =
      subst
        (λ (s : Store).
          Affects user st s
          × ((q : ℕ) → member_at user q s.rooms ≡ (not (r == q) && member_at user q st.rooms)))
        (done-injective (sym ch.leaves ∙ e))
        (
          record {
            valid = ch.left_valid;
            counted = rw ch.left_users c;
            user_count = ap length ch.left_users;
            room_count = omega (arith, ch.left_count);
            others = λ w q d. ground (arith, ch.left_member w q, ==_iff user w);
          },
          λ q. ground (arith, ch.left_member user q, ==_iff user user),
        )

delivered-IsCounted :
    (sender : Str) (msg : Message) (member : Bool) (u : User)
    → IsCounted u.mqueue
    → IsCounted (delivered sender msg member u).mqueue
delivered-IsCounted sender msg true u h = elim (Bool-cases (str_eq u.username sender)) [
  | inl same ↦ rw (delivered, same) h
  | inr differ ↦ rw (delivered, differ) (enqueue-IsCounted msg u.mqueue h)
]
delivered-IsCounted sender msg false u h = h

IsCounted-as : (a b : User) → some a ≡ some b → IsCounted a.mqueue → IsCounted b.mqueue
IsCounted-as a b e h = subst (λ (x : User). IsCounted x.mqueue) (some-injective a b e) h

module _ (user : ℕ) (st : Store) (v : IsValid st) (c : AllCounted st) where
  pub find-Affects :
      (name : Str) (out : ℕ × Store)
      → find_or_create_room name st ≡ out
      → Affects user st out.1
        × (out.0 < length out.1.rooms)
        × ((w q : ℕ) → member_at w q out.1.rooms ≡ member_at w q st.rooms)
  find-Affects name out e = (
    record {
      valid = f.valid;
      counted = rw f.users_lem c;
      user_count = ap length f.users_lem;
      room_count = room_count;
      others = λ w q d. members w q;
    },
    get_elem?-lt out.1.rooms out.0 f.named.1,
    members,
  )
    where
      f : Finds name st out
      f = subst (Finds name st) e (find_or_create_room-Finds name st v)

      members : (w q : ℕ) → member_at w q out.1.rooms ≡ member_at w q st.rooms
      members w q = elim f.rooms_lem [
        | inl same ↦ rw same refl
        | inr (grown, _) ↦ rw grown (member_at_new w q st.rooms name)
      ]

      room_count : length st.rooms ≤ length out.1.rooms
      room_count = elim f.rooms_lem [
        | inl same ↦ rw same (omega arith)
        | inr (grown, _) ↦ rw grown (omega (arith, length-append st.rooms (new_room name ∷ [])))
      ]

  pub tell-Affects :
      (r : ℕ) (text : Str) (after : Store)
      → user < length st.users
      → r < length st.rooms
      → broadcast_in r user text st ≡ done after
      → Affects user st after × ((w q : ℕ) → member_at w q after.rooms ≡ member_at w q st.rooms)
  tell-Affects r text after hu hr e =
      subst
        (λ (s : Store).
          Affects user st s × ((w q : ℕ) → member_at w q s.rooms ≡ member_at w q st.rooms))
        (done-injective (sym t.returns ∙ e))
        (
          record {
            valid = t.valid;
            counted = counted;
            user_count = t.user_count;
            room_count = omega (arith, t.room_count);
            others = λ w q d. t.member w q;
          },
          t.member,
        )
    where
      t : Tells r user text st
      t = broadcast_in-Tells r user text st v hu hr

      counted : AllCounted t.told
      counted w u at = elim (Option-cases (get_elem? st.users w)) [
        | inl missing ↦ absurd (ground (arith, t.each w))
        | inr (old, there) ↦
            IsCounted-as
              (delivered t.sender.username (delivery t.room.room_name t.sender.username text)
                (member_exists w t.room) old)
              u (sym (t.each w ∙ ap (Option.map _) there) ∙ at)
              (delivered-IsCounted t.sender.username
                (delivery t.room.room_name t.sender.username text) (member_exists w t.room) old
                (c w old there))
      ]

  pub drain-Affects :
      (u : User) (out : Option Message) (queue : MessageQueue)
      → get_elem? st.users user ≡ some u
      → dequeue u.mqueue ≡ done (out, queue)
      → Affects user st (put_queue user u queue st)
  drain-Affects u out queue at e = record {
    valid = record { keyed = v.keyed; members = rw (length-set st.users user _) v.members };
    counted = counted;
    user_count = length-set st.users user _;
    room_count = omega arith;
    others = λ w q d. refl;
  }
    where
      taken : IsCounted queue
      taken =
          let (left, returns, _, counts) = dequeue_lem u.mqueue (c user u at) in
          subst IsCounted
            (ap (λ (x : Option Message × MessageQueue). x.1) (done-injective (sym returns ∙ e)))
            counts

      counted : AllCounted (put_queue user u queue st)
      counted w x there = elim (ℕ_discrete user w) [
        | yes same ↦
            IsCounted-as (record u { mqueue = queue }) x
              (sym (
                  get_elem?-set_self st.users user (record u { mqueue = queue })
                    (get_elem?-lt st.users user at))
                ∙ ap (get_elem? (put_queue user u queue st).users) same
                ∙ there)
              taken
        | no differ ↦ c w x (sym (get_elem?-set_ne st.users user w _ differ) ∙ there)
      ]
