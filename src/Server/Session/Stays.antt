-- ===== src/Server/Session/Stays.antt =====
-- The requests that leave the user's thread with the room that it holds: `leave` and `sendall`.
use csf_hw.Prelude.{
  ℕ, ◌≡◌, refl, sym, ◌∙◌, ◌≢◌, Bool, true, false, Option, none, some, get_elem?, get_elem?-total,
  arith, if◌then◌else◌,
}
use csf_hw.Outcome.{Outcome, done}
use csf_hw.Text.{Str, codes}
use csf_hw.Message.{Message, make_message, tag_ok, tag_err}
use csf_hw.Csapp.{Csapp}
use csf_hw.Room.{Room, member_exists}
use csf_hw.Server.{Store, find_room}
use csf_hw.Server.Rooms.{IsValid}
use csf_hw.Server.Membership.{member_at, Changes, at_room-Changes}
use csf_hw.Server.Chat.{Chat, respond, on_leave, on_sendall}
use csf_hw.Server.Session.{in_room, InSession}
use csf_hw.Server.Spec.{view, room_has, move_out, say, say_inside, say_outside, Holds}
use csf_hw.Server.Spec.Leave.{view-left, view-outside}
use csf_hw.Server.Spec.Tell.{view-told}
use csf_hw.Server.Session.Sendall.{Tells, broadcast_in-Tells}

unfoldable pub leave_response : Bool → Message
leave_response inside =
    if inside
    then make_message tag_ok (codes "Leave successful")
    else make_message tag_err (codes "Leave unsuccessful, user isn't in the room")

unfoldable pub sendall_response : Bool → Message
sendall_response inside =
    if inside
    then make_message tag_ok (codes "Sendall successful")
    else make_message tag_err (codes "Sendall unsuccessful, user isn't in a room")

-- A handler that answers `response` and goes on with another store, in the same room, of which the
-- user is a member then if `inside`. `Known` is what else is known of that store.
pub record Stays (cs : Csapp) (user : ℕ) (room : Option ℕ) (response : Message) (inside : Bool)
    (Known : Store → Type 0) (c : Chat cs) (out : Outcome (Chat cs)) : Type 0 where
  pub after : Store
  pub returns : out ≡ done (respond cs response (record c { store = after }))
  pub session : InSession user room after
  pub inside_lem : in_room user room after ≡ inside
  pub known : Known after

-- Seen as the specification says of a `leave`, and of a text to all if the room held has a name.
abbrev pub LeaveSeen : ℕ → Store → Store → Type 0
LeaveSeen user st after = (view after ≡ move_out user (view st)) × (after.m_rooms ≡ st.m_rooms)

abbrev pub SendallSeen : ℕ → Str → Option ℕ → Store → Store → Type 0
SendallSeen user text room st after =
    (held : Option Str)
    → Holds st room held
    → (view after ≡ say user held text (view st)) × (after.m_rooms ≡ st.m_rooms)

room_has-at :
    (v r : ℕ) (k : Str) (st : Store) (inside : Bool)
    → find_room k st.m_rooms ≡ some r
    → member_at v r st.rooms ≡ inside
    → (view st).is_in v k ≡ inside
unfolding view
room_has-at v r k st inside at h = rw (room_has, at) h

module _ (user r : ℕ) (text : Str) (st : Store) where
  told_seen :
      IsValid st
      → member_at user r st.rooms ≡ true
      → (t : Tells r user text st) → SendallSeen user text (some r) st t.told
  told_seen v inside t none h = absurd h
  told_seen v inside t (some k) h = (
    view-told r user k text st v t h
        ∙ sym (say_inside user k text (view st) (room_has-at user r k st true h inside)),
    t.map_lem,
  )

  outside_seen : member_at user r st.rooms ≡ false → SendallSeen user text (some r) st st
  outside_seen outside none h = absurd h
  outside_seen outside (some k) h =
      (sym (say_outside user k text (view st) (room_has-at user r k st false h outside)), refl)

none_seen : (user : ℕ) (text : Str) (st : Store) → SendallSeen user text none st st
none_seen user text st none h = (refl, refl)
none_seen user text st (some k) h = absurd h

module _ (cs : Csapp) (user r : ℕ) (c : Chat cs) (s : InSession user (some r) c.store) where
  exists :
      {room : Room} {inside : Bool}
      → get_elem? c.store.rooms r ≡ some room
      → member_at user r c.store.rooms ≡ inside
      → member_exists user room ≡ inside
  exists at h = ground arith

  on_leave-Stays :
      (inside : Bool)
      → member_at user r c.store.rooms ≡ inside
      → Stays cs user
          (some r)
          (leave_response inside)
          false
          (LeaveSeen user c.store)
          c
          (on_leave cs user (some r) c)
  unfolding on_leave leave_response
  on_leave-Stays inside h = go inside h (get_elem?-total c.store.rooms r s.room_in)
    where
      ch : Changes user r c.store
      ch = at_room-Changes user r c.store s.valid s.user_lt s.room_in

      go :
          (inside : Bool)
          → member_at user r c.store.rooms ≡ inside
          → (room : Room) × (get_elem? c.store.rooms r ≡ some room)
          → Stays cs user
              (some r)
              (leave_response inside)
              false
              (LeaveSeen user c.store)
              c
              (on_leave cs user (some r) c)
      go true h (room, at) = record {
        after = ch.left;
        returns = rw at (rw (exists at h) (rw ch.leaves refl));
        session = record {
          valid = ch.left_valid;
          user_lt = rw ch.left_users s.user_lt;
          room_in = rw ch.left_count s.room_in;
          alone = λ q. ground (arith, ch.left_member user q, s.alone q);
        };
        inside_lem = ground (arith, ch.left_member user r);
        known = (view-left user r c.store s ch, ch.left_map);
      }
      go false h (room, at) = record {
        after = c.store;
        returns = rw at (rw (exists at h) refl);
        session = s;
        inside_lem = h;
        known = (view-outside user r c.store s h, refl);
      }

  on_sendall-Stays :
      (text : Str) (inside : Bool)
      → member_at user r c.store.rooms ≡ inside
      → Stays cs user
          (some r)
          (sendall_response inside)
          inside
          (SendallSeen user text (some r) c.store)
          c
          (on_sendall cs user text (some r) c)
  unfolding on_sendall sendall_response
  on_sendall-Stays text inside h = go inside h (get_elem?-total c.store.rooms r s.room_in)
    where
      t : Tells r user text c.store
      t = broadcast_in-Tells r user text c.store s.valid s.user_lt s.room_in

      go :
          (inside : Bool)
          → member_at user r c.store.rooms ≡ inside
          → (room : Room) × (get_elem? c.store.rooms r ≡ some room)
          → Stays cs user
              (some r)
              (sendall_response inside)
              inside
              (SendallSeen user text (some r) c.store)
              c
              (on_sendall cs user text (some r) c)
      go true h (room, at) = record {
        after = t.told;
        returns = rw at (rw (exists at h) (rw t.returns refl));
        session = record {
          valid = t.valid;
          user_lt = rw t.user_count s.user_lt;
          room_in = rw t.room_count s.room_in;
          alone = λ q. ground (arith, t.member user q, s.alone q);
        };
        inside_lem = t.member user r ∙ h;
        known = told_seen user r text c.store s.valid h t;
      }
      go false h (room, at) = record {
        after = c.store;
        returns = rw at (rw (exists at h) refl);
        session = s;
        inside_lem = h;
        known = outside_seen user r text c.store h;
      }

module _ (cs : Csapp) (user : ℕ) (c : Chat cs) where
  pub leave-Stays :
      (room : Option ℕ)
      → InSession user room c.store
      → room ≢ none
      → Stays cs user room
          (leave_response (in_room user room c.store))
          false
          (LeaveSeen user c.store)
          c
          (on_leave cs user room c)
  leave-Stays none s h = absurd (h refl)
  leave-Stays (some r) s h = on_leave-Stays cs user r c s _ refl

  pub sendall-Stays :
      (text : Str) (room : Option ℕ)
      → InSession user room c.store
      → Stays cs user room
          (sendall_response (in_room user room c.store))
          (in_room user room c.store)
          (SendallSeen user text room c.store)
          c
          (on_sendall cs user text room c)
  unfolding on_sendall sendall_response
  sendall-Stays text none s = record {
    after = c.store;
    returns = refl;
    session = s;
    inside_lem = refl;
    known = none_seen user text c.store;
  }
  sendall-Stays text (some r) s = on_sendall-Stays cs user r c s text _ refl
