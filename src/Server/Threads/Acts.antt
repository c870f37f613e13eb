-- ===== src/Server/Threads/Acts.antt =====
-- Each act of a thread: what it does to a valid store, and where the thread stands after it.
use mathlib.Core.Option.{some-injective}
use csf_hw.Prelude.{
  ℕ, ◌⊎◌, subst, ◌≤◌, ◌<◌, ◌≡◌, refl, sym, ap, ◌∙◌, true, false, not, ◌&&◌, ◌||◌, Option, none,
  some, length, get_elem?, inl, inr, Bool-cases, arith, ◌==◌, ==_iff,
}
use csf_hw.Text.{Str, str_eq}
use csf_hw.Message.{Message, tag_err}
use csf_hw.Room.{Room, member_exists}
use csf_hw.Server.{Store}
use csf_hw.Server.Rooms.{IsValid}
use csf_hw.Server.Membership.{member_at}
use csf_hw.Server.Session.{RoomIn}
use csf_hw.Server.Threads.{
  Place, awaiting, seeking, entering, leaving, removing, checking, telling, answering, closing,
  admitting, joining, draining, ended, leave_if, tell_if, drained, Act, hear, part, seek, enter,
  look_leave, remove, look_tell, tell, answer, stop, close, greet, admit, enroll, drain, stop_drain,
  held, target, inside, ok,
}
use csf_hw.Server.Threads.Effects.{
  AllCounted, Affects, same-Affects, add-Affects, remove-Affects, find-Affects, tell-Affects,
  drain-Affects,
}
use csf_hw.Server.Threads.Fits.{
  Fits, RoomIn-mono, moved-Fits, heard-Fits, greeted-Fits, answered-Fits,
}

-- A thread that has seen its user in the room it holds.
sure-Fits :
    (user r : ℕ) (p q : Place) (st : Store)
    → held p ≡ some r
    → held q ≡ some r
    → target q ≡ none
    → inside q ≡ some r
    → member_at user r st.rooms ≡ true
    → Fits user p st
    → Fits user q st
sure-Fits user r p q st hp hq t i is_in f = record {
  held_in = rw (hq ∙ sym hp) f.held_in;
  target_in = rw t tt;
  alone = λ x e. hq ∙ sym hp ∙ f.alone x e;
  surely =
      λ x e. subst (λ y. member_at user y st.rooms ≡ true) (some-injective r x (sym i ∙ e)) is_in;
}

-- The answer of `member_exists` is true of the store it is read in.
look_leave-Fits :
    (user r : ℕ) (room : Room) (st : Store)
    → get_elem? st.rooms r ≡ some room
    → Fits user (leaving r) st
    → Fits user (leave_if (member_exists user room) r) st
unfolding leave_if
look_leave-Fits user r room st at f = elim (Bool-cases (member_exists user room)) [
  | inl is_in ↦ rw is_in (
      sure-Fits user r (leaving r) (removing r) st refl refl refl refl (rw (member_at, at) is_in) f)
  | inr out ↦ rw out (moved-Fits user (leaving r) (leave_if false r) st refl refl refl f)
]

look_tell-Fits :
    (user : ℕ) (payload : Str) (r : ℕ) (room : Room) (st : Store)
    → get_elem? st.rooms r ≡ some room
    → Fits user (checking payload r) st
    → Fits user (tell_if (member_exists user room) payload r) st
unfolding tell_if
look_tell-Fits user payload r room st at f = elim (Bool-cases (member_exists user room)) [
  | inl is_in ↦ rw is_in (
      sure-Fits user r (checking payload r) (telling payload r) st refl refl refl refl
        (rw (member_at, at) is_in) f)
  | inr out ↦
      rw out (moved-Fits user (checking payload r) (tell_if false payload r) st refl refl refl f)
]

drained-Fits :
    (user r : ℕ) (out : Option Message) (st : Store)
    → Fits user (draining r) st
    → Fits user (drained out r) st
unfolding drained
drained-Fits user r none st f = f
drained-Fits user r (some msg) st f = elim (Bool-cases (str_eq msg.tag tag_err)) [
  | inl e ↦ rw e (moved-Fits user (draining r) (closing (some r)) st refl refl refl f)
  | inr e ↦ rw e f
]

-- With the room found.
found-Fits :
    (user : ℕ) (st after : Store) (p q : Place) (r : ℕ)
    → held p ≡ none
    → held q ≡ none
    → target q ≡ some r
    → inside q ≡ none
    → r < length after.rooms
    → ((w x : ℕ) → member_at w x after.rooms ≡ member_at w x st.rooms)
    → Fits user p st
    → Fits user q after
found-Fits user st after p q r hp hq t i r_in m f = record {
  held_in = rw hq tt;
  target_in = rw t r_in;
  alone = λ x e. hq ∙ sym hp ∙ f.alone x (sym (m user x) ∙ e);
  surely = λ x e. absurd (ground arith);
}

-- A broadcast changes no membership.
told-Fits :
    (user r : ℕ) (payload : Str) (st after : Store)
    → length st.rooms ≤ length after.rooms
    → ((w x : ℕ) → member_at w x after.rooms ≡ member_at w x st.rooms)
    → Fits user (telling payload r) st
    → Fits user (answering true (ok "Sendall successful") (some r)) after
told-Fits user r payload st after n m f = record {
  held_in = RoomIn-mono (some r) _ _ n f.held_in;
  target_in = tt;
  alone = λ x e. f.alone x (sym (m user x) ∙ e);
  surely = λ x e. absurd (ground arith);
}

-- A user in the room it was in, or in none.
module _ (user r : ℕ) (st after : Store) where
  parted-Fits :
      (q : Place)
      → inside q ≡ none
      → target q ≡ none
      → RoomIn (held q) (length after.rooms)
      → ((x : ℕ) → member_at user x st.rooms ≡ true → some r ≡ some x)
      → ((x : ℕ) → member_at user x after.rooms ≡ (not (r == x) && member_at user x st.rooms))
      → Fits user q after
  parted-Fits q i t h only m = record {
    held_in = h;
    target_in = rw t tt;
    alone = λ x is_in. absurd (ground (arith, m x, only x, ==_iff r x));
    surely = λ x e. absurd (ground arith);
  }

  entered-Fits :
      (q : Place)
      → held q ≡ some r
      → target q ≡ none
      → (inside q ≡ none) ⊎ (inside q ≡ some r)
      → r < length after.rooms
      → ((x : ℕ) → member_at user x st.rooms ≡ true → ◌≡◌ {A = Option ℕ} none (some x))
      → ((x : ℕ) → member_at user x after.rooms ≡ (r == x || member_at user x st.rooms))
      → Fits user q after
  entered-Fits q h t i lt nowhere m = record {
    held_in = rw h lt;
    target_in = rw t tt;
    alone = λ x is_in. h ∙ ap some (ground (arith, m x, nowhere x, ==_iff r x));
    surely = λ x e. ground (arith, m x, ==_iff r x);
  }

-- What an act of the user's thread at `p` leads to: `after`, and the thread at `q`.
pub Acts-Fits :
    {user : ℕ} {st after : Store} {p q : Place}
    → Act user st p after q
    → IsValid st
    → AllCounted st
    → user < length st.users
    → Fits user p st
    → Affects user st after × Fits user q after
Acts-Fits {user} {st} (hear msg {room}) v c lt f =
    (same-Affects user st v c, heard-Fits user st msg room f)
Acts-Fits {user} {st} {after} (part {name} {r} e) v c lt f =
    let (a, m) = remove-Affects user r st after v c lt f.held_in e in
    (a, parted-Fits user r st after (seeking name) refl refl tt f.alone m)
Acts-Fits {user} {st} (seek {name} {out} e) v c lt f =
    let (a, r_in, m) = find-Affects user st v c name out e in
    (a, found-Fits user st out.1 (seeking name) (entering out.0) out.0 refl refl refl refl r_in m f)
Acts-Fits {user} {st} {after} (enter {r} e) v c lt f =
    let (a, m) = add-Affects user r st after v c lt f.target_in e in
    (
      a,
      entered-Fits user r st after _ refl refl (inl refl)
          (RoomIn-mono (some r) _ _ a.room_count f.target_in) f.alone m,
    )
Acts-Fits {user} {st} (look_leave {r} {room} at) v c lt f =
    (same-Affects user st v c, look_leave-Fits user r room st at f)
Acts-Fits {user} {st} {after} (remove {r} e) v c lt f =
    let (a, m) = remove-Affects user r st after v c lt f.held_in e in
    (
      a,
      parted-Fits user r st after _ refl refl (RoomIn-mono (some r) _ _ a.room_count f.held_in)
          f.alone m,
    )
Acts-Fits {user} {st} (look_tell {payload} {r} {room} at) v c lt f =
    (same-Affects user st v c, look_tell-Fits user payload r room st at f)
Acts-Fits {user} {st} {after} (tell {payload} {r} e) v c lt f =
    let (a, m) = tell-Affects user st v c r payload after lt f.held_in e in
    (a, told-Fits user r payload st after a.room_count m f)
Acts-Fits {user} {st} (answer {again} {msg} {room}) v c lt f =
    (same-Affects user st v c, answered-Fits user st again msg room f)
Acts-Fits {user} {st} (stop {room}) v c lt f =
    (same-Affects user st v c, moved-Fits user (awaiting room) (closing room) st refl refl refl f)
Acts-Fits {user} {st} (close {room}) v c lt f =
    (same-Affects user st v c, moved-Fits user (closing room) (ended room) st refl refl refl f)
Acts-Fits {user} {st} (greet msg) v c lt f = (same-Affects user st v c, greeted-Fits user st msg f)
Acts-Fits {user} {st} (admit {name} {out} e) v c lt f =
    let (a, r_in, m) = find-Affects user st v c name out e in
    (
      a,
      found-Fits user st out.1 (admitting name) (joining out.0) out.0 refl refl refl refl r_in m f,
    )
Acts-Fits {user} {st} {after} (enroll {r} e) v c lt f =
    let (a, m) = add-Affects user r st after v c lt f.target_in e in
    (
      a,
      entered-Fits user r st after _ refl refl (inr refl)
          (RoomIn-mono (some r) _ _ a.room_count f.target_in) f.alone m,
    )
Acts-Fits {user} {st} (drain {r} {u} {out} {queue} at e) v c lt f = (
  drain-Affects user st v c u out queue at e,
  drained-Fits user r out _
      (record { held_in = f.held_in; target_in = tt; alone = f.alone; surely = f.surely }),
)
Acts-Fits {user} {st} (stop_drain {r}) v c lt f =
    (same-Affects user st v c, moved-Fits user (draining r) (closing (some r)) st refl refl refl f)
