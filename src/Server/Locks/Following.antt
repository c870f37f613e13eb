-- ===== src/Server/Locks/Following.antt =====
-- What a thread can do on one of two stores that are alike, it can do on the other.
use csf_hw.Prelude.{
  ℕ, ◌≡◌, refl, sym, ap, ap₂, ◌∙◌, true, false, List, [], ◌∷◌, ◌++◌, append-nil, some, map, set,
  inl, inr, Option-cases, arith, subst, map-set, map-concat, map-set_same,
}
use csf_hw.Outcome.{done}
use csf_hw.Text.{Str}
use csf_hw.Room.{Room, new_room, remove_newline, add_member, remove_member, member_exists, set_has}
use csf_hw.Server.{Store, find_room, put_room, find_or_create_room, at_room}
use csf_hw.Server.Threads.{
  Place, leaving, checking, entering, joining, leave_if, tell_if, Act, hear, part, seek, enter,
  look_leave, remove, look_tell, tell, answer, stop, close, greet, admit, enroll, drain, stop_drain,
}
use csf_hw.Server.Locks.{Lock, guard_of, is_unguarded, is_broadcast, cut_name}
use csf_hw.Server.Locks.Calls.{at_room-done}
use csf_hw.Server.Locks.Alike.{Alike, titles, room_count, room_like, members_like}

-- What the threads call under a guard has the same effect.
pub record Follows (user : ℕ) (a s after : Store) (p q : Place) : Type 0 where
  pub result : Store
  pub acts : Act user a p result q
  pub like : Alike result after
  pub users_left : result.users ≡ a.users
  pub users_right : after.users ≡ s.users
  pub fresh : List Str
  pub titles_lem : titles after.rooms ≡ titles s.rooms ++ fresh

module _ {user : ℕ} {a s after : Store} (like : Alike a s) where
  -- A method that keeps the name.
  method-Follows :
      (p q : Place) (r : ℕ) (method : Room → Room)
      → ((room : Room) → cut_name (method room) ≡ method (cut_name room))
      → ((room : Room) → (method room).room_name ≡ room.room_name)
      → ((st out : Store) → at_room r method st ≡ done out → Act user st p out q)
      → at_room r method s ≡ done after
      → Follows user a s after p q
  unfolding at_room
  method-Follows p q r method cuts keeps to_act e =
      let (room, at, same) = at_room-done r method s after e in
      let (room', at', cut) = room_like like r room at in
      subst (λ x. Follows user a s x p q) same
        (record {
          result = record a { rooms = set a.rooms r (method room') };
          acts = to_act a _ (rw at' refl);
          like = record {
            m_rooms_lem = like.m_rooms_lem;
            rooms_lem =
                map-set cut_name a.rooms r (method room')
                ∙ ap (λ x. set x r (cut_name (method room'))) like.rooms_lem
                ∙ ap (set (map cut_name s.rooms) r) (cuts room' ∙ ap method cut ∙ sym (cuts room))
                ∙ sym (map-set cut_name s.rooms r (method room));
            names_lem = like.names_lem;
          };
          users_left = refl;
          users_right = refl;
          fresh = [];
          titles_lem =
              map-set_same (λ (x : Room). remove_newline x.room_name) s.rooms r room (method room)
                at (ap remove_newline (keeps room))
              ∙ sym (append-nil (titles s.rooms));
        })

-- `find_or_create_room` on both stores.
record FindsAlike (a s : Store) (left right : ℕ × Store) : Type 0 where
  pointer : left.0 ≡ right.0
  like : Alike left.1 right.1
  users_left : left.1.users ≡ a.users
  users_right : right.1.users ≡ s.users
  fresh : List Str
  titles_lem : titles right.1.rooms ≡ titles s.rooms ++ fresh

module _ {a s : Store} (like : Alike a s) (name : Str) where
  find_or_create_room-FindsAlike :
      FindsAlike a s (find_or_create_room name a) (find_or_create_room name s)
  unfolding find_or_create_room
  find_or_create_room-FindsAlike = elim (Option-cases (find_room name s.m_rooms)) [
    | inl missing ↦
        rw (find_or_create_room, missing, ap (find_room name) like.m_rooms_lem ∙ missing)
          (record {
            pointer = room_count like;
            like = record {
              m_rooms_lem = ap₂ (put_room name) (room_count like) like.m_rooms_lem;
              rooms_lem =
                  map-concat cut_name a.rooms (new_room name)
                  ∙ ap (λ x. x ++ cut_name (new_room name) ∷ []) like.rooms_lem
                  ∙ sym (map-concat cut_name s.rooms (new_room name));
              names_lem = like.names_lem;
            };
            users_left = refl;
            users_right = refl;
            fresh = remove_newline name ∷ [];
            titles_lem =
                map-concat (λ (x : Room). remove_newline x.room_name) s.rooms (new_room name);
          })
    | inr (r, found) ↦
        rw (find_or_create_room, found, ap (find_room name) like.m_rooms_lem ∙ found)
          (record {
            pointer = refl;
            like = like;
            users_left = refl;
            users_right = refl;
            fresh = [];
            titles_lem = sym (append-nil (titles s.rooms));
          })
  ]

module _ {user : ℕ} {a s : Store} (like : Alike a s) where
  find-Follows :
      (name : Str) (p : Place) (goal : ℕ → Place)
      → ((st : Store) (x : ℕ × Store)
          → find_or_create_room name st ≡ x
          → Act user st p x.1 (goal x.0))
      → (out : ℕ × Store) → find_or_create_room name s ≡ out
      → Follows user a s out.1 p (goal out.0)
  find-Follows name p goal to_act out e =
      subst (λ x. Follows user a s x.1 p (goal x.0)) e
        (record {
          result = (find_or_create_room name a).1;
          acts =
              subst (λ r. Act user a p (find_or_create_room name a).1 (goal r)) f.pointer
                (to_act a (find_or_create_room name a) refl);
          like = f.like;
          users_left = f.users_left;
          users_right = f.users_right;
          fresh = f.fresh;
          titles_lem = f.titles_lem;
        })
    where
      f : FindsAlike a s (find_or_create_room name a) (find_or_create_room name s)
      f = find_or_create_room-FindsAlike like name

add_member-cut :
    (user : ℕ) (room : Room) → cut_name (add_member user room) ≡ add_member user (cut_name room)
unfolding add_member
add_member-cut user room = refl

add_member-keeps : (user : ℕ) (room : Room) → (add_member user room).room_name ≡ room.room_name
unfolding add_member
add_member-keeps user room = refl

remove_member-cut :
    (user : ℕ) (room : Room)
    → cut_name (remove_member user room) ≡ remove_member user (cut_name room)
unfolding remove_member
remove_member-cut user room = refl

remove_member-keeps :
    (user : ℕ) (room : Room) → (remove_member user room).room_name ≡ room.room_name
unfolding remove_member
remove_member-keeps user room = refl

pub run-Follows :
    {user : ℕ} {a s after : Store} {p q : Place} {l : Lock}
    → Alike a s
    → guard_of p ≡ some l
    → is_broadcast p ≡ false
    → Act user s p after q
    → Follows user a s after p q
unfolding guard_of is_broadcast
run-Follows {user} like g b (part {r = r} e) =
    method-Follows like _ _ r (remove_member user) (remove_member-cut user)
      (remove_member-keeps user) (λ st out x. part x) e
run-Follows {user} like g b (seek {name} {out} e) =
    find-Follows like name _ entering (λ st out x. seek x) out e
run-Follows {user} like g b (enter {r} e) =
    method-Follows like _ _ r (add_member user) (add_member-cut user) (add_member-keeps user)
      (λ st out x. enter x) e
run-Follows {user} like g b (remove {r} e) =
    method-Follows like _ _ r (remove_member user) (remove_member-cut user)
      (remove_member-keeps user) (λ st out x. remove x) e
run-Follows {user} like g b (admit {name} {out} e) =
    find-Follows like name _ joining (λ st out x. admit x) out e
run-Follows {user} like g b (enroll {r} e) =
    method-Follows like _ _ r (add_member user) (add_member-cut user) (add_member-keeps user)
      (λ st out x. enroll x) e
run-Follows like g b _ = absurd (ground arith)

member_exists-like :
    (user : ℕ) (x y : Room) → cut_name x ≡ cut_name y → member_exists user x ≡ member_exists user y
unfolding member_exists
member_exists-like user x y e = ap (set_has user) (members_like x y e)

-- Outside all guards.
pub go_on-Follows :
    {user : ℕ} {a s st : Store} {p q : Place}
    → Alike a s
    → is_unguarded p ≡ true
    → Act user s p st q
    → Act user a p a q
unfolding is_unguarded
go_on-Follows like u (hear msg) = hear msg
go_on-Follows {user} {a} like u (look_leave {r} {room} at) =
    let (room', at', cut) = room_like like r room at in
    subst (λ b. Act user a (leaving r) a (leave_if b r)) (member_exists-like user room' room cut)
      (look_leave at')
go_on-Follows {user} {a} like u (look_tell {payload} {r} {room} at) =
    let (room', at', cut) = room_like like r room at in
    subst (λ b. Act user a (checking payload r) a (tell_if b payload r))
      (member_exists-like user room' room cut) (look_tell at')
go_on-Follows like u answer = answer
go_on-Follows like u stop = stop
go_on-Follows like u close = close
go_on-Follows like u (greet msg) = greet msg
go_on-Follows like u (part e) = absurd (ground arith)
go_on-Follows like u (seek e) = absurd (ground arith)
go_on-Follows like u (enter e) = absurd (ground arith)
go_on-Follows like u (remove e) = absurd (ground arith)
go_on-Follows like u (tell e) = absurd (ground arith)
go_on-Follows like u (admit e) = absurd (ground arith)
go_on-Follows like u (enroll e) = absurd (ground arith)
go_on-Follows like u (drain at e) = absurd (ground arith)
go_on-Follows like u stop_drain = absurd (ground arith)
