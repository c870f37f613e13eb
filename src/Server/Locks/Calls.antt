-- ===== src/Server/Locks/Calls.antt =====
-- The rooms that a move leaves alone.
use csf_hw.Prelude.{
  ℕ, ◌≡◌, refl, ◌∙◌, ◌≢◌, true, false, [], ◌∷◌, some, get_elem?, set, get_elem?-set_ne,
  get_elem?-lt, get_elem?-append_left, inl, inr, Option-cases, arith, ==_iff, subst,
}
use csf_hw.Outcome.{done, done-injective}
use csf_hw.Text.{Str}
use csf_hw.Room.{Room, new_room}
use csf_hw.Server.{Store, find_room, find_or_create_room, at_room}
use csf_hw.Server.Threads.{Place, Act, part, seek, enter, remove, tell, admit, enroll, drain}
use csf_hw.Server.Locks.{
  Lock, of_room, lock_eq, Memory, put_lock, guard_of, is_unguarded, is_broadcast, Spot, within,
  Move, go_on, run, compose,
}
use csf_hw.Server.Locks.Owners.{one_if, owns}

-- A method of a room that returns has found the room.
pub at_room-done :
    (r : ℕ) (method : Room → Room) (st after : Store)
    → at_room r method st ≡ done after
    → (room : Room) × (get_elem? st.rooms r ≡ some room)
      × (record st { rooms = set st.rooms r (method room) } ≡ after)
unfolding at_room
at_room-done r method st after e = elim (Option-cases (get_elem? st.rooms r)) [
  | inl missing ↦ absurd (ground arith)
  | inr (room, at) ↦ (room, at, done-injective (ground arith))
]

at_room-other :
    (r : ℕ) (method : Room → Room) (st after : Store) (q : ℕ)
    → at_room r method st ≡ done after
    → r ≢ q
    → get_elem? after.rooms q ≡ get_elem? st.rooms q
at_room-other r method st after q e differ =
    let (room, at, same) = at_room-done r method st after e in
    subst (λ (s : Store). get_elem? s.rooms q ≡ get_elem? st.rooms q) same
      (get_elem?-set_ne st.rooms r q (method room) differ)

find_or_create_room-get :
    (name : Str) (st : Store) (out : ℕ × Store) (q : ℕ) (room : Room)
    → find_or_create_room name st ≡ out
    → get_elem? st.rooms q ≡ some room
    → get_elem? out.1.rooms q ≡ some room
unfolding find_or_create_room
find_or_create_room-get name st out q room e at =
    subst (λ (x : ℕ × Store). get_elem? x.1.rooms q ≡ some room) e
      (elim (Option-cases (find_room name st.m_rooms)) [
        | inl missing ↦
            rw (find_or_create_room, missing)
              (get_elem?-append_left st.rooms (new_room name ∷ []) q (get_elem?-lt st.rooms q at)
                ∙ at)
        | inr (r, found) ↦ rw (find_or_create_room, found) at
      ])

other_room : (r q : ℕ) → one_if (lock_eq (of_room q) (of_room r)) ≡ 0 → r ≢ q
other_room r q h e = ground (arith, ==_iff q r)

-- A call under a guard leaves every room alone whose lock the thread does not have.
run-get :
    {user : ℕ} {st after : Store} {p q : Place} {l : Lock} (r : ℕ) (room : Room)
    → Act user st p after q
    → guard_of p ≡ some l
    → is_broadcast p ≡ false
    → owns (of_room r) (within p) ≡ 0
    → get_elem? st.rooms r ≡ some room
    → get_elem? after.rooms r ≡ some room
unfolding guard_of is_broadcast owns
run-get {st = st} {after = after} r room (part {r = x} e) g b o at =
    at_room-other x _ st after r e (other_room x r o) ∙ at
run-get {st = st} r room (seek {name} {out} e) g b o at =
    find_or_create_room-get name st out r room e at
run-get {st = st} {after = after} r room (enter {r = x} e) g b o at =
    at_room-other x _ st after r e (other_room x r o) ∙ at
run-get {st = st} {after = after} r room (remove {r = x} e) g b o at =
    at_room-other x _ st after r e (other_room x r o) ∙ at
run-get {st = st} r room (admit {name} {out} e) g b o at =
    find_or_create_room-get name st out r room e at
run-get {st = st} {after = after} r room (enroll {r = x} e) g b o at =
    at_room-other x _ st after r e (other_room x r o) ∙ at
run-get r room _ g b o at = absurd (ground arith)

-- An act outside all guards leaves the store as it is.
pub go_on-store :
    {user : ℕ} {old st : Store} {p q : Place}
    → is_unguarded p ≡ true
    → Act user old p st q
    → st ≡ old
unfolding is_unguarded
go_on-store u (part e) = absurd (ground arith)
go_on-store u (seek e) = absurd (ground arith)
go_on-store u (enter e) = absurd (ground arith)
go_on-store u (remove e) = absurd (ground arith)
go_on-store u (tell e) = absurd (ground arith)
go_on-store u (admit e) = absurd (ground arith)
go_on-store u (enroll e) = absurd (ground arith)
go_on-store u (drain at e) = absurd (ground arith)
go_on-store u _ = refl

-- So does every move.
pub Move-get :
    {user : ℕ} {m after : Memory} {p q : Spot} (r : ℕ) (room : Room)
    → Move user m p after q
    → owns (of_room r) p ≡ 0
    → get_elem? m.store.rooms r ≡ some room
    → get_elem? after.store.rooms r ≡ some room
unfolding owns put_lock
Move-get r room (run g b a) o at = run-get r room a g b o at
Move-get {m = m} r room (compose {loop} e at_u differ at_room) o at =
    get_elem?-set_ne m.store.rooms loop.room r _ (other_room loop.room r o) ∙ at
Move-get r room (go_on u a) o at = rw (go_on-store u a) at
Move-get r room _ o at = at
