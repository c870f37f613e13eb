-- ===== src/Server/Spec/Join.antt =====
-- A join, as the users of the chat see it.
use csf_hw.Prelude.{
  ℕ, ◌≡◌, refl, ap, fun_ext, ◌∙◌, true, false, some, length, get_elem?_outside, Option-cases,
  Bool-cases, inl, inr, arith, ◌==◌, ==_iff, if◌then◌else◌, List,
}
use csf_hw.Text.{Str, str_eq}
use csf_hw.Text.Equality.{str_eq_iff, str_eq_refl}
use csf_hw.Room.{Room}
use csf_hw.Server.{Store, find_room}
use csf_hw.Server.Rooms.{pointer_or, find_room-injective}
use csf_hw.Server.Membership.{member_at}
use csf_hw.Server.Session.Join.{JoinedTo}
use csf_hw.Server.Spec.{view, room_has, queue_in, name_in, move_to}

member_at_outside : (v q : ℕ) (rooms : List Room) → q ≡ length rooms → member_at v q rooms ≡ false
member_at_outside v q rooms e = rw (member_at, get_elem?_outside rooms q (omega arith)) refl

module _ (user : ℕ) (name : Str) (pointer : ℕ) (old st : Store)
    (j : JoinedTo user name pointer old st) where
  -- Under another name the pointer is another one.
  other_pointer :
      (k : Str) (r : ℕ)
      → str_eq name k ≡ false
      → find_room k old.m_rooms ≡ some r
      → (pointer == r) ≡ false
  other_pointer k r differ at = elim (Bool-cases (pointer == r)) [
    | inr e ↦ e
    | inl e ↦ absurd (
        ground (
          arith,
          ==_iff pointer r,
          str_eq_iff name k,
          str_eq_iff name name,
          j.found name,
          j.found k,
          find_room-injective name k st.rooms 0 r st.m_rooms j.session.valid.keyed,
        ))
  ]

  room_has-named : (v : ℕ) → room_has st v name ≡ (if user == v then true else room_has old v name)
  room_has-named v = elim (Option-cases (find_room name old.m_rooms)) [
    | inl missing ↦
        let at : pointer ≡ length old.rooms = j.at ∙ ap (pointer_or (length old.rooms)) missing in
        ground (
          arith,
          str_eq_refl name,
          j.found name,
          j.member v pointer,
          member_at_outside v pointer old.rooms at,
        )
    | inr (r, there) ↦
        let at : pointer ≡ r = j.at ∙ ap (pointer_or (length old.rooms)) there in
        ground (arith, str_eq_refl name, j.found name, j.member v pointer)
  ]

  room_has-joined :
      (v : ℕ) (k : Str) → room_has st v k ≡ (if user == v then str_eq name k else room_has old v k)
  room_has-joined v k = elim (Bool-cases (str_eq name k)) [
    | inl same ↦ rw (← (str_eq_iff name k).0 same) (room_has-named v ∙ rw (str_eq_refl name) refl)
    | inr differ ↦ elim (Option-cases (find_room k old.m_rooms)) [
      | inl missing ↦ ground (arith, j.found k)
      | inr (r, at) ↦ ground (arith, j.found k, j.member v r, other_pointer k r differ at)
    ]
  ]

  -- The user is seen in the named room and no other; nothing else is seen to change.
  pub view-joined : view st ≡ move_to user name (view old)
  unfolding view
  view-joined = λ i. record {
    is_in = fun_ext (λ v. fun_ext (λ k. room_has-joined v k)) i;
    queue = ap queue_in j.users i;
    username = ap name_in j.users i;
  }
