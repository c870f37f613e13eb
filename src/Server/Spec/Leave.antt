-- ===== src/Server/Spec/Leave.antt =====
-- A leave, as the users of the chat see it.
use csf_hw.Prelude.{
  ℕ, ◌≡◌, ap, fun_ext, false, not, ◌&&◌, some, Option-cases, inl, inr, arith, ◌==◌, ==_iff,
}
use csf_hw.Text.{Str}
use csf_hw.Server.{Store, find_room}
use csf_hw.Server.Membership.{member_at, Changes}
use csf_hw.Server.Session.{InSession}
use csf_hw.Server.Spec.{view, room_has, queue_in, name_in, move_out}

module _ (user r : ℕ) (st : Store) (s : InSession user (some r) st) where
  module _ (ch : Changes user r st) where
    room_has-left : (v : ℕ) (k : Str) → room_has ch.left v k ≡ (not (user == v) && room_has st v k)
    room_has-left v k = elim (Option-cases (find_room k st.m_rooms)) [
      | inl missing ↦ ground (arith, ch.left_map)
      | inr (q, at) ↦ ground (arith, ch.left_map, ch.left_member v q, s.alone q, ==_iff user v)
    ]

    pub view-left : view ch.left ≡ move_out user (view st)
    unfolding view
    view-left = λ i. record {
      is_in = fun_ext (λ v. fun_ext (λ k. room_has-left v k)) i;
      queue = ap queue_in ch.left_users i;
      username = ap name_in ch.left_users i;
    }

  -- Who is not in the room held is in none.
  room_has-outside :
      member_at user r st.rooms ≡ false
      → (v : ℕ) (k : Str) → room_has st v k ≡ (not (user == v) && room_has st v k)
  room_has-outside h v k = elim (Option-cases (find_room k st.m_rooms)) [
    | inl missing ↦ ground arith
    | inr (q, at) ↦ ground (arith, s.alone q, ==_iff user v)
  ]

  pub view-outside : member_at user r st.rooms ≡ false → view st ≡ move_out user (view st)
  unfolding view
  view-outside h = λ i. record {
    is_in = fun_ext (λ v. fun_ext (λ k. room_has-outside h v k)) i;
    queue = queue_in st.users;
    username = name_in st.users;
  }
