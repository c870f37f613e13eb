-- ===== src/Server/Session/Requests.antt =====
-- Every request of a sender in a session, answered as an independent description says.
use csf_hw.Prelude.{
  ℕ, ◌≡◌, refl, sym, arith, ◌∙◌, ◌≢◌, ◌↔◌, inl, inr, Bool, true, false, not, Option, none, some,
  if◌then◌else◌, Bool-cases, Option-cases,
}
use csf_hw.Outcome.{Outcome, done, undefined, ◌>>=◌}
use csf_hw.Text.{codes, str_eq}
use csf_hw.Text.Equality.{str_eq_iff}
use csf_hw.Message.{Message, make_message, tag_ok, tag_err, tag_quit, tag_join, tag_leave}
use csf_hw.Csapp.{Csapp}
use csf_hw.Server.{Store}
use csf_hw.Server.Chat.{Chat, respond, on_leave, on_sendall, on_request}
use csf_hw.Server.Session.{in_room, InSession}
use csf_hw.Server.Session.Join.{Joins, on_join-Joins}
use csf_hw.Server.Session.Stays.{
  Stays, leave_response, sendall_response, leave-Stays, sendall-Stays,
}

-- The answer that the protocol owes to a request, by whether the user is in a room.
abbrev pub response_to : Message → Bool → Message
response_to msg inside =
    if str_eq msg.tag tag_quit
    then make_message tag_ok (codes "Quit successful")
    else if str_eq msg.tag tag_join
    then make_message tag_ok (codes "Join successful")
    else if str_eq msg.tag tag_leave
    then (if inside
        then make_message tag_ok (codes "Leave successful")
        else make_message tag_err (codes "Leave unsuccessful, user isn't in the room"))
    else if inside
    then make_message tag_ok (codes "Sendall successful")
    else make_message tag_err (codes "Sendall unsuccessful, user isn't in a room")

-- Whether the user is in the room that the thread holds after the request, and whether it holds one.
abbrev pub inside_after : Message → Bool → Bool
inside_after msg inside =
    if str_eq msg.tag tag_quit
    then inside
    else if str_eq msg.tag tag_join
    then true
    else if str_eq msg.tag tag_leave
    then false
    else inside

abbrev pub held_after : Message → Bool → Bool
held_after msg held =
    if str_eq msg.tag tag_quit then held else if str_eq msg.tag tag_join then true else held

abbrev pub is_held : Option ℕ → Bool
is_held none = false
is_held (some r) = true

-- A request in a session is answered with exactly the response that `response_to` gives, the loop
-- goes on unless it is `quit`, and the session goes on in some room.
pub record Handles (cs : Csapp) (user : ℕ) (msg : Message) (c : Chat cs) : Type 0 where
  pub room : Option ℕ
  pub after : Store
  pub returns :
      on_request cs user msg c
      ≡ done (
        not (str_eq msg.tag tag_quit),
        respond cs
            (response_to msg (in_room user c.room c.store))
            (record c { room = room; store = after }),
      )
  pub session : InSession user room after
  pub inside_lem : in_room user room after ≡ inside_after msg (in_room user c.room c.store)
  pub held_lem : is_held room ≡ held_after msg (is_held c.room)

module _ (cs : Csapp) (user : ℕ) (msg : Message) (c : Chat cs)
    (s : InSession user c.room c.store) where
  quit-Handles : str_eq msg.tag tag_quit ≡ true → Handles cs user msg c
  unfolding on_request
  quit-Handles q = record {
    room = c.room;
    after = c.store;
    returns = rw q refl;
    session = s;
    inside_lem = rw q refl;
    held_lem = rw q refl;
  }

  join-Handles :
      str_eq msg.tag tag_quit ≡ false → str_eq msg.tag tag_join ≡ true → Handles cs user msg c
  unfolding on_request
  join-Handles q j = record {
    room = some joins.target;
    after = joins.after;
    returns = rw (q, j) (rw joins.returns refl);
    session = joins.joined.session;
    inside_lem = rw (q, j) (ground (arith, joins.joined.member user joins.target));
    held_lem = rw (q, j) refl;
  }
    where
      joins : Joins cs user msg.payload c
      joins = on_join-Joins cs user msg.payload c s

  Stays-Handles :
      (response : Message) (inside : Bool) (Known : Store → Type 0) (handler : Outcome (Chat cs))
      → Stays cs user c.room response inside Known c handler
      → on_request cs user msg c ≡ (handler >>= λ c'. done (true, c'))
      → str_eq msg.tag tag_quit ≡ false
      → str_eq msg.tag tag_join ≡ false
      → response_to msg (in_room user c.room c.store) ≡ response
      → inside_after msg (in_room user c.room c.store) ≡ inside
      → Handles cs user msg c
  Stays-Handles response inside Known handler st e q j r i = record {
    room = c.room;
    after = st.after;
    returns = e ∙ rw (st.returns, r, q) refl;
    session = st.session;
    inside_lem = st.inside_lem ∙ sym i;
    held_lem = rw (q, j) refl;
  }

  leave-Handles :
      str_eq msg.tag tag_quit ≡ false
      → str_eq msg.tag tag_join ≡ false
      → str_eq msg.tag tag_leave ≡ true
      → c.room ≢ none
      → Handles cs user msg c
  unfolding on_request leave_response
  leave-Handles q j l h =
      Stays-Handles _ _ _ (on_leave cs user c.room c) (leave-Stays cs user c c.room s h)
        (rw (q, j, l)) q j (rw (q, j, l)) (rw (q, j, l) refl)

  sendall-Handles :
      str_eq msg.tag tag_quit ≡ false
      → str_eq msg.tag tag_join ≡ false
      → str_eq msg.tag tag_leave ≡ false
      → Handles cs user msg c
  unfolding on_request sendall_response
  sendall-Handles q j l =
      Stays-Handles _ _ _ (on_sendall cs user msg.payload c.room c)
        (sendall-Stays cs user c msg.payload c.room s) (rw (q, j, l)) q j (rw (q, j, l))
        (rw (q, j, l) refl)

  -- In a session, every request but a `leave` while no room is held is handled without a fault: the
  -- loop goes on exactly if the tag is not `quit`, the one response sent is that of the table
  -- `response_to`, and the store, the room held and the user are a session again, in which the user
  -- is a member of no room but the one held.
  pub on_request-Handles : (msg.tag ≡ tag_leave → c.room ≢ none) → Handles cs user msg c
  on_request-Handles h = elim (Bool-cases (str_eq msg.tag tag_quit)) [
    | inl q ↦ quit-Handles q
    | inr q ↦ elim (Bool-cases (str_eq msg.tag tag_join)) [
      | inl j ↦ join-Handles q j
      | inr j ↦ elim (Bool-cases (str_eq msg.tag tag_leave)) [
        | inl l ↦ leave-Handles q j l (h ((str_eq_iff msg.tag tag_leave).0 l))
        | inr l ↦ sendall-Handles q j l
      ]
    ]
  ]

  -- In a session, handling a request is undefined behaviour exactly if the tag is `leave` and the
  -- thread holds no room, since the null room is then followed.
  pub on_request-undefined_iff :
      (on_request cs user msg c ≡ undefined) ↔ ((msg.tag ≡ tag_leave) × (c.room ≡ none))
  unfolding on_request on_leave str_eq
  on_request-undefined_iff = (to, from)
    where
      handled : Handles cs user msg c → on_request cs user msg c ≢ undefined
      handled h e = cc (h.returns)

      other : str_eq msg.tag tag_leave ≡ false → msg.tag ≡ tag_leave → ⊥
      other l h = cc ((str_eq_iff msg.tag tag_leave).1 h)

      to : on_request cs user msg c ≡ undefined → (msg.tag ≡ tag_leave) × (c.room ≡ none)
      to e = elim (Option-cases c.room) [
        | inr (r, held) ↦ absurd (handled (on_request-Handles (λ _ n. cc)) e)
        | inl n ↦ elim (Bool-cases (str_eq msg.tag tag_leave)) [
          | inl l ↦ ((str_eq_iff msg.tag tag_leave).0 l, n)
          | inr l ↦ absurd (handled (on_request-Handles (λ h. absurd (other l h))) e)
        ]
      ]

      from : (msg.tag ≡ tag_leave) × (c.room ≡ none) → on_request cs user msg c ≡ undefined
      from (l, n) = rw (l, n)
