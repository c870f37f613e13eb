-- ===== src/Server/Admission.antt =====
-- How a receiver is admitted to its room by `chat_with_receiver`.
use csf_hw.Prelude.{
  ℕ, Bool, ◌+◌, ◌≤◌, ◌≡◌, refl, ◌∙◌, true, [], ◌∷◌, ◌++◌, none, some, length, arith,
}
use csf_hw.Outcome.{Outcome, done, undefined, exited, aborted, unfinished, ◌>>=◌}
use csf_hw.Text.{Str, codes, str_eq, c_str, has}
use csf_hw.Message.{make_message, max_len, tag_ok, tag_join}
use csf_hw.Csapp.{Csapp, Documented}
use csf_hw.Connection.{message_text}
use csf_hw.Connection.Fields.{IsPlain}
use csf_hw.Server.{find_or_create_room, at_room}
use csf_hw.Room.{add_member}
use csf_hw.Server.Session.{InSession}
use csf_hw.Server.Session.Join.{JoinedTo, Joins, on_join-Joins}
use csf_hw.Server.Chat.{Chat, respond, reply, leave_room, on_join}
use csf_hw.Server.Receiver.{receiver_join}
use csf_hw.Server.Entry.{Answered, Heard, hear}

-- What is returned with `true` behind a handler.
abbrev and_again {ℓ κ} : {A : Type ℓ} {B : Type κ} → Outcome A → (A → B) → Outcome (Bool × B)
and_again o f = do a ← o; done (true, f a)

abbrev handled {ℓ κ} : {A : Type ℓ} {B : Type κ} → Outcome A → (A → B) → Outcome B
handled o f = do a ← o; done (f a)

again-handled {ℓ κ} :
    {A : Type ℓ} {B : Type κ} (o : Outcome A) (f : A → B)
    → and_again o f ≡ and_again (handled o f) (λ b. b)
again-handled (done a) f = refl
again-handled undefined f = refl
again-handled (exited n text) f = refl
again-handled aborted f = refl
again-handled unfinished f = refl

-- The part of `receiver_join` behind its guards.
abbrev enters : (cs : Csapp) → ℕ → Str → Chat cs → Outcome (Bool × Chat cs)
enters cs user name c = do
  let found = find_or_create_room name c.store
  joined ← at_room found.0 (add_member user) found.1
  done (
    true,
    reply cs tag_ok (codes "Join successful") (record c { room = some found.0; store = joined }),
  )

-- The join of a receiver is that of a sender in no room.
enters-on_join :
    (cs : Csapp) (user : ℕ) (name : Str) (c : Chat cs)
    → c.room ≡ none
    → enters cs user name c ≡ and_again (on_join cs user name c) (λ c'. c')
unfolding on_join leave_room
enters-on_join cs user name c new = rw (on_join, leave_room, new) (again-handled (at_room _ _ _) _)

module _ (cs : Csapp) (doc : Documented cs) where
  open doc use {incoming}

  -- The user is in the room, the client is told so, and the loop begins.
  pub record Admits (user : ℕ) (field rest : Str) (c : Chat cs) : Type 0 where
    pub target : ℕ
    pub after : Chat cs
    pub returns : receiver_join cs user c ≡ done (true, after)
    pub room : after.room ≡ some target
    pub joined : JoinedTo user (field ++ b'\n' ∷ []) target c.store after.store
    pub answered : Answered cs doc (codes "ok:Join successful\n") rest c after

  -- While the descriptors work as documented, if the next line of a receiver that is in a session
  -- and holds no room is `join:field`, its field free of colons, newlines and NULs, and at most 254
  -- bytes, then the part of `chat_with_receiver` before its loop succeeds and the loop begins: the
  -- user is a member of exactly the room with that name, every other membership is as it was,
  -- exactly the response `ok:Join successful` is written, and exactly that line is taken off the
  -- input.
  pub receiver_join-Admits :
      (user : ℕ) (field rest : Str) (c : Chat cs)
      → c.room ≡ none
      → InSession user c.room c.store
      → incoming c.conn.m_fdbuf c.net ≡ tag_join ++ (b':' ∷ (field ++ b'\n' ∷ rest))
      → IsPlain field
      → length field + 7 ≤ max_len
      → Admits user field rest c
  unfolding receiver_join str_eq c_str message_text has respond
  receiver_join-Admits user field rest c new s arrives pf fits = record {
    target = joins.target;
    after =
        respond cs (make_message tag_ok (codes "Join successful"))
          (record heard { room = some joins.target; store = joins.after });
    returns = rw h.returns (
        rw (h.ok, h.msg_lem)
          (enters-on_join cs user (field ++ b'\n' ∷ []) heard new ∙ rw joins.returns refl));
    room = refl;
    joined = joins.joined;
    answered = record {
      fd = h.answered.fd;
      written = h.answered.written;
      unread = h.answered.unread;
    };
  }
    where
      h : Heard cs doc tag_join field rest (make_message tag_ok (codes "Join successful")) c
      h =
          hear cs doc tag_join field rest (make_message tag_ok (codes "Join successful")) c arrives
            (record { no_colon = refl; no_newline = refl; no_nul = refl }) pf refl
            (omega (arith, fits))

      heard : Chat cs
      heard = record c { conn = h.received.conn; net = h.received.net }

      joins : Joins cs user (field ++ b'\n' ∷ []) heard
      joins = on_join-Joins cs user (field ++ b'\n' ∷ []) heard s
