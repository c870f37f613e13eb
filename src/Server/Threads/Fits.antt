-- ===== src/Server/Threads/Fits.antt =====
-- Where a thread stands fits the store, before and after each of its acts.
use csf_hw.Prelude.{
  ℕ, ◌≤◌, ◌≡◌, refl, sym, ◌∙◌, ◌≢◌, Bool, true, false, Option, none, some, length, inl, inr,
  Bool-cases, arith,
}
use csf_hw.Text.{Str, str_eq}
use csf_hw.Message.{Message, tag_join}
use csf_hw.Server.{Store}
use csf_hw.Server.Membership.{member_at}
use csf_hw.Server.Session.{RoomIn}
use csf_hw.Server.Threads.{
  Place, awaiting, answering, greeting, admitting, ended, Request, quit, join, leave, text,
  request_of, take, heard, greeted, answered, held, target, inside,
}
use csf_hw.Server.Threads.Effects.{Affects}

-- The rooms that the thread of `user` points to exist; the user is a member of no room but the one
-- that the thread holds, and of the one of which that is sure.
pub record Fits (user : ℕ) (p : Place) (st : Store) : Type 0 where
  pub held_in : RoomIn (held p) (length st.rooms)
  pub target_in : RoomIn (target p) (length st.rooms)
  pub alone : (q : ℕ) → member_at user q st.rooms ≡ true → held p ≡ some q
  pub surely : (q : ℕ) → inside p ≡ some q → member_at user q st.rooms ≡ true

pub RoomIn-mono : (room : Option ℕ) (m n : ℕ) → m ≤ n → RoomIn room m → RoomIn room n
RoomIn-mono none m n h i = tt
RoomIn-mono (some r) m n h i = omega arith

-- A thread that only moves on, with the same room.
pub moved-Fits :
    (user : ℕ) (p q : Place) (st : Store)
    → held q ≡ held p
    → target q ≡ none
    → inside q ≡ none
    → Fits user p st
    → Fits user q st
moved-Fits user p q st h t i f = record {
  held_in = rw h f.held_in;
  target_in = rw t tt;
  alone = λ r is_in. h ∙ f.alone r is_in;
  surely = λ r e. absurd (ground arith);
}

-- What others do leaves it fitting.
pub others-Fits :
    (actor user : ℕ) (p : Place) (st after : Store)
    → actor ≢ user
    → Affects actor st after
    → Fits user p st
    → Fits user p after
others-Fits actor user p st after differ a f = record {
  held_in = RoomIn-mono (held p) (length st.rooms) (length after.rooms) a.room_count f.held_in;
  target_in =
      RoomIn-mono (target p) (length st.rooms) (length after.rooms) a.room_count f.target_in;
  alone = λ q is_in. f.alone q (sym (a.others user q differ) ∙ is_in);
  surely = λ q e. a.others user q differ ∙ f.surely q e;
}

-- Behind `receive`.
take-Fits :
    (user : ℕ) (st : Store) (r : Request) (payload : Str) (room : Option ℕ)
    → Fits user (awaiting room) st
    → Fits user (take r payload room) st
unfolding take
take-Fits user st quit payload room f = moved-Fits user (awaiting room) _ st refl refl refl f
take-Fits user st join payload none f = moved-Fits user (awaiting none) _ st refl refl refl f
take-Fits user st join payload (some r) f =
    moved-Fits user (awaiting (some r)) _ st refl refl refl f
take-Fits user st leave payload none f = moved-Fits user (awaiting none) _ st refl refl refl f
take-Fits user st leave payload (some r) f =
    moved-Fits user (awaiting (some r)) _ st refl refl refl f
take-Fits user st text payload none f = moved-Fits user (awaiting none) _ st refl refl refl f
take-Fits user st text payload (some r) f =
    moved-Fits user (awaiting (some r)) _ st refl refl refl f

pub heard-Fits :
    (user : ℕ) (st : Store) (msg : Option Message) (room : Option ℕ)
    → Fits user (awaiting room) st
    → Fits user (heard msg room) st
unfolding heard
heard-Fits user st none room f = moved-Fits user (awaiting room) _ st refl refl refl f
heard-Fits user st (some msg) room f = take-Fits user st (request_of msg) msg.payload room f

pub greeted-Fits :
    (user : ℕ) (st : Store) (msg : Option Message)
    → Fits user greeting st
    → Fits user (greeted msg) st
unfolding greeted
greeted-Fits user st none f = moved-Fits user greeting _ st refl refl refl f
greeted-Fits user st (some msg) f = elim (Bool-cases (str_eq msg.tag tag_join)) [
  | inl e ↦ rw e (moved-Fits user greeting (admitting msg.payload) st refl refl refl f)
  | inr e ↦ rw e (moved-Fits user greeting (ended none) st refl refl refl f)
]

pub answered-Fits :
    (user : ℕ) (st : Store) (again : Bool) (msg : Message) (room : Option ℕ)
    → Fits user (answering again msg room) st
    → Fits user (answered again room) st
unfolding answered
answered-Fits user st true msg room f =
    moved-Fits user (answering true msg room) _ st refl refl refl f
answered-Fits user st false msg room f =
    moved-Fits user (answering false msg room) _ st refl refl refl f
