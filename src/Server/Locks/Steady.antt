-- ===== src/Server/Locks/Steady.antt =====
-- What is on the way to a user stays on the way while other things happen.
use csf_hw.Prelude.{
  ℕ, ◌<◌, ◌≡◌, refl, sym, ap, ◌∙◌, inl, inr, true, List, [], ◌∷◌, ◌++◌, some, length, get_elem?,
  set, get_elem?-lt, get_elem?-append_left, get_elem?-set_self, get_elem?-set_ne, length-map,
  gather-set_same, gather_cong, gather-concat, arith, ◌==◌, if◌then◌else◌, Bool-cases,
}
use csf_hw.Text.{Str}
use csf_hw.User.{User}
use csf_hw.Room.{Room, set_has, remove_newline}
use csf_hw.Server.{Store}
use csf_hw.Server.Membership.{member_at}
use csf_hw.Server.Spec.{queue_in}
use csf_hw.Server.Threads.{Place}
use csf_hw.Server.Locks.{Loop, Spot, outside, visiting, asking, pushing, posting, unlocking}
use csf_hw.Server.Locks.Loops.{Visits, Visits-tail, Stands}
use csf_hw.Server.Locks.Alike.{usernames, titles}
use csf_hw.Server.Locks.Owed.{entry, owed_next, owed_rest, owed, owed_rest_none, Visits-member}
use csf_hw.Server.Locks.Shows.{on_the_way}

pub entry-append : (xs ys : List Str) (i : ℕ) → i < length xs → entry (xs ++ ys) i ≡ entry xs i
entry-append xs ys i h = rw (entry, get_elem?-append_left xs ys i h) refl

-- New rooms and new users are not those that a broadcast under way is about.
module _ (rooms : List Room) (users : List User) (fresh joined : List Str)
    (is_user : (v r : ℕ) → member_at v r rooms ≡ true → v < length users) where
  owed_rest-steady :
      (v : ℕ) (loop : Loop)
      → Visits loop.rest loop.room rooms
      → owed_rest v (titles rooms ++ fresh) (usernames users ++ joined) loop
        ≡ owed_rest v (titles rooms) (usernames users) loop
  unfolding owed_rest
  owed_rest-steady v loop h = elim (Bool-cases (set_has v loop.rest)) [
    | inl has ↦
        rw
          (
            owed_rest,
            entry-append (titles rooms) fresh loop.room (
                rw (length-map (λ (x : Room). remove_newline x.room_name) rooms)
                  (get_elem?-lt rooms loop.room h.1)),
            entry-append (usernames users) joined v (
                rw (length-map (λ (u : User). u.username) users)
                  (is_user v loop.room (Visits-member v loop.rest loop.room rooms h has))),
          )
          refl
    | inr misses ↦ owed_rest_none v _ _ loop misses ∙ sym (owed_rest_none v _ _ loop misses)
  ]

  owed-steady :
      (i v : ℕ) (p : Spot)
      → Stands i p rooms
      → owed v (titles rooms ++ fresh) (usernames users ++ joined) p
        ≡ owed v (titles rooms) (usernames users) p
  unfolding owed
  owed-steady i v (visiting loop) h = owed_rest-steady v loop h
  owed-steady i v (asking loop u msg) h =
      ap (λ x. owed_next v u msg ++ x)
        (owed_rest-steady v loop (Visits-tail u loop.rest loop.room rooms h))
  owed-steady i v (pushing loop u msg) h =
      ap (λ x. owed_next v u msg ++ x)
        (owed_rest-steady v loop (Visits-tail u loop.rest loop.room rooms h))
  owed-steady i v (posting loop u) h =
      owed_rest-steady v loop (Visits-tail u loop.rest loop.room rooms h)
  owed-steady i v (unlocking loop u) h =
      owed_rest-steady v loop (Visits-tail u loop.rest loop.room rooms h)
  owed-steady i v _ h = refl

pub on_the_way-steady :
    (v : ℕ) (old st : Store) (fresh joined : List Str) (threads : List Spot)
    → ((v r : ℕ) → member_at v r old.rooms ≡ true → v < length old.users)
    → ((i : ℕ) (p : Spot) → get_elem? threads i ≡ some p → Stands i p old.rooms)
    → titles st.rooms ≡ titles old.rooms ++ fresh
    → usernames st.users ≡ usernames old.users ++ joined
    → on_the_way v st threads ≡ on_the_way v old threads
unfolding on_the_way
on_the_way-steady v old st fresh joined threads is_user stand same_titles same_names =
    rw (same_titles, same_names)
      (gather_cong _ (owed v (titles old.rooms) (usernames old.users)) threads
        (λ j q at. owed-steady old.rooms old.users fresh joined is_user j v q (stand j q at)))

-- A thread whose part does not change.
pub on_the_way-set :
    (v : ℕ) (st : Store) (threads : List Spot) (i : ℕ) (p q : Spot)
    → get_elem? threads i ≡ some p
    → owed v (titles st.rooms) (usernames st.users) q
      ≡ owed v (titles st.rooms) (usernames st.users) p
    → on_the_way v st (set threads i q) ≡ on_the_way v st threads
unfolding on_the_way
on_the_way-set v st threads i p q at e = gather-set_same _ threads i p q at e

pub on_the_way-store :
    (v : ℕ) (st after : Store) (threads : List Spot)
    → titles after.rooms ≡ titles st.rooms
    → usernames after.users ≡ usernames st.users
    → on_the_way v after threads ≡ on_the_way v st threads
unfolding on_the_way
on_the_way-store v st after threads t n = rw (t, n) refl

pub on_the_way-concat :
    (v : ℕ) (st : Store) (threads : List Spot) (p : Place)
    → on_the_way v st (threads ++ outside p ∷ []) ≡ on_the_way v st threads
unfolding on_the_way owed
on_the_way-concat v st threads p = gather-concat _ threads (outside p) refl

-- A user's record is replaced.
pub queue_in-set :
    (users : List User) (u : ℕ) (x y : User) (v : ℕ)
    → get_elem? users u ≡ some x
    → queue_in (set users u y) v ≡ (if u == v then y.mqueue.m_messages else queue_in users v)
queue_in-set users u x y v at =
    ground
      (arith, get_elem?-set_self users u y (get_elem?-lt users u at), get_elem?-set_ne users u v y)

pub queue_in-set_same :
    (users : List User) (u : ℕ) (x y : User) (v : ℕ)
    → get_elem? users u ≡ some x
    → y.mqueue.m_messages ≡ x.mqueue.m_messages
    → queue_in (set users u y) v ≡ queue_in users v
queue_in-set_same users u x y v at e = queue_in-set users u x y v at ∙ ground (arith, at, e)
