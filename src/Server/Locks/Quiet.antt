-- ===== src/Server/Locks/Quiet.antt =====
-- The steps that touch no message.
use csf_hw.Prelude.{
  ℕ, ◌≡◌, sym, ap, ap₂, ◌∙◌, List, [], ◌++◌, append-nil, some, get_elem?, set, map-set_same,
}
use csf_hw.Text.{Str}
use csf_hw.User.{User}
use csf_hw.Server.{Store}
use csf_hw.Server.Spec.{queue_in}
use csf_hw.Server.Threads.{Place, draining, telling, drained, put_queue, Act, stop_drain, World}
use csf_hw.Message.{Message}
use csf_hw.Server.Threads as Threads
use csf_hw.Server.Threads.History.{queued_in, taken_in, queued_by, taken_by}
use csf_hw.Server.Threads.Reachable.{Reach-IsSafe}
use csf_hw.Server.Locks.{Memory, put_user, Spot, Machine, Reach}
use csf_hw.Server.Locks.Loops.{Reach-AllStand}
use csf_hw.Server.Locks.Alike.{Alike, usernames, titles}
use csf_hw.Server.Locks.Owed.{owed, is_user}
use csf_hw.Server.Locks.Shows.{nothing, place_of, on_the_way, Shows, Shown, silent, acting}
use csf_hw.Server.Locks.Steady.{on_the_way-set, on_the_way-steady, queue_in-set_same}

module _ {w : World} {s : Machine} (reach_w : Threads.Reach w) (reach : Reach s) (shows : Shows w s)
    (i : ℕ) {p : Spot} (at : get_elem? s.threads i ≡ some p) where
  abbrev pub st : Store
  st = s.memory.store

  -- The histories grow by these messages.
  abbrev pub Grown : Memory → Spot → (ℕ → List Message) → (ℕ → List Message) → Type 0
  Grown m q sent received =
      Shown (record { memory = m; threads = set s.threads i q })
        (λ j. queued_in j reach_w ++ sent j) (λ j. taken_in j reach_w ++ received j)

  abbrev pub Goal : Memory → Spot → Type 0
  Goal m q = Grown m q nothing nothing

  pub received_nothing :
      (m : Memory) (q : Spot) (received : ℕ → List Message)
      → ((j : ℕ) → received j ≡ [])
      → Goal m q
      → Grown m q nothing received
  received_nothing m q received h (v, r, shows', e) =
      (v, r, shows', λ j. ((e j).0, (e j).1 ∙ ap (◌++◌ (taken_in j reach_w)) (sym (h j))))

  abbrev pub KeepsOwed : Spot → Type 0
  KeepsOwed q =
      (v : ℕ)
      → owed v (titles st.rooms) (usernames st.users) q
        ≡ owed v (titles st.rooms) (usernames st.users) p

  -- Only the locks change, and where the thread stands.
  pub stay :
      (m : Memory) (q : Spot) → m.store ≡ st → place_of q ≡ place_of p → KeepsOwed q → Goal m q
  stay m q e same o = silent reach_w shows i at m q same (rw e shows.like) (λ v.
      rw e (ap (λ x. queue_in st.users v ++ x) (on_the_way-set v st s.threads i p q at (o v))))

  -- What is on the way stays, with new rooms too.
  pub on_the_way-kept :
      (v : ℕ) (after : Store) (q : Spot) (fresh : List Str)
      → titles after.rooms ≡ titles st.rooms ++ fresh
      → usernames after.users ≡ usernames st.users
      → owed v (titles after.rooms) (usernames after.users) q
        ≡ owed v (titles after.rooms) (usernames after.users) p
      → on_the_way v after (set s.threads i q) ≡ on_the_way v st s.threads
  on_the_way-kept v after q fresh t n o =
      on_the_way-set v after s.threads i p q at o
      ∙ on_the_way-steady v st after fresh [] s.threads
          (λ x r. is_user x r (Reach-IsSafe reach_w).valid shows.like) (Reach-AllStand reach) t
          (n ∙ sym (append-nil (usernames st.users)))

  -- An act that touches no queue.
  pub go :
      (m : Memory) (q : Spot) (after : Store)
      → (a : Act i w.store (place_of p) after (place_of q))
      → ((j : ℕ) → (queued_by j a ≡ []) × (taken_by j a ≡ []))
      → Alike after m.store
      → after.users ≡ w.store.users
      → m.store.users ≡ st.users
      → (fresh : List Str) → titles m.store.rooms ≡ titles st.rooms ++ fresh
      → ((v : ℕ) (ts ns : List Str) → owed v ts ns q ≡ owed v ts ns p)
      → Goal m q
  go m q after a none like left right fresh t o =
      acting reach_w shows i at m q after a like
        (λ v.
          ap (λ us. queue_in us v) left
          ∙ shows.queues v
          ∙ sym (
              ap₂ (λ x y. x ++ y) (ap (λ us. queue_in us v) right)
                (on_the_way-kept v m.store q fresh t (ap usernames right) (o v _ _))))
        nothing nothing none

  -- A user's queue with the same messages.
  pub requeue :
      (q : Spot) (u : ℕ) (x y : User)
      → get_elem? st.users u ≡ some x
      → y.username ≡ x.username
      → y.mqueue.m_messages ≡ x.mqueue.m_messages
      → place_of q ≡ place_of p
      → ((v : ℕ) (ts ns : List Str) → owed v ts ns q ≡ owed v ts ns p)
      → Goal (put_user u y s.memory) q
  requeue q u x y at_u n e same o =
      silent reach_w shows i at (put_user u y s.memory) q same
        (record {
          m_rooms_lem = shows.like.m_rooms_lem;
          rooms_lem = shows.like.rooms_lem;
          names_lem = shows.like.names_lem ∙ sym names;
        })
        (λ v.
          ap₂ (λ x y. x ++ y) (queue_in-set_same st.users u x y v at_u e)
            (on_the_way-kept v (put_user u y s.memory).store q []
              (sym (append-nil (titles st.rooms))) names (o v _ _)))
    where
      names : usernames (set st.users u y) ≡ usernames st.users
      names = map-set_same (λ (z : User). z.username) st.users u x y at_u n
