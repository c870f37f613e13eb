-- ===== src/Server/Locks/Undisturbed.antt =====
-- A thread that nobody disturbs takes its locks and does what it does without them.
use csf_hw.Prelude.{
  ℕ, ◌≡◌, refl, sym, ap, ◌∙◌, inl, inr, true, false, List, [], ◌∷◌, some, get_elem?, set, set_same,
  set-set, get_elem?-set_self, get_elem?-lt, fun_ext, Bool-cases, subst, if◌then◌else◌,
}
use csf_hw.Outcome.{done, bind-done, deref, deref-done, done-injective}
use csf_hw.Text.{Str, str_eq}
use csf_hw.Message.{Message, make_message, tag_delivery}
use csf_hw.MessageQueue.{enqueue}
use csf_hw.User.{User}
use csf_hw.Room.{Room, delivery_text, deliver, broadcast_loop}
use csf_hw.Server.Locks.Delivering.{push}
use csf_hw.Server.Locks.Owners.{lock_eq_sound}
use csf_hw.Server.Locks.{
  Lock, of_queue, lock_eq, Memory, put_lock, Spot, visiting, cut_name, Move, skip, compose,
  lock_queue, push_back, post, unlock_queue,
}

pub data Moves (user : ℕ) : Memory → Spot → Memory → Spot → Type 0 where
  rest : {m : Memory} {p : Spot} → Moves user m p m p
  go :
      {m m' m'' : Memory} {p p' p'' : Spot}
      → Move user m p m' p'
      → Moves user m' p' m'' p''
      → Moves user m p m'' p''

pub append :
    {user : ℕ} {m m' m'' : Memory} {p p' p'' : Spot}
    → Moves user m p m' p'
    → Moves user m' p' m'' p''
    → Moves user m p m'' p''
append rest b = b
append (go mv a) b = go mv (append a b)

pub moved : {user : ℕ} {m m' : Memory} {p : Spot} → m ≡ m' → Moves user m p m' p
moved {user} {m} {p = p} e = subst (λ x. Moves user m p x p) e rest

-- A lock that was free is free again.
pub put_lock-back :
    (l : Lock) (m : Memory) → m.locks l ≡ false → put_lock l false (put_lock l true m) ≡ m
unfolding put_lock
put_lock-back l m free = λ i. record { store = m.store; locks = fun_ext same i }
  where
    same :
        (k : Lock)
        → (if lock_eq k l then false else if lock_eq k l then true else m.locks k) ≡ m.locks k
    same k = elim (Bool-cases (lock_eq k l)) [
      | inl e ↦ rw e (sym (ap m.locks (lock_eq_sound k l e) ∙ free))
      | inr e ↦ rw e refl
    ]

module _ (i r : ℕ) (sender text : Str) where
  abbrev at_loop : List ℕ → Spot
  at_loop us = visiting (record { room = r; sender = sender; text = text; rest = us })

  abbrev after_loop : Memory → Room → List User → Memory
  after_loop m room users = record m {
    store = record m.store { rooms = set m.store.rooms r room; users = users };
  }

  abbrev message : Room → Message
  message room = make_message tag_delivery (delivery_text room.room_name sender text)

  -- The loop's body for a member with another name.
  body-Moves :
      (u : ℕ) (us : List ℕ) (m : Memory) (room : Room) (x : User)
      → get_elem? m.store.rooms r ≡ some room
      → get_elem? m.store.users u ≡ some x
      → m.locks (of_queue u) ≡ false
      → str_eq x.username sender ≡ false
      → Moves i m
          (at_loop (u ∷ us))
          (after_loop m
            (cut_name room)
            (set m.store.users u (record x { mqueue = enqueue (message room) x.mqueue })))
          (at_loop us)
  unfolding enqueue put_lock
  body-Moves u us m room x at_room at_u free differ = go (compose refl at_u differ at_room) (
      go (lock_queue free) (
        go (push_back at_u) (
          go (post (get_elem?-set_self m.store.users u _ (get_elem?-lt m.store.users u at_u))) (
            go unlock_queue (
              moved (λ j. record {
                store = record m.store {
                  rooms = set m.store.rooms r (cut_name room);
                  users =
                      set-set m.store.users u (push (message room) x)
                        (record x { mqueue = enqueue (message room) x.mqueue }) j;
                };
                locks = ap (λ (z : Memory). z.locks) (put_lock-back (of_queue u) m free) j;
              }))))))

  abbrev told : ℕ → Room → User → List User → Room × List User
  told u room x users =
      (cut_name room, set users u (record x { mqueue = enqueue (message room) x.mqueue }))

  deliver_same :
      (u : ℕ) (x : User) (room : Room) (users : List User)
      → str_eq x.username sender ≡ true
      → deliver sender text u x (room, users) ≡ (room, users)
  unfolding deliver
  deliver_same u x room users e = rw e refl

  deliver_other :
      (u : ℕ) (x : User) (room : Room) (users : List User)
      → str_eq x.username sender ≡ false
      → deliver sender text u x (room, users) ≡ told u room x users
  unfolding deliver
  deliver_other u x room users e = rw e refl

  -- The whole loop.
  pub loop-Moves :
      (us : List ℕ) (m : Memory) (room : Room) (result : Room × List User)
      → get_elem? m.store.rooms r ≡ some room
      → ((u : ℕ) → m.locks (of_queue u) ≡ false)
      → broadcast_loop sender text us (room, m.store.users) ≡ done result
      → Moves i m (at_loop us) (after_loop m result.0 result.1) (at_loop [])
  unfolding broadcast_loop
  loop-Moves [] m room result at_room free e =
      subst (λ (x : Room × List User). Moves i m (at_loop []) (after_loop m x.0 x.1) (at_loop []))
        (done-injective e)
        (moved (λ j. record m {
          store = record m.store { rooms = sym (set_same m.store.rooms r room at_room) j };
        }))
  loop-Moves (u ∷ us) m room result at_room free e =
      let (x, found, rest_done) = bind-done (deref (get_elem? m.store.users u)) _ result e in
      let at_u = deref-done (get_elem? m.store.users u) x found in
      elim (Bool-cases (str_eq x.username sender)) [
        | inl same ↦ go (skip refl at_u same) (
            loop-Moves us m room result at_room free (
              subst (λ y. broadcast_loop sender text us y ≡ done result)
                (deliver_same u x room m.store.users same) rest_done))
        | inr differ ↦ append (body-Moves u us m room x at_room at_u (free u) differ) (
            append
              (loop-Moves us (after_loop m (cut_name room) (told u room x m.store.users).1)
                (cut_name room) result
                (get_elem?-set_self m.store.rooms r (cut_name room)
                  (get_elem?-lt m.store.rooms r at_room))
                free
                (subst (λ y. broadcast_loop sender text us y ≡ done result)
                  (deliver_other u x room m.store.users differ) rest_done))
              (moved (λ j. record m {
                store = record m.store {
                  rooms = set-set m.store.rooms r (cut_name room) result.0 j;
                  users = result.1;
                };
              })))
      ]
