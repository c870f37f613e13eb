-- ===== src/Server/Locks/Owners.antt =====
-- Each lock of the server has at most one owner.
use csf_hw.Prelude.{
  ℕ, ◌+◌, ◌≤◌, ◌≡◌, refl, ap, ◌∙◌, ◌≢◌, Bool, true, false, none, some, get_elem?, inl, inr,
  Bool-cases, arith, ==_iff, total, total-set, total-ge, total-ge_two, total-concat,
}
use csf_hw.Server.Threads.{awaiting, greeting}
use csf_hw.Server.Locks.{
  Lock, of_server, of_room, of_queue, lock_eq, Memory, put_lock, guard_of, Spot, outside, within,
  releasing, visiting, asking, pushing, posting, unlocking, fetching, taking, Move, go_on,
  stop_drain, lock, run, unlock, begin, skip, compose, finish, lock_queue, push_back, post,
  unlock_queue, wait, lock_own, take, Machine, Step, login, move, Reach, here, next,
}

abbrev pub one_if : Bool → ℕ
one_if true = 1
one_if false = 0

-- How often a thread is between the constructor and the destructor of a guard of this lock.
unfoldable pub owns : Lock → Spot → ℕ
owns l (outside p) = 0
owns l (within p) = elim (guard_of p) [ none ↦ 0 | some k ↦ one_if (lock_eq l k) ]
owns l (releasing k q) = one_if (lock_eq l k)
owns l (visiting loop) = one_if (lock_eq l (of_room loop.room))
owns l (asking loop u msg) = one_if (lock_eq l (of_room loop.room))
owns l (pushing loop u msg) =
    one_if (lock_eq l (of_room loop.room)) + one_if (lock_eq l (of_queue u))
owns l (posting loop u) = one_if (lock_eq l (of_room loop.room)) + one_if (lock_eq l (of_queue u))
owns l (unlocking loop u) = one_if (lock_eq l (of_room loop.room)) + one_if (lock_eq l (of_queue u))
owns l (fetching u granted r) = 0
owns l (taking u granted r) = one_if (lock_eq l (of_queue u))

pub lock_eq_refl : (l : Lock) → lock_eq l l ≡ true
lock_eq_refl of_server = refl
lock_eq_refl (of_room r) = ground (arith, ==_iff r r)
lock_eq_refl (of_queue u) = ground (arith, ==_iff u u)

pub lock_eq_sound : (l k : Lock) → lock_eq l k ≡ true → l ≡ k
lock_eq_sound of_server of_server e = refl
lock_eq_sound (of_room r) (of_room q) e = ap of_room ((==_iff r q).0 e)
lock_eq_sound (of_queue u) (of_queue v) e = ap of_queue ((==_iff u v).0 e)
lock_eq_sound _ _ e = absurd (ground arith)

-- A lock that is taken was free and is held; one that is released was held and is free.
lock_taken :
    (l k : Lock) (m : Memory)
    → m.locks l ≡ false
    → one_if ((put_lock l true m).locks k) ≡ one_if (m.locks k) + one_if (lock_eq k l)
unfolding put_lock
lock_taken l k m free = elim (Bool-cases (lock_eq k l)) [
  | inl e ↦ rw (e, ap m.locks (lock_eq_sound k l e), free) refl
  | inr e ↦ rw e (omega arith)
]

lock_released :
    (l k : Lock) (m : Memory)
    → m.locks l ≡ true
    → one_if ((put_lock l false m).locks k) + one_if (lock_eq k l) ≡ one_if (m.locks k)
unfolding put_lock
lock_released l k m held = elim (Bool-cases (lock_eq k l)) [
  | inl e ↦ rw (e, ap m.locks (lock_eq_sound k l e), held) refl
  | inr e ↦ rw e (omega arith)
]

is_held :
    (l : Lock) (m : Memory) (n : ℕ)
    → one_if (lock_eq l l) + n ≤ one_if (m.locks l)
    → m.locks l ≡ true
is_held l m n h = ground (arith, lock_eq_refl l)

module _ {user : ℕ} {m : Memory} where
  -- Each move changes what its thread owns as it changes the locks.
  Move-owns :
      {p q : Spot} {after : Memory}
      → Move user m p after q
      → (k : Lock) → ((l : Lock) → owns l p ≤ one_if (m.locks l))
      → owns k q + one_if (m.locks k) ≡ owns k p + one_if (after.locks k)
  unfolding owns guard_of
  Move-owns (go_on h a) k held = refl
  Move-owns stop_drain k held = refl
  Move-owns (lock {l = l} h free) k held = rw (h, owns) (omega (arith, lock_taken l k m free))
  Move-owns (run h d a) k held = rw (h, owns) refl
  Move-owns (unlock {l}) k held =
      omega (arith, lock_released l k m (is_held l m 0 (omega (arith, held l))))
  Move-owns (begin at at_user) k held = refl
  Move-owns (skip e at same) k held = refl
  Move-owns (compose e at differ at_room) k held = refl
  Move-owns (finish e) k held = refl
  Move-owns (lock_queue {u = u} free) k held = omega (arith, lock_taken (of_queue u) k m free)
  Move-owns (push_back at) k held = refl
  Move-owns (post at) k held = refl
  Move-owns (unlock_queue {loop} {u}) k held = omega (
    arith,
    lock_released (of_queue u) k m (
        is_held (of_queue u) m (one_if (lock_eq (of_queue u) (of_room loop.room)))
          (omega (arith, held (of_queue u)))),
  )
  Move-owns (wait at e) k held = refl
  Move-owns (lock_own free) k held = omega (arith, lock_taken (of_queue user) k m free)
  Move-owns (take at e) k held = refl

-- The threads between the constructor and the destructor of a guard of a lock are as many as the
-- lock says: one if it is held, none if it is not.
abbrev pub IsOwned : Machine → Type 0
IsOwned s = (l : Lock) → total (owns l) s.threads ≡ one_if (s.memory.locks l)

Step-IsOwned : {s t : Machine} → Step s t → IsOwned s → IsOwned t
unfolding owns
Step-IsOwned {s} (login username true) o l =
    total-concat (owns l) s.threads (outside (awaiting none)) ∙ omega (arith, o l)
Step-IsOwned {s} (login username false) o l =
    total-concat (owns l) s.threads (outside greeting) ∙ omega (arith, o l)
Step-IsOwned {s} (move i {p} {q} at mv) o l = omega (
  arith,
  total-set (owns l) s.threads i p q at,
  Move-owns mv l (λ k. omega (arith, o k, total-ge (owns k) s.threads i p at)),
  o l,
)

pub Reach-IsOwned : {s : Machine} → Reach s → IsOwned s
Reach-IsOwned here l = unfold total in refl
Reach-IsOwned (next r st) l = Step-IsOwned st (Reach-IsOwned r) l

pub one_if-le : (b : Bool) → one_if b ≤ 1
one_if-le true = omega arith
one_if-le false = omega arith

-- In every state that the server's threads can reach with their locks, no two of them are between
-- the constructor and the destructor of guards of the same lock, be it the server's, a room's or a
-- queue's.
pub one_owner :
    {s : Machine}
    → Reach s
    → (l : Lock) (i j : ℕ) (p q : Spot) → get_elem? s.threads i ≡ some p
    → get_elem? s.threads j ≡ some q
    → i ≢ j
    → owns l p + owns l q ≤ 1
one_owner {s} r l i j p q at_i at_j differ = omega (
  arith,
  total-ge_two (owns l) s.threads i j p q at_i at_j differ,
  Reach-IsOwned r l,
  one_if-le (s.memory.locks l),
)
