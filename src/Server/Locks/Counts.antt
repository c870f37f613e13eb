-- ===== src/Server/Locks/Counts.antt =====
-- Each user's semaphore, with the threads under way, accounts for the messages in the queue.
use csf_hw.Prelude.{
  ℕ, zero, suc, ◌+◌, ◌≡◌, refl, ap, ◌≢◌, Bool, true, false, List, [], ◌∷◌, ◌++◌, none, some, length,
  length-append, get_elem?, set, get_elem?-set_self, get_elem?-set_ne, get_elem?-lt, arith, ◌==◌,
  ==_iff, if◌then◌else◌, total, total-set, total-concat, subst, ℕ_discrete,
}
use csf_hw.Text.{Str}
use csf_hw.MessageQueue.{sem_timedwait}
use csf_hw.User.{User, new_user}
use csf_hw.Server.{Store, create_user}
use csf_hw.Server.Spec.{queue_in}
use csf_hw.Server.Threads.{Place, Act, awaiting, greeting}
use csf_hw.Server.Locks.{
  Lock, guard_of, is_broadcast, put_lock, Memory, Spot, outside, posting, fetching, taking, Move,
  go_on, run, push_back, post, wait, take, Machine, Step, login, move, Reach, here, next,
}
use csf_hw.Server.Locks.Owners.{one_if}
use csf_hw.Server.Locks.Calls.{go_on-store}
use csf_hw.Server.Locks.Following.{run-Follows}
use csf_hw.Server.Locks.Steady.{queue_in-set}
use csf_hw.Server.Locks.Draining.{take_message-false, take_message-true, take_message-avail}
use csf_hw.Server.Threads.History.{new_user_lem}

-- A message for `v` is queued and not yet announced, or has been granted and is still queued.
unfoldable pub lags : ℕ → Spot → ℕ
lags v (posting loop u) = one_if (u == v)
lags v (fetching u true r) = one_if (u == v)
lags v (taking u true r) = one_if (u == v)
lags v _ = 0

abbrev pub avail_in : List User → ℕ → ℕ
avail_in users v = elim (get_elem? users v) [ none ↦ 0 | some u ↦ u.mqueue.m_avail ]

avail_in-set :
    (users : List User) (u : ℕ) (x y : User) (v : ℕ)
    → get_elem? users u ≡ some x
    → avail_in (set users u y) v ≡ (if u == v then y.mqueue.m_avail else avail_in users v)
avail_in-set users u x y v at =
    ground
      (arith, get_elem?-set_self users u y (get_elem?-lt users u at), get_elem?-set_ne users u v y)

-- A move of a thread from `p` to `q` keeps the account of `v`.
abbrev Balances : ℕ → List User → Spot → List User → Spot → Type 0
Balances v old p new q =
    avail_in new v + lags v q + length (queue_in old v)
    ≡ avail_in old v + lags v p + length (queue_in new v)

module _ (v u : ℕ) (users : List User) (x y : User) (at : get_elem? users u ≡ some x)
    (p q : Spot) where
  -- Only the account of the user whose queue it is can change.
  set-Balances :
      (u ≡ v
        → y.mqueue.m_avail + lags v q + length x.mqueue.m_messages
          ≡ x.mqueue.m_avail + lags v p + length y.mqueue.m_messages)
      → (u ≢ v → lags v q ≡ lags v p)
      → Balances v users p (set users u y) q
  set-Balances same other = elim (ℕ_discrete u v) [
    | yes e ↦
        ground (arith, at, e, same e, avail_in-set users u x y v at, queue_in-set users u x y v at)
    | no e ↦ ground (arith, other e, avail_in-set users u x y v at, queue_in-set users u x y v at)
  ]

sem_timedwait-counts :
    (n avail : ℕ) (granted : Bool) → sem_timedwait n ≡ (granted, avail) → avail + one_if granted ≡ n
sem_timedwait-counts zero avail granted e =
    subst (λ (x : Bool × ℕ). x.1 + one_if x.0 ≡ 0) e (omega arith)
sem_timedwait-counts (suc n) avail granted e =
    subst (λ (x : Bool × ℕ). x.1 + one_if x.0 ≡ suc n) e (omega arith)

pub run-users :
    {user : ℕ} {st after : Store} {p q : Place} {l : Lock}
    → guard_of p ≡ some l
    → is_broadcast p ≡ false
    → Act user st p after q
    → after.users ≡ st.users
run-users {st = st} g b a =
    (run-Follows (record { m_rooms_lem = refl; rooms_lem = refl; names_lem = refl }) g b
      a).users_right

Move-Balances :
    (v user : ℕ) {m after : Memory} {p q : Spot}
    → Move user m p after q
    → Balances v m.store.users p after.store.users q
unfolding lags put_lock
Move-Balances v user {m = m} (go_on u a) = rw (go_on-store u a) refl
Move-Balances v user (run g b a) = rw (run-users g b a) refl
Move-Balances v user {m = m} {p = p} {q = q} (push_back {u = u} {msg} {x} at) =
    set-Balances v u m.store.users x _ at p q
      (λ e. ground (arith, length-append x.mqueue.m_messages (msg ∷ []), ==_iff u v))
      (λ d. ground (arith, ==_iff u v))
Move-Balances v user {m = m} {p = p} {q = q} (post {u = u} {x} at) =
    set-Balances v u m.store.users x _ at p q (λ e. ground (arith, ==_iff u v))
      (λ d. ground (arith, ==_iff u v))
Move-Balances v user {m = m} {p = p} {q = q} (wait {x = x} {granted = true} {avail} at e) =
    set-Balances v user m.store.users x _ at p q
      (λ same. ground (arith, sem_timedwait-counts x.mqueue.m_avail avail true e, ==_iff user v))
      (λ d. ground (arith, ==_iff user v))
Move-Balances v user {m = m} {p = p} {q = q} (wait {x = x} {granted = false} {avail} at e) =
    set-Balances v user m.store.users x _ at p q
      (λ same. ground (arith, sem_timedwait-counts x.mqueue.m_avail avail false e)) (λ d. refl)
Move-Balances v user {m = m} {p = p} {q = q} (take {x = x} {granted = true} {out} {queue} at e) =
    let (msg, _, taken) = take_message-true x.mqueue.m_avail x.mqueue.m_messages queue out e in
    set-Balances v user m.store.users x _ at p q
      (λ same. ground (
        arith,
        take_message-avail true x.mqueue.m_avail x.mqueue.m_messages queue out e,
        taken,
        ==_iff user v,
      ))
      (λ d. ground (arith, ==_iff user v))
Move-Balances v user {m = m} {p = p} {q = q} (take {x = x} {granted = false} {out} {queue} at e) =
    set-Balances v user m.store.users x _ at p q
      (λ same. ground (
        arith,
        take_message-avail false x.mqueue.m_avail x.mqueue.m_messages queue out e,
        (take_message-false x.mqueue queue out e).1,
      ))
      (λ d. refl)
Move-Balances v user _ = refl

-- For every user: what the semaphore counts and what is under way are as many as the messages.
abbrev pub IsTallied : Machine → Type 0
IsTallied s =
    (v : ℕ)
    → avail_in s.memory.store.users v + total (lags v) s.threads
      ≡ length (queue_in s.memory.store.users v)

avail_in-new :
    (users : List User) (name : Str) (v : ℕ)
    → avail_in (users ++ new_user name ∷ []) v ≡ avail_in users v
avail_in-new [] name zero = refl
avail_in-new [] name (suc v) = refl
avail_in-new (u ∷ us) name zero = refl
avail_in-new (u ∷ us) name (suc v) = avail_in-new us name v

Step-IsTallied : {s t : Machine} → Step s t → IsTallied s → IsTallied t
unfolding create_user lags
Step-IsTallied {s} (login username sender) h v = omega (
  arith,
  h v,
  avail_in-new s.memory.store.users username v,
  ap length (new_user_lem s.memory.store.users username v),
  total-concat (lags v) s.threads (outside (if sender then awaiting none else greeting)),
)
Step-IsTallied {s} (move i {p} {q} at mv) h v =
    omega (arith, h v, Move-Balances v i mv, total-set (lags v) s.threads i p q at)

pub Reach-IsTallied : {s : Machine} → Reach s → IsTallied s
Reach-IsTallied here v = unfold total in refl
Reach-IsTallied (next r st) v = Step-IsTallied st (Reach-IsTallied r) v
