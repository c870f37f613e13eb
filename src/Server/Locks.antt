-- ===== src/Server/Locks.antt =====
-- The same threads with their locks: what Server/Threads takes as one act is here a sequence of
-- steps, between which all other threads go on. A method that has a guard takes the lock, does its
-- work and releases the lock; a broadcast goes from member to member with the lock of the room, and
-- takes the lock of each queue in turn; `dequeue` waits on the semaphore before it takes the lock.
pub mod Owners
pub mod Calls
pub mod Loops
pub mod Alike
pub mod Following
pub mod Owed
pub mod Shows
pub mod Steady
pub mod Delivering
pub mod Quiet
pub mod Told
pub mod Starting
pub mod Broadcasting
pub mod Draining
pub mod History
pub mod Refines
pub mod Undisturbed
pub mod Serial
pub mod Delivered
pub mod Counts
pub mod Waiting
pub mod Moving
pub mod Progress
pub mod Finishing
pub mod Settling
pub mod Races
pub mod Guarding
use csf_hw.Prelude.{
  ℕ, ◌≡◌, Bool, true, false, List, [], ◌∷◌, ◌++◌, Option, none, some, get_elem?, set, ◌==◌,
  if◌then◌else◌,
}
use csf_hw.Outcome.{done}
use csf_hw.Text.{Str, str_eq}
use csf_hw.Message.{Message, make_message, tag_delivery}
use csf_hw.MessageQueue.{MessageQueue, sem_post, sem_timedwait, take_message}
use csf_hw.User.{User}
use csf_hw.Room.{Room, remove_newline, delivery_text}
use csf_hw.Server.{Store, new_store, create_user}
use csf_hw.Server.Threads.{
  Place, awaiting, parting, seeking, entering, leaving, removing, checking, telling, answering,
  closing, greeting, admitting, joining, draining, Act, ok, drained, put_queue,
}

-- The mutexes: `m_lock` of the server, `lock` of a room and `m_lock` of a user's queue.
pub data Lock : Type 0 where
  of_server : Lock
  of_room : ℕ → Lock
  of_queue : ℕ → Lock

abbrev pub lock_eq : Lock → Lock → Bool
lock_eq of_server of_server = true
lock_eq (of_room r) (of_room q) = r == q
lock_eq (of_queue u) (of_queue v) = u == v
lock_eq _ _ = false

-- What the threads share; `locks l` if the mutex is locked.
pub record Memory : Type 0 where
  pub store : Store
  pub locks : Lock → Bool

-- `pthread_mutex_lock` when it returns, and `pthread_mutex_unlock`.
unfoldable pub put_lock : Lock → Bool → Memory → Memory
put_lock l b m = record m { locks = λ k. if lock_eq k l then b else m.locks k }

-- The guard of the method that a thread is about to call, if it has one that lasts throughout.
unfoldable pub guard_of : Place → Option Lock
guard_of (parting name r) = some (of_room r)
guard_of (seeking name) = some of_server
guard_of (entering r) = some (of_room r)
guard_of (removing r) = some (of_room r)
guard_of (telling payload r) = some (of_room r)
guard_of (admitting name) = some of_server
guard_of (joining r) = some (of_room r)
guard_of _ = none

-- No call, or one of a method without a guard.
unfoldable pub is_unguarded : Place → Bool
is_unguarded (awaiting room) = true
is_unguarded (leaving r) = true
is_unguarded (checking payload r) = true
is_unguarded (answering again msg room) = true
is_unguarded (closing room) = true
is_unguarded greeting = true
is_unguarded _ = false

unfoldable pub is_broadcast : Place → Bool
is_broadcast (telling payload r) = true
is_broadcast _ = false

-- The variables of `broadcast_message`, with the members that its loop has still to visit.
pub record Loop : Type 0 where
  pub room : ℕ
  pub sender : Str
  pub text : Str
  pub rest : List ℕ

-- Where a thread stands.
pub data Spot : Type 0 where
  outside : Place → Spot  -- with no guard
  within : Place → Spot  -- with the guard of the method, before its work
  releasing : Lock → Place → Spot  -- before the guard's destructor
  -- `broadcast_message`
  visiting : Loop → Spot  -- at the loop's head
  asking : Loop → ℕ → Message → Spot  -- `enqueue` of that user's queue, at its guard
  pushing : Loop → ℕ → Message → Spot  -- before `push_back`
  posting : Loop → ℕ → Spot  -- before `sem_post`
  unlocking : Loop → ℕ → Spot  -- before the destructor of the guard of the queue
  -- `dequeue` of the thread's own user; `true` if `sem_timedwait` has returned 0
  fetching : ℕ → Bool → ℕ → Spot  -- at its guard
  taking : ℕ → Bool → ℕ → Spot  -- before `if (sem == 0)`

abbrev pub put_user : ℕ → User → Memory → Memory
put_user v x m = record m { store = record m.store { users = set m.store.users v x } }

abbrev pub cut_name : Room → Room
cut_name room = record room { room_name = remove_newline room.room_name }

-- One step of the thread of `user`.
pub data Move (user : ℕ) (m : Memory) : Spot → Memory → Spot → Type 0 where
  go_on :
      {p q : Place} {st : Store}
      → is_unguarded p ≡ true
      → Act user m.store p st q
      → Move user m (outside p) (record m { store = st }) (outside q)
  stop_drain : {r : ℕ} → Move user m (outside (draining r)) m (outside (closing (some r)))  -- not open
  lock :
      {p : Place} {l : Lock}
      → guard_of p ≡ some l
      → m.locks l ≡ false
      → Move user m (outside p) (put_lock l true m) (within p)
  run :
      {p q : Place} {l : Lock} {st : Store}
      → guard_of p ≡ some l
      → is_broadcast p ≡ false
      → Act user m.store p st q
      → Move user m (within p) (record m { store = st }) (releasing l q)
  unlock : {l : Lock} {q : Place} → Move user m (releasing l q) (put_lock l false m) (outside q)
  -- `broadcast_message` (`user->username`, `msg.data`)
  begin :
      {payload : Str} {r : ℕ} {room : Room} {x : User}
      → get_elem? m.store.rooms r ≡ some room
      → get_elem? m.store.users user ≡ some x
      → Move user m
          (within (telling payload r))
          m
          (visiting (record { room = r; sender = x.username; text = payload; rest = room.members }))
  skip :
      {loop : Loop} {u : ℕ} {us : List ℕ} {x : User}
      → loop.rest ≡ u ∷ us
      → get_elem? m.store.users u ≡ some x
      → str_eq x.username loop.sender ≡ true
      → Move user m (visiting loop) m (visiting (record loop { rest = us }))
  compose :
      {loop : Loop} {u : ℕ} {us : List ℕ} {x : User} {room : Room}
      → loop.rest ≡ u ∷ us
      → get_elem? m.store.users u ≡ some x
      → str_eq x.username loop.sender ≡ false
      → get_elem? m.store.rooms loop.room ≡ some room
      → Move user m
          (visiting loop)
          (record m {
            store = record m.store { rooms = set m.store.rooms loop.room (cut_name room) };
          })
          (asking
            (record loop { rest = us })
            u
            (make_message tag_delivery (delivery_text room.room_name loop.sender loop.text)))
  finish :
      {loop : Loop}
      → loop.rest ≡ []
      → Move user m (visiting loop) m (
          releasing (of_room loop.room) (answering true (ok "Sendall successful") (some loop.room)))
  -- `user->mqueue.enqueue (msg)`
  lock_queue :
      {loop : Loop} {u : ℕ} {msg : Message}
      → m.locks (of_queue u) ≡ false
      → Move user m (asking loop u msg) (put_lock (of_queue u) true m) (pushing loop u msg)
  push_back :
      {loop : Loop} {u : ℕ} {msg : Message} {x : User}
      → get_elem? m.store.users u ≡ some x
      → Move user m
          (pushing loop u msg)
          (put_user u
            (record x { mqueue = record x.mqueue { m_messages = x.mqueue.m_messages ++ msg ∷ [] } })
            m)
          (posting loop u)
  post :
      {loop : Loop} {u : ℕ} {x : User}
      → get_elem? m.store.users u ≡ some x
      → Move user m
          (posting loop u)
          (put_user u
            (record x { mqueue = record x.mqueue { m_avail = sem_post x.mqueue.m_avail } })
            m)
          (unlocking loop u)
  unlock_queue :
      {loop : Loop} {u : ℕ}
      → Move user m (unlocking loop u) (put_lock (of_queue u) false m) (visiting loop)
  -- `user->mqueue.dequeue ()`
  wait :
      {r : ℕ} {x : User} {granted : Bool} {avail : ℕ}
      → get_elem? m.store.users user ≡ some x
      → sem_timedwait x.mqueue.m_avail ≡ (granted, avail)
      → Move user m
          (outside (draining r))
          (put_user user (record x { mqueue = record x.mqueue { m_avail = avail } }) m)
          (fetching user granted r)
  lock_own :
      {r : ℕ} {granted : Bool}
      → m.locks (of_queue user) ≡ false
      → Move user m
          (fetching user granted r)
          (put_lock (of_queue user) true m)
          (taking user granted r)
  take :
      {r : ℕ} {x : User} {granted : Bool} {out : Option Message} {queue : MessageQueue}
      → get_elem? m.store.users user ≡ some x
      → take_message granted x.mqueue ≡ done (out, queue)
      → Move user m
          (taking user granted r)
          (record m { store = put_queue user x queue m.store })
          (releasing (of_queue user) (drained out r))

pub record Machine : Type 0 where
  pub memory : Memory
  pub threads : List Spot

pub data Step (s : Machine) : Machine → Type 0 where
  login :
      (username : Str) (sender : Bool)
      → Step s (record {
        memory = record s.memory { store = (create_user username s.memory.store).1 };
        threads = s.threads ++ outside (if sender then awaiting none else greeting) ∷ [];
      })
  move :
      (i : ℕ) {p q : Spot} {m : Memory}
      → get_elem? s.threads i ≡ some p
      → Move i s.memory p m q
      → Step s (record { memory = m; threads = set s.threads i q })

abbrev pub new_machine : Machine
new_machine = record { memory = record { store = new_store; locks = λ l. false }; threads = [] }

pub data Reach : Machine → Type 0 where
  here : Reach new_machine
  next : {s t : Machine} → Reach s → Step s t → Reach t
