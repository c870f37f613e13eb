-- ===== src/Server/Locks/History.antt =====
-- What is sent to a user and what its thread receives, over a whole run with locks.
use csf_hw.Prelude.{ℕ, ◌≡◌, refl, true, false, List, [], ◌++◌, some, arith, ◌==◌, if◌then◌else◌}
use csf_hw.Message.{Message}
use csf_hw.Server.{Store}
use csf_hw.Server.Threads.{Place, Act, tell, drain}
use csf_hw.Server.Threads.History.{list_of, queued_by, taken_by}
use csf_hw.Server.Locks.{
  Lock, guard_of, is_unguarded, is_broadcast, Memory, Spot, Move, begin, take, Machine, login, move,
  Reach, here, next,
}
use csf_hw.Server.Locks.Alike.{usernames, titles}
use csf_hw.Server.Locks.Owed.{owed_rest}

-- A broadcast that begins owes a message to each member of another name; the last step of `dequeue`
-- returns one to the thread of its own user.
unfoldable pub sent_by :
    (j : ℕ) {i : ℕ} {m after : Memory} {p q : Spot} → Move i m p after q → List Message
sent_by j {m = m} (begin {payload} {r} {room} {x} at_room at_user) =
    owed_rest j (titles m.store.rooms) (usernames m.store.users)
      (record { room = r; sender = x.username; text = payload; rest = room.members })
sent_by j mv = []

unfoldable pub received_by :
    (j : ℕ) {i : ℕ} {m after : Memory} {p q : Spot} → Move i m p after q → List Message
received_by j {i} (take {out = out} at e) = if i == j then list_of out else []
received_by j mv = []

-- Over a run from the start, oldest first.
unfoldable pub sent_in : (j : ℕ) {s : Machine} → Reach s → List Message
sent_in j here = []
sent_in j (next reach (login username sender)) = sent_in j reach
sent_in j (next reach (move i at mv)) = sent_in j reach ++ sent_by j mv

unfoldable pub received_in : (j : ℕ) {s : Machine} → Reach s → List Message
received_in j here = []
received_in j (next reach (login username sender)) = received_in j reach
received_in j (next reach (move i at mv)) = received_in j reach ++ received_by j mv

-- The acts without locks that neither broadcast nor dequeue.
pub go_on_none :
    {user : ℕ} {st after : Store} {p q : Place} (j : ℕ)
    → is_unguarded p ≡ true
    → (a : Act user st p after q) → (queued_by j a ≡ []) × (taken_by j a ≡ [])
unfolding is_unguarded queued_by taken_by
go_on_none j u (tell e) = absurd (ground arith)
go_on_none j u (drain at e) = absurd (ground arith)
go_on_none j u _ = (refl, refl)

pub run_none :
    {user : ℕ} {st after : Store} {p q : Place} {l : Lock} (j : ℕ)
    → guard_of p ≡ some l
    → is_broadcast p ≡ false
    → (a : Act user st p after q) → (queued_by j a ≡ []) × (taken_by j a ≡ [])
unfolding guard_of is_broadcast queued_by taken_by
run_none j g b (tell e) = absurd (ground arith)
run_none j g b (drain at e) = absurd (ground arith)
run_none j g b _ = (refl, refl)
