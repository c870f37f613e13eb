-- ===== src/Server/Locks/Serial.antt =====
-- Whatever the server's threads can do with one act for each method, they can do with their locks.
use csf_hw.Prelude.{
  ℕ, ◌≡◌, refl, sym, ap, ◌∙◌, true, false, List, Option, none, some, map, get_elem?, get_elem?-map,
  set, set_same, set-set, get_elem?-set_self, get_elem?-lt, map-set, map-concat, subst,
  if◌then◌else◌,
}
use mathlib.Core.Option
use csf_hw.Outcome.{done, bind-done, deref, deref-done, done-injective}
use csf_hw.Text.{Str}
use csf_hw.Message.{Message}
use csf_hw.MessageQueue.{MessageQueue, dequeue, sem_timedwait}
use csf_hw.User.{User}
use csf_hw.Room.{broadcast_message}
use csf_hw.Server.{Store, create_user}
use csf_hw.Server.Chat.{broadcast_in}
use csf_hw.Server.Threads.{
  Place, awaiting, greeting, telling, answering, draining, drained, ok, put_queue, Act, hear, part,
  seek, enter, look_leave, remove, look_tell, tell, answer, stop, close, greet, admit, enroll,
  drain, World,
}
use csf_hw.Server.Threads as Threads
use csf_hw.Server.Locks.{
  Lock, of_room, of_queue, Memory, put_lock, guard_of, is_unguarded, is_broadcast, Spot, outside,
  go_on, stop_drain, lock, run, unlock, begin, finish, wait, lock_own, take, Machine, login, move,
  Reach, here, next,
}
use csf_hw.Server.Locks.Undisturbed.{Moves, rest, go, append, moved, put_lock-back, loop-Moves}

-- All locks free.
abbrev pub unlocked : Store → Memory
unlocked st = record { store = st; locks = λ l. false }

module _ (i : ℕ) (st : Store) where
  back :
      (l : Lock) (after : Store)
      → put_lock l false (record (put_lock l true (unlocked st)) { store = after }) ≡ unlocked after
  unfolding put_lock
  back l after = λ j. record {
    store = after;
    locks = ap (λ (m : Memory). m.locks) (put_lock-back l (unlocked st) refl) j;
  }

  guarded :
      (l : Lock) (p q : Place) (after : Store)
      → guard_of p ≡ some l
      → is_broadcast p ≡ false
      → Act i st p after q
      → Moves i (unlocked st) (outside p) (unlocked after) (outside q)
  unfolding put_lock
  guarded l p q after g b a = go (lock g refl) (go (run g b a) (go unlock (moved (back l after))))

  tell-Moves :
      (payload : Str) (r : ℕ) (after : Store)
      → broadcast_in r i payload st ≡ done after
      → Moves i
          (unlocked st)
          (outside (telling payload r))
          (unlocked after)
          (outside (answering true (ok "Sendall successful") (some r)))
  unfolding broadcast_in broadcast_message put_lock guard_of
  tell-Moves payload r after e =
      let (room, found, e₁) = bind-done (deref (get_elem? st.rooms r)) _ after e in
      let (x, found_user, e₂) = bind-done (deref (get_elem? st.users i)) _ after e₁ in
      let (result, told, e₃) =
        bind-done (broadcast_message x.username payload room st.users) _ after e₂ in
      let at = deref-done (get_elem? st.rooms r) room found in
      go (lock refl refl) (
        go (begin at (deref-done (get_elem? st.users i) x found_user)) (
          append
            (loop-Moves i r x.username payload room.members
              (put_lock (of_room r) true (unlocked st)) room result at (λ u. refl) told)
            (go (finish refl)
              (go unlock (moved (back (of_room r) _ ∙ ap unlocked (done-injective e₃)))))))

  drain-Moves :
      (r : ℕ) (x : User) (out : Option Message) (queue : MessageQueue)
      → get_elem? st.users i ≡ some x
      → dequeue x.mqueue ≡ done (out, queue)
      → Moves i
          (unlocked st)
          (outside (draining r))
          (unlocked (put_queue i x queue st))
          (outside (drained out r))
  unfolding dequeue put_lock
  drain-Moves r x out queue at e = go (wait at refl) (
      go (lock_own refl) (
        go (take (get_elem?-set_self st.users i _ (get_elem?-lt st.users i at)) e)
          (go unlock (moved (back (of_queue i) _ ∙ ap unlocked put_twice)))))
    where
      waited : User
      waited = record x {
        mqueue = record x.mqueue { m_avail = (sem_timedwait x.mqueue.m_avail).1 };
      }

      put_twice :
          put_queue i waited queue (record st { users = set st.users i waited })
          ≡ put_queue i x queue st
      put_twice =
          λ j. record st { users = set-set st.users i waited (record x { mqueue = queue }) j }

  -- Each act.
  Act-Moves :
      {p q : Place} {after : Store}
      → Act i st p after q
      → Moves i (unlocked st) (outside p) (unlocked after) (outside q)
  unfolding guard_of is_broadcast is_unguarded
  Act-Moves (hear msg) = go (go_on refl (hear msg)) rest
  Act-Moves (part e) = guarded _ _ _ _ refl refl (part e)
  Act-Moves (seek e) = guarded _ _ _ _ refl refl (seek e)
  Act-Moves (enter e) = guarded _ _ _ _ refl refl (enter e)
  Act-Moves (look_leave at) = go (go_on refl (look_leave at)) rest
  Act-Moves (remove e) = guarded _ _ _ _ refl refl (remove e)
  Act-Moves (look_tell at) = go (go_on refl (look_tell at)) rest
  Act-Moves {after = after} (tell {payload} {r} e) = tell-Moves payload r after e
  Act-Moves answer = go (go_on refl answer) rest
  Act-Moves stop = go (go_on refl stop) rest
  Act-Moves close = go (go_on refl close) rest
  Act-Moves (greet msg) = go (go_on refl (greet msg)) rest
  Act-Moves (admit e) = guarded _ _ _ _ refl refl (admit e)
  Act-Moves (enroll e) = guarded _ _ _ _ refl refl (enroll e)
  Act-Moves (drain {r} {u} {out} {queue} at e) = drain-Moves r u out queue at e
  Act-Moves Threads.stop_drain = go stop_drain rest

Moves-Reach :
    {i : ℕ} {m after : Memory} {p q : Spot} (threads : List Spot)
    → Reach (record { memory = m; threads = threads })
    → get_elem? threads i ≡ some p
    → Moves i m p after q
    → Reach (record { memory = after; threads = set threads i q })
Moves-Reach {i} {m} {p = p} threads reach at rest =
    subst (λ ts. Reach (record { memory = m; threads = ts })) (sym (set_same threads i p at)) reach
Moves-Reach {i} {after = after} {q = q} threads reach at (go {p' = x} mv more) =
    subst (λ ts. Reach (record { memory = after; threads = ts })) (set-set threads i x q)
      (Moves-Reach (set threads i x) (next reach (move i at mv))
        (get_elem?-set_self threads i x (get_elem?-lt threads i at)) more)

-- The same state with all locks free and every thread outside the guards.
abbrev pub machine_of : World → Machine
machine_of w = record { memory = unlocked w.store; threads = map outside w.threads }

Turn-Reach : {v w : World} → Threads.Turn v w → Reach (machine_of v) → Reach (machine_of w)
Turn-Reach {v} (Threads.login username sender) reach =
    subst
      (λ ts. Reach (record { memory = unlocked (create_user username v.store).1; threads = ts }))
      (sym (map-concat outside v.threads (if sender then awaiting none else greeting)))
      (next reach (login username sender))
Turn-Reach {v} (Threads.act i {p} {q} {st} at a) reach =
    subst (λ ts. Reach (record { memory = unlocked st; threads = ts }))
      (sym (map-set outside v.threads i q))
      (Moves-Reach (map outside v.threads) reach
        (get_elem?-map outside v.threads i ∙ ap (Option.map outside) at) (Act-Moves i v.store a))

-- Every state that the server's threads can reach when each method is one act, they can reach with
-- their locks, with the same store, all locks free, and every thread at the same place and outside
-- all guards.
pub Reach-Serial : {w : World} → Threads.Reach w → Reach (machine_of w)
Reach-Serial Threads.here = here
Reach-Serial (Threads.next r t) = Turn-Reach t (Reach-Serial r)
