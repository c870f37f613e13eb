-- ===== src/Server/Locks/Refines.antt =====
-- The server with its locks does what the server without does.
use csf_hw.Prelude.{
  ℕ, if◌then◌else◌, gather, ◌≡◌, refl, sym, ap, ap₂, ◌∙◌, Bool, true, false, [], ◌∷◌, ◌++◌,
  append-nil, none, some, get_elem?, set, map-concat,
}
use csf_hw.Text.{Str}
use csf_hw.User.{User, new_user}
use csf_hw.Room.{set_has}
use csf_hw.Server.{Store, create_user}
use csf_hw.Server.Threads.{stop_drain, World, new_world, awaiting, greeting}
use csf_hw.Server.Threads as Threads
use csf_hw.Server.Threads.History.{new_user_lem, queued_in, taken_in, queued_by, taken_by}
use csf_hw.Server.Locks.History.{sent_by, received_by, sent_in, received_in, go_on_none, run_none}
use csf_hw.Server.Threads.Reachable.{Reach-IsSafe}
use csf_hw.Server.Locks.{
  Lock, of_room, of_queue, Memory, put_lock, put_user, guard_of, is_unguarded, is_broadcast, Loop,
  Spot, outside, within, releasing, visiting, asking, pushing, posting, unlocking, fetching, taking,
  cut_name, Move, go_on, lock, run, unlock, begin, skip, compose, finish, lock_queue, push_back,
  post, unlock_queue, wait, lock_own, take, Machine, Reach,
}
use csf_hw.Server.Locks as Locks
use csf_hw.Server.Locks.Loops.{Reach-AllStand}
use csf_hw.Server.Locks.Calls.{go_on-store}
use csf_hw.Server.Locks.Alike.{titles}
use csf_hw.Server.Locks.Following.{run-Follows, go_on-Follows}
use csf_hw.Server.Locks.Owed.{is_user, owed, owed_rest_none, is_user}
use csf_hw.Server.Locks.Shows.{place_of, on_the_way, Shows, Shown}
use csf_hw.Server.Locks.Quiet.{stay, go, requeue}
use csf_hw.Server.Locks.Broadcasting.{pass, write, give}
use csf_hw.Server.Locks.Starting.{start}
use csf_hw.Server.Locks.Draining.{receive_none, receive_some}
use csf_hw.Server.Locks.Steady.{on_the_way-concat, on_the_way-steady}

-- Each move of a thread is a step of the server without locks, or none.
Move-Shown :
    {w : World} {s : Machine}
    → (reach_w : Threads.Reach w) → Reach s
    → Shows w s
    → (i : ℕ) {m : Memory} {p q : Spot} → get_elem? s.threads i ≡ some p
    → (mv : Move i s.memory p m q)
    → Shown
        (record { memory = m; threads = set s.threads i q })
        (λ j. queued_in j reach_w ++ sent_by j mv)
        (λ j. taken_in j reach_w ++ received_by j mv)
unfolding put_lock place_of owed set_has sent_by received_by queued_by taken_by
Move-Shown {s = s} rw_ r h i {m = m} {q = q} at (go_on {st = after} u a) =
    let same = go_on-store u a in
    go rw_ r h i at m q _ (go_on-Follows h.like u a)
      (λ j. go_on_none j u (go_on-Follows h.like u a)) (rw same h.like) refl
      (ap (λ (x : Store). x.users) same) []
      (rw same (sym (append-nil (titles s.memory.store.rooms)))) (λ v ts ns. refl)
Move-Shown {s = s} rw_ r h i {m = m} {q = q} at Locks.stop_drain =
    go rw_ r h i at m q _ stop_drain (λ j. (refl, refl)) h.like refl refl []
      (sym (append-nil (titles s.memory.store.rooms))) (λ v ts ns. refl)
Move-Shown rw_ r h i {m = m} {q = q} at (lock g free) = stay rw_ r h i at m q refl refl (λ v. refl)
Move-Shown rw_ r h i {m = m} {q = q} at (run g b a) =
    let f = run-Follows h.like g b a in
    go rw_ r h i at m q f.result f.acts (λ j. run_none j g b f.acts) f.like f.users_left
      f.users_right f.fresh f.titles_lem (λ v ts ns. refl)
Move-Shown rw_ r h i {m = m} {q = q} at unlock = stay rw_ r h i at m q refl refl (λ v. refl)
Move-Shown rw_ r h i at (begin {payload} {r = number} {room} {x} at_room at_user) =
    start rw_ r h i payload number room x at at_room at_user
Move-Shown rw_ r h i at (skip {loop} {u} {us} {x} e at_u same) =
    pass rw_ r h i loop u us x at e at_u same
Move-Shown rw_ r h i at (compose {loop} {u} {us} {x} {room} e at_u differ at_room) =
    write rw_ r h i loop u us x at e at_u room differ at_room
Move-Shown rw_ r h i {m = m} {q = q} at (finish {loop} e) =
    stay rw_ r h i at m q refl refl (λ v. sym (owed_rest_none v _ _ loop (rw e refl)))
Move-Shown rw_ r h i {m = m} {q = q} at (lock_queue free) =
    stay rw_ r h i at m q refl refl (λ v. refl)
Move-Shown rw_ r h i at (push_back {loop} {u} {msg} {x} at_u) = give rw_ r h i loop u msg x at at_u
Move-Shown rw_ r h i {q = q} at (post {loop} {u} {x} at_u) =
    requeue rw_ r h i at q u x _ at_u refl refl refl (λ v ts ns. refl)
Move-Shown rw_ r h i {m = m} {q = q} at unlock_queue = stay rw_ r h i at m q refl refl (λ v. refl)
Move-Shown rw_ r h i {q = q} at (wait {r = room} {x} at_user e) =
    requeue rw_ r h i at q i x _ at_user refl refl refl (λ v ts ns. refl)
Move-Shown rw_ r h i {m = m} {q = q} at (lock_own free) =
    stay rw_ r h i at m q refl refl (λ v. refl)
Move-Shown rw_ r h i at (take {r = room} {x} {granted = true} {out} {queue} at_user e) =
    receive_some rw_ r h i room x queue at at_user out e
Move-Shown rw_ r h i at (take {r = room} {x} {granted = false} {out} {queue} at_user e) =
    receive_none rw_ r h i room x queue at at_user out e

login-Shown :
    {w : World} {s : Machine}
    → (reach_w : Threads.Reach w) → Reach s
    → Shows w s
    → (username : Str) (sender : Bool)
    → Shown
        (record {
          memory = record s.memory { store = (create_user username s.memory.store).1 };
          threads = s.threads ++ outside (if sender then awaiting none else greeting) ∷ [];
        })
        (λ j. queued_in j reach_w)
        (λ j. taken_in j reach_w)
unfolding create_user place_of queued_in taken_in
login-Shown {w} {s} reach_w reach h username sender = (
  record {
    store = (create_user username w.store).1;
    threads = w.threads ++ (if sender then awaiting none else greeting) ∷ [];
  },
  Threads.next reach_w (Threads.login username sender),
  record {
    places =
        ap (λ x. x ++ (if sender then awaiting none else greeting) ∷ []) h.places
        ∙ sym
            (map-concat place_of s.threads (outside (if sender then awaiting none else greeting)));
    like = record {
      m_rooms_lem = h.like.m_rooms_lem;
      rooms_lem = h.like.rooms_lem;
      names_lem =
          map-concat (λ (u : User). u.username) w.store.users (new_user username)
          ∙ ap (λ x. x ++ username ∷ []) h.like.names_lem
          ∙ sym (map-concat (λ (u : User). u.username) s.memory.store.users (new_user username));
    };
    queues = λ v.
        new_user_lem w.store.users username v
        ∙ h.queues v
        ∙ ap₂ (λ x y. x ++ y) (sym (new_user_lem s.memory.store.users username v)) (sym (way v));
  },
  λ j. (refl, refl),
)
  where
    way :
        (v : ℕ)
        → on_the_way v
            (create_user username s.memory.store).1
            (s.threads ++ outside (if sender then awaiting none else greeting) ∷ [])
          ≡ on_the_way v s.memory.store s.threads
    way v =
        on_the_way-concat v _ s.threads (if sender then awaiting none else greeting)
        ∙ on_the_way-steady v s.memory.store _ [] (username ∷ []) s.threads
            (λ x r. is_user x r (Reach-IsSafe reach_w).valid h.like) (Reach-AllStand reach)
            (sym (append-nil (titles s.memory.store.rooms)))
            (map-concat (λ (u : User). u.username) s.memory.store.users (new_user username))

abbrev pub Histories : {s : Machine} → Reach s → Type 0
Histories {s} reach = Shown s (λ j. sent_in j reach) (λ j. received_in j reach)

Step-Shown :
    {s t : Machine} (reach : Reach s) (st : Locks.Step s t)
    → Histories reach
    → Histories (Locks.next reach st)
unfolding sent_in received_in
Step-Shown reach (Locks.login username sender) (w, reach_w, h, e) =
    let (v, r, h', e') = login-Shown reach_w reach h username sender in
    (v, r, h', λ j. ((e' j).0 ∙ (e j).0, (e' j).1 ∙ (e j).1))
Step-Shown reach (Locks.move i at mv) (w, reach_w, h, e) =
    let (v, r, h', e') = Move-Shown reach_w reach h i at mv in
    (
      v,
      r,
      h',
      λ j. (
        (e' j).0 ∙ ap (λ x. x ++ sent_by j mv) (e j).0,
        (e' j).1 ∙ ap (λ x. x ++ received_by j mv) (e j).1,
      ),
    )

-- Every state that the server's threads can reach with their locks, one access to a lock, a
-- semaphore, a deque or a member at a time, shows a state that they can reach when each method is
-- one act: every thread is at the corresponding place there; the map, the rooms' members and the
-- users are the same, and the rooms' names up to a newline; and each user's queue has in addition
-- only what a broadcast under way has still to deliver to that user. The run to it queues for each
-- user what the broadcasts begun owe to the user, in the order of their beginnings, and its threads
-- take what `dequeue` has returned, in the same order.
pub Reach-Shown :
    {s : Machine} (reach : Reach s) → Shown s (λ j. sent_in j reach) (λ j. received_in j reach)
unfolding sent_in received_in queued_in taken_in
Reach-Shown Locks.here = (
  new_world,
  Threads.here,
  record {
    places = refl;
    like = record { m_rooms_lem = refl; rooms_lem = refl; names_lem = refl };
    queues = λ v. unfold on_the_way gather in refl;
  },
  λ j. (refl, refl),
)
Reach-Shown (Locks.next r st) = Step-Shown r st (Reach-Shown r)
