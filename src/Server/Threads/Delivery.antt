-- ===== src/Server/Threads/Delivery.antt =====
-- Only deliveries wait for a user, and the user's thread can take all of them.
use csf_hw.Prelude.{
  ℕ, ◌≡◌, refl, sym, ap, ◌∙◌, Bool, true, false, List, [], ◌∷◌, ◌++◌, append-nil, Option, none,
  some, get_elem?, get_elem?-lt, get_elem?-total, set, get_elem?-set_self, if◌then◌else◌, subst,
}
use csf_hw.Text.{Str, str_eq}
use csf_hw.Message.{Message, tag_delivery}
use csf_hw.MessageQueue.Fifo.{dequeue_lem, head_of, tail_of}
use csf_hw.User.{User}
use csf_hw.Room.Broadcast.{delivery}
use csf_hw.Server.{Store}
use csf_hw.Server.Spec.{queue_in}
use csf_hw.Server.Threads.{
  Place, draining, drained, Act, hear, part, seek, enter, look_leave, remove, look_tell, tell,
  answer, stop, close, greet, admit, enroll, drain, stop_drain, World, login, act, Reach, here,
  next, put_queue,
}
use csf_hw.Server.Threads.Reachable.{Reach-IsSafe}
use csf_hw.Server.Threads.History.{queued_by, queued_in, taken_in, queued_in-taken_in}

abbrev pub AllDeliveries : List Message → Type 0
AllDeliveries [] = Unit
AllDeliveries (msg ∷ msgs) = (msg.tag ≡ tag_delivery) × AllDeliveries msgs

AllDeliveries-append :
    (xs ys : List Message) → AllDeliveries xs → AllDeliveries ys → AllDeliveries (xs ++ ys)
AllDeliveries-append [] ys a b = b
AllDeliveries-append (x ∷ xs) ys a b = (a.0, AllDeliveries-append xs ys a.1 b)

AllDeliveries-behind : (xs ys : List Message) → AllDeliveries (xs ++ ys) → AllDeliveries ys
AllDeliveries-behind [] ys a = a
AllDeliveries-behind (x ∷ xs) ys a = AllDeliveries-behind xs ys a.1

at_most_one :
    (told : Bool) (room sender text : Str)
    → AllDeliveries (if told then delivery room sender text ∷ [] else [])
at_most_one true room sender text = (refl, tt)
at_most_one false room sender text = tt

queued_by-AllDeliveries :
    (j : ℕ) {i : ℕ} {st after : Store} {p q : Place} (a : Act i st p after q)
    → AllDeliveries (queued_by j a)
unfolding queued_by
queued_by-AllDeliveries j (tell e) = at_most_one _ _ _ _
queued_by-AllDeliveries j (hear msg) = tt
queued_by-AllDeliveries j (part e) = tt
queued_by-AllDeliveries j (seek e) = tt
queued_by-AllDeliveries j (enter e) = tt
queued_by-AllDeliveries j (look_leave at) = tt
queued_by-AllDeliveries j (remove e) = tt
queued_by-AllDeliveries j (look_tell at) = tt
queued_by-AllDeliveries j answer = tt
queued_by-AllDeliveries j stop = tt
queued_by-AllDeliveries j close = tt
queued_by-AllDeliveries j (greet msg) = tt
queued_by-AllDeliveries j (admit e) = tt
queued_by-AllDeliveries j (enroll e) = tt
queued_by-AllDeliveries j (drain at e) = tt
queued_by-AllDeliveries j stop_drain = tt

queued_in-AllDeliveries : (j : ℕ) {w : World} (reach : Reach w) → AllDeliveries (queued_in j reach)
unfolding queued_in
queued_in-AllDeliveries j here = tt
queued_in-AllDeliveries j (next reach (login username sender)) = queued_in-AllDeliveries j reach
queued_in-AllDeliveries j (next reach (act i at a)) =
    AllDeliveries-append (queued_in j reach) (queued_by j a) (queued_in-AllDeliveries j reach)
      (queued_by-AllDeliveries j a)

queue_in-AllDeliveries : (j : ℕ) {w : World} → Reach w → AllDeliveries (queue_in w.store.users j)
queue_in-AllDeliveries j {w} reach =
    AllDeliveries-behind (taken_in j reach) (queue_in w.store.users j)
      (subst AllDeliveries (queued_in-taken_in j reach) (queued_in-AllDeliveries j reach))

-- A message that is a delivery lets the receiver's loop go on.
drained-delivery :
    (msg : Message) (r : ℕ) → msg.tag ≡ tag_delivery → drained (some msg) r ≡ draining r
unfolding drained str_eq
drained-delivery msg r e = rw e refl

-- The user's thread takes all that waits, and nothing else changes.
pub record TakesAll {w : World} (j r : ℕ) (reach : Reach w) : Type 0 where
  pub now : World
  pub there : Reach now
  pub at : get_elem? now.threads j ≡ some (draining r)
  pub emptied : queue_in now.store.users j ≡ []
  pub queued : queued_in j there ≡ queued_in j reach
  pub rooms : now.store.rooms ≡ w.store.rooms

-- The first of the messages is taken.
record TakesOne {w : World} (j r : ℕ) (rest : List Message) (reach : Reach w) : Type 0 where
  now : World
  there : Reach now
  at : get_elem? now.threads j ≡ some (draining r)
  left : queue_in now.store.users j ≡ rest
  queued : queued_in j there ≡ queued_in j reach
  rooms : now.store.rooms ≡ w.store.rooms

module _ (j r : ℕ) where
  take_one :
      {w : World} (msg : Message) (rest : List Message) (reach : Reach w)
      → get_elem? w.threads j ≡ some (draining r)
      → queue_in w.store.users j ≡ msg ∷ rest
      → msg.tag ≡ tag_delivery
      → TakesOne j r rest reach
  unfolding queued_in queued_by
  take_one {w} msg rest reach at waiting tagged =
      let s = Reach-IsSafe reach in
      let (u, at_u) =
        get_elem?-total w.store.users j (rw (← s.thread_count) (get_elem?-lt w.threads j at)) in
      let msgs : u.mqueue.m_messages ≡ msg ∷ rest =
        sym (ap (λ (o : Option User). elim o [ none ↦ [] | some x ↦ x.mqueue.m_messages ]) at_u)
        ∙ waiting in
      let (queue, returns, left, _) = dequeue_lem u.mqueue (s.counted j u at_u) in
      let goes_on : drained (head_of u.mqueue.m_messages) r ≡ draining r =
        ap (λ ms. drained (head_of ms) r) msgs ∙ drained-delivery msg r tagged in
      record {
        now = record {
          store = put_queue j u queue w.store;
          threads = set w.threads j (drained (head_of u.mqueue.m_messages) r);
        };
        there = next reach (act j at (drain at_u returns));
        at = get_elem?-set_self w.threads j _ (get_elem?-lt w.threads j at) ∙ ap some goes_on;
        left =
            ap (λ (o : Option User). elim o [ none ↦ [] | some x ↦ x.mqueue.m_messages ])
              (get_elem?-set_self w.store.users j (record u { mqueue = queue })
                (get_elem?-lt w.store.users j at_u))
            ∙ left
            ∙ ap tail_of msgs;
        queued = append-nil (queued_in j reach);
        rooms = refl;
      }

  take_all :
      (msgs : List Message) {w : World} (reach : Reach w)
      → get_elem? w.threads j ≡ some (draining r)
      → queue_in w.store.users j ≡ msgs
      → AllDeliveries msgs
      → TakesAll j r reach
  take_all [] {w} reach at waiting all = record {
    now = w;
    there = reach;
    at = at;
    emptied = waiting;
    queued = refl;
    rooms = refl;
  }
  take_all (msg ∷ msgs) {w} reach at waiting all =
      let one = take_one msg msgs reach at waiting all.0 in
      let others = take_all msgs one.there one.at one.left all.1 in
      record {
        now = others.now;
        there = others.there;
        at = others.at;
        emptied = others.emptied;
        queued = others.queued ∙ one.queued;
        rooms = others.rooms ∙ one.rooms;
      }

-- For every run of the server's threads from the start that leaves a thread in its receiver's loop,
-- there is a run that leaves it in the loop again, with nothing waiting for its user and the rooms
-- as they were, and over which that thread has taken off the queue, in order, exactly what was
-- queued for its user over the first run; no message stops the loop.
pub taken_in-queued_in :
    {w : World} (j r : ℕ) (reach : Reach w)
    → get_elem? w.threads j ≡ some (draining r)
    → (now : World) × (there : Reach now) × (get_elem? now.threads j ≡ some (draining r))
      × (taken_in j there ≡ queued_in j reach)
      × (queue_in now.store.users j ≡ [])
      × (now.store.rooms ≡ w.store.rooms)
taken_in-queued_in {w} j r reach at =
    let t =
      take_all j r (queue_in w.store.users j) reach at refl (queue_in-AllDeliveries j reach) in
    (
      t.now,
      t.there,
      t.at,
      sym (
          sym t.queued
          ∙ queued_in-taken_in j t.there
          ∙ ap (λ ms. taken_in j t.there ++ ms) t.emptied
          ∙ append-nil (taken_in j t.there)),
      t.emptied,
      t.rooms,
    )
