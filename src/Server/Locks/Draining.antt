-- ===== src/Server/Locks/Draining.antt =====
-- The last step of `dequeue`, beside the one act that it is without locks.
use csf_hw.Prelude.{
  if◌then◌else◌, ◌==◌, ℕ, ◌≡◌, refl, sym, ap, ◌∙◌, Bool, true, false, List, [], ◌∷◌, ◌++◌,
  append-nil, Option, none, some, get_elem?, set, get_elem?-total, get_elem?-lt, map-set_same,
  arith, ℕ_discrete,
}
use csf_hw.Outcome.{done, done-injective}
use csf_hw.Message.{Message}
use csf_hw.MessageQueue.{MessageQueue, take_message}
use csf_hw.MessageQueue.Fifo.{head_of, tail_of, dequeue_lem}
use csf_hw.User.{User}
use csf_hw.Server.{Store}
use csf_hw.Server.Spec.{queue_in}
use csf_hw.Server.Threads.{draining, drained, put_queue, drain, World}
use csf_hw.Server.Threads as Threads
use csf_hw.Server.Threads.History.{list_of, queued_by, taken_by}
use csf_hw.Server.Threads.Reachable.{Reach-IsSafe}
use csf_hw.Server.Locks.{of_queue, releasing, taking, Machine, Reach}
use csf_hw.Server.Locks.Alike.{usernames, titles, user_count}
use csf_hw.Server.Locks.Owed.{owed}
use csf_hw.Server.Locks.Shows.{nothing, place_of, on_the_way, Shows, acting}
use csf_hw.Server.Locks.Steady.{queue_in-set}
use csf_hw.Server.Locks.Quiet.{Grown, received_nothing, requeue, on_the_way-kept}

-- What is returned, and what is left.
pub take_message-false :
    (q queue : MessageQueue) (out : Option Message)
    → take_message false q ≡ done (out, queue)
    → (out ≡ none) × (queue.m_messages ≡ q.m_messages)
unfolding take_message
take_message-false q queue out e = (
  sym (ap (λ (x : Option Message × MessageQueue). x.0) (done-injective e)),
  sym (ap (λ (x : Option Message × MessageQueue). x.1.m_messages) (done-injective e)),
)

pub take_message-true :
    (avail : ℕ) (ms : List Message) (queue : MessageQueue) (out : Option Message)
    → take_message true (record { m_avail = avail; m_messages = ms }) ≡ done (out, queue)
    → (msg : Message) × (out ≡ some msg) × (ms ≡ msg ∷ queue.m_messages)
unfolding take_message
take_message-true avail [] queue out e = absurd (ground arith)
take_message-true avail (msg ∷ rest) queue out e = (
  msg,
  sym (ap (λ (x : Option Message × MessageQueue). x.0) (done-injective e)),
  ap (λ (x : Option Message × MessageQueue). msg ∷ x.1.m_messages) (done-injective e),
)

pub take_message-avail :
    (granted : Bool) (avail : ℕ) (ms : List Message) (queue : MessageQueue) (out : Option Message)
    → take_message granted (record { m_avail = avail; m_messages = ms }) ≡ done (out, queue)
    → queue.m_avail ≡ avail
unfolding take_message
take_message-avail true avail [] queue out e = absurd (ground arith)
take_message-avail true avail (msg ∷ rest) queue out e =
    sym (ap (λ (x : Option Message × MessageQueue). x.1.m_avail) (done-injective e))
take_message-avail false avail ms queue out e =
    sym (ap (λ (x : Option Message × MessageQueue). x.1.m_avail) (done-injective e))

if_nothing :
    (i j : ℕ) (out : Option Message) → out ≡ none → (if i == j then list_of out else []) ≡ []
if_nothing i j out e = ground (arith, e)

module _ {w : World} {s : Machine} (reach_w : Threads.Reach w) (reach : Reach s) (shows : Shows w s)
    (i : ℕ) (r : ℕ) (x : User) (queue : MessageQueue) where
  abbrev st : Store
  st = s.memory.store

  abbrev after : Store
  after = put_queue i x queue st

  module _ (at : get_elem? s.threads i ≡ some (taking i false r))
      (at_user : get_elem? st.users i ≡ some x) where
    pub receive_none :
        (out : Option Message)
        → take_message false x.mqueue ≡ done (out, queue)
        → Grown reach_w reach shows i at
            (record s.memory { store = after })
            (releasing (of_queue i) (drained out r))
            nothing
            (λ j. if i == j then list_of out else [])
    unfolding place_of owed drained
    receive_none out e =
        let (is_none, same) = take_message-false x.mqueue queue out e in
        received_nothing reach_w reach shows i at _ _ _ (λ j. if_nothing i j out is_none)
          (requeue reach_w reach shows i at _ i x (record x { mqueue = queue }) at_user refl same
            (ap (λ o. drained o r) is_none) (λ v ts ns. refl))

  module _ (at : get_elem? s.threads i ≡ some (taking i true r))
      (at_user : get_elem? st.users i ≡ some x) where
    names : usernames after.users ≡ usernames st.users
    names =
        map-set_same (λ (y : User). y.username) st.users i x (record x { mqueue = queue }) at_user
          refl

    way :
        (v : ℕ) (out : Option Message)
        → on_the_way v after (set s.threads i (releasing (of_queue i) (drained out r)))
          ≡ on_the_way v st s.threads
    unfolding owed
    way v out =
        on_the_way-kept reach_w reach shows i at v after _ [] (sym (append-nil (titles st.rooms)))
          names refl

    queue_of :
        (users : List User) (y : User)
        → get_elem? users i ≡ some y
        → queue_in users i ≡ y.mqueue.m_messages
    queue_of users y is = rw (queue_in, is) refl

    -- Without locks the same message is at the head.
    full :
        (y : User) (msg : Message)
        → get_elem? w.store.users i ≡ some y
        → x.mqueue.m_messages ≡ msg ∷ queue.m_messages
        → y.mqueue.m_messages ≡ msg ∷ (queue.m_messages ++ on_the_way i st s.threads)
    full y msg is taken =
        sym (queue_of w.store.users y is)
        ∙ shows.queues i
        ∙ ap (λ z. z ++ on_the_way i st s.threads) (queue_of st.users x at_user ∙ taken)

    -- And behind it the same messages are left.
    left_over :
        (y : User) (queue' : MessageQueue)
        → get_elem? w.store.users i ≡ some y
        → queue'.m_messages ≡ queue.m_messages ++ on_the_way i st s.threads
        → (v : ℕ)
        → queue_in (put_queue i y queue' w.store).users v
          ≡ queue_in after.users v ++ on_the_way v st s.threads
    left_over y queue' is left v = elim (ℕ_discrete i v) [
      | yes e ↦
          queue_in-set w.store.users i y (record y { mqueue = queue' }) v is
          ∙ ground
              (arith, e, left, queue_in-set st.users i x (record x { mqueue = queue }) v at_user)
      | no e ↦
          queue_in-set w.store.users i y (record y { mqueue = queue' }) v is
          ∙ ground (
            arith,
            shows.queues v,
            queue_in-set st.users i x (record x { mqueue = queue }) v at_user,
          )
    ]

    pub receive_some :
        (out : Option Message)
        → take_message true x.mqueue ≡ done (out, queue)
        → Grown reach_w reach shows i at
            (record s.memory { store = after })
            (releasing (of_queue i) (drained out r))
            nothing
            (λ j. if i == j then list_of out else [])
    unfolding place_of queued_by taken_by
    receive_some out e =
        let (msg, is_some, taken) =
          take_message-true x.mqueue.m_avail x.mqueue.m_messages queue out e in
        let (y, is) =
          get_elem?-total w.store.users i
            (omega (arith, user_count shows.like, get_elem?-lt st.users i at_user)) in
        let (queue', returns, left, _) =
          dequeue_lem y.mqueue ((Reach-IsSafe reach_w).counted i y is) in
        let holds = full y msg is taken in
        acting reach_w shows i at _ _ (put_queue i y queue' w.store)
          (drain is (returns ∙ ap (λ o. done (o, queue')) (ap head_of holds ∙ sym is_some)))
          (record {
            m_rooms_lem = shows.like.m_rooms_lem;
            rooms_lem = shows.like.rooms_lem;
            names_lem =
                map-set_same (λ (z : User). z.username) w.store.users i y
                  (record y { mqueue = queue' }) is refl
                ∙ shows.like.names_lem
                ∙ sym names;
          })
          (λ v.
            left_over y queue' is (left ∙ ap tail_of holds) v
            ∙ ap (λ z. queue_in after.users v ++ z) (sym (way v out)))
          nothing _ (λ j. (refl, refl))
