-- ===== src/Server/Locks/Delivered.antt =====
-- What becomes of the messages, whichever way the steps of the server's threads interleave.
use csf_hw.Prelude.{ℕ, ◌≡◌, sym, ap₂, ◌∙◌, ◌++◌}
use csf_hw.Server.Spec.{queue_in}
use csf_hw.Server.Threads.History.{queued_in-taken_in}
use csf_hw.Server.Locks.{Machine, Reach}
use csf_hw.Server.Locks.History.{sent_in, received_in}
use csf_hw.Server.Locks.Shows.{on_the_way}
use csf_hw.Server.Locks.Refines.{Reach-Shown}

-- Over every run of the server's threads with their locks, in whatever order they step, and for
-- every user: the messages that the broadcasts begun owe to the user, one for each that began in a
-- room of which the user was then a member and under another name, in the order of their
-- beginnings, are those that `dequeue` has returned to the user's thread, in order, followed by
-- those in the queue, followed by those that a broadcast under way has still to put there. Nothing
-- is lost, doubled or overtaken.
pub sent_in-received_in :
    {s : Machine} (j : ℕ) (reach : Reach s)
    → sent_in j reach
      ≡ received_in j reach
        ++ (queue_in s.memory.store.users j ++ on_the_way j s.memory.store s.threads)
sent_in-received_in j reach =
    let (w, r, shows, same) = Reach-Shown reach in
    sym (same j).0 ∙ queued_in-taken_in j r ∙ ap₂ (λ x y. x ++ y) (same j).1 (shows.queues j)
