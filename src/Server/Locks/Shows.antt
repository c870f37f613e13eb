-- ===== src/Server/Locks/Shows.antt =====
-- The server without locks that the server with locks amounts to: each broadcast under way has
-- delivered to all its members there.
use mathlib.Core.Option
use mathlib.Core.Option.{some-injective}
use csf_hw.Prelude.{
  ℕ, ◌≡◌, sym, ap, ◌∙◌, true, List, ◌++◌, [], append-nil, some, map, get_elem?, set, set_same,
  get_elem?-map, map-set, gather,
}
use csf_hw.Message.{Message}
use csf_hw.Server.{Store}
use csf_hw.Server.Spec.{queue_in}
use csf_hw.Server.Threads.{Place, answering, draining, ok, Act, World, act}
use csf_hw.Server.Threads as Threads
use csf_hw.Server.Threads.History.{queued_in, taken_in, queued_by, taken_by}
use csf_hw.Server.Locks.{
  Memory, Spot, outside, within, releasing, visiting, asking, pushing, posting, unlocking, fetching,
  taking, Machine,
}
use csf_hw.Server.Locks.Alike.{Alike, usernames, titles}
use csf_hw.Server.Locks.Owed.{owed}

-- Where the thread is without locks.
unfoldable pub place_of : Spot → Place
place_of (outside p) = p
place_of (within p) = p
place_of (releasing l q) = q
place_of (visiting loop) = answering true (ok "Sendall successful") (some loop.room)
place_of (asking loop u msg) = answering true (ok "Sendall successful") (some loop.room)
place_of (pushing loop u msg) = answering true (ok "Sendall successful") (some loop.room)
place_of (posting loop u) = answering true (ok "Sendall successful") (some loop.room)
place_of (unlocking loop u) = answering true (ok "Sendall successful") (some loop.room)
place_of (fetching u granted r) = draining r
place_of (taking u granted r) = draining r

-- What is still on its way to `v`.
unfoldable pub on_the_way : ℕ → Store → List Spot → List Message
on_the_way v st threads = gather (owed v (titles st.rooms) (usernames st.users)) threads

-- Every thread is at the corresponding place; the rooms, the members, the users and the map are the
-- same, up to newlines in the rooms' names; and each queue has in addition what is on its way.
pub record Shows (w : World) (s : Machine) : Type 0 where
  pub places : w.threads ≡ map place_of s.threads
  pub like : Alike w.store s.memory.store
  pub queues :
      (v : ℕ)
      → queue_in w.store.users v
        ≡ queue_in s.memory.store.users v ++ on_the_way v s.memory.store s.threads

-- A run without locks to a state that is shown, with what was queued for each user over it, and
-- what each user's thread has taken.
abbrev pub Shown : Machine → (ℕ → List Message) → (ℕ → List Message) → Type 0
Shown s sent received =
    (w : World) × (r : Threads.Reach w) × Shows w s
    × ((j : ℕ) → (queued_in j r ≡ sent j) × (taken_in j r ≡ received j))

-- What a step that neither sends nor receives adds.
abbrev pub nothing : ℕ → List Message
nothing j = []

pub place_at :
    {w : World} {s : Machine} (i : ℕ) (p : Spot)
    → Shows w s
    → get_elem? s.threads i ≡ some p
    → get_elem? w.threads i ≡ some (place_of p)
place_at {w} {s} i p h at = rw h.places (get_elem?-map place_of s.threads i ∙ ap (Option.map _) at)

module _ {w : World} {s : Machine} (reach : Threads.Reach w) (shows : Shows w s) (i : ℕ) {p : Spot}
    (at : get_elem? s.threads i ≡ some p) (m : Memory) (q : Spot) where
  -- The histories grow by what the step sends and receives.
  abbrev Goal : (ℕ → List Message) → (ℕ → List Message) → Type 0
  Goal sent received =
      Shown (record { memory = m; threads = set s.threads i q }) (λ j. queued_in j reach ++ sent j)
        (λ j. taken_in j reach ++ received j)

  -- A step that the server without locks does not see.
  pub silent :
      place_of q ≡ place_of p
      → Alike w.store m.store
      → ((v : ℕ)
          → queue_in m.store.users v ++ on_the_way v m.store (set s.threads i q)
            ≡ queue_in s.memory.store.users v ++ on_the_way v s.memory.store s.threads)
      → Goal nothing nothing
  silent same like queues = (
    w,
    reach,
    record {
      places =
          shows.places
          ∙ sym (
              map-set place_of s.threads i q
              ∙ ap (set (map place_of s.threads) i) same
              ∙ set_same (map place_of s.threads) i (place_of p)
                  (get_elem?-map place_of s.threads i ∙ ap (Option.map _) at));
      like = like;
      queues = λ v. shows.queues v ∙ sym (queues v);
    },
    λ j. (sym (append-nil (queued_in j reach)), sym (append-nil (taken_in j reach))),
  )

  -- A step that is an act there.
  pub acting :
      (st : Store)
      → (a : Act i w.store (place_of p) st (place_of q)) → Alike st m.store
      → ((v : ℕ)
          → queue_in st.users v
            ≡ queue_in m.store.users v ++ on_the_way v m.store (set s.threads i q))
      → (sent received : ℕ → List Message)
      → ((j : ℕ) → (queued_by j a ≡ sent j) × (taken_by j a ≡ received j))
      → Goal sent received
  unfolding queued_in taken_in
  acting st a like queues sent received e = (
    record { store = st; threads = set w.threads i (place_of q) },
    Threads.next reach (act i (place_at i p shows at) a),
    record {
      places = ap (λ x. set x i (place_of q)) shows.places ∙ sym (map-set place_of s.threads i q);
      like = like;
      queues = queues;
    },
    λ j. (ap (◌++◌ (queued_in j reach)) (e j).0, ap (◌++◌ (taken_in j reach)) (e j).1),
  )
