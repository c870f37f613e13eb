-- ===== src/Server/Threads/Reachable.antt =====
-- What holds in every state that the server's threads can reach, in whatever order they act.
use csf_hw.Prelude.{
  ℕ, ◌⊎◌, zero, suc, ◌<◌, ◌≡◌, refl, sym, ap, ◌∙◌, true, false, List, [], ◌∷◌, ◌++◌, none, some,
  length, length-set, length-append, get_elem?, set, get_elem?-set_self, get_elem?-set_ne,
  get_elem?-lt, get_elem?-total, inl, inr, arith, ℕ_discrete, subst,
}
use mathlib.Core.Option.{some-injective}
use csf_hw.Text.{Str}
use csf_hw.User.{User, new_user}
use csf_hw.MessageQueue.Fifo.{IsCounted}
use csf_hw.Server.{Store, create_user}
use csf_hw.Server.Rooms.{IsValid}
use csf_hw.Server.Membership.{member_at}
use csf_hw.Server.Session.{InSession}
use csf_hw.Server.Session.NewUser.{create_user-InSession}
use csf_hw.Server.Threads.{
  Place, awaiting, greeting, Act, World, Turn, login, act, Reach, here, next, held, target, inside,
  new_world,
}
use csf_hw.Server.Threads.Effects.{AllCounted, Affects}
use csf_hw.Server.Threads.Fits.{Fits, others-Fits}
use csf_hw.Server.Threads.Acts.{Acts-Fits}

-- The rooms and members are in order, every queue's semaphore counts its messages, each user has a
-- thread, and that thread stands where it fits.
pub record IsSafe (w : World) : Type 0 where
  pub valid : IsValid w.store
  pub counted : AllCounted w.store
  pub thread_count : length w.threads ≡ length w.store.users
  pub fits : (i : ℕ) (p : Place) → get_elem? w.threads i ≡ some p → Fits i p w.store

new_world-IsSafe : IsSafe new_world
new_world-IsSafe = record {
  valid = record { keyed = tt; members = tt };
  counted = λ v u e. absurd (ground arith);
  thread_count = refl;
  fits = λ i p e. absurd (ground arith);
}

act-IsSafe :
    (i : ℕ) (p q : Place) (st : Store) (w : World)
    → get_elem? w.threads i ≡ some p
    → Act i w.store p st q
    → IsSafe w
    → IsSafe (record { store = st; threads = set w.threads i q })
act-IsSafe i p q st w at a s = record {
  valid = moved.0.valid;
  counted = moved.0.counted;
  thread_count = length-set w.threads i q ∙ s.thread_count ∙ sym moved.0.user_count;
  fits = fits;
}
  where
    moved : Affects i w.store st × Fits i q st
    moved =
        Acts-Fits a s.valid s.counted (omega (arith, get_elem?-lt w.threads i at, s.thread_count))
          (s.fits i p at)

    fits : (j : ℕ) (x : Place) → get_elem? (set w.threads i q) j ≡ some x → Fits j x st
    fits j x there = elim (ℕ_discrete i j) [
      | yes same ↦
          subst (λ n. Fits n x st) same
            (subst (λ y. Fits i y st)
              (some-injective q x (
                sym (get_elem?-set_self w.threads i q (get_elem?-lt w.threads i at))
                ∙ ap (get_elem? (set w.threads i q)) same
                ∙ there))
              moved.1)
      | no differ ↦
          others-Fits i j x w.store st differ moved.0
            (s.fits j x (sym (get_elem?-set_ne w.threads i j q differ) ∙ there))
    ]

pub concat_cases :
    {A : Type 0} (xs : List A) (x y : A) (i : ℕ)
    → get_elem? (xs ++ x ∷ []) i ≡ some y
    → (get_elem? xs i ≡ some y) ⊎ ((length xs ≡ i) × (x ≡ y))
concat_cases [] x y zero e = inr (refl, some-injective x y e)
concat_cases [] x y (suc i) e = absurd (ground arith)
concat_cases (z ∷ xs) x y zero e = inl e
concat_cases (z ∷ xs) x y (suc i) e = elim (concat_cases xs x y i e) [
  | inl there ↦ inl there
  | inr (at, same) ↦ inr (ap suc at, same)
]

login-IsSafe :
    (username : Str) (p : Place) (w : World)
    → (held p ≡ none) × (target p ≡ none) × (inside p ≡ none)
    → IsSafe w
    → IsSafe (record { store = (create_user username w.store).1; threads = w.threads ++ p ∷ [] })
unfolding create_user
login-IsSafe username p w h s = record {
  valid = session.valid;
  counted = counted;
  thread_count = omega (
    arith,
    s.thread_count,
    length-append w.threads (p ∷ []),
    length-append w.store.users (new_user username ∷ []),
  );
  fits = fits;
}
  where
    session : InSession (length w.store.users) none (create_user username w.store).1
    session = create_user-InSession username w.store s.valid

    counted : AllCounted (create_user username w.store).1
    counted v u e = elim (concat_cases w.store.users (new_user username) u v e) [
      | inl there ↦ s.counted v u there
      | inr (_, same) ↦ subst (λ (x : User). IsCounted x.mqueue) same refl
    ]

    fits :
        (i : ℕ) (x : Place)
        → get_elem? (w.threads ++ p ∷ []) i ≡ some x
        → Fits i x (create_user username w.store).1
    fits i x e = elim (concat_cases w.threads p x i e) [
      | inl there ↦
          let f = s.fits i x there in
          record {
            held_in = f.held_in;
            target_in = f.target_in;
            alone = f.alone;
            surely = f.surely;
          }
      | inr (at, same) ↦
          subst (λ y. Fits i y (create_user username w.store).1) same
            (record {
              held_in = rw h.0 tt;
              target_in = rw h.1 tt;
              alone = λ q is_in.
                  h.0
                  ∙ session.alone q (
                      subst (λ n. member_at n q w.store.rooms ≡ true) (sym at ∙ s.thread_count)
                        is_in);
              surely = λ q is. absurd (ground (arith, h.2));
            })
    ]

Turn-IsSafe : {v w : World} → Turn v w → IsSafe v → IsSafe w
Turn-IsSafe {v} (login username true) s =
    login-IsSafe username (awaiting none) v (refl, refl, refl) s
Turn-IsSafe {v} (login username false) s = login-IsSafe username greeting v (refl, refl, refl) s
Turn-IsSafe {v} (act i {p} {q} {st} at a) s = act-IsSafe i p q st v at a s

-- In every state that the server's threads can reach, with logins and the acts of all threads in
-- any order and any messages from the clients: the map of rooms and the members are in order, every
-- queue's semaphore counts its messages, each user has a thread, that thread's pointers are to
-- existing rooms, its user is a member of no room but the one the thread holds, and where the
-- thread has tested or made its user a member, ahead of a removal, a broadcast or a round of the
-- receiver's loop, the user still is one.
pub Reach-IsSafe : {w : World} → Reach w → IsSafe w
Reach-IsSafe here = new_world-IsSafe
Reach-IsSafe (next r t) = Turn-IsSafe t (Reach-IsSafe r)

-- In every reachable state two rooms that have the same user as a member are the same room.
pub member_at_unique :
    {w : World} (user r q : ℕ)
    → Reach w
    → user < length w.store.users
    → member_at user r w.store.rooms ≡ true
    → member_at user q w.store.rooms ≡ true
    → r ≡ q
member_at_unique {w} user r q reach lt in_r in_q =
    let s = Reach-IsSafe reach in
    let (p, at) = get_elem?-total w.threads user (rw s.thread_count lt) in
    let f = s.fits user p at in some-injective r q (sym (f.alone r in_r) ∙ f.alone q in_q)
