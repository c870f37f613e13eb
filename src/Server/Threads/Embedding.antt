-- ===== src/Server/Threads/Embedding.antt =====
-- What a thread does undisturbed, it can do among the others.
use csf_hw.Prelude.{
  ℕ, refl, ◌≡◌, sym, some, get_elem?, set, set_same, set-set, get_elem?-set_self, get_elem?-lt,
  subst,
}
use csf_hw.Server.{Store}
use csf_hw.Server.Threads.{Place, Act, World, act, Reach, next}
use csf_hw.Server.Threads.Sessions.{Runs, stay, go}

abbrev moved : ℕ → Store → Place → World → World
moved i st q w = record { store = st; threads = set w.threads i q }

-- Acts of one thread, none of another between them, lead from a reachable state to another.
pub Runs-Reach :
    {i : ℕ} {st after : Store} {p q : Place} (w : World)
    → Reach w
    → get_elem? w.threads i ≡ some p
    → w.store ≡ st
    → Runs i st p after q
    → Reach (moved i after q w)
Runs-Reach {i} {st} {after} {p} w reach at same stay =
    subst Reach (λ k. record { store = same k; threads = sym (set_same w.threads i p at) k }) reach
Runs-Reach {i} {st} {after} {p} {q} w reach at same (go {between = between} {q = m} a runs) =
    let now : World = moved i between m w in
    let there : Reach now = next reach (act i at (subst (λ s. Act i s p between m) (sym same) a)) in
    subst (λ ts. Reach (record { store = after; threads = ts })) (set-set w.threads i m q)
      (Runs-Reach now there (get_elem?-set_self w.threads i m (get_elem?-lt w.threads i at)) refl
        runs)
