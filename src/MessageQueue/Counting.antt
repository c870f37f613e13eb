-- ===== src/MessageQueue/Counting.antt =====
-- Sums over the threads of a queue, none of which is in a method.
use csf_hw.Prelude.{ℕ, zero, suc, ◌≡◌, refl, arith, total}
use csf_hw.MessageQueue.Threads.{Pc, idle, all_idle}

pub total-all_idle : (w : Pc → ℕ) (n : ℕ) → w idle ≡ 0 → total w (all_idle n) ≡ 0
unfolding total
total-all_idle w zero h = refl
total-all_idle w (suc n) h = omega (arith, total-all_idle w n h)
