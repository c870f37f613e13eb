-- ===== src/Csapp.antt =====
-- The functions of csapp.c and of the system that the program calls, which are not modelled: a
-- parameter, with what their documentation promises as named hypotheses. `Net` is the state of
-- the descriptors and of their peers, `Rio` is `rio_t`.
pub mod Lines
use csf_hw.Prelude.{
  ℕ, zero, suc, ◌-◌, ◌≤◌, ◌≡◌, ◌≢◌, List, [], ◌∷◌, ◌++◌, length, ℤ, pos, ◌==◌, if◌then◌else◌,
}
use csf_hw.Outcome.{Outcome}
use csf_hw.Text.{Str, c_str}

-- What a call of `rio_readlineb` returns and leaves behind. `shown` is what the caller's array
-- shows as a C string after the call; when nothing was read the array has not been written, and
-- `shown` is whatever stood there.
pub record ReadLine (Rio Net : Type 0) : Type 0 where
  pub size : ℤ
  pub shown : Str
  pub rp : Rio
  pub net : Net

pub record Csapp : Type 1 where
  pub Net : Type 0
  pub Rio : Type 0
  pub rio_readinitb : ℤ → Rio
  pub rio_readlineb : Rio → ℕ → Net → ReadLine Rio Net
  pub rio_writen : ℤ → Str → Net → ℤ × Net
  pub open_clientfd : Str → Str → Net → ℤ × Net
  pub open_listenfd : Str → Net → ℤ × Net
  pub close_fd : ℤ → Net → Outcome Net
  pub accept : ℤ → Net → ℤ × Net
  pub pthread_create : Net → ℤ × Net

-- The first line of a text with its newline, or its first bytes if no newline is among them.
unfoldable pub line_head : ℕ → Str → Str
line_head zero s = []
line_head (suc n) [] = []
line_head (suc n) (c ∷ s) = if c == b'\n' then c ∷ [] else c ∷ line_head n s

unfoldable pub line_tail : ℕ → Str → Str
line_tail zero s = s
line_tail (suc n) [] = []
line_tail (suc n) (c ∷ s) = if c == b'\n' then s else line_tail n s

-- While the descriptors are healthy. `incoming` is what the peer has sent or will send before it
-- closes and `rp` has not handed out; `outgoing` is all that was written to a descriptor.
-- `rio_readlineb` stores at most `maxlen - 1` bytes, up to a newline, and a NUL behind them, and
-- returns their number; at the end of the input it returns 0. `rio_writen` writes everything.
pub record Documented (cs : Csapp) : Type 0 where
  pub incoming : cs.Rio → cs.Net → Str
  pub outgoing : ℤ → cs.Net → Str
  pub readlineb_size :
      (rp : cs.Rio) (maxlen : ℕ) (net : cs.Net)
      → (cs.rio_readlineb rp maxlen net).size
        ≡ pos (length (line_head (maxlen - 1) (incoming rp net)))
  pub readlineb_shown :
      (rp : cs.Rio) (maxlen : ℕ) (net : cs.Net)
      → 2 ≤ maxlen
      → incoming rp net ≢ []
      → (cs.rio_readlineb rp maxlen net).shown ≡ c_str (line_head (maxlen - 1) (incoming rp net))
  pub readlineb_incoming :
      (rp : cs.Rio) (maxlen : ℕ) (net : cs.Net)
      → let r = cs.rio_readlineb rp maxlen net in
        incoming r.rp r.net ≡ line_tail (maxlen - 1) (incoming rp net)
  pub readlineb_outgoing :
      (rp : cs.Rio) (maxlen : ℕ) (net : cs.Net) (fd : ℤ)
      → outgoing fd (cs.rio_readlineb rp maxlen net).net ≡ outgoing fd net
  pub writen_size :
      (fd : ℤ) (bytes : Str) (net : cs.Net) → (cs.rio_writen fd bytes net).0 ≡ pos (length bytes)
  pub writen_outgoing :
      (fd : ℤ) (bytes : Str) (net : cs.Net)
      → outgoing fd (cs.rio_writen fd bytes net).1 ≡ outgoing fd net ++ bytes
  pub writen_incoming :
      (fd : ℤ) (bytes : Str) (net : cs.Net) (rp : cs.Rio)
      → incoming rp (cs.rio_writen fd bytes net).1 ≡ incoming rp net
