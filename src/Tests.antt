-- ===== src/Tests.antt =====
-- A model of csapp.c on two byte strings, for the tests and the examples of the theorems.
mod ConnectionTests
mod QueueTests
mod RoomTests
mod ServerTests
mod ThreadsTests
mod LocksTests
mod EntryTests
mod ClientTests
mod PlayTests
mod WholeTests
use csf_hw.Prelude.{
  false, ◌+◌, arith, ℕ, ◌-◌, ◌≤◌, ◌≡◌, refl, ◌≢◌, List, [], ◌∷◌, ◌++◌, length, ℤ, pos, negsuc,
}
use csf_hw.Outcome.{Outcome, done}
use csf_hw.Text.{Str, codes, str_eq, c_str, has}
use csf_hw.Connection.Fields.{IsPlain}
use csf_hw.Message.{max_len, tag_join, tag_leave, tag_quit, tag_delivery}
use csf_hw.Server.Script.{Line, IsLine, IsScript, goes_on, quits}
use csf_hw.Csapp.{Csapp, ReadLine, Documented, line_head, line_tail}
use csf_hw.Connection.{Connection, success}
use csf_hw.Server.{new_store}
use csf_hw.Server.Rooms.{IsValid}

-- What is left to read, what was written, and what the array of the last read still shows.
pub record Wire : Type 0 where
  pub input : Str
  pub output : Str
  pub stack : Str

shown_after : Str → Str → Str → Str
shown_after [] head stack = stack
shown_after (c ∷ input) head stack = c_str head

unfoldable pub read_wire : ℤ → ℕ → Wire → ReadLine ℤ Wire
unfolding shown_after line_head line_tail c_str
read_wire fd maxlen w =
    let head = line_head (maxlen - 1) w.input in
    let shown = shown_after w.input head w.stack in
    record {
      size = pos (length head);
      shown = shown;
      rp = fd;
      net = record w { input = line_tail (maxlen - 1) w.input; stack = shown };
    }

abbrev pub wire : Csapp
wire = record {
  Net = Wire;
  Rio = ℤ;
  rio_readinitb = λ fd. fd;
  rio_readlineb = read_wire;
  rio_writen = λ fd bytes w. (pos (length bytes), record w { output = w.output ++ bytes });
  open_clientfd = λ host port w. (pos 4, w);
  open_listenfd = λ port w. (pos 3, w);
  close_fd = λ fd w. done w;
  accept = λ fd w. (pos 4, w);
  pthread_create = λ w. (pos 0, w);
}

shown_after-nonempty :
    (input head stack : Str) → input ≢ [] → shown_after input head stack ≡ c_str head
unfolding shown_after
shown_after-nonempty [] head stack h = absurd (h refl)
shown_after-nonempty (c ∷ input) head stack h = refl

pub wire_size :
    (rp : ℤ) (maxlen : ℕ) (w : Wire)
    → (read_wire rp maxlen w).size ≡ pos (length (line_head (maxlen - 1) w.input))
unfolding read_wire
wire_size rp maxlen w = refl

pub wire_shown :
    (rp : ℤ) (maxlen : ℕ) (w : Wire)
    → w.input ≢ []
    → (read_wire rp maxlen w).shown ≡ c_str (line_head (maxlen - 1) w.input)
unfolding read_wire
wire_shown rp maxlen w h = shown_after-nonempty w.input _ w.stack h

pub wire_input :
    (rp : ℤ) (maxlen : ℕ) (w : Wire)
    → (read_wire rp maxlen w).net.input ≡ line_tail (maxlen - 1) w.input
unfolding read_wire
wire_input rp maxlen w = refl

pub wire_output : (rp : ℤ) (maxlen : ℕ) (w : Wire) → (read_wire rp maxlen w).net.output ≡ w.output
unfolding read_wire
wire_output rp maxlen w = refl

abbrev pub wire_documented : Documented wire
wire_documented = record {
  incoming = λ rp w. w.input;
  outgoing = λ fd w. w.output;
  readlineb_size = wire_size;
  readlineb_shown = λ rp maxlen w _ h. wire_shown rp maxlen w h;
  readlineb_incoming = wire_input;
  readlineb_outgoing = λ rp maxlen w fd. wire_output rp maxlen w;
  writen_size = λ fd bytes w. refl;
  writen_outgoing = λ fd bytes w. refl;
  writen_incoming = λ fd bytes w rp. refl;
}

-- An open connection.
abbrev pub open_conn : Connection wire
open_conn = record { m_fd = pos 4; m_fdbuf = pos 4; m_last_result = success }

abbrev pub with_input : Str → Wire
with_input s = record { input = s; output = []; stack = [] }

pub new_store-IsValid : IsValid new_store
new_store-IsValid = record { keyed = tt; members = tt }

pub plain : (s : Str) → has b':' s ≡ false → has b'\n' s ≡ false → has 0 s ≡ false → IsPlain s
plain s c n z = record { no_colon = c; no_newline = n; no_nul = z }

abbrev pub line_of : Str → Str → Line
line_of tag field = record { tag = tag; field = field }

abbrev pub script : List Line
script =
    line_of tag_join (codes "lobby")
    ∷ line_of tag_leave (codes "bye")
    ∷ line_of tag_quit (codes "bye")
    ∷ []

plain-IsLine :
    (tag field : Str)
    → IsPlain tag
    → IsPlain field
    → str_eq tag tag_delivery ≡ false
    → length tag + length field + 3 ≤ max_len
    → IsLine (line_of tag field)
plain-IsLine tag field pt pf nd fits = record {
  tag_plain = pt;
  field_plain = pf;
  no_delivery = nd;
  fits = fits;
}

bye-IsPlain : IsPlain (codes "bye")
unfolding has
bye-IsPlain = plain (codes "bye") refl refl refl

pub script-IsScript : IsScript false script
unfolding str_eq has
script-IsScript =
    goes_on (line_of tag_join (codes "lobby"))
      (plain-IsLine tag_join (codes "lobby") (plain tag_join refl refl refl)
        (plain (codes "lobby") refl refl refl) refl (omega arith))
      refl (λ e. cc)
      (goes_on (line_of tag_leave (codes "bye"))
        (plain-IsLine tag_leave (codes "bye") (plain tag_leave refl refl refl) bye-IsPlain refl
          (omega arith))
        refl (λ e. refl)
        (quits (line_of tag_quit (codes "bye"))
          (plain-IsLine tag_quit (codes "bye") (plain tag_quit refl refl refl) bye-IsPlain refl
            (omega arith))
          refl))
