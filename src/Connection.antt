-- ===== src/Connection.antt =====
-- connection.h and connection.cpp: a socket with its read buffer, and the messages on it.
pub mod Fields
pub mod Send
pub mod Receive
pub mod RoundTrip
pub mod Faults
pub mod LongLines
pub mod Deliveries
use csf_hw.Prelude.{
  ℕ, Bool, true, false, not, ◌||◌, List, [], ◌∷◌, ◌++◌, length, get_elem?, ℤ, pos, negsuc, is_neg,
  ltb, ◌==◌, if◌then◌else◌,
}
use csf_hw.Outcome.{Outcome, done, undefined, ◌>>=◌, deref}
use csf_hw.Text.{Str, codes, str_eq, c_str, tokens}
use csf_hw.Text.Decimal.{to_string}
use csf_hw.Message.{Message, max_len, tag_quit, tag_leave, tag_delivery}
use csf_hw.Csapp.{Csapp, ReadLine}

-- `Connection::Result`
pub data Result : Type 0 where
  success eof_or_error invalid_msg max_msg_size : Result

-- The bytes that `send` builds in `msg_str`.
unfoldable pub message_text : Message → Str
message_text msg =
    if str_eq msg.tag tag_quit || str_eq msg.tag tag_leave
    then msg.tag ++ b':' ∷ codes "bye\n"
    else msg.tag ++ (b':' ∷ (msg.payload ++ b'\n' ∷ []))

-- `size == (ssize_t) n`
unfoldable pub is_size : ℤ → ℕ → Bool
is_size (pos m) n = m == n
is_size (negsuc m) n = false

-- `divide_data` stores `result[0]` as the tag: with no token that is an access past the end.
unfoldable pub divide_data : Message → Outcome (List Str × Message)
divide_data msg =
    let result = tokens b':' msg.payload in
    do first ← deref (get_elem? result 0); done (result, record msg { tag = first })

-- The end of `receive`, from the size test on: whether it succeeds, and the message.
unfoldable pub store_data : List Str → Message → Outcome (Bool × Message)
store_data result msg =
    if ltb (length result) 2
    then done (false, msg)
    else if str_eq msg.tag tag_delivery
    then (do
      room ← deref (get_elem? result 1)
      sender ← deref (get_elem? result 2)
      text ← deref (get_elem? result 3)
      done (true, record msg { payload = room ++ (b':' ∷ (sender ++ b':' ∷ text)) }))
    else (do field ← deref (get_elem? result 1); done (true, record msg { payload = field }))

module _ (cs : Csapp) where
  open cs use {Net, Rio, rio_readinitb, rio_readlineb, rio_writen, open_clientfd, close_fd}

  pub record Connection : Type 0 where
    pub m_fd : ℤ
    pub m_fdbuf : Rio
    pub m_last_result : Result

module _ (cs : Csapp) where
  open cs use {Net, Rio, rio_readinitb, rio_readlineb, rio_writen, open_clientfd, close_fd}

  -- `Connection (fd)`
  pub from_fd : ℤ → Connection cs
  from_fd fd = record { m_fd = fd; m_fdbuf = rio_readinitb fd; m_last_result = success }

  -- `Connection ()`: the read buffer is not initialised, `idle` is what stands there.
  unfoldable pub unconnected : Rio → Connection cs
  unconnected idle = record { m_fd = negsuc 0; m_fdbuf = idle; m_last_result = success }

  unfoldable pub connect : Str → ℤ → Connection cs → Net → Connection cs × Net
  connect hostname port c net =
      let (fd, net') = open_clientfd (c_str hostname) (c_str (to_string port)) net in
      if is_neg fd
      then (record c { m_fd = fd; m_last_result = eof_or_error }, net')
      else (record c { m_fd = fd; m_fdbuf = rio_readinitb fd }, net')

  unfoldable pub is_open : Connection cs → Bool
  is_open c = not (is_neg c.m_fd)

  -- `close` leaves the object itself as it is.
  unfoldable pub close : Connection cs → Net → Outcome Net
  unfolding is_open
  close c net = if is_open c then close_fd c.m_fd net else done net

  -- `~Connection ()`
  unfoldable pub destroy : Connection cs → Net → Outcome Net
  unfolding is_open
  destroy c net = if is_open c then close_fd c.m_fd net else done net

  -- The end of `send`, from the size returned by `rio_writen` on.
  unfoldable pub sent : ℤ → ℕ → Connection cs → Bool × Connection cs
  unfolding is_size
  sent size n c =
      if is_neg size
      then (false, record c { m_last_result = eof_or_error })
      else if not (is_size size n)
      then (false, record c { m_last_result = invalid_msg })
      else (true, record c { m_last_result = success })

  unfoldable pub send :
      Connection cs → Message → Net → record { ok : Bool; conn : Connection cs; net : Net }
  send c msg net =
      let text = c_str (message_text msg) in
      let (size, net') = rio_writen c.m_fd text net in
      let (ok, c') = sent size (length text) c in
      if ltb max_len (length (c_str msg.payload))
      then record { ok = false; conn = record c { m_last_result = invalid_msg }; net = net }
      else record { ok = ok; conn = c'; net = net' }

  pub record Received : Type 0 where
    pub ok : Bool
    pub msg : Message
    pub conn : Connection cs
    pub net : Net

module _ (cs : Csapp) where
  open cs use {Net, Rio, rio_readlineb}

  -- `receive` on the result of `rio_readlineb`. `m_last_result` is set after the last access.
  unfoldable pub received : ReadLine Rio Net → Message → Connection cs → Outcome (Received cs)
  received r msg c =
      if is_neg r.size
      then done (record {
        ok = false;
        msg = msg;
        conn = record c { m_fdbuf = r.rp; m_last_result = eof_or_error };
        net = r.net;
      })
      else (do
        (result, tagged) ← divide_data (record msg { payload = r.shown })
        (ok, stored) ← store_data result tagged
        done (record {
          ok = ok;
          msg = stored;
          conn = record c { m_fdbuf = r.rp; m_last_result = if ok then success else invalid_msg };
          net = r.net;
        }))

  unfoldable pub receive : Connection cs → Message → Net → Outcome (Received cs)
  receive c msg net = received (rio_readlineb c.m_fdbuf max_len net) msg c
