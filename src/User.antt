-- ===== src/User.antt =====
-- user.h: a user with the queue of messages that wait for delivery. A `User *` is an index into
-- the list of all users: none is ever freed.
use csf_hw.Text.{Str}
use csf_hw.MessageQueue.{MessageQueue, new_queue}

pub record User : Type 0 where
  pub username : Str
  pub mqueue : MessageQueue

-- `User (username)`
abbrev pub new_user : Str → User
new_user username = record { username = username; mqueue = new_queue }
