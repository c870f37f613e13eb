-- ===== src/Message.antt =====
-- message.h: a message, its size limit and the standard tags. The field `data` of the source is
-- `payload` here.
use csf_hw.Prelude.{ℕ}
use csf_hw.Text.{Str, codes}

pub record Message : Type 0 where
  pub tag : Str
  pub payload : Str

-- `Message ()`
abbrev pub empty_message : Message
empty_message = record { tag = codes ""; payload = codes "" }

-- `Message (tag, data)`
abbrev pub make_message : Str → Str → Message
make_message tag payload = record { tag = tag; payload = payload }

abbrev pub max_len : ℕ
max_len = 255

abbrev pub tag_err : Str
tag_err = codes "err"

abbrev pub tag_ok : Str
tag_ok = codes "ok"

abbrev pub tag_slogin : Str
tag_slogin = codes "slogin"

abbrev pub tag_rlogin : Str
tag_rlogin = codes "rlogin"

abbrev pub tag_join : Str
tag_join = codes "join"

abbrev pub tag_leave : Str
tag_leave = codes "leave"

abbrev pub tag_sendall : Str
tag_sendall = codes "sendall"

abbrev pub tag_quit : Str
tag_quit = codes "quit"

abbrev pub tag_delivery : Str
tag_delivery = codes "delivery"
