-- ===== src/Connection/Fields.antt =====
-- The fields of a line `tag:field` and what `receive` stores of them.
use csf_hw.Prelude.{◌≡◌, refl, Bool, true, false, [], ◌∷◌, ◌++◌}
use csf_hw.Outcome.{Outcome, done, ◌>>=◌}
use csf_hw.Text.{Str, str_eq, has, tokens}
use csf_hw.Text.Equality.{has-append_false}
use csf_hw.Text.Split.{tokens-field, tokens_last}
use csf_hw.Message.{Message, tag_delivery}
use csf_hw.Connection.{divide_data, store_data}

-- Neither a delimiter, nor a newline, nor a NUL.
pub record IsPlain (s : Str) : Type 0 where
  pub no_colon : has b':' s ≡ false
  pub no_newline : has b'\n' s ≡ false
  pub no_nul : has 0 s ≡ false

-- `divide_data` and the rest of `receive` on a text.
abbrev pub parse : Message → Outcome (Bool × Message)
parse msg = divide_data msg >>= λ d. store_data d.0 d.1

-- A last field with a newline behind it is a token, also when it is empty.
pub tokens_line :
    (s : Str) → has b':' s ≡ false → tokens b':' (s ++ b'\n' ∷ []) ≡ (s ++ b'\n' ∷ []) ∷ []
unfolding has
tokens_line [] h = tokens_last b':' b'\n' [] refl
tokens_line (c ∷ s) h =
    tokens_last b':' c (s ++ b'\n' ∷ []) (has-append_false b':' (c ∷ s) (b'\n' ∷ []) h refl)

pub parse_line :
    (tag field : Str) (msg : Message)
    → has b':' tag ≡ false
    → has b':' field ≡ false
    → str_eq tag tag_delivery ≡ false
    → parse (record msg { payload = tag ++ (b':' ∷ (field ++ b'\n' ∷ [])) })
      ≡ done (true, record { tag = tag; payload = field ++ b'\n' ∷ [] })
unfolding divide_data store_data
parse_line tag field msg ht hf nd =
    rw (tokens-field b':' tag (field ++ b'\n' ∷ []) ht, tokens_line field hf, nd)
