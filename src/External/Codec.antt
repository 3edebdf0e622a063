-- ===== src/External/Codec.antt =====
-- json2pb and the serializer of protobuf: a message to a text and back.
use sim_search.Prelude.{◌≡◌, Bool, true, Option, some, Str}

pub record Codec (A : Type 0) : Type 0 where
  -- none: the conversion fails.
  pub print : A → Option Str
  -- The message as the parser leaves it, and whether it parsed.
  pub parse : Str → A × Bool
  pub parse-print : (a : A) (t : Str) → print a ≡ some t → parse t ≡ (a, true)
