-- ===== src/External/Toml.antt =====
-- toml11, the parser of the configuration file. Of what a call throws, the code tells three classes apart;
-- an exception of any other, which it does not catch, is left out.
use sim_search.Prelude.{ℕ, Bool, List, Str}

pub data Parsed (A : Type 0) : Type 0 where
  parsed : A → Parsed A
  syntax_error runtime_error : Parsed A

pub data Found (A : Type 0) : Type 0 where
  found : A → Found A
  type_error other_error : Found A

-- The numbers that the code asks for are not negative.
pub record Toml (Value : Type 0) : Type 0 where
  pub parse : Str → Parsed Value
  pub find_value : Value → Str → Found Value
  pub find_values : Value → Str → Found (List Value)
  pub find_text : Value → Str → Found Str
  pub find_texts : Value → Str → Found (List Str)
  pub find_int : Value → Str → Found ℕ
  pub find_bool : Value → Str → Found Bool
