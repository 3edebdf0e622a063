-- ===== src/Clients/Etcd/ReadBody.antt =====
-- clients/etcd_client.{h,cc}: the reader of a watch, which gives the watcher the events of each part of
-- the answer. A watcher is the two methods that its user overrides.
use sim_search.Prelude.{
  Bool, true, false, List, [], ◌∷◌, Option, none, some, if◌then◌else◌, ltb, length, Str,
}

pub record Watcher (Event W : Type 0) : Type 0 where
  pub on_event_response : Event → W → W
  pub on_parse_error : W → W

-- `Status` is what brpc ends the answer with.
pub record ReadBody (Status : Type 0) : Type 0 where
  pub destroyed : Bool
  pub destroying_st : Option Status

unfoldable pub new_body : {Status : Type 0} → ReadBody Status
new_body = record { destroyed = false; destroying_st = none }

unfoldable pub on_end_of_message : {Status : Type 0} → ReadBody Status → Status → ReadBody Status
on_end_of_message r st = record r { destroyed = true; destroying_st = some st }

module _ {Event W : Type 0} (parse : Str → Option Event) (watcher : Watcher Event W) where
  -- The status that it returns is always OK.
  unfoldable pub on_read_one_part : Str → W → W
  on_read_one_part part w =
      if ltb 0 (length part)
      then elim (parse part) [
        | none ↦ watcher.on_parse_error w
        | some response ↦ watcher.on_event_response response w
      ]
      else w

  -- The parts that arrive, one after another.
  unfoldable pub read_parts : List Str → W → W
  unfolding on_read_one_part
  read_parts [] w = w
  read_parts (part ∷ parts) w = read_parts parts (on_read_one_part part w)
