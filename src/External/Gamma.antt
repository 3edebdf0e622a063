-- ===== src/External/Gamma.antt =====
-- gamma_cpp_api, the engine that the partition server links: its documents are lists of fields, as in
-- Dto/Gamma.
use sim_search.Prelude.{ℕ, List, Option, Str}
use sim_search.Dto.Gamma.{GammaField, TableInfo}

pub record Gamma (W : Type 0) : Type 0 where
  -- A code, 0 for a success.
  pub add_or_update_doc : List GammaField → W → W × ℕ
  -- The fields of the table and those that are vectors; none: the code is not 0.
  pub get_doc_by_id : Str → W → Option (List GammaField × List GammaField)
  pub init_engine : Str → Str → W → W
  -- The code and the text of the status.
  pub create_table : TableInfo → W → W × ℕ × Str
  -- The loading of what the engine kept on disk, 0 for a success.
  pub load : W → W × ℕ
  pub close : W → W
