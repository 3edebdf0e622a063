-- ===== src/Ps/RaftRpc.antt =====
-- service/ps/raft_rpc.cc: the handlers that pass a write and a read to the raft group.
use sim_search.Prelude.{Option, none, some, Str, codes}
use sim_search.Common.Messages.{Document, BlockRequest, BlockResponse}
use sim_search.External.Braft.{Braft}
use sim_search.External.Gamma.{Gamma}
use sim_search.Raft.Block
use sim_search.Raft.Block.{Block, Task, failed_with}

unfoldable pub no_block : Str
unfolding codes
no_block = codes "不存在这个space, 或者space has error and not run"

module _ {W : Type 0} (braft : Braft W) where
  unfoldable pub write :
      (BlockRequest → Option Str)
      → Option Block
      → BlockRequest
      → BlockResponse
      → Str
      → W
      → BlockResponse × Option Task
  unfolding Block.write no_block
  write serialize none request response attachment w = (failed_with response no_block, none)
  write serialize (some b) request response attachment w =
      Block.write braft serialize b request response attachment w

  -- none: the source goes on to read through the null pointer.
  unfoldable pub read :
      Gamma W
      → (Document → Option Str)
      → Option Block
      → BlockRequest
      → BlockResponse
      → W
      → Option (BlockResponse × Str)
  unfolding Block.read
  read gamma serialize none request response w = none
  read gamma serialize (some b) request response w =
      some (Block.read braft gamma serialize b request response w)
