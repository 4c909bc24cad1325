-- ===== src/Mesh/Sfu.antt =====
-- The daemon's end of the channel to the SFU (`SfuHandle` in crates/sfu/src/lib.rs).
use nodemesh.Base.{Bool, List, [], ◌∷◌, ◌++◌, Option, none, some, if◌then◌else◌}
use nodemesh.Sfu.Command.{SfuCommand}

-- Whether the SFU task runs, and the commands in its channel.
pub record SfuHandle : Type 0 where
  pub running : Bool
  pub commands : List SfuCommand

-- `SfuHandle::send`, which fails when the task is gone.
unfoldable pub send : SfuHandle → SfuCommand → Option SfuHandle
send h cmd = if h.running then some (record h { commands = h.commands ++ (cmd ∷ []) }) else none
