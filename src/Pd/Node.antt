-- ===== src/Pd/Node.antt =====
-- crates/epoch-pd/src/cluster/node.rs: the roles of a node, its lifecycle and its record. A role set
-- is the `u8` of its bits.
pub mod Manager
pub mod Changes
pub mod Lifecycle
pub mod Retired
pub mod Restart
use epoch_io.Common.{ℕ, Bool, true, false, ◌==◌, List}
use Prim.Native.Nat.{bit_and, bit_or}

-- `RoleSet::DATA`, `GATEWAY` and `META`.
abbrev pub data_role : ℕ
data_role = 1

abbrev pub gateway_role : ℕ
gateway_role = 2

abbrev pub meta_role : ℕ
meta_role = 4

unfoldable pub union_roles : ℕ → ℕ → ℕ
union_roles a b = bit_or a b

unfoldable pub contains_roles : ℕ → ℕ → Bool
contains_roles a b = bit_and a b == b

pub data NodeStatus : Type 0 where
  starting live offline lost decommissioned : NodeStatus

unfoldable pub can_transition_to : NodeStatus → NodeStatus → Bool
can_transition_to starting starting = true
can_transition_to starting live = true
can_transition_to starting offline = true
can_transition_to starting lost = false
can_transition_to starting decommissioned = true
can_transition_to live starting = false
can_transition_to live live = true
can_transition_to live offline = true
can_transition_to live lost = false
can_transition_to live decommissioned = true
can_transition_to offline starting = false
can_transition_to offline live = true
can_transition_to offline offline = true
can_transition_to offline lost = true
can_transition_to offline decommissioned = true
can_transition_to lost starting = false
can_transition_to lost live = true
can_transition_to lost offline = false
can_transition_to lost lost = true
can_transition_to lost decommissioned = true
can_transition_to decommissioned starting = false
can_transition_to decommissioned live = false
can_transition_to decommissioned offline = false
can_transition_to decommissioned lost = false
can_transition_to decommissioned decommissioned = true

abbrev pub is_live : NodeStatus → Bool
is_live starting = false
is_live live = true
is_live offline = false
is_live lost = false
is_live decommissioned = false

pub record Node : Type 0 where
  pub node_id : ℕ
  pub addr : List ℕ
  pub az : List ℕ
  pub rack : List ℕ
  pub roles : ℕ
  pub status : NodeStatus
