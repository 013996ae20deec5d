-- ===== src/Cluster.antt =====
-- hircluster.c: the cluster client. A pointer to a node is a value of a type A.
use hiredis_vip.Base.{ℕ}
pub mod Search
pub mod Client
pub mod Context
pub mod Topology
pub mod Route
pub mod Reply
pub mod Net
pub mod Execute
pub mod Fragment
pub mod Gather
pub mod Plan
pub mod Pipeline
pub mod Calls

-- `cluster_slot`: a region of slots and the master that holds it.
pub record ClusterSlot {ℓ} (A : Type ℓ) : Type ℓ where
  pub start : ℕ
  pub end : ℕ
  pub node : A

abbrev pub redis_cluster_slots : ℕ
redis_cluster_slots = 16384
