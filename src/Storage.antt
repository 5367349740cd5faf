-- ===== src/Storage.antt =====
-- The node database, storage/: here the columns of a node that the selector reads.
pub mod Table
pub mod Regions
pub mod Lookup
pub mod Identity
pub mod Probes
pub mod Updates
pub mod Manual
pub mod Subscriptions
pub mod Sound
pub mod History
pub mod NodeApi
pub mod Counts
pub mod Queries
use geo_proxy.Common.{Bool}
use geo_proxy.Common.Int.{ℤ}
use geo_proxy.Common.Key.{Text}

-- The other fields of `Proxy` are those of `Details` in Storage/Table.
pub record Proxy : Type 0 where
  pub id : ℤ
  pub address : Text
  pub protocol : Text
  pub region : Text
  pub latency : ℤ
  pub use_count : ℤ
  pub success_count : ℤ
  pub fail_count : ℤ
  pub status : Text
  pub user_paused : Bool
  pub source : Text
  pub subscription_id : ℤ
  pub cf_blocked : ℤ
  pub dual_protocol : Bool
  pub ai_reachability : Text
  pub node_key : Text
