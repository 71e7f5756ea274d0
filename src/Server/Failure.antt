-- ===== src/Server/Failure.antt =====
-- `FailureTable` of src/server.rs. A time of failure is a number, as the clock shows it.
pub mod Available
use sdle_shopping_list.Common.{ℕ, Uuid, nat_eq, Bool, true, Option, none, some, []}
use sdle_shopping_list.HashMap.{HashMap, get, insert, remove}

pub record PeerFailureInfo : Type 0 where
  pub last_failure : ℕ
  pub failed : Bool

pub record FailureTable : Type 0 where
  pub peers : HashMap Uuid PeerFailureInfo

unfoldable pub new : FailureTable
new = record { peers = [] }

-- `.entry(id).and_modify(…).or_insert(…)`: both write the same record. `now` is the clock's time.
unfoldable pub mark_failure : FailureTable → ℕ → Uuid → FailureTable
mark_failure t now server_id = record {
  peers = insert t.peers server_id (record { last_failure = now; failed = true });
}

unfoldable pub clear_failure : FailureTable → Uuid → FailureTable
clear_failure t server_id = record { peers = remove t.peers server_id }

unfoldable pub is_available : FailureTable → Uuid → Bool
is_available t server_id = elim (get t.peers server_id) [ none ↦ true | some info ↦ info.failed ]
