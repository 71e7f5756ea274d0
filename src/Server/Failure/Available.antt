-- ===== src/Server/Failure/Available.antt =====
-- `is_available` answers with the `failed` flag itself: every server of a table that was built by the
-- operations counts as available, the failed ones too.
use sdle_shopping_list.Common.{
  ℕ, Uuid, nat_eq, Bool, true, Option, none, some, List, [], ◌∷◌, ◌≡◌, refl, arith,
}
use sdle_shopping_list.HashMap.{get}
use sdle_shopping_list.HashMap.Laws.{get-insert, get-remove}
use sdle_shopping_list.Server.Failure.{
  FailureTable, PeerFailureInfo, new, mark_failure, clear_failure, is_available,
}

pub data Event : Type 0 where
  mark : ℕ → Uuid → Event
  clear : Uuid → Event

pub run : List Event → FailureTable → FailureTable
run [] t = t
run (mark now id ∷ es) t = run es (mark_failure t now id)
run (clear id ∷ es) t = run es (clear_failure t id)

-- Every record of the table says `failed`.
pub AllFailed : FailureTable → Type 0
AllFailed t = (id : Uuid) (i : PeerFailureInfo) → get t.peers id ≡ some i → i.failed ≡ true

pub mark-AllFailed :
    (t : FailureTable) (now : ℕ) (s : Uuid) → AllFailed t → AllFailed (mark_failure t now s)
unfolding AllFailed mark_failure
mark-AllFailed t now s h id i g =
    ground (arith, h id i, get-insert t.peers s (record { last_failure = now; failed = true }) id)

pub clear-AllFailed : (t : FailureTable) (s : Uuid) → AllFailed t → AllFailed (clear_failure t s)
unfolding AllFailed clear_failure
clear-AllFailed t s h id i g = ground (arith, h id i, get-remove t.peers s id)

pub new-AllFailed : AllFailed new
unfolding AllFailed new get
new-AllFailed id i g = cc

run-AllFailed : (es : List Event) (t : FailureTable) → AllFailed t → AllFailed (run es t)
unfolding run
run-AllFailed [] t h = h
run-AllFailed (mark now id ∷ es) t h =
    run-AllFailed es (mark_failure t now id) (mark-AllFailed t now id h)
run-AllFailed (clear id ∷ es) t h = run-AllFailed es (clear_failure t id) (clear-AllFailed t id h)

pub is_available_lem : (t : FailureTable) (id : Uuid) → AllFailed t → is_available t id ≡ true
unfolding is_available AllFailed
is_available_lem t id h = available (get t.peers id) refl
  where
    available :
        (o : Option PeerFailureInfo)
        → get t.peers id ≡ o
        → elim o as (λ _. Bool) [ none ↦ true | some info ↦ info.failed ] ≡ true
    available none e = refl
    available (some i) e = h id i e

-- After any failures and recoveries from an empty table every server counts as available.
pub always_available : (es : List Event) (id : Uuid) → is_available (run es new) id ≡ true
always_available es id = is_available_lem (run es new) id (run-AllFailed es new new-AllFailed)
