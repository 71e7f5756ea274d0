-- ===== src/Proxy/Tests.antt =====
-- A proxy with a ring of three servers, and the theorems at it.
use sdle_shopping_list.Common.{
  Uuid, Option, none, some, [], ◌∷◌, ◌≡◌, ◌⊎◌, ◌||◌, ◌==◌, refl, nat_eq, arith,
}
use sdle_shopping_list.HashRing.{new, add_node, get_coordinator, get_all_servers}
use sdle_shopping_list.Common.Sets.{contains}
use sdle_shopping_list.HashRing.Tests.{
  ring, ring_coordinator, ring_one, ring_one-IsValid, ring_one-Apart,
}
use sdle_shopping_list.Storage.Tests.{stored}
use sdle_shopping_list.Sample.{hashing}
use sdle_shopping_list.Server.Message.{Frame, Wire, Msg, get_list}
use sdle_shopping_list.Proxy.{on_frontend, on_backend, ready, server_for, list_of}
use sdle_shopping_list.Proxy.Routing.{on_frontend_lem, on_backend-ready}

abbrev parse : Frame → Option Uuid
parse [] = none
parse (u ∷ _) = some u

abbrev payload : Frame → Option Msg
payload [] = none
payload (_ ∷ _) = some (get_list stored)

abbrev pub wire : Wire
wire = record {
  identity = λ u. u ∷ [];
  parse_identity = parse;
  parse_identity-identity = λ u. refl;
  from_slice = payload;
}

request_sent :
    on_frontend hashing wire ring ((9 ∷ []) ∷ [] ∷ (1 ∷ []) ∷ [])
    ≡ some ((3 ∷ []) ∷ (9 ∷ []) ∷ [] ∷ (1 ∷ []) ∷ [])
unfolding on_frontend server_for list_of
request_sent = rw (ring_coordinator, on_frontend, server_for) refl

on_frontend_example :
    (server : Uuid) × (get_coordinator hashing ring 7 ≡ some server)
    × ((3 ∷ []) ∷ (9 ∷ []) ∷ [] ∷ (1 ∷ []) ∷ []
        ≡ wire.identity server ∷ (9 ∷ []) ∷ [] ∷ (1 ∷ []) ∷ [])
    × (on_backend hashing wire ring ((3 ∷ []) ∷ (9 ∷ []) ∷ [] ∷ (1 ∷ []) ∷ [])
        ≡ (ring, some ((9 ∷ []) ∷ [] ∷ (1 ∷ []) ∷ [])))
unfolding list_of
on_frontend_example =
    on_frontend_lem hashing wire ring (9 ∷ []) [] (1 ∷ []) [] (get_list stored) stored
      ((3 ∷ []) ∷ (9 ∷ []) ∷ [] ∷ (1 ∷ []) ∷ []) refl refl request_sent

on_backend_example :
    ((on_backend hashing wire ring_one ((2 ∷ []) ∷ ready ∷ [])).1 ≡ none)
    × (contains (get_all_servers (on_backend hashing wire ring_one ((2 ∷ []) ∷ ready ∷ [])).0) 2
        ≡ (◌==◌ {A = Uuid} 2 2 || contains (get_all_servers ring_one) 2))
    × ((get_coordinator hashing (on_backend hashing wire ring_one ((2 ∷ []) ∷ ready ∷ [])).0 7
          ≡ get_coordinator hashing ring_one 7)
        ⊎ (get_coordinator hashing (on_backend hashing wire ring_one ((2 ∷ []) ∷ ready ∷ [])).0 7
            ≡ some 2))
on_backend_example =
    on_backend-ready hashing wire ring_one 2 2 7 (unfold ring_one new add_node in omega arith)
      (unfold ring_one new add_node in omega arith) ring_one-IsValid ring_one-Apart
