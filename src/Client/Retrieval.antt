-- ===== src/Client/Retrieval.antt =====
-- What a client shows and stores of a list that it retrieves.
use sdle_shopping_list.Common.{Uuid, String, ◌≡◌, refl, ap, ◌∙◌, sym}
use sdle_shopping_list.Common.Result.{ok}
use sdle_shopping_list.Crdt.AworMap.{ShoppingList, merge}
use sdle_shopping_list.Crdt.AworMap.Merge.{IsValid, merge-IsValid}
use sdle_shopping_list.Crdt.AworMap.Convergence.{
  map_view, map_view-merge, join_map, join_map_idem, join_map_assoc,
}
use sdle_shopping_list.External.{Hashing}
use sdle_shopping_list.Storage.Client.{ClientDb, read_shopping_list}
use sdle_shopping_list.Server.Message.{ack_list}
use sdle_shopping_list.Client.{
  from_crdt, reply, on_reply, stored_or_same, with_remote, retrieve_list,
}

module _ (c : Hashing) (sql : ClientDb) (client_id : Uuid) where
  -- When the server answers with a list, a client shows one merged list and stores it where it can:
  -- it has the identifier of the local list, and stands for the local list merged once with the
  -- remote one, if both are valid.
  pub retrieve_list_lem :
      (db : sql.Db) (local remote : ShoppingList) (request_id : String)
      → read_shopping_list c sql client_id db local.id ≡ ok local
      → IsValid local.list
      → IsValid remote.list
      → (merged : ShoppingList) × (retrieve_list c sql client_id db local.id
            (reply (ack_list request_id remote))
          ≡ ok (from_crdt merged, stored_or_same c sql client_id db merged))
        × (merged.id ≡ local.id)
        × (map_view merged.list ≡ map_view (merge local.list remote.list))
  unfolding retrieve_list on_reply with_remote
  retrieve_list_lem db local remote request_id r vl vr =
      let once = merge local.list remote.list in
      (
        record local { list = merge local.list once },
        rw r refl,
        refl,
        map_view-merge local.list once (merge-IsValid local.list remote.list vl vr)
            ∙ ap (join_map (map_view local.list)) (map_view-merge local.list remote.list vr)
            ∙ sym
                (join_map_assoc (map_view local.list) (map_view local.list) (map_view remote.list))
            ∙ ap (λ f. join_map f (map_view remote.list)) (join_map_idem (map_view local.list))
            ∙ sym (map_view-merge local.list remote.list vr),
      )
