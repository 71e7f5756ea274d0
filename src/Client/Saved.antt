-- ===== src/Client/Saved.antt =====
-- What a client has stored of a list that it has retrieved.
use sdle_shopping_list.Common.{ℕ, Uuid, String, Bool, ◌⊎◌, inl, inr, ◌≡◌, refl, sym, ap, ◌∙◌, subst}
use sdle_shopping_list.Common.Result.{Result, ok, err, ok_inj}
use sdle_shopping_list.Crdt.AworMap.{ShoppingList, merge}
use sdle_shopping_list.Crdt.AworMap.Merge.{IsValid, merge-IsValid}
use sdle_shopping_list.Crdt.AworMap.Convergence.{
  map_view, map_view-merge, join_map, join_map_idem, join_map_assoc,
}
use sdle_shopping_list.External.{Hashing}
use sdle_shopping_list.Storage.Client.{ClientDb, read_shopping_list, write_shopping_list}
use sdle_shopping_list.Storage.Client.Tables.{ClientTables, IsConsistent}
use sdle_shopping_list.Storage.Client.Reading.{IsRead, read_shopping_list-IsRead}
use sdle_shopping_list.Storage.Client.Valid.{read_shopping_list-IsValid}
use sdle_shopping_list.Storage.Client.Roundtrip.{read-write, join-CoversList}
use sdle_shopping_list.Server.Message.{ack_list}
use sdle_shopping_list.Client.{
  ShoppingListInterface, reply, on_reply, stored_or_same, with_remote, retrieve_list,
}

module _ (c : Hashing) {sql : ClientDb} (t : ClientTables sql) (client_id : Uuid) where
  -- The list that is stored: the local one, merged with its merge with the remote one.
  abbrev twice : ShoppingList → ShoppingList → ShoppingList
  twice local remote = record local { list = merge local.list (merge local.list remote.list) }

  twice_view :
      (local remote : ShoppingList)
      → IsValid local.list
      → IsValid remote.list
      → map_view (twice local remote).list ≡ join_map (map_view local.list) (map_view remote.list)
  twice_view local remote vl vr =
      map_view-merge local.list (merge local.list remote.list)
        (merge-IsValid local.list remote.list vl vr)
      ∙ ap (join_map (map_view local.list)) (map_view-merge local.list remote.list vr)
      ∙ sym (join_map_assoc (map_view local.list) (map_view local.list) (map_view remote.list))
      ∙ ap (λ f. join_map f (map_view remote.list)) (join_map_idem (map_view local.list))

  retrieved :
      (db after : sql.Db) (id : Uuid) (local remote : ShoppingList) (request_id : String)
      (shown : ShoppingListInterface)
      → read_shopping_list c sql client_id db id ≡ ok local
      → retrieve_list c sql client_id db id (reply (ack_list request_id remote)) ≡ ok (shown, after)
      → stored_or_same c sql client_id db (twice local remote) ≡ after
  unfolding retrieve_list on_reply with_remote
  retrieved db after id local remote request_id shown r h =
      ap (λ (p : ShoppingListInterface × sql.Db). p.1) (ok_inj (rw r at h))

  -- When a client of consistent tables has retrieved a list to which the server answered with a
  -- valid list, a later read of the list that succeeds stands for the join of what the client had
  -- and what the server sent, or the merged list could not be written and the database is as it
  -- was.
  pub retrieved_saved :
      (owner : ℕ → String × String × Bool) (db after : sql.Db) (id : Uuid)
      (local remote again : ShoppingList) (request_id : String) (shown : ShoppingListInterface)
      → IsConsistent c t owner db
      → IsValid remote.list
      → read_shopping_list c sql client_id db id ≡ ok local
      → retrieve_list c sql client_id db id (reply (ack_list request_id remote)) ≡ ok (shown, after)
      → read_shopping_list c sql client_id after id ≡ ok again
      → ((write_shopping_list c sql client_id db (twice local remote) ≡ err) × (after ≡ db))
        ⊎ (map_view again.list ≡ join_map (map_view local.list) (map_view remote.list))
  unfolding stored_or_same
  retrieved_saved owner db after id local remote again request_id shown v vr r h a =
      go (write_shopping_list c sql client_id db (twice local remote)) refl
    where
      stored : stored_or_same c sql client_id db (twice local remote) ≡ after
      stored = retrieved db after id local remote request_id shown r h

      go :
          (w : Result sql.Db)
          → write_shopping_list c sql client_id db (twice local remote) ≡ w
          → ((write_shopping_list c sql client_id db (twice local remote) ≡ err) × (after ≡ db))
            ⊎ (map_view again.list ≡ join_map (map_view local.list) (map_view remote.list))
      go err e = inl (e, sym (rw (e, stored_or_same) at stored))
      go (ok db') e =
          let (read, same_id) = read_shopping_list-IsRead c t client_id owner db id local v r in
          let vl = read_shopping_list-IsValid c sql client_id db id local r in
          let once = merge local.list remote.list in
          let both = merge-IsValid local.list remote.list vl vr in
          let covers =
            join-CoversList c t client_id db local (twice local remote) (map_view once)
              (subst (λ u. IsRead c t client_id db (c.uuid_string u) local.list) (sym same_id) read)
              (map_view-merge local.list once both) in
          let kept : db' ≡ after = rw (e, stored_or_same) at stored in
          let again_read : read_shopping_list c sql client_id db' local.id ≡ ok again =
            ap (λ d. read_shopping_list c sql client_id d local.id) kept
            ∙ ap (read_shopping_list c sql client_id after) same_id
            ∙ a in
          inr (
            read-write c t client_id owner db db' (twice local remote) again v
              (merge-IsValid local.list once vl both) covers e again_read
            ∙ twice_view local remote vl vr)
