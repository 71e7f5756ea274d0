-- ===== src/Storage/Client/Request.antt =====
-- What is read of an item after a storage request of ClientStorage for it.
use sdle_shopping_list.Common.{
  ℕ, ◌+◌, ◌<◌, Uuid, String, nat_eq, string_eq, Bool, some, ◌≡◌, sym, ap₂, ◌∙◌, arith, fun_ext,
}
use sdle_shopping_list.Common.Int.{pos, as_i64, sub_i64, i64_half, u32_mod}
use sdle_shopping_list.Common.Result.{ok}
use sdle_shopping_list.HashMap.{get}
use sdle_shopping_list.HashMap.Total.{total-ext}
use sdle_shopping_list.Crdt.GCounter.Value.{value_total-counts}
use sdle_shopping_list.Crdt.PnCounter
use sdle_shopping_list.Crdt.Item.{Item, as_u32}
use sdle_shopping_list.Crdt.Item.Merge.{IsValid}
use sdle_shopping_list.Crdt.AworMap.{ShoppingList}
use sdle_shopping_list.Crdt.AworMap.Merge.{Entries-get}
use sdle_shopping_list.External.{Hashing}
use sdle_shopping_list.Storage.Client.{ClientDb, handle_item_storage_request, read_shopping_list}
use sdle_shopping_list.Storage.Client.Tables.{ClientTables, IsConsistent}
use sdle_shopping_list.Storage.Client.Preparing.{Owner}
use sdle_shopping_list.Storage.Client.Quantity.{Fits}
use sdle_shopping_list.Storage.Client.Reading.{read_shopping_list-IsRead}
use sdle_shopping_list.Storage.Client.Valid.{read_shopping_list-IsValid}
use sdle_shopping_list.Storage.Client.Answering.{CanTake, handle_item_storage_request-Answered}

value_total-ext :
    (i j : Item)
    → IsValid i
    → IsValid j
    → ((u : Uuid) → get i.amount.p.counter u ≡ get j.amount.p.counter u)
    → ((u : Uuid) → get i.amount.n.counter u ≡ get j.amount.n.counter u)
    → PnCounter.value_total i.amount ≡ PnCounter.value_total j.amount
unfolding PnCounter.value_total
value_total-ext i j vi vj p n =
    ap₂ (λ (a b : ℕ). sub_i64 (as_i64 a) (as_i64 b))
      (value_total-counts i.amount.p j.amount.p vi.p vj.p (fun_ext p))
      (value_total-counts i.amount.n j.amount.n vi.n vj.n (fun_ext n))

module _ (c : Hashing) {sql : ClientDb} (t : ClientTables sql) (client_id : Uuid) where
  -- An item that has been read, and the stored one, of the same row.
  read-CanTake :
      (owner : Owner) (db : sql.Db) (id : Uuid) (local : ShoppingList) (name : String)
      (quantity : ℕ)
      → IsConsistent c t owner db
      → read_shopping_list c sql client_id db id ≡ ok local
      → ((i : Item)
          → get local.list.items name ≡ some i
          → Fits i.amount quantity × (i.acquired.clock + 1 < u32_mod))
      → CanTake c t client_id db (c.uuid_string id) name quantity
  read-CanTake owner db id local name quantity v h fits = record {
    stored = λ row i e b valid.
        let (read, _) = read_shopping_list-IsRead c t client_id owner db id local v h in
        let (j, b', got) = read.found name row e in
        let all = (read_shopping_list-IsValid c sql client_id db id local h).items in
        let valid' = Entries-get IsValid local.list.items name all got in
        let same_p =
          total-ext i.amount.p.counter j.amount.p.counter valid.p valid'.p
            (λ u. sym (b.p u) ∙ b'.p u) in
        let same_n =
          total-ext i.amount.n.counter j.amount.n.counter valid.n valid'.n
            (λ u. sym (b.n u) ∙ b'.n u) in
        let clock = sym b.clock ∙ b'.clock in let (f, k) = fits j got in (omega arith, omega arith);
  }

  -- After a storage request of a client of consistent tables has succeeded, a list that is read has
  -- the item with what was asked for.
  pub requested_read :
      (owner : Owner) (db db' : sql.Db) (id : Uuid) (name : String) (quantity : ℕ) (acquired : Bool)
      (local r : ShoppingList)
      → IsConsistent c t owner db
      → quantity < i64_half
      → read_shopping_list c sql client_id db id ≡ ok local
      → ((i : Item)
          → get local.list.items name ≡ some i
          → Fits i.amount quantity × (i.acquired.clock + 1 < u32_mod))
      → handle_item_storage_request c sql client_id db name quantity acquired id ≡ ok db'
      → read_shopping_list c sql client_id db' id ≡ ok r
      → (i : Item) × (get r.list.items name ≡ some i)
        × (PnCounter.value_total i.amount ≡ pos quantity)
        × (i.acquired.val ≡ as_u32 acquired)
  requested_read owner db db' id name quantity acquired local r v small h fits asked again =
      let a =
        handle_item_storage_request-Answered c t client_id owner db db' name quantity acquired id v
          small (read-CanTake owner db id local name quantity v h fits) asked in
      let s = a.changed.saved in
      let (read, _) =
        read_shopping_list-IsRead c t client_id a.changed.owner db' id r a.changed.consistent
          again in
      let (j, b, got) = read.found name s.row s.found in
      let all = (read_shopping_list-IsValid c sql client_id db' id r again).items in
      let valid = Entries-get IsValid r.list.items name all got in
      (
        j,
        got,
        value_total-ext j a.item valid a.valid (λ u. sym (b.p u) ∙ s.p u) (λ u. sym (b.n u) ∙ s.n u)
            ∙ a.asked.amount,
        sym b.val ∙ s.val ∙ a.asked.flag,
      )
