-- ===== src/Storage/Client/Changing.antt =====
-- What a storage request of ClientStorage leaves in the tables for its item.
use sdle_shopping_list.Common.{
  ℕ, ◌<◌, Uuid, String, nat_eq, string_eq, eqb_iff, ◌==◌, true, false, Option, none, some, ◌≡◌,
  refl, sym, ap, ◌∙◌, arith, some_inj, Bool-cases, inl, inr,
}
use sdle_shopping_list.Common.Int.{i64_half}
use sdle_shopping_list.Common.Int.Words.{as_i64_small}
use sdle_shopping_list.Common.Result.{ok, >>=-eq-ok}
use sdle_shopping_list.HashMap.{get}
use sdle_shopping_list.Crdt.Item.{Item}
use sdle_shopping_list.Crdt.Item.Merge.{IsValid}
use sdle_shopping_list.External.{Hashing}
use sdle_shopping_list.Storage.Client.{
  ClientDb, StoredItemRow, write_counts, upsert_count, overwrite_item, write_item,
}
use sdle_shopping_list.Storage.Client.Tables.{
  ClientTables, IsConsistent, IsSaved, Covers, acquired_option,
}
use sdle_shopping_list.Storage.Client.Counts.{Puts, put_counts-Replaced}
use sdle_shopping_list.Storage.Client.Preparing.{Owner, new-Prepared}
use sdle_shopping_list.Storage.Client.Writing.{apart, other_sign, filled, Prepared-Written}

-- A row that has been updated is one that was there, with the same counters.
updated_before :
    (id val clock : ℕ) (actor : String) (o : Option StoredItemRow) (row : StoredItemRow)
    → acquired_option id val clock actor o ≡ some row
    → (old : StoredItemRow) × (o ≡ some old) × (old.p_id ≡ row.p_id) × (old.n_id ≡ row.n_id)
updated_before id val clock actor none row e = absurd (ground (arith, e))
updated_before id val clock actor (some old) row e =
    let same = some_inj e in
    elim (Bool-cases (old.item_id == id)) [
      | inl this ↦ (
        old,
        refl,
        ap (λ (r : StoredItemRow). r.p_id) (rw this at same),
        ap (λ (r : StoredItemRow). r.n_id) (rw this at same),
      )
      | inr other ↦ (
        old,
        refl,
        ap (λ (r : StoredItemRow). r.p_id) (rw other at same),
        ap (λ (r : StoredItemRow). r.n_id) (rw other at same),
      )
    ]

module _ (c : Hashing) {sql : ClientDb} (t : ClientTables sql) (client_id : Uuid) where
  -- The tables hold an item, and are consistent.
  pub record Changed (db : sql.Db) (l name : String) (i : Item) : Type 0 where
    pub owner : Owner
    pub consistent : IsConsistent c t owner db
    pub saved : IsSaved c t db l name i

  -- The counts of an item are numbers that SQLite has.
  pub record IsSmall (i : Item) : Type 0 where
    pub p : (u : Uuid) (v : ℕ) → get i.amount.p.counter u ≡ some v → v < i64_half
    pub n : (u : Uuid) (v : ℕ) → get i.amount.n.counter u ≡ some v → v < i64_half

  upsert_count-Puts : Puts c t client_id (upsert_count c sql client_id) (λ v. v < i64_half)
  unfolding upsert_count
  upsert_count-Puts db id actor v db' small h =
      t.upsert_i64_lem db id actor v db' small (rw (as_i64_small v small, upsert_count) at h)

  insert_count-Puts : Puts c t client_id sql.insert_count (λ v. Unit)
  insert_count-Puts db id actor v db' q h = t.insert_count_lem db id actor v db' h

  pub overwrite_item-Changed :
      (owner : Owner) (db db' : sql.Db) (l name : String) (row : StoredItemRow) (i : Item)
      → IsConsistent c t owner db
      → t.item db l name ≡ some row
      → Covers c t db l name i
      → IsValid i
      → IsSmall i
      → overwrite_item c sql client_id db i row.item_id row.p_id row.n_id ≡ ok db'
      → Changed db' l name i
  unfolding overwrite_item
  overwrite_item-Changed owner db db' l name row i v e covers valid small h =
      let (db1, up, h1) =
        >>=-eq-ok
          (sql.update_acquired db row.item_id i.acquired.val i.acquired.clock
            (c.uuid_string i.acquired.actor))
          _ h in
      let (db2, wp, wn) =
        >>=-eq-ok
          (write_counts c sql client_id (upsert_count c sql client_id) db1 row.p_id
            i.amount.p.counter)
          _ h1 in
      let (items, counts, counters) = t.update_acquired_lem db row.item_id _ _ _ db1 up in
      let (own_p, has_p) = v.positive l name row e in
      let (own_n, has_n) = v.negative l name row e in
      let two =
        apart c t client_id owner row.p_id row.n_id (l, name, true) (l, name, false) own_p own_n
          (other_sign c t client_id l name l name true false (cc)) in
      let (within_p, within_n) = covers row e in
      let f =
        filled c t client_id db1 db2 db' row.p_id row.n_id i two
          (λ u g. counts row.p_id (c.uuid_string u) ∙ within_p u g)
          (λ u g. counts row.n_id (c.uuid_string u) ∙ within_n u g)
          (put_counts-Replaced c t client_id (upsert_count c sql client_id) (λ v. v < i64_half) db1
            db2 row.p_id i.amount.p.counter upsert_count-Puts valid.p small.p wp)
          (put_counts-Replaced c t client_id (upsert_count c sql client_id) (λ v. v < i64_half) db2
            db' row.n_id i.amount.n.counter upsert_count-Puts valid.n small.n wn) in
      let has = λ (j : ℕ). f.counters j ∙ counters j in
      let absent = λ (q j : ℕ) (hq : t.has_counter db q ≡ true) (g : t.has_counter db' j ≡ false).
        apart c t client_id (t.has_counter db) q j true false hq (sym (has j) ∙ g) (cc) in
      let before = λ (k o : String) (new : StoredItemRow) (g : t.item db' k o ≡ some new).
        updated_before row.item_id _ _ _ (t.item db k o) new
          (sym (items k o) ∙ sym (f.items k o) ∙ g) in
      record {
        owner = owner;
        consistent = record {
          positive = λ k o new g.
              let (old, was, same_p, same_n) = before k o new g in
              let (own, there) = v.positive k o old was in
              (
                ap owner (sym same_p) ∙ own,
                has new.p_id ∙ ap (t.has_counter db) (sym same_p) ∙ there,
              );
          negative = λ k o new g.
              let (old, was, same_p, same_n) = before k o new g in
              let (own, there) = v.negative k o old was in
              (
                ap owner (sym same_n) ∙ own,
                has new.n_id ∙ ap (t.has_counter db) (sym same_n) ∙ there,
              );
          unused = λ j a g.
              f.others j a (absent row.p_id j has_p g) (absent row.n_id j has_n g)
              ∙ counts j a
              ∙ v.unused j a (sym (has j) ∙ g);
          printed =
              λ j a w g. f.printed (λ j a w k. v.printed j a w (sym (counts j a) ∙ k)) j a w g;
        };
        saved = record {
          row = record row {
            acquired_val = i.acquired.val;
            acquired_clock = i.acquired.clock;
            acquired_actor = c.uuid_string i.acquired.actor;
          };
          found =
              f.items l name
              ∙ items l name
              ∙ ap (acquired_option row.item_id _ _ _) e
              ∙ ground (arith, eqb_iff row.item_id row.item_id);
          val = refl;
          clock = refl;
          actor = refl;
          p = f.counts_p;
          n = f.counts_n;
        };
      }

  pub write_item-Changed :
      (owner : Owner) (db db' : sql.Db) (l name : String) (i : Item)
      → IsConsistent c t owner db
      → IsValid i
      → write_item c sql client_id db l i name ≡ ok db'
      → Changed db' l name i
  unfolding write_item
  write_item-Changed owner db db' l name i v valid h =
      let ((p, db1), first, h1) = >>=-eq-ok (sql.insert_counter db) _ h in
      let ((n, db2), second, h2) = >>=-eq-ok (sql.insert_counter db1) _ h1 in
      let (db3, wp, h3) =
        >>=-eq-ok (write_counts c sql client_id sql.insert_count db2 p i.amount.p.counter) _ h2 in
      let (db4, wn, put) =
        >>=-eq-ok (write_counts c sql client_id sql.insert_count db3 n i.amount.n.counter) _ h3 in
      let r = new-Prepared c t client_id owner db db1 db2 l name i p n v first second in
      let two =
        apart c t client_id r.owner p n (l, name, true) (l, name, false) r.at_p.0 r.at_n.0
          (other_sign c t client_id l name l name true false (cc)) in
      let w =
        Prepared-Written c t client_id db db2 db4 db' l name i p n r
          (filled c t client_id db2 db3 db4 p n i two r.at_p.2 r.at_n.2
            (put_counts-Replaced c t client_id sql.insert_count (λ v. Unit) db2 db3 p
              i.amount.p.counter insert_count-Puts valid.p (λ u v e. tt) wp)
            (put_counts-Replaced c t client_id sql.insert_count (λ v. Unit) db3 db4 n
              i.amount.n.counter insert_count-Puts valid.n (λ u v e. tt) wn))
          (t.insert_item_lem db4 l name _ _ _ p n db' put) in
      record { owner = w.owner; consistent = w.consistent; saved = w.saved }
