-- ===== src/Storage/Client/Saving.antt =====
-- What `write_shopping_list` of ClientStorage leaves in the tables for a list.
use sdle_shopping_list.Common.{
  Uuid, String, string_eq, ◌==◌, true, false, ◌&&◌, none, some, [], ◌∷◌, ◌≡◌, refl, sym, ◌∙◌, subst,
  arith, Bool-cases, inl, inr, some_inj,
}
use sdle_shopping_list.Common.Result.{ok, >>=-eq-ok, ok_inj}
use sdle_shopping_list.HashMap.{HashMap, get, Distinct}
use sdle_shopping_list.Crdt.Item.{Item}
use sdle_shopping_list.Crdt.Item.Merge.{IsValid}
use sdle_shopping_list.External.{Hashing}
use sdle_shopping_list.Storage.Client.{
  ClientDb, StoredItemRow, counters_for, write_counts, write_list_item, write_items,
}
use sdle_shopping_list.Storage.Client.Tables.{ClientTables, IsConsistent, IsSaved, Covers}
use sdle_shopping_list.Storage.Client.Counts.{write_counts-Replaced}
use sdle_shopping_list.Storage.Client.Preparing.{Owner, counters_for-Prepared}
use sdle_shopping_list.Storage.Client.Writing.{Written, apart, other_sign, filled, Prepared-Written}

module _ (c : Hashing) {sql : ClientDb} (t : ClientTables sql) (client_id : Uuid) where
  write_list_item-Written :
      (owner : Owner) (db db' : sql.Db) (l name : String) (i : Item)
      → IsConsistent c t owner db
      → Covers c t db l name i
      → IsValid i
      → write_list_item c sql client_id db l name i ≡ ok db'
      → Written c t client_id db db' l name i
  unfolding write_list_item
  write_list_item-Written owner db db' l name i v covers valid h =
      let (o, found, h1) = >>=-eq-ok (sql.select_item db l name) _ h in
      let ((p, n, db1), counters, h2) = >>=-eq-ok (counters_for c sql client_id db o) _ h1 in
      let (db2, wp, h3) =
        >>=-eq-ok (write_counts c sql client_id sql.replace_count db1 p i.amount.p.counter) _ h2 in
      let (db3, wn, put) =
        >>=-eq-ok (write_counts c sql client_id sql.replace_count db2 n i.amount.n.counter) _ h3 in
      let r =
        counters_for-Prepared c t client_id owner db l name i o p n db1 v covers
          (sym (t.select_item_lem db l name o found)) counters in
      let two =
        apart c t client_id r.owner p n (l, name, true) (l, name, false) r.at_p.0 r.at_n.0
          (other_sign c t client_id l name l name true false (cc)) in
      Prepared-Written c t client_id db db1 db3 db' l name i p n r
        (filled c t client_id db1 db2 db3 p n i two r.at_p.2 r.at_n.2
          (write_counts-Replaced c t client_id db1 db2 p i.amount.p.counter valid.p wp)
          (write_counts-Replaced c t client_id db2 db3 n i.amount.n.counter valid.n wn))
        (t.upsert_item_lem db3 l name _ _ _ p n db' put)

  -- The tables hold of an item what they held.
  pub record Kept (db db' : sql.Db) (l name : String) : Type 0 where
    pub item : t.item db' l name ≡ t.item db l name
    pub counts :
        (row : StoredItemRow)
        → t.item db l name ≡ some row
        → (a : String)
        → (t.count db' row.p_id a ≡ t.count db row.p_id a)
          × (t.count db' row.n_id a ≡ t.count db row.n_id a)

  kept-IsSaved :
      (db db' : sql.Db) (l name : String) (i : Item)
      → Kept db db' l name
      → IsSaved c t db l name i
      → IsSaved c t db' l name i
  kept-IsSaved db db' l name i k s = record {
    row = s.row;
    found = k.item ∙ s.found;
    val = s.val;
    clock = s.clock;
    actor = s.actor;
    p = λ u. (k.counts s.row s.found (c.uuid_string u)).0 ∙ s.p u;
    n = λ u. (k.counts s.row s.found (c.uuid_string u)).1 ∙ s.n u;
  }

  kept-Covers :
      (db db' : sql.Db) (l name : String) (i : Item)
      → Kept db db' l name
      → Covers c t db l name i
      → Covers c t db' l name i
  kept-Covers db db' l name i k covers row e =
      let before = sym k.item ∙ e in
      let (p, n) = covers row before in
      (
        λ u g. (k.counts row before (c.uuid_string u)).0 ∙ p u g,
        λ u g. (k.counts row before (c.uuid_string u)).1 ∙ n u g,
      )

  kept_trans :
      (db db1 db2 : sql.Db) (l name : String)
      → Kept db db1 l name
      → Kept db1 db2 l name
      → Kept db db2 l name
  kept_trans db db1 db2 l name j k = record {
    item = k.item ∙ j.item;
    counts = λ row e a.
        let (p, n) = k.counts row (j.item ∙ e) a in
        let (p', n') = j.counts row e a in (p ∙ p', n ∙ n');
  }

  written_kept :
      (db db' : sql.Db) (l name : String) (i : Item) (k o : String)
      → Written c t client_id db db' l name i
      → (l == k && name == o) ≡ false
      → Kept db db' k o
  written_kept db db' l name i k o w e = record {
    item = w.items k o e;
    counts = λ row found a. w.counts k o row e found a;
  }

  -- The tables after a list has been written.
  pub record ListSaved (db db' : sql.Db) (l : String) (items : HashMap String Item) : Type 0 where
    pub owner : Owner
    pub consistent : IsConsistent c t owner db'
    pub saved : (name : String) (i : Item) → get items name ≡ some i → IsSaved c t db' l name i
    pub kept : (k o : String) → (l ≡ k → get items o ≡ none) → Kept db db' k o
    pub locals : t.local db' ≡ t.local db

  pub write_items-ListSaved :
      (owner : Owner) (db db' : sql.Db) (l : String) (items : HashMap String Item)
      → IsConsistent c t owner db
      → Distinct items
      → ((name : String) (i : Item) → get items name ≡ some i → Covers c t db l name i × IsValid i)
      → write_items c sql client_id db l items ≡ ok db'
      → ListSaved db db' l items
  unfolding write_items get
  write_items-ListSaved owner db db' l [] v d covers h =
      subst (λ e. ListSaved db e l []) (ok_inj h)
        (record {
          owner = owner;
          consistent = v;
          saved = λ name i e. absurd (ground (arith, e));
          kept = λ k o e. record { item = refl; counts = λ row e a. (refl, refl) };
          locals = refl;
        })
  write_items-ListSaved owner db db' l ((name, i) ∷ items) v (d, ds) covers h =
      let (db1, first, rest) = >>=-eq-ok (write_list_item c sql client_id db l name i) _ h in
      let (cover, valid) = covers name i (ground (arith, string_eq.beq_iff name name)) in
      let w = write_list_item-Written owner db db1 l name i v cover valid first in
      let later = λ (o : String) (j : Item) (e : get items o ≡ some j).
        covers o j (ground (arith, e, d, string_eq.beq_iff name o)) in
      let apart_name = λ (o : String) (j : Item) (e : get items o ≡ some j).
        written_kept db db1 l name i l o w (ground (arith, e, d, string_eq.beq_iff name o)) in
      let r =
        write_items-ListSaved w.owner db1 db' l items w.consistent ds
          (λ o j e. (kept-Covers db db1 l o j (apart_name o j e) (later o j e).0, (later o j e).1))
          rest in
      record {
        owner = r.owner;
        consistent = r.consistent;
        saved = λ o j e. elim (Bool-cases (name == o)) [
          | inl same ↦
              subst (λ s. IsSaved c t db' l s j) ((string_eq.beq_iff name o).0 same)
                (subst (λ q. IsSaved c t db' l name q) (some_inj (rw same at e))
                  (kept-IsSaved db1 db' l name i (r.kept l name (λ _. d)) w.saved))
          | inr other ↦ r.saved o j (rw other at e)
        ];
        kept = λ k o e.
            kept_trans db db1 db' k o (written_kept db db1 l name i k o w (elsewhere k o e))
              (r.kept k o (λ same. ground (arith, e same)));
        locals = r.locals ∙ w.locals;
      }
    where
      elsewhere :
          (k o : String)
          → (l ≡ k → get ((name, i) ∷ items) o ≡ none)
          → (l == k && name == o) ≡ false
      elsewhere k o e = elim (Bool-cases (l == k && name == o)) [
        | inl here ↦
            absurd (ground (arith, e ((string_eq.beq_iff l k).0 (ground (arith, here))), here))
        | inr there ↦ there
      ]
