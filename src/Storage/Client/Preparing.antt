-- ===== src/Storage/Client/Preparing.antt =====
-- The two counters of an item, found in its row or made by `write_shopping_list` of ClientStorage.
use sdle_shopping_list.Common.{
  ℕ, Uuid, String, nat_eq, string_eq, eqb_iff, ◌==◌, Bool, true, false, Option, none, some, ◌≡◌,
  refl, sym, ◌∙◌, subst, arith, if◌then◌else◌,
}
use sdle_shopping_list.Common.Result.{ok, >>=-eq-ok, ok_inj}
use sdle_shopping_list.Crdt.Item.{Item}
use sdle_shopping_list.External.{Hashing}
use sdle_shopping_list.Storage.Client.{ClientDb, StoredItemRow, counters_for}
use sdle_shopping_list.Storage.Client.Tables.{ClientTables, IsConsistent, Covers, Within}

abbrev pub Owner : Type 0
Owner = ℕ → String × String × Bool

module _ (c : Hashing) {sql : ClientDb} (t : ClientTables sql) (client_id : Uuid) where
  -- The tables, once an item has its two counters.
  pub record Prepared (db db' : sql.Db) (l name : String) (p n : ℕ) (i : Item) : Type 0 where
    pub owner : Owner
    pub consistent : IsConsistent c t owner db'
    pub items : (k o : String) → t.item db' k o ≡ t.item db k o
    pub counts : (j : ℕ) (a : String) → t.count db' j a ≡ t.count db j a
    pub locals : t.local db' ≡ t.local db
    pub at_p :
        (owner p ≡ (l, name, true))
        × (t.has_counter db' p ≡ true)
        × Within c t db' p i.amount.p.counter
    pub at_n :
        (owner n ≡ (l, name, false))
        × (t.has_counter db' n ≡ true)
        × Within c t db' n i.amount.n.counter

  abbrev with_owner : Owner → ℕ → ℕ → String → String → Owner
  with_owner owner p n l name j =
      if p == j then (l, name, true) else if n == j then (l, name, false) else owner j

  found-Prepared :
      (owner : Owner) (db : sql.Db) (l name : String) (i : Item) (row : StoredItemRow)
      → IsConsistent c t owner db
      → Covers c t db l name i
      → t.item db l name ≡ some row
      → Prepared db db l name row.p_id row.n_id i
  found-Prepared owner db l name i row v covers e = record {
    owner = owner;
    consistent = v;
    items = λ k o. refl;
    counts = λ j a. refl;
    locals = refl;
    at_p = let (o, h) = v.positive l name row e in (o, h, (covers row e).0);
    at_n = let (o, h) = v.negative l name row e in (o, h, (covers row e).1);
  }

  pub new-Prepared :
      (owner : Owner) (db db1 db2 : sql.Db) (l name : String) (i : Item) (p n : ℕ)
      → IsConsistent c t owner db
      → sql.insert_counter db ≡ ok (p, db1)
      → sql.insert_counter db1 ≡ ok (n, db2)
      → Prepared db db2 l name p n i
  new-Prepared owner db db1 db2 l name i p n v first second =
      let (new_p, has1, items1, counts1, local1) = t.insert_counter_lem db p db1 first in
      let (new_n, has2, items2, counts2, local2) = t.insert_counter_lem db1 n db2 second in
      let items = λ (k o : String). items2 k o ∙ items1 k o in
      let counts = λ (j : ℕ) (a : String). counts2 j a ∙ counts1 j a in
      record {
        owner = with_owner owner p n l name;
        consistent = record {
          positive = λ k o row e.
              let (w, h) = v.positive k o row (sym (items k o) ∙ e) in
              ground (
                arith,
                w,
                h,
                new_p,
                new_n,
                has1 row.p_id,
                has1 n,
                has2 row.p_id,
                eqb_iff p row.p_id,
                eqb_iff n row.p_id,
              );
          negative = λ k o row e.
              let (w, h) = v.negative k o row (sym (items k o) ∙ e) in
              ground (
                arith,
                w,
                h,
                new_p,
                new_n,
                has1 row.n_id,
                has1 n,
                has2 row.n_id,
                eqb_iff p row.n_id,
                eqb_iff n row.n_id,
              );
          unused = λ j a h. counts j a ∙ v.unused j a (ground (arith, h, has1 j, has2 j));
          printed = λ j a w e. v.printed j a w (sym (counts j a) ∙ e);
        };
        items = items;
        counts = counts;
        locals = local2 ∙ local1;
        at_p = (
          ground (arith, eqb_iff p p),
          ground (arith, has2 p, has1 p, eqb_iff p p),
          λ u e. counts p (c.uuid_string u) ∙ v.unused p (c.uuid_string u) new_p,
        );
        at_n = (
          ground (arith, eqb_iff n n, eqb_iff p n, has1 n, new_n),
          ground (arith, has2 n, eqb_iff n n),
          λ u e.
              counts n (c.uuid_string u)
              ∙ v.unused n (c.uuid_string u) (ground (arith, has1 n, new_n)),
        );
      }

  pub counters_for-Prepared :
      (owner : Owner) (db : sql.Db) (l name : String) (i : Item) (o : Option StoredItemRow)
      (p n : ℕ) (db' : sql.Db)
      → IsConsistent c t owner db
      → Covers c t db l name i
      → t.item db l name ≡ o
      → counters_for c sql client_id db o ≡ ok (p, n, db')
      → Prepared db db' l name p n i
  unfolding counters_for
  counters_for-Prepared owner db l name i (some row) p n db' v covers e h =
      subst (λ (r : ℕ × ℕ × sql.Db). Prepared db r.2 l name r.0 r.1 i) (ok_inj h)
        (found-Prepared owner db l name i row v covers e)
  counters_for-Prepared owner db l name i none p n db' v covers e h =
      let ((p', db1), first, h') = >>=-eq-ok (sql.insert_counter db) _ h in
      let ((n', db2), second, e') = >>=-eq-ok (sql.insert_counter db1) _ h' in
      subst (λ (r : ℕ × ℕ × sql.Db). Prepared db r.2 l name r.0 r.1 i) (ok_inj e')
        (new-Prepared owner db db1 db2 l name i p' n' v first second)
