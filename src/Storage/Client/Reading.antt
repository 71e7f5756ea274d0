-- ===== src/Storage/Client/Reading.antt =====
-- What `read_shopping_list` of ClientStorage reads of the tables.
use sdle_shopping_list.Common.{
  ℕ, Uuid, String, nat_eq, string_eq, ◌==◌, Bool, Option, none, some, List, [], ◌∷◌, ◌≡◌, refl, sym,
  ap, ◌∙◌, subst, arith, fun_ext, Bool-cases, inl, inr, some_inj, if◌then◌else◌,
}
use sdle_shopping_list.Common.Result.{ok, >>=-eq-ok, ok_inj, ok_or}
use sdle_shopping_list.HashMap.{get, Distinct}
use sdle_shopping_list.HashMap.Laws.{get-insert}
use sdle_shopping_list.Crdt.LwwReg
use sdle_shopping_list.Crdt.Item.{Item}
use sdle_shopping_list.Crdt.Item.Merge.{view}
use sdle_shopping_list.Crdt.AworMap
use sdle_shopping_list.Crdt.AworMap.{AworMap, ShoppingList}
use sdle_shopping_list.Crdt.AworMap.Convergence.{map_view, view_option}
use sdle_shopping_list.External.{Hashing}
use sdle_shopping_list.Storage.Client.{
  ClientDb, StoredItemRow, read_gcounter, build_item, read_rows, read_shopping_list,
}
use sdle_shopping_list.Storage.Client.Tables.{
  ClientTables, by_name, IsConsistent, IsSaved, HasCounts,
}
use sdle_shopping_list.Storage.Client.Counts.{read_gcounter-HasCounts}

get-insert_new :
    (m : AworMap) (name : String) (i : Item) (o : String)
    → get m.items name ≡ none
    → get (AworMap.insert m name i).items o ≡ (if name == o then some i else get m.items o)
unfolding AworMap.insert
get-insert_new m name i o h = rw (h, AworMap.insert) (get-insert m.items name i o)

module _ (c : Hashing) {sql : ClientDb} (t : ClientTables sql) (client_id : Uuid) where
  -- An item that is built of a row says what the row says.
  pub record IsBuilt (db : sql.Db) (row : StoredItemRow) (i : Item) : Type 0 where
    pub val : row.acquired_val ≡ i.acquired.val
    pub clock : row.acquired_clock ≡ i.acquired.clock
    pub actor : c.parse_str row.acquired_actor ≡ some i.acquired.actor
    pub p : HasCounts c t db row.p_id i.amount.p.counter
    pub n : HasCounts c t db row.n_id i.amount.n.counter

  pub build_item-IsBuilt :
      (owner : ℕ → String × String × Bool) (db : sql.Db) (row : StoredItemRow) (i : Item)
      → IsConsistent c t owner db
      → build_item c sql client_id db row ≡ ok i
      → IsBuilt db row i
  unfolding build_item LwwReg.new
  build_item-IsBuilt owner db row i v h =
      let (p, hp, h1) = >>=-eq-ok (read_gcounter c sql client_id db row.p_id) _ h in
      let (n, hn, h2) = >>=-eq-ok (read_gcounter c sql client_id db row.n_id) _ h1 in
      let (actor, ha, e) = >>=-eq-ok (ok_or (c.parse_str row.acquired_actor)) _ h2 in
      subst (IsBuilt db row) (ok_inj e) (record {
        val = refl;
        clock = refl;
        actor = parsed (c.parse_str row.acquired_actor) actor ha;
        p = read_gcounter-HasCounts c t client_id db row.p_id p (v.printed row.p_id) hp;
        n = read_gcounter-HasCounts c t client_id db row.n_id n (v.printed row.n_id) hn;
      })
    where
      parsed : (o : Option Uuid) (u : Uuid) → ok_or o ≡ ok u → o ≡ some u
      parsed none u e = absurd (ground (arith, e))
      parsed (some w) u e = ground (arith, e)

  -- Each row gives one item, and nothing else is new.
  pub record RowsRead (db : sql.Db) (m r : AworMap) (rows : List StoredItemRow) : Type 0 where
    pub others :
        (name : String) → get (by_name rows) name ≡ none → get r.items name ≡ get m.items name
    pub built :
        (name : String) (row : StoredItemRow)
        → get (by_name rows) name ≡ some row
        → (i : Item) × (build_item c sql client_id db row ≡ ok i) × (get r.items name ≡ some i)

  read_rows-RowsRead :
      (db : sql.Db) (m : AworMap) (rows : List StoredItemRow) (r : AworMap)
      → Distinct (by_name rows)
      → ((name : String) (row : StoredItemRow)
          → get (by_name rows) name ≡ some row
          → get m.items name ≡ none)
      → read_rows c sql client_id db m rows ≡ ok r
      → RowsRead db m r rows
  unfolding read_rows get
  read_rows-RowsRead db m [] r d new h = record {
    others = λ name e. ap (λ (a : AworMap). get a.items name) (sym (ok_inj h));
    built = λ name row e. absurd (ground (arith, e));
  }
  read_rows-RowsRead db m (row ∷ rows) r (d, ds) new h =
      let (i, hi, rest) = >>=-eq-ok (build_item c sql client_id db row) _ h in
      let fresh = new row.name row (ground (arith, string_eq.beq_iff row.name row.name)) in
      let put = λ (o : String). get-insert_new m row.name i o fresh in
      let after =
        read_rows-RowsRead db (AworMap.insert m row.name i) rows r ds
          (λ o w e. put o ∙ ground (arith, e, d, string_eq.beq_iff row.name o, new o w)) rest in
      record {
        others = λ o e. after.others o (ground (arith, e)) ∙ put o ∙ ground (arith, e);
        built = λ o w e. elim (Bool-cases (row.name == o)) [
          | inl same ↦ (
            i,
            subst (λ v. build_item c sql client_id db v ≡ ok i) (some_inj (rw same at e)) hi,
            after.others o (ground (arith, d, same, string_eq.beq_iff row.name o))
                ∙ put o
                ∙ ground (arith, same),
          )
          | inr other ↦ after.built o w (rw other at e)
        ];
      }

  -- A built item and a saved one, of the same row, stand for the same.
  pub built_saved :
      (db : sql.Db) (l name : String) (i j : Item) (s : IsSaved c t db l name i)
      → IsBuilt db s.row j
      → view j ≡ view i
  unfolding view
  built_saved db l name i j s b =
      let counts_p = fun_ext (λ (u : Uuid). sym (b.p u) ∙ s.p u) in
      let counts_n = fun_ext (λ (u : Uuid). sym (b.n u) ∙ s.n u) in
      let actor =
        some_inj
          (sym b.actor ∙ ap c.parse_str s.actor ∙ c.parse_str-uuid_string i.acquired.actor) in
      λ k. record {
        p = counts_p k;
        n = counts_n k;
        acquired = record {
          val = (sym b.val ∙ s.val) k;
          clock = (sym b.clock ∙ s.clock) k;
          actor = actor k;
        };
      }

  -- What a list that is read has of each name.
  pub record IsRead (db : sql.Db) (l : String) (m : AworMap) : Type 0 where
    pub absent : (name : String) → t.item db l name ≡ none → get m.items name ≡ none
    pub found :
        (name : String) (row : StoredItemRow)
        → t.item db l name ≡ some row
        → (i : Item) × IsBuilt db row i × (get m.items name ≡ some i)

  pub read_shopping_list-IsRead :
      (owner : ℕ → String × String × Bool) (db : sql.Db) (id : Uuid) (r : ShoppingList)
      → IsConsistent c t owner db
      → read_shopping_list c sql client_id db id ≡ ok r
      → IsRead db (c.uuid_string id) r.list × (r.id ≡ id)
  unfolding read_shopping_list AworMap.new get
  read_shopping_list-IsRead owner db id r v h =
      let (rows, found, h1) = >>=-eq-ok (sql.select_items db (c.uuid_string id)) _ h in
      let (list, read, e) = >>=-eq-ok (read_rows c sql client_id db AworMap.new rows) _ h1 in
      let (d, same) = t.select_items_lem db (c.uuid_string id) rows found in
      let done = read_rows-RowsRead db AworMap.new rows list d (λ o w g. refl) read in
      subst (λ (l : ShoppingList). IsRead db (c.uuid_string id) l.list × (l.id ≡ id)) (ok_inj e)
        (
          record {
            absent = λ name n. done.others name (same name ∙ n);
            found = λ name row g.
                let (i, made, got) = done.built name row (same name ∙ g) in
                (i, build_item-IsBuilt owner db row i v made, got);
          },
          refl,
        )

  name_view :
      (db : sql.Db) (l name : String) (r : AworMap) (o : Option Item)
      → IsRead db l r
      → ((i : Item) → o ≡ some i → IsSaved c t db l name i)
      → (o ≡ none → t.item db l name ≡ none)
      → view_option (get r.items name) ≡ view_option o
  name_view db l name r none read saved none_else =
      ap view_option (read.absent name (none_else refl))
  name_view db l name r (some i) read saved none_else =
      let s = saved i refl in
      let (j, built, got) = read.found name s.row s.found in
      ap view_option got ∙ ap some (built_saved db l name i j s built)

  -- What is read stands for the list whose items, and no others, are saved.
  pub read_view :
      (db : sql.Db) (l : String) (r m : AworMap)
      → IsRead db l r
      → ((name : String) (i : Item) → get m.items name ≡ some i → IsSaved c t db l name i)
      → ((name : String) → get m.items name ≡ none → t.item db l name ≡ none)
      → map_view r ≡ map_view m
  read_view db l r m read saved none_else =
      fun_ext (λ name. name_view db l name r (get m.items name) read (saved name) (none_else name))
