-- ===== src/Storage/Client/Writing.antt =====
-- What `write_shopping_list` of ClientStorage leaves in the tables for one item.
use sdle_shopping_list.Common.{
  ℕ, Uuid, String, nat_eq, string_eq, eqb_iff, ◌==◌, Bool, true, false, ◌&&◌, Option, none, some,
  ◌≡◌, ◌≢◌, refl, sym, ap, ◌∙◌, ◌⊎◌, arith, some_inj, if◌then◌else◌, Bool-cases, inl, inr,
}
use sdle_shopping_list.HashMap.{get}
use sdle_shopping_list.Crdt.Item.{Item}
use sdle_shopping_list.External.{Hashing}
use sdle_shopping_list.Storage.Client.{ClientDb, StoredItemRow}
use sdle_shopping_list.Storage.Client.Tables.{
  ClientTables, IsConsistent, ItemPut, IsSaved, Within, HasCounts,
}
use sdle_shopping_list.Storage.Client.Preparing.{Owner, Prepared}
use sdle_shopping_list.Storage.Client.Counts.{Replaced}

module _ (c : Hashing) {sql : ClientDb} (t : ClientTables sql) (client_id : Uuid) where
  -- The tables after an item has been written: it is saved, and the others are as they were.
  pub record Written (db db' : sql.Db) (l name : String) (i : Item) : Type 0 where
    pub owner : Owner
    pub consistent : IsConsistent c t owner db'
    pub saved : IsSaved c t db' l name i
    pub items : (k o : String) → (l == k && name == o) ≡ false → t.item db' k o ≡ t.item db k o
    pub counts :
        (k o : String) (row : StoredItemRow)
        → (l == k && name == o) ≡ false
        → t.item db k o ≡ some row
        → (a : String)
        → (t.count db' row.p_id a ≡ t.count db row.p_id a)
          × (t.count db' row.n_id a ≡ t.count db row.n_id a)
    pub locals : t.local db' ≡ t.local db

  -- The counters of different items, and the two of one item, are different.
  pub apart :
      {A : Type 0}
      → (owner : ℕ → A) (p j : ℕ) (a b : A) → owner p ≡ a
      → owner j ≡ b
      → a ≢ b
      → (p == j) ≡ false
  apart owner p j a b hp hj h = elim (Bool-cases (p == j)) [
    | inl same ↦ absurd (h (sym hp ∙ ap owner ((eqb_iff p j).0 same) ∙ hj))
    | inr other ↦ other
  ]

  other_item :
      (l name k o : String) (b b' : Bool)
      → (l == k && name == o) ≡ false
      → ◌≢◌ {A = String × String × Bool} (l, name, b) (k, o, b')
  other_item l name k o b b' h e = absurd (
      ground (
        arith,
        h,
        ap (λ (a : String × String × Bool). a.0) e,
        ap (λ (a : String × String × Bool). a.1) e,
        string_eq.beq_iff l k,
        string_eq.beq_iff name o,
      ))

  pub other_sign :
      (l name k o : String) (b b' : Bool)
      → b ≢ b'
      → ◌≢◌ {A = String × String × Bool} (l, name, b) (k, o, b')
  other_sign l name k o b b' h e = h (ap (λ (a : String × String × Bool). a.2) e)

  -- The two counters of an item hold its counts.
  pub record Filled (db db' : sql.Db) (p n : ℕ) (i : Item) : Type 0 where
    pub counts_p : HasCounts c t db' p i.amount.p.counter
    pub counts_n : HasCounts c t db' n i.amount.n.counter
    pub others :
        (j : ℕ) (a : String)
        → (p == j) ≡ false
        → (n == j) ≡ false
        → t.count db' j a ≡ t.count db j a
    pub printed :
        ((j : ℕ) (a : String) (v : ℕ)
          → t.count db j a ≡ some v
          → (u : Uuid) × (c.uuid_string u ≡ a))
        → (j : ℕ) (a : String) (v : ℕ) → t.count db' j a ≡ some v
        → (u : Uuid) × (c.uuid_string u ≡ a)
    pub counters : (j : ℕ) → t.has_counter db' j ≡ t.has_counter db j
    pub items : (k o : String) → t.item db' k o ≡ t.item db k o
    pub locals : t.local db' ≡ t.local db

  -- New counts, or none where there are none before.
  covered :
      (o old now : Option ℕ)
      → now ≡ (elim o as (λ _. Option ℕ) [ none ↦ old | some v ↦ some v ])
      → (o ≡ none → old ≡ none)
      → now ≡ o
  covered none old now e h = e ∙ h refl
  covered (some v) old now e h = e

  pub filled :
      (db db1 db2 : sql.Db) (p n : ℕ) (i : Item)
      → (p == n) ≡ false
      → Within c t db p i.amount.p.counter
      → Within c t db n i.amount.n.counter
      → Replaced c t client_id db db1 p i.amount.p.counter
      → Replaced c t client_id db1 db2 n i.amount.n.counter
      → Filled db db2 p n i
  filled db db1 db2 p n i d wp wn rp rn = record {
    counts_p = λ u.
        rn.others p (c.uuid_string u) (ground (arith, d, eqb_iff p n, eqb_iff n p))
        ∙ covered (get i.amount.p.counter u) _ _ (rp.counts u) (wp u);
    counts_n = λ u.
        covered (get i.amount.n.counter u) _ _ (rn.counts u)
          (λ e. rp.others n (c.uuid_string u) d ∙ wn u e);
    others = λ j a hp hn. rn.others j a hn ∙ rp.others j a hp;
    printed = λ h. rn.printed (rp.printed h);
    counters = λ j. rn.counters j ∙ rp.counters j;
    items = λ k o. rn.items k o ∙ rp.items k o;
    locals = rn.locals ∙ rp.locals;
  }

  -- The row that an item gets.
  abbrev row_of : ℕ → String → Item → ℕ → ℕ → StoredItemRow
  row_of id name i p n = record {
    item_id = id;
    name = name;
    acquired_val = i.acquired.val;
    acquired_clock = i.acquired.clock;
    acquired_actor = c.uuid_string i.acquired.actor;
    p_id = p;
    n_id = n;
  }

  -- A row is the new one, or it was there.
  new_or_old :
      (l name k o : String) (new row : StoredItemRow) (old now : Option StoredItemRow)
      → now ≡ (if l == k && name == o then some new else old)
      → now ≡ some row
      → ((new ≡ row) × (l ≡ k) × (name ≡ o)) ⊎ (old ≡ some row)
  new_or_old l name k o new row old now put e = elim (Bool-cases (l == k && name == o)) [
    | inl same ↦ inl (
      some_inj (sym (rw same at put) ∙ e),
      ground (arith, same, string_eq.beq_iff l k),
      ground (arith, same, string_eq.beq_iff name o),
    )
    | inr other ↦ inr (sym (rw other at put) ∙ e)
  ]

  -- What the invariant says of one counter of a row, carried from the old tables to the new ones.
  carried :
      (owner : Owner) (before after : ℕ → Bool) (p j : ℕ) (l name k o : String) (b : Bool)
      → ((j : ℕ) → after j ≡ before j)
      → p ≡ j
      → l ≡ k
      → name ≡ o
      → (owner p ≡ (l, name, b)) × (before p ≡ true)
      → (owner j ≡ (k, o, b)) × (after j ≡ true)
  carried owner before after p j l name k o b same ep el en (h, has) =
      (ap owner (sym ep) ∙ h ∙ (λ x. (el x, en x, b)), same j ∙ ap before (sym ep) ∙ has)

  pub Prepared-Written :
      (db db1 db2 db3 : sql.Db) (l name : String) (i : Item) (p n : ℕ)
      → Prepared c t client_id db db1 l name p n i
      → Filled db1 db2 p n i
      → ItemPut t.item t.count t.has_counter t.local db2 l name i.acquired.val i.acquired.clock
          (c.uuid_string i.acquired.actor)
          p
          n
          db3
      → Written db db3 l name i
  Prepared-Written db db1 db2 db3 l name i p n r f h =
      let (id, put, counts, counters, local) = h in
      let old = r.consistent in
      let (own_p, has_p, _) = r.at_p in
      let (own_n, has_n, _) = r.at_n in
      let has = λ (j : ℕ). counters j ∙ f.counters j in
      let elsewhere = λ (j : ℕ) (a : String) (hp : (p == j) ≡ false) (hn : (n == j) ≡ false).
        counts j a ∙ f.others j a hp hn in
      let absent = λ (q j : ℕ) (hq : t.has_counter db1 q ≡ true) (e : t.has_counter db3 j ≡ false).
        apart (t.has_counter db1) q j true false hq (sym (has j) ∙ e) (cc) in
      let split = λ (k o : String) (row : StoredItemRow) (e : t.item db3 k o ≡ some row).
        new_or_old l name k o (row_of id name i p n) row (t.item db2 k o) (t.item db3 k o) (put k o)
          e in
      record {
        owner = r.owner;
        consistent = record {
          positive = λ k o row e. elim (split k o row e) [
            | inl (new, el, en) ↦
                carried r.owner (t.has_counter db1) (t.has_counter db3) p row.p_id l name k o true
                  has (ap (λ (w : StoredItemRow). w.p_id) new) el en (own_p, has_p)
            | inr there ↦
                carried r.owner (t.has_counter db1) (t.has_counter db3) row.p_id row.p_id k o k o
                  true has refl refl refl (old.positive k o row (sym (f.items k o) ∙ there))
          ];
          negative = λ k o row e. elim (split k o row e) [
            | inl (new, el, en) ↦
                carried r.owner (t.has_counter db1) (t.has_counter db3) n row.n_id l name k o false
                  has (ap (λ (w : StoredItemRow). w.n_id) new) el en (own_n, has_n)
            | inr there ↦
                carried r.owner (t.has_counter db1) (t.has_counter db3) row.n_id row.n_id k o k o
                  false has refl refl refl (old.negative k o row (sym (f.items k o) ∙ there))
          ];
          unused = λ j a e.
              elsewhere j a (absent p j has_p e) (absent n j has_n e)
              ∙ old.unused j a (sym (has j) ∙ e);
          printed = λ j a w e. f.printed old.printed j a w (sym (counts j a) ∙ e);
        };
        saved = record {
          row = row_of id name i p n;
          found = put l name ∙ ground (arith, string_eq.beq_iff l l, string_eq.beq_iff name name);
          val = refl;
          clock = refl;
          actor = refl;
          p = λ u. counts p (c.uuid_string u) ∙ f.counts_p u;
          n = λ u. counts n (c.uuid_string u) ∙ f.counts_n u;
        };
        items = λ k o e. put k o ∙ ground (arith, e, f.items k o, r.items k o);
        counts = λ k o row e found a.
            let there = r.items k o ∙ found in
            let (own, _) = old.positive k o row there in
            let (own', _) = old.negative k o row there in
            let far =
              λ (q j : ℕ) (b b' : Bool) (hq : r.owner q ≡ (l, name, b))
                  (hj : r.owner j ≡ (k, o, b')).
                apart r.owner q j (l, name, b) (k, o, b') hq hj (other_item l name k o b b' e) in
            (
              elsewhere row.p_id a (far p row.p_id true true own_p own)
                    (far n row.p_id false true own_n own)
                  ∙ r.counts row.p_id a,
              elsewhere row.n_id a (far p row.n_id true false own_p own')
                    (far n row.n_id false false own_n own')
                  ∙ r.counts row.n_id a,
            );
        locals = local ∙ f.locals ∙ r.locals;
      }
