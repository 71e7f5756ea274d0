-- ===== src/Storage/Client/Counts.antt =====
-- The counts of one counter in the tables: what `read_gcounter` reads of them, and what the loop that
-- replaces them leaves.
use sdle_shopping_list.Common.{
  ℕ, Uuid, String, nat_eq, string_eq, eqb_iff, ◌==◌, false, ◌&&◌, Option, none, some, List, [], ◌∷◌,
  ◌≡◌, refl, sym, ap, ◌∙◌, subst, arith, some_inj, if◌then◌else◌, Bool-cases, inl, inr,
}
use sdle_shopping_list.Common.Result.{Result, ok, >>=-eq-ok}
use sdle_shopping_list.HashMap.{HashMap, get, insert, Distinct}
use sdle_shopping_list.HashMap.Laws.{get-insert}
use sdle_shopping_list.Crdt.GCounter.{GCounter}
use sdle_shopping_list.External.{Hashing}
use sdle_shopping_list.Storage.Client.{ClientDb, read_counts, read_gcounter, write_counts}
use sdle_shopping_list.Storage.Client.Tables.{ClientTables, CountPut, HasCounts}

module _ (c : Hashing) where
  -- Two identifiers print alike only if they are one.
  pub uuid_string-inj : (u v : Uuid) → c.uuid_string u ≡ c.uuid_string v → u ≡ v
  uuid_string-inj u v e =
      some_inj (sym (c.parse_str-uuid_string u) ∙ ap c.parse_str e ∙ c.parse_str-uuid_string v)

  pub same_string : (u v : Uuid) → (c.uuid_string u == c.uuid_string v) ≡ (u == v)
  same_string u v = ground (
    arith,
    eqb_iff u v,
    string_eq.beq_iff (c.uuid_string u) (c.uuid_string v),
    uuid_string-inj u v,
    λ (e : u ≡ v). ap c.uuid_string e,
  )

module _ (c : Hashing) {sql : ClientDb} (t : ClientTables sql) (client_id : Uuid) where
  -- What replacing the counts of one counter leaves.
  pub record Replaced (db db' : sql.Db) (id : ℕ) (counter : HashMap Uuid ℕ) : Type 0 where
    pub counts :
        (u : Uuid)
        → t.count db' id (c.uuid_string u) ≡ (elim (get counter u) as (λ _. Option ℕ) [
          | none ↦ t.count db id (c.uuid_string u)
          | some v ↦ some v
        ])
    pub others : (j : ℕ) (a : String) → (id == j) ≡ false → t.count db' j a ≡ t.count db j a
    pub printed :
        ((j : ℕ) (a : String) (v : ℕ)
          → t.count db j a ≡ some v
          → (u : Uuid) × (c.uuid_string u ≡ a))
        → (j : ℕ) (a : String) (v : ℕ) → t.count db' j a ≡ some v
        → (u : Uuid) × (c.uuid_string u ≡ a)
    pub counters : (j : ℕ) → t.has_counter db' j ≡ t.has_counter db j
    pub items : (l n : String) → t.item db' l n ≡ t.item db l n
    pub locals : t.local db' ≡ t.local db

  put_printed :
      (db : sql.Db) (id : ℕ) (a : Uuid) (v : ℕ) (j : ℕ) (b : String) (w : ℕ)
      → (t.count db j b ≡ some w → (u : Uuid) × (c.uuid_string u ≡ b))
      → (if id == j && c.uuid_string a == b then some v else t.count db j b) ≡ some w
      → (u : Uuid) × (c.uuid_string u ≡ b)
  put_printed db id a v j b w p e = elim (Bool-cases (id == j && c.uuid_string a == b)) [
    | inl here ↦ (a, ground (arith, here, string_eq.beq_iff (c.uuid_string a) b))
    | inr there ↦ p (rw there at e)
  ]

  -- A statement that puts counts that have a property.
  abbrev pub Puts : (sql.Db → ℕ → String → ℕ → Result sql.Db) → (ℕ → Type 0) → Type 0
  Puts statement Q =
      (db : sql.Db) (id : ℕ) (actor : String) (v : ℕ) (db' : sql.Db)
      → Q v
      → statement db id actor v ≡ ok db'
      → CountPut t.item t.count t.has_counter t.local db id actor v db'

  pub put_counts-Replaced :
      (statement : sql.Db → ℕ → String → ℕ → Result sql.Db) (Q : ℕ → Type 0) (db db' : sql.Db)
      (id : ℕ) (counter : HashMap Uuid ℕ)
      → Puts statement Q
      → Distinct counter
      → ((u : Uuid) (v : ℕ) → get counter u ≡ some v → Q v)
      → write_counts c sql client_id statement db id counter ≡ ok db'
      → Replaced db db' id counter
  unfolding write_counts get
  put_counts-Replaced statement Q db db' id [] puts d q h =
      let same : db ≡ db' = ground (arith, h) in
      subst (λ e. Replaced db e id []) same
        (record {
          counts = λ u. refl;
          others = λ j a e. refl;
          printed = λ p. p;
          counters = λ j. refl;
          items = λ l n. refl;
          locals = refl;
        })
  put_counts-Replaced statement Q db db' id ((a, v) ∷ counter) puts d q h =
      let (db1, first, rest) = >>=-eq-ok (statement db id (c.uuid_string a) v) _ h in
      let later = λ (u : Uuid) (w : ℕ) (e : get counter u ≡ some w).
        q u w (ground (arith, e, d.0, eqb_iff a u)) in
      let after = put_counts-Replaced statement Q db1 db' id counter puts d.1 later rest in
      let (put, same_counters, same_items, same_local) =
        puts db id (c.uuid_string a) v db1 (q a v (ground (arith, eqb_iff a a))) first in
      record {
        counts = λ u. ground (
          arith,
          after.counts u,
          put id (c.uuid_string u),
          same_string c a u,
          eqb_iff id id,
          eqb_iff a u,
          d.0,
        );
        others = λ j b e. after.others j b e ∙ put j b ∙ ground (arith, e);
        printed = λ p.
            after.printed (λ j b w e. put_printed db id a v j b w (p j b w) (sym (put j b) ∙ e));
        counters = λ j. after.counters j ∙ same_counters j;
        items = λ l n. after.items l n ∙ same_items l n;
        locals = after.locals ∙ same_local;
      }

  pub write_counts-Replaced :
      (db db' : sql.Db) (id : ℕ) (counter : HashMap Uuid ℕ)
      → Distinct counter
      → write_counts c sql client_id sql.replace_count db id counter ≡ ok db'
      → Replaced db db' id counter
  write_counts-Replaced db db' id counter d h =
      put_counts-Replaced sql.replace_count (λ v. Unit) db db' id counter
        (λ d i a v d' q e. t.replace_count_lem d i a v d' e) d (λ u v e. tt) h

module _ (c : Hashing) where
  -- The actors of rows are printed identifiers.
  abbrev ArePrinted : List (String × ℕ) → Type 0
  ArePrinted rows = (a : String) (v : ℕ) → get rows a ≡ some v → (u : Uuid) × (c.uuid_string u ≡ a)

  tail-ArePrinted :
      (a : String) (v : ℕ) (rows : List (String × ℕ))
      → get rows a ≡ none
      → ArePrinted ((a, v) ∷ rows)
      → ArePrinted rows
  unfolding get
  tail-ArePrinted a v rows d p b w h = p b w (ground (arith, h, d, string_eq.beq_iff a b))

  -- Each row is one entry of the counter, and nothing else is new.
  get-read_counts :
      (sql : ClientDb) (client_id : Uuid) (counter : HashMap Uuid ℕ) (rows : List (String × ℕ))
      (read : HashMap Uuid ℕ) (u : Uuid)
      → Distinct rows
      → ArePrinted rows
      → read_counts c sql client_id counter rows ≡ ok read
      → get read u ≡ (elim (get rows (c.uuid_string u)) as (λ _. Option ℕ) [
        | none ↦ get counter u
        | some v ↦ some v
      ])
  unfolding read_counts get
  get-read_counts sql client_id counter [] read u d p h = ground (arith, h)
  get-read_counts sql client_id counter ((a, v) ∷ rows) read u (d, ds) p h =
      let (w, e) = p a v (ground (arith, string_eq.beq_iff a a)) in
      let parsed : c.parse_str a ≡ some w = ap c.parse_str (sym e) ∙ c.parse_str-uuid_string w in
      let ih =
        get-read_counts sql client_id (insert counter w v) rows read u ds
          (tail-ArePrinted a v rows d p) (rw parsed at h) in
      ground (
        arith,
        ih,
        get-insert counter w v u,
        eqb_iff w u,
        same_string c w u,
        string_eq.beq_iff a (c.uuid_string u),
        string_eq.beq_iff (c.uuid_string w) (c.uuid_string u),
        e,
        d,
      )

module _ (c : Hashing) {sql : ClientDb} (t : ClientTables sql) (client_id : Uuid) where
  pub read_gcounter-HasCounts :
      (db : sql.Db) (id : ℕ) (g : GCounter)
      → ((a : String) (v : ℕ) → t.count db id a ≡ some v → (u : Uuid) × (c.uuid_string u ≡ a))
      → read_gcounter c sql client_id db id ≡ ok g
      → HasCounts c t db id g.counter
  unfolding read_gcounter get
  read_gcounter-HasCounts db id g p h u =
      let (rows, found, h') = >>=-eq-ok (sql.select_counts db id) _ h in
      let (counter, read, e) = >>=-eq-ok (read_counts c sql client_id [] rows) _ h' in
      let (d, same) = t.select_counts_lem db id rows found in
      let got =
        get-read_counts c sql client_id [] rows counter u d (λ a v k. p a v (sym (same a) ∙ k))
          read in
      let held : counter ≡ g.counter = ground (arith, e) in
      ground (arith, got, same (c.uuid_string u), ap (λ (m : HashMap Uuid ℕ). get m u) held)
