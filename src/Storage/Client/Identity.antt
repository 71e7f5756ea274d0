-- ===== src/Storage/Client/Identity.antt =====
-- `request_client_id` of src/storage.rs: the identifier of a client, in the row of `client_metadata`
-- whose key is `client_id`.
use sdle_shopping_list.Common.{Uuid, String, Option, none, some, ◌≡◌, refl, sym, ap, ◌∙◌, arith}
use sdle_shopping_list.Common.Result.{Result, ok, ◌>>=◌, >>=-eq-ok, ok_or}
use sdle_shopping_list.External.{Hashing}

-- The two statements on that row, each of which may fail. `value` is what the table holds there.
pub record MetadataTable (Db : Type 0) : Type 0 where
  pub value : Db → Option String
  -- SELECT value FROM client_metadata WHERE key = 'client_id'
  pub select : Db → Result (Option String)
  pub select_lem : (db : Db) (o : Option String) → select db ≡ ok o → o ≡ value db
  -- INSERT INTO client_metadata (key, value) VALUES ('client_id', ?1)
  pub insert : Db → String → Result Db
  pub value-insert : (db : Db) (s : String) (db' : Db) → insert db s ≡ ok db' → value db' ≡ some s

module _ (c : Hashing) {Db : Type 0} (sql : MetadataTable Db) where
  -- `id` is `Uuid::new_v4()`.
  unfoldable pub stored_or_new : Db → Uuid → Option String → Result (Uuid × Db)
  stored_or_new db id (some s) = do known ← ok_or (c.parse_str s); ok (known, db)
  stored_or_new db id none = do db' ← sql.insert db (c.uuid_string id); ok (id, db')

  unfoldable pub request_client_id : Db → Uuid → Result (Uuid × Db)
  unfolding stored_or_new
  request_client_id db id = sql.select db >>= stored_or_new db id

  -- The table that a request leaves has the identifier that it returned.
  kept :
      (db : Db) (id : Uuid) (o : Option String) (r : Uuid × Db)
      → sql.value db ≡ o
      → stored_or_new db id o ≡ ok r
      → (s : String) × (sql.value r.1 ≡ some s) × (c.parse_str s ≡ some r.0)
  unfolding stored_or_new
  kept db id (some s) r v h =
      let (known, p, e) = >>=-eq-ok (ok_or (c.parse_str s)) (λ known. ok (known, db)) h in
      let same : (known, db) ≡ r = ground (arith, e) in
      (
        s,
        ap (λ (r : Uuid × Db). sql.value r.1) (sym same) ∙ v,
        parsed (c.parse_str s) known p ∙ ap (λ (r : Uuid × Db). some r.0) same,
      )
    where
      parsed : (o : Option Uuid) (u : Uuid) → ok_or o ≡ ok u → o ≡ some u
      parsed none u e = absurd (ground (arith, e))
      parsed (some v) u e = ground (arith, e)
  kept db id none r v h =
      let (db', w, e) = >>=-eq-ok (sql.insert db (c.uuid_string id)) (λ db'. ok (id, db')) h in
      let same : (id, db') ≡ r = ground (arith, e) in
      (
        c.uuid_string id,
        ap (λ (r : Uuid × Db). sql.value r.1) (sym same)
            ∙ sql.value-insert db (c.uuid_string id) db' w,
        c.parse_str-uuid_string id ∙ ap (λ (r : Uuid × Db). some r.0) same,
      )

  -- Once a client has an identifier, found or made, each later request for it whose row can be read
  -- returns the same one and leaves the database as it is, whatever fresh identifier it is offered.
  pub request_client_id_lem :
      (db : Db) (id : Uuid) (r : Uuid × Db) (new_id : Uuid) (o : Option String)
      → request_client_id db id ≡ ok r
      → sql.select r.1 ≡ ok o
      → request_client_id r.1 new_id ≡ ok r
  unfolding request_client_id stored_or_new
  request_client_id_lem db id r new_id o h f =
      let (first, found, e) = >>=-eq-ok (sql.select db) (stored_or_new db id) h in
      let (s, v, p) = kept db id first r (sym (sql.select_lem db first found)) e in
      let held : o ≡ some s = sql.select_lem r.1 o f ∙ v in rw (f, held, p) refl
