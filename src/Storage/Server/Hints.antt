-- ===== src/Storage/Server/Hints.antt =====
-- What `get_hinted_handoffs` of src/storage.rs finds.
use mathlib.Core.List.{Memᴰ}
use mathlib.Core.List.Memᴰ
use sdle_shopping_list.Common.{
  ℕ, Uuid, String, nat_eq, eqb_iff, ◌==◌, true, Option, none, some, List, [], ◌∷◌, ◌≡◌, refl, sym,
  ap, ◌∙◌, subst, Bool-cases, inl, inr, arith, some_inj,
}
use sdle_shopping_list.Common.Result.{Result, ok, >>=-eq-ok, map_result}
use sdle_shopping_list.HashMap.{HashMap, get}
use sdle_shopping_list.Crdt.AworMap.{ShoppingList}
use sdle_shopping_list.External.{Platform, Row}
use sdle_shopping_list.Storage.Server.{
  key_of, hinted_rows, decode_handoff, get_hinted_handoffs, write_shopping_list_handoff,
}
use sdle_shopping_list.Storage.Server.Writes.{IsKeyed, stored_row, content-write_handoff}

get-Mem :
    {V : Type 0}
    → (rows : HashMap ℕ V) (k : ℕ) (v : V) → get rows k ≡ some v
    → (j : ℕ) × Memᴰ (j, v) rows
unfolding get
get-Mem [] k v h = absurd (ground (arith, h))
get-Mem ((j, w) ∷ rows) k v h = elim (Bool-cases (j == k)) [
  | inl same ↦ (j, Memᴰ.head (ap (λ u. (j, u)) (sym (some_inj (rw same at h)))))
  | inr other ↦ let (i, m) = get-Mem rows k v (rw other at h) in (i, Memᴰ.tail m)
]

-- Each element that decodes is decoded.
map_result-Mem :
    {A B : Type 0}
    → (f : A → Result B) (as_ : List A) (bs : List B) (a : A) (b : B) → map_result f as_ ≡ ok bs
    → f a ≡ ok b
    → Memᴰ a as_
    → Memᴰ b bs
map_result-Mem f [] bs a b e d m = absurd (Memᴰ.not-nil m)
map_result-Mem f (c ∷ as_) bs a b e d m =
    let (b', first, e') = >>=-eq-ok (f c) _ e in
    let (bs', others, e'') = >>=-eq-ok (map_result f as_) _ e' in
    let same : b' ∷ bs' ≡ bs = ground (arith, e'') in
    subst (Memᴰ b) same (elim (Memᴰ.cases_cons m) [
      | inl here ↦ Memᴰ.head (ground (arith, sym d ∙ ap f here ∙ first))
      | inr later ↦ Memᴰ.tail (map_result-Mem f as_ bs' a b others d later)
    ])

module _ (x : Platform) where
  hinted_rows-Mem :
      (rows : List (ℕ × Row x.Bytes)) (j : ℕ) (list : ShoppingList) (uuid : String)
      → Memᴰ (j, stored_row x list (some uuid)) rows
      → Memᴰ (x.to_vec list, uuid) (hinted_rows x rows)
  unfolding hinted_rows
  hinted_rows-Mem [] j list uuid m = absurd (Memᴰ.not-nil m)
  hinted_rows-Mem ((k, row) ∷ rows) j list uuid m = elim (Memᴰ.cases_cons m) [
    | inl here ↦
        subst (λ r. Memᴰ (x.to_vec list, uuid) (hinted_rows x (r ∷ rows))) here (Memᴰ.head refl)
    | inr later ↦ go row.hinted_handoff refl (hinted_rows-Mem rows j list uuid later)
  ]
    where
      go :
          (o : Option String)
          → row.hinted_handoff ≡ o
          → Memᴰ (x.to_vec list, uuid) (hinted_rows x rows)
          → Memᴰ (x.to_vec list, uuid) (hinted_rows x ((k, row) ∷ rows))
      go none e m = rw e m
      go (some u) e m = rw e (Memᴰ.tail m)

  decode-stored :
      (list : ShoppingList) (dest : Uuid)
      → decode_handoff x (x.to_vec list, x.uuid_string dest) ≡ ok (dest, list)
  unfolding decode_handoff
  decode-stored list dest = rw (x.from_slice-to_vec list, x.parse_str-uuid_string dest) refl

  -- A list that was written with a hint is found, with its hint.
  pub write_handoff-Mem :
      (db : x.Table) (list : ShoppingList) (dest : Uuid) (db' : x.Table)
      (handoffs : List (Uuid × ShoppingList))
      → IsKeyed x db
      → write_shopping_list_handoff x db list dest ≡ ok db'
      → get_hinted_handoffs x db' ≡ ok handoffs
      → Memᴰ (dest, list) handoffs
  unfolding get_hinted_handoffs
  write_handoff-Mem db list dest db' handoffs v w h =
      let (rows, read, dec) = >>=-eq-ok (x.rows db') _ h in
      let k = key_of x list.id in
      let same : (k == k) ≡ true = (eqb_iff k k).1 refl in
      let (j, m) = get-Mem rows (key_of x list.id) (stored_row x list (some (x.uuid_string dest))) (
        x.get-rows db' rows k read ∙ rw same at (content-write_handoff x db list dest db' k v w)) in
      map_result-Mem (decode_handoff x) (hinted_rows x rows) handoffs
        (x.to_vec list, x.uuid_string dest) (dest, list) dec (decode-stored list dest)
        (hinted_rows-Mem rows j list (x.uuid_string dest) m)
