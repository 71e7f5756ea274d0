-- ===== src/Sample.antt =====
-- Small stand-ins for the external crates, on which the examples run: identifiers print in unary, a
-- text is hashed by Horner's rule, and a table is an association list.
pub mod Tables
use Prim.Native.Char.{code}
use Prim.Native.String.{◌∷◌ as cons_char, [] as no_char}
use sdle_shopping_list.Common.{
  [], ◌∷◌, subst, ℕ, zero, suc, ◌+◌, ◌*◌, ◌%◌, Uuid, String, nat_eq, ◌==◌, Option, none, some, ◌≡◌,
  refl, ap, if◌then◌else◌, arith,
}
use sdle_shopping_list.Common.Result.{ok}
use sdle_shopping_list.HashMap.{HashMap, get, insert, remove, Distinct}
use sdle_shopping_list.HashMap.Laws.{get-insert, get-remove, remove-Distinct}
use sdle_shopping_list.Crdt.AworMap.{ShoppingList}
use sdle_shopping_list.External.{Hashing, Serde, Row, ListTable, Platform}

abbrev pub unary : ℕ → String
unary zero = ""
unary (suc n) = cons_char "u" (unary n)

abbrev pub count_chars : String → ℕ
count_chars no_char = 0
count_chars (cons_char c s) = suc (count_chars s)

abbrev pub parse : String → Option Uuid
parse s = some (count_chars s)

pub parse-unary : (n : ℕ) → parse (unary n) ≡ some n
parse-unary zero = refl
parse-unary (suc n) =
    ap (λ (o : Option ℕ). elim o as (λ _. Option ℕ) [ none ↦ none | some k ↦ some (suc k) ])
      (parse-unary n)

abbrev pub horner : String → ℕ
horner no_char = 7
horner (cons_char c s) = (horner s * 131 + code c) % 1009

abbrev pub hashing : Hashing
hashing = record {
  uuid_string = unary;
  parse_str = parse;
  parse_str-uuid_string = parse-unary;
  md5 = horner;
}

pub from_slice-to_vec : (l : ShoppingList) → some l ≡ some l
from_slice-to_vec l = refl

abbrev pub serde : Serde
serde = record {
  Bytes = ShoppingList;
  to_vec = λ l. l;
  from_slice = λ l. some l;
  from_slice-to_vec = from_slice-to_vec;
}

abbrev pub Rows : Type 0
Rows = HashMap ℕ (Row ShoppingList)

pub select_lem :
    (t : Rows) (k : ℕ) (o : Option (Row ShoppingList)) → ok (get t k) ≡ ok o → o ≡ get t k
select_lem t k o h = cc

pub content-replace :
    (t : Rows) (k : ℕ) (r : Row ShoppingList) (u : Rows) (j : ℕ)
    → ok (insert t k r) ≡ ok u
    → get u j ≡ (if k == j then some r else get t j)
content-replace t k r u j h = ground (arith, get-insert t k r j)

pub content-delete :
    (t : Rows) (k : ℕ) (u : Rows) (j : ℕ)
    → ok (remove t k) ≡ ok u
    → get u j ≡ (if k == j then none else get t j)
content-delete t k u j h = ground (arith, get-remove t k j)

-- The rows of a table, each key once.
abbrev pub rows_of : Rows → Rows
rows_of [] = []
rows_of ((k, r) ∷ t) = (k, r) ∷ remove (rows_of t) k

get-rows_of : (t : Rows) (k : ℕ) → get (rows_of t) k ≡ get t k
unfolding get
get-rows_of [] k = refl
get-rows_of ((j, r) ∷ t) k = ground (arith, get-rows_of t k, get-remove (rows_of t) j k)

rows_of-Distinct : (t : Rows) → Distinct (rows_of t)
rows_of-Distinct [] = tt
rows_of-Distinct ((k, r) ∷ t) = (
  ground (arith, get-remove (rows_of t) k k, nat_eq.beq_iff k k),
  remove-Distinct (rows_of t) k (rows_of-Distinct t),
)

pub rows-Distinct : (t : Rows) (l : Rows) → ok (rows_of t) ≡ ok l → Distinct l
rows-Distinct t l h = let e : rows_of t ≡ l = cc in subst Distinct e (rows_of-Distinct t)

pub get-rows : (t : Rows) (l : Rows) (k : ℕ) → ok (rows_of t) ≡ ok l → get l k ≡ get t k
get-rows t l k h = ground (arith, get-rows_of t k)

abbrev pub table : ListTable ShoppingList
table = record {
  Table = Rows;
  content = get;
  select = λ t k. ok (get t k);
  select_lem = select_lem;
  replace = λ t k r. ok (insert t k r);
  content-replace = content-replace;
  delete = λ t k. ok (remove t k);
  content-delete = content-delete;
  rows = λ t. ok (rows_of t);
  rows-Distinct = rows-Distinct;
  get-rows = get-rows;
}

abbrev pub platform : Platform
platform = record { hashing = hashing; serde = serde; table = table }
