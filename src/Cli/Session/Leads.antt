-- ===== src/Cli/Session/Leads.antt =====
-- Which handlers come to the screen of an item.
use mathlib.Core.List.{Memᴰ}
use sdle_shopping_list.Common.{
  ℕ, zero, suc, ltb, get_elem?, Uuid, String, string_eq, ◌==◌, Bool, true, false, Option, none,
  some, List, [], ◌∷◌, ◌≡◌, refl, sym, ap, ◌∙◌, arith, if◌then◌else◌, some_inj,
}
use sdle_shopping_list.Common.Text.{parse_usize, after_a}
use sdle_shopping_list.Common.Result.{Result, ok, err}
use sdle_shopping_list.External.{Hashing}
use sdle_shopping_list.Storage.Client.{ClientDb}
use sdle_shopping_list.Client.{send_item_storage_request}
use sdle_shopping_list.Cli.{
  ItemInterface, State, list_create, list_edit, main_menu, exit, item_edit, Request, Step, go, send,
  panic, handle_newlist_edit, handle_list_edit, handle_item_edit, item_edit_amount, list_edit_other,
  select, request_for,
}
use sdle_shopping_list.Cli.Session.{Input, perform}

abbrev pub is_item : State → Bool
is_item (list_create list_id) = false
is_item (list_edit list_id) = false
is_item main_menu = false
is_item exit = false
is_item (item_edit list_id item) = true

get_elem-Mem :
    {A : Type 0} → (items : List A) (n : ℕ) (a : A) → get_elem? items n ≡ some a → Memᴰ a items
get_elem-Mem [] n a h = absurd (ground (arith, h))
get_elem-Mem (b ∷ items) zero a h = Memᴰ.head (sym (some_inj h))
get_elem-Mem (b ∷ items) (suc n) a h = Memᴰ.tail (get_elem-Mem items n a h)

select-Mem :
    {A : Type 0} → (n : ℕ) (items : List A) (a : A) → select n items ≡ some a → Memᴰ a items
unfolding select
select-Mem zero items a h = absurd (ground (arith, h))
select-Mem (suc n) items a h = get_elem-Mem items n a (ground (arith, h))

module _ (c : Hashing) (sql : ClientDb) (client_id : Uuid) (db : sql.Db) (i : Input sql.Db)
    (l : Uuid) (item : ItemInterface) (after : sql.Db) where
  -- A step that comes to the screen of the item.
  abbrev pub Leads : Step → Type 0
  Leads step = perform c sql client_id step db i ≡ ok (item_edit l item, after)

  pub not_item : (screen : State) → is_item screen ≡ false → screen ≡ item_edit l item → ⊥
  not_item screen h e = absurd (ground (arith, ap is_item e, h))

  go-Leads : (screen : State) → Leads (go screen) → screen ≡ item_edit l item
  unfolding perform
  go-Leads screen h = ground (arith, h)

  no_item : (screen : State) → is_item screen ≡ false → Leads (go screen) → ⊥
  no_item screen h e = not_item screen h (go-Leads screen e)

  send-Leads :
      (r : Request) (done failed : State)
      → is_item done ≡ false
      → is_item failed ≡ false
      → Leads (send r done failed)
      → ⊥
  unfolding perform
  send-Leads r done failed d f h =
      go
        (send_item_storage_request c sql client_id db r.item_name r.quantity r.acquired r.list_id
          i.sending)
        h
    where
      go :
          (o : Result sql.Db)
          → elim o as (λ _. Result (State × sql.Db)) [
            | err ↦ ok (failed, i.left)
            | ok after ↦ ok (done, after)
          ]
            ≡ ok (item_edit l item, after)
          → ⊥
      go err e = not_item failed f (ground (arith, e))
      go (ok next) e = not_item done d (ground (arith, e))

  if-Leads :
      {X : Type 0}
      → (b : Bool) (s t : Step) → (Leads s → X)
      → (Leads t → X)
      → Leads (if b then s else t)
      → X
  if-Leads true s t f g h = f h
  if-Leads false s t f g h = g h

  pub newlist-Leads :
      (input : String) (made : ItemInterface) (list_id : Uuid)
      → Leads (handle_newlist_edit input made list_id)
      → ⊥
  unfolding handle_newlist_edit
  newlist-Leads input made list_id = if-Leads (input == "q") _ _ (no_item exit refl) (
      if-Leads (input == "b") _ _ (no_item main_menu refl) (
        if-Leads (input == "a") _ _ (send-Leads (request_for made list_id) _ _ refl refl)
          (no_item main_menu refl)))

  amount-Leads :
      (o : Option ℕ) (edited : ItemInterface) (list_id : Uuid)
      → Leads (item_edit_amount o edited list_id)
      → ⊥
  unfolding item_edit_amount
  amount-Leads none edited list_id = no_item main_menu refl
  amount-Leads (some amount) edited list_id =
      if-Leads (ltb amount 1) _ _ (no_item (list_edit list_id) refl)
        (send-Leads _ (list_edit list_id) (list_edit list_id) refl refl)

  pub item-Leads :
      (input : String) (edited : ItemInterface) (list_id : Uuid)
      → Leads (handle_item_edit input edited list_id)
      → ⊥
  unfolding handle_item_edit
  item-Leads input edited list_id = if-Leads (input == "q") _ _ (no_item exit refl) (
      if-Leads (input == "b") _ _ (no_item (list_edit list_id) refl) (
        if-Leads (input == "d") _ _ (send-Leads _ (list_edit list_id) (list_edit list_id) refl refl)
          (typed (after_a input))))
    where
      typed :
          (o : Option String)
          → Leads (elim o as (λ _. Step) [
            | none ↦ go main_menu
            | some rest ↦ item_edit_amount (parse_usize rest) edited list_id
          ])
          → ⊥
      typed none = no_item main_menu refl
      typed (some rest) = amount-Leads (parse_usize rest) edited list_id

  -- The item is one of those of the screen.
  other-Leads :
      (other : String) (items : List ItemInterface) (list_id : Uuid)
      → Leads (list_edit_other other items list_id)
      → (list_id ≡ l) × Memᴰ item items
  unfolding list_edit_other
  other-Leads other items list_id = typed (parse_usize other)
    where
      chosen :
          (n : ℕ) (o : Option ItemInterface)
          → select n items ≡ o
          → Leads (elim o as (λ _. Step) [
            | none ↦ go main_menu
            | some chosen_item ↦ go (item_edit list_id chosen_item)
          ])
          → (list_id ≡ l) × Memᴰ item items
      chosen n none e h = absurd (no_item main_menu refl h)
      chosen n (some a) e h =
          let same : item_edit list_id a ≡ item_edit l item = go-Leads (item_edit list_id a) h in
          (ground (arith, same), select-Mem n items item (e ∙ ap some (ground (arith, same))))

      typed :
          (o : Option ℕ)
          → Leads (elim o as (λ _. Step) [
            | none ↦ go main_menu
            | some n ↦ elim (select n items) as (λ _. Step) [
              | none ↦ go main_menu
              | some chosen_item ↦ go (item_edit list_id chosen_item)
            ]
          ])
          → (list_id ≡ l) × Memᴰ item items
      typed none h = absurd (no_item main_menu refl h)
      typed (some n) h = chosen n (select n items) refl h

  pub list-Leads :
      (input : String) (items : List ItemInterface) (made : ItemInterface) (list_id : Uuid)
      → Leads (handle_list_edit input items made list_id)
      → (list_id ≡ l) × Memᴰ item items
  unfolding handle_list_edit
  list-Leads input items made list_id =
      if-Leads (input == "q") _ _ (λ h. absurd (no_item exit refl h))
        (if-Leads (input == "b") _ _ (λ h. absurd (no_item main_menu refl h))
          (if-Leads (input == "r") _ _ (λ h. absurd (no_item (list_edit list_id) refl h))
            (if-Leads (input == "a") _ _
              (λ h. absurd (send-Leads (request_for made list_id) _ _ refl refl h))
              (if-Leads (input == "d") _ _ (λ h. absurd (panicked h))
                (other-Leads input items list_id)))))
    where
      panicked : Leads panic → ⊥
      panicked h = unfold perform in absurd (ground (arith, h))
