-- ===== src/Crdt/AworMap.antt =====
-- `AWORMap` and `ShoppingList` of src/crdt.rs: the items of a list by their names.
pub mod Merge
pub mod Convergence
pub mod States
use sdle_shopping_list.Common.{
  Uuid, String, string_eq, Bool, true, false, Option, none, some, List, [], ◌∷◌, if◌then◌else◌,
}
use sdle_shopping_list.HashMap
use sdle_shopping_list.HashMap.{HashMap}
use sdle_shopping_list.Crdt.Item
use sdle_shopping_list.Crdt.Item.{Item}

pub record AworMap : Type 0 where
  pub items : HashMap String Item

pub record ShoppingList : Type 0 where
  pub id : Uuid
  pub list : AworMap

unfoldable pub new : AworMap
new = record { items = [] }

unfoldable pub is_empty : AworMap → Bool
is_empty m = elim m.items [ [] ↦ true | _ ∷ _ ↦ false ]

unfoldable pub keys : AworMap → List String
keys m = HashMap.keys m.items

unfoldable pub values : AworMap → List Item
values m = HashMap.values m.items

-- `get_mut(&name)` on a present key, then `merge` in place.
merge_entry : HashMap String Item → String → Option Item → Item → HashMap String Item
merge_entry items name none item = HashMap.insert items name item
merge_entry items name (some old) item = HashMap.insert items name (Item.merge old item)

unfoldable pub insert : AworMap → String → Item → AworMap
unfolding merge_entry
insert m name item = record { items = merge_entry m.items name (HashMap.get m.items name) item }

-- The loop of `merge` over the entries of the other map.
unfoldable pub merge_items : HashMap String Item → HashMap String Item → HashMap String Item
unfolding merge_entry
merge_items self [] = self
merge_items self ((key, other_item) ∷ other) =
    merge_items (merge_entry self key (HashMap.get self key) other_item) other

unfoldable pub merge : AworMap → AworMap → AworMap
merge self other = record { items = merge_items self.items other.items }
