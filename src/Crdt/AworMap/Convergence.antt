-- ===== src/Crdt/AworMap/Convergence.antt =====
-- Replicas converge: what an `AWORMap` stands for is a function from names to items, and merging
-- is the join of a semilattice on these functions.
use sdle_shopping_list.Common.{
  ℕ, Uuid, String, string_eq, nat_ord, Option, none, some, ◌≡◌, refl, ap, sym, ◌∙◌, fun_ext,
}
use sdle_shopping_list.HashMap.{get}
use sdle_shopping_list.Crdt.LwwReg.Merge.{WrittenBy, merge-WrittenBy}
use sdle_shopping_list.Crdt.Item.{Item}
use sdle_shopping_list.Crdt.Item.Merge as Item
use sdle_shopping_list.Crdt.Item.Merge.{
  ItemView, view, join_view, join_view_assoc, join_view_idem, join_view_comm, view-merge,
}
use sdle_shopping_list.Crdt.AworMap.{AworMap, merge}
use sdle_shopping_list.Crdt.AworMap.Merge.{
  IsValid, merge_option, get-merge_items, Entries-get, merge-IsValid,
}

abbrev pub MapView : Type 0
MapView = String → Option ItemView

abbrev pub view_option : Option Item → Option ItemView
view_option none = none
view_option (some i) = some (view i)

abbrev pub join_option : Option ItemView → Option ItemView → Option ItemView
join_option none o = o
join_option (some v) none = some v
join_option (some v) (some w) = some (join_view v w)

abbrev pub map_view : AworMap → MapView
map_view m k = view_option (get m.items k)

abbrev pub join_map : MapView → MapView → MapView
join_map f g k = join_option (f k) (g k)

view-merge_option :
    (x y : Option Item)
    → ((i : Item) → y ≡ some i → Item.IsValid i)
    → view_option (merge_option x y) ≡ join_option (view_option x) (view_option y)
view-merge_option none y v = refl
view-merge_option (some a) none v = refl
view-merge_option (some a) (some b) v = ap some (view-merge a b (v b refl))

-- Merging two maps joins what they stand for, name by name.
pub map_view-merge :
    (a b : AworMap) → IsValid b → map_view (merge a b) ≡ join_map (map_view a) (map_view b)
unfolding merge
map_view-merge a b v = fun_ext λ k.
    ap view_option (get-merge_items a.items b.items k v.distinct)
    ∙ view-merge_option (get a.items k) (get b.items k)
        (λ i h. Entries-get Item.IsValid b.items k v.items h)

join_option_assoc :
    (x y z : Option ItemView) → join_option (join_option x y) z ≡ join_option x (join_option y z)
join_option_assoc none y z = refl
join_option_assoc (some u) none z = refl
join_option_assoc (some u) (some v) none = refl
join_option_assoc (some u) (some v) (some w) = ap some (join_view_assoc u v w)

pub join_map_assoc : (f g h : MapView) → join_map (join_map f g) h ≡ join_map f (join_map g h)
join_map_assoc f g h = fun_ext λ k. join_option_assoc (f k) (g k) (h k)

join_option_idem : (x : Option ItemView) → join_option x x ≡ x
join_option_idem none = refl
join_option_idem (some v) = ap some (join_view_idem v)

pub join_map_idem : (f : MapView) → join_map f f ≡ f
join_map_idem f = fun_ext λ k. join_option_idem (f k)

-- Each register holds the value that its last writer wrote at its clock.
abbrev pub History : Type 0
History = String → ℕ → Uuid → ℕ

abbrev OptionWrittenBy : (ℕ → Uuid → ℕ) → Option ItemView → Type 0
OptionWrittenBy h none = Unit
OptionWrittenBy h (some v) = WrittenBy h v.acquired

abbrev pub FollowsHistory : History → MapView → Type 0
FollowsHistory history f = (k : String) → OptionWrittenBy (history k) (f k)

join_option_comm :
    (h : ℕ → Uuid → ℕ) (x y : Option ItemView)
    → OptionWrittenBy h x
    → OptionWrittenBy h y
    → join_option x y ≡ join_option y x
join_option_comm h none none hx hy = refl
join_option_comm h none (some w) hx hy = refl
join_option_comm h (some v) none hx hy = refl
join_option_comm h (some v) (some w) hx hy = ap some (join_view_comm h v w hx hy)

pub join_map_comm :
    (history : History) (f g : MapView)
    → FollowsHistory history f
    → FollowsHistory history g
    → join_map f g ≡ join_map g f
join_map_comm history f g hf hg =
    fun_ext λ k. join_option_comm (history k) (f k) (g k) (hf k) (hg k)

join_option-WrittenBy :
    (h : ℕ → Uuid → ℕ) (x y : Option ItemView)
    → OptionWrittenBy h x
    → OptionWrittenBy h y
    → OptionWrittenBy h (join_option x y)
unfolding join_view
join_option-WrittenBy h none y hx hy = hy
join_option-WrittenBy h (some v) none hx hy = hx
join_option-WrittenBy h (some v) (some w) hx hy = merge-WrittenBy h v.acquired w.acquired hx hy

pub join_map-FollowsHistory :
    (history : History) (f g : MapView)
    → FollowsHistory history f
    → FollowsHistory history g
    → FollowsHistory history (join_map f g)
join_map-FollowsHistory history f g hf hg k =
    join_option-WrittenBy (history k) (f k) (g k) (hf k) (hg k)

-- Two valid replicas that merge each other, in either direction, stand for the same items, counts
-- and flags, if their registers hold what one history of writes has written.
pub merge_converges :
    (history : History) (a b : AworMap)
    → IsValid a
    → IsValid b
    → FollowsHistory history (map_view a)
    → FollowsHistory history (map_view b)
    → map_view (merge a b) ≡ map_view (merge b a)
merge_converges history a b va vb ha hb =
    map_view-merge a b vb
    ∙ join_map_comm history (map_view a) (map_view b) ha hb
    ∙ sym (map_view-merge b a va)

-- Merging three replicas gives the same items however the merges are grouped, if the second and the
-- third are valid.
pub merge_regroups :
    (a b c : AworMap)
    → IsValid b
    → IsValid c
    → map_view (merge (merge a b) c) ≡ map_view (merge a (merge b c))
merge_regroups a b c vb vc =
    map_view-merge (merge a b) c vc
    ∙ ap (λ f. join_map f (map_view c)) (map_view-merge a b vb)
    ∙ join_map_assoc (map_view a) (map_view b) (map_view c)
    ∙ sym (ap (join_map (map_view a)) (map_view-merge b c vc))
    ∙ sym (map_view-merge a (merge b c) (merge-IsValid b c vb vc))

-- A valid state that is merged again changes nothing of what the replica stands for.
pub merge_redelivered :
    (a b : AworMap) → IsValid b → map_view (merge (merge a b) b) ≡ map_view (merge a b)
merge_redelivered a b vb =
    map_view-merge (merge a b) b vb
    ∙ ap (λ f. join_map f (map_view b)) (map_view-merge a b vb)
    ∙ join_map_assoc (map_view a) (map_view b) (map_view b)
    ∙ ap (join_map (map_view a)) (join_map_idem (map_view b))
    ∙ sym (map_view-merge a b vb)
