-- ===== src/Server/Quorum/Lists.antt =====
-- The merged answer of a read does not depend on the order in which the answers arrived.
use mathlib.Core.List.{Perm, Permᴰ}
use mathlib.Core.Logic.{∥∥₁_elim}
use sdle_shopping_list.Common.{List, [], ◌∷◌, All, ◌≡◌, refl, sym, ap, ap₂, subst, ◌∙◌}
use sdle_shopping_list.Common.Result.{ok}
use sdle_shopping_list.Crdt.AworMap.{AworMap, ShoppingList, merge}
use sdle_shopping_list.Crdt.AworMap.Merge.{IsValid}
use sdle_shopping_list.Crdt.AworMap.Convergence.{
  MapView, map_view, join_map, join_map_assoc, join_map_comm, map_view-merge, History,
  FollowsHistory,
}
use sdle_shopping_list.Server.Quorum.{QuoromState, merge_rest, merge_lists}

MapView-set : IsSet MapView
MapView-set = hlevel

-- A valid replica whose registers hold what the history wrote.
abbrev pub IsReplica : History → ShoppingList → Type 0
IsReplica history l = IsValid l.list × FollowsHistory history (map_view l.list)

join_all : MapView → List ShoppingList → MapView
join_all f [] = f
join_all f (l ∷ ls) = join_all (join_map f (map_view l.list)) ls

merge_rest-view :
    (history : History) (m : AworMap) (ls : List ShoppingList)
    → All (IsReplica history) ls
    → map_view (merge_rest m ls) ≡ join_all (map_view m) ls
unfolding merge_rest join_all
merge_rest-view history m [] h = refl
merge_rest-view history m (l ∷ ls) h =
    merge_rest-view history (merge m l.list) ls h.1
    ∙ ap (λ f. join_all f ls) (map_view-merge m l.list h.0.0)

-- Two replicas may be joined in either order.
join_map_swap :
    (history : History) (f : MapView) (k l : ShoppingList)
    → IsReplica history k
    → IsReplica history l
    → join_map (join_map f (map_view k.list)) (map_view l.list)
      ≡ join_map (join_map f (map_view l.list)) (map_view k.list)
join_map_swap history f k l hk hl =
    join_map_assoc f (map_view k.list) (map_view l.list)
    ∙ ap (join_map f) (join_map_comm history (map_view k.list) (map_view l.list) hk.1 hl.1)
    ∙ sym (join_map_assoc f (map_view l.list) (map_view k.list))

join_all-perm :
    (history : History) {xs ys : List ShoppingList}
    → Permᴰ xs ys
    → (f : MapView) → All (IsReplica history) xs
    → (join_all f xs ≡ join_all f ys) × All (IsReplica history) ys
unfolding join_all
join_all-perm history Permᴰ.nil f h = (refl, tt)
join_all-perm history (Permᴰ.cons {a = a} {l₂ = ys} e p) f h =
    let (same, kept) = join_all-perm history p (join_map f (map_view a.list)) h.1 in
    (
      same ∙ ap (λ (x : ShoppingList). join_all (join_map f (map_view x.list)) ys) e,
      (subst (IsReplica history) e h.0, kept),
    )
join_all-perm history (Permᴰ.swap {a = a} {b = b} {l = l} e e') f h = (
  ap (λ g. join_all g l)
      (join_map_swap history f a b h.0 h.1.0
        ∙ ap₂ (λ (x y : ShoppingList). join_map (join_map f (map_view x.list)) (map_view y.list)) e'
            e),
  (subst (IsReplica history) e' h.1.0, (subst (IsReplica history) e h.0, h.1.1)),
)
join_all-perm history (Permᴰ.trans p q) f h =
    let (same, kept) = join_all-perm history p f h in
    let (same', kept') = join_all-perm history q f kept in (same ∙ same', kept')

-- The merged lists of two quorums that hold the same valid answers behind the same first list, in
-- whatever order, exist and stand for the same items, if the registers of the answers follow one
-- history of writes.
pub merge_lists_order :
    (history : History) (q q' : QuoromState) (first : ShoppingList) (xs ys : List ShoppingList)
    → q.lists ≡ first ∷ xs
    → q'.lists ≡ first ∷ ys
    → Perm xs ys
    → All (IsReplica history) xs
    → (merged merged' : ShoppingList) × (merge_lists q ≡ ok merged)
      × (merge_lists q' ≡ ok merged')
      × (map_view merged.list ≡ map_view merged'.list)
unfolding merge_lists
merge_lists_order history q q' first xs ys e e' p h = (
  record first { list = merge_rest first.list xs },
  record first { list = merge_rest first.list ys },
  rw e refl,
  rw e' refl,
  ∥∥₁_elim p (MapView-set _ _) (λ d.
      let (same, kept) = join_all-perm history d (map_view first.list) h in
      merge_rest-view history first.list xs h
      ∙ same
      ∙ sym (merge_rest-view history first.list ys kept)),
)
