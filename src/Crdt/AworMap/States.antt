-- ===== src/Crdt/AworMap/States.antt =====
-- Replicas of an `AWORMap` up to what they stand for: a join semilattice, whose join is `merge`.
use std.Quotient.{◌/◌, cls, eq/, /_set, /_elim_prop, /_elim_prop₂, /_elim_prop₃, /_rec, /_rec₂}
use std.HLevel.{→_prop}
use sdle_shopping_list.Common.{◌≡◌, ◌↔◌, sym, ap, ◌∙◌, subst}
use sdle_shopping_list.Crdt.AworMap.{AworMap, merge}
use sdle_shopping_list.Crdt.AworMap.Merge.{IsValid, merge-IsValid}
use sdle_shopping_list.Crdt.AworMap.Convergence.{
  MapView, History, FollowsHistory, map_view, join_map, map_view-merge, join_map-FollowsHistory,
  merge_converges, merge_regroups, join_map_idem,
}

module _ (history : History) where
  -- A valid map whose registers hold what the history wrote.
  pub record Replica : Type 0 where
    pub map : AworMap
    pub valid : IsValid map
    pub follows : FollowsHistory history (map_view map)

  abbrev pub StandsForSame : Replica → Replica → Type 0
  StandsForSame a b = map_view a.map ≡ map_view b.map

  abbrev pub State : Type 0
  State = Replica / StandsForSame

  abbrev pub merged : Replica → Replica → Replica
  merged a b = record {
    map = merge a.map b.map;
    valid = merge-IsValid a.map b.map a.valid b.valid;
    follows =
        subst (FollowsHistory history) (sym (map_view-merge a.map b.map b.valid))
          (join_map-FollowsHistory history (map_view a.map) (map_view b.map) a.follows b.follows);
  }

  pub merged_left :
      (a a' b : Replica) → StandsForSame a a' → StandsForSame (merged a b) (merged a' b)
  merged_left a a' b e =
      map_view-merge a.map b.map b.valid
      ∙ ap (λ f. join_map f (map_view b.map)) e
      ∙ sym (map_view-merge a'.map b.map b.valid)

  pub merged_right :
      (a b b' : Replica) → StandsForSame b b' → StandsForSame (merged a b) (merged a b')
  merged_right a b b' e =
      map_view-merge a.map b.map b.valid
      ∙ ap (join_map (map_view a.map)) e
      ∙ sym (map_view-merge a.map b'.map b'.valid)

  unfoldable pub join : State → State → State
  unfolding /_rec₂
  join =
      /_rec₂ /_set (λ a b. cls (merged a b))
        (λ a a' b e. eq/ (merged a b) (merged a' b) (merged_left a a' b e))
        (λ a b b' e. eq/ (merged a b) (merged a b') (merged_right a b b' e))

  join_assoc : (s t u : State) → join (join s t) u ≡ join s (join t u)
  unfolding join /_rec
  join_assoc =
      /_elim_prop₃ (λ s t u. join (join s t) u ≡ join s (join t u)) (λ s t u. /_set _ _)
        (λ a b c.
          eq/ (merged (merged a b) c) (merged a (merged b c))
            (merge_regroups a.map b.map c.map b.valid c.valid))

  join_comm : (s t : State) → join s t ≡ join t s
  unfolding join /_rec
  join_comm =
      /_elim_prop₂ (λ s t. join s t ≡ join t s) (λ s t. /_set _ _)
        (λ a b.
          eq/ (merged a b) (merged b a)
            (merge_converges history a.map b.map a.valid b.valid a.follows b.follows))

  join_idem : (s : State) → join s s ≡ s
  unfolding join /_rec
  join_idem =
      /_elim_prop (λ s. join s s ≡ s) (λ s. /_set _ _)
        (λ a.
          eq/ (merged a a) a (map_view-merge a.map a.map a.valid ∙ join_map_idem (map_view a.map)))

  pub MapView-IsSet : IsSet MapView
  MapView-IsSet = hlevel

  -- What a state stands for.
  unfoldable pub state_view : State → MapView
  unfolding /_rec
  state_view = /_rec MapView-IsSet (λ a. map_view a.map) (λ a b e. e)

  state_view-join : (s t : State) → state_view (join s t) ≡ join_map (state_view s) (state_view t)
  unfolding join state_view /_rec
  state_view-join =
      /_elim_prop₂ (λ s t. state_view (join s t) ≡ join_map (state_view s) (state_view t))
        (λ s t. MapView-IsSet _ _) (λ a b. map_view-merge a.map b.map b.valid)

  state_view-injective : (s t : State) → state_view s ≡ state_view t → s ≡ t
  unfolding state_view /_rec
  state_view-injective =
      /_elim_prop₂ (λ s t. state_view s ≡ state_view t → s ≡ t) (λ s t. →_prop (/_set s t))
        (λ a b e. eq/ a b e)

  -- Up to what they stand for, the valid replicas whose registers hold what one history wrote are a
  -- join semilattice under merge: it is associative, commutative and idempotent there, it joins
  -- what the replicas stand for name by name, and two of these states are equal exactly when they
  -- stand for the same.
  pub join_semilattice :
      (s t u : State)
      → (join (join s t) u ≡ join s (join t u))
        × (join s t ≡ join t s)
        × (join s s ≡ s)
        × (state_view (join s t) ≡ join_map (state_view s) (state_view t))
        × ((state_view s ≡ state_view t) ↔ (s ≡ t))
  join_semilattice s t u = (
    join_assoc s t u,
    join_comm s t,
    join_idem s,
    state_view-join s t,
    (state_view-injective s t, ap state_view),
  )
