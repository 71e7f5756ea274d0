-- ===== src/Server/Peer/Search.antt =====
-- The search of `get_next_available_node` for a node that takes a write over.
use sdle_shopping_list.Common.{
  ℕ, zero, suc, Uuid, nat_eq, eqb_iff, ◌==◌, true, false, Option, none, some, ◌≡◌, ◌≢◌, refl, arith,
  ap, ◌∙◌, sym, Bool-cases, inl, inr, if◌then◌else◌,
}
use sdle_shopping_list.Common.Result.{Result, ok, err}
use sdle_shopping_list.HashRing.{next_node}
use sdle_shopping_list.Server.Peer.{Peer, next_available, is_peer_available}

-- The node that the search for another node returns is available, and follows a node of the ring.
pub next_available_lem :
    {T : Type 0}
    → (fuel : ℕ) (p : Peer T) (start current node : Uuid)
    → next_available fuel p start current ≡ some (ok node)
    → (is_peer_available p node ≡ true)
      × (before : Uuid) × (next_node p.hashring before ≡ some node)
unfolding next_available
next_available_lem zero p start current node h = absurd (ground arith)
next_available_lem {T = T} (suc fuel) p start current node h =
    from (next_node p.hashring current) refl h (λ next. next_available_lem fuel p start next node)
  where
    from :
        (o : Option Uuid)
        → next_node p.hashring current ≡ o
        → elim o as (λ _. Option (Result Uuid)) [
          | none ↦ some err
          | some next ↦
              if is_peer_available p next
              then some (ok next)
              else if next == start
              then some err
              else next_available fuel p start next
        ]
          ≡ some (ok node)
        → ((next : Uuid)
            → next_available fuel p start next ≡ some (ok node)
            → (is_peer_available p node ≡ true)
              × (before : Uuid) × (next_node p.hashring before ≡ some node))
        → (is_peer_available p node ≡ true)
          × (before : Uuid) × (next_node p.hashring before ≡ some node)
    from none e k rec = absurd (ground arith)
    from (some next) e k rec = elim (Bool-cases (is_peer_available p next)) [
      | inl v ↦
          let same : next ≡ node = ground (arith, rw v at k) in
          (ap (is_peer_available p) (sym same) ∙ v, current, e ∙ ap some same)
      | inr v ↦ rec next (ground arith)
    ]

-- Where two nodes that are not available follow each other and neither is the start, the search
-- that has come to the first of them never ends, whatever its fuel.
pub next_available_never :
    {T : Type 0}
    → (fuel : ℕ) (p : Peer T) (start a b : Uuid) → next_node p.hashring a ≡ some b
    → next_node p.hashring b ≡ some a
    → is_peer_available p a ≡ false
    → is_peer_available p b ≡ false
    → a ≢ start
    → b ≢ start
    → next_available fuel p start a ≡ none
unfolding next_available
next_available_never zero p start a b ab ba va vb sa sb = refl
next_available_never (suc fuel) p start a b ab ba va vb sa sb =
    ground (arith, eqb_iff b start, next_available_never fuel p start b a ba ab vb va sb sa)
