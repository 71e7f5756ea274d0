-- ===== src/Server/Peer/Tables.antt =====
-- What gossip does to a server's tables, and where the replicas of a list are.
use sdle_shopping_list.Common.{
  ℕ, ◌+◌, ◌<◌, min, length, Uuid, String, nat_eq, eqb, eqb_iff, Bool, true, false, Option, none,
  some, List, [], ◌∷◌, ◌≡◌, refl, ap, ◌∙◌, sym, arith, Bool-cases, inl, inr, if◌then◌else◌,
}
use sdle_shopping_list.Common.Sets.{contains, IsNodup}
use sdle_shopping_list.Common.Result.{Result, ok, err}
use sdle_shopping_list.HashMap.{get, contains_key, insert, keys, Distinct}
use sdle_shopping_list.HashMap.Laws.{get-insert}
use sdle_shopping_list.HashRing.{
  get_preference_list, get_coordinator, server_count, get_predecessors, prev_node_hash,
}
use sdle_shopping_list.HashRing.Preference.{preference_list_servers}
use sdle_shopping_list.External.{Platform}
use sdle_shopping_list.Crdt.AworMap.{ShoppingList}
use sdle_shopping_list.Storage.Server.{get_old_data}
use sdle_shopping_list.Server.Message.{MembershipTable}
use sdle_shopping_list.Server.Peer.{Network, Peer, add_nodes, get_replicas}
use sdle_shopping_list.Server.Peer.Handlers.{
  Handled, done, failed, blocked, is_blocked, new_entries, gossip_entries, handle_gossip,
}

-- A table with entries added one after the other.
abbrev pub adopt : MembershipTable → MembershipTable → MembershipTable
adopt m [] = m
adopt m ((u, addr) ∷ entries) = adopt (insert m u addr) entries

get-new_entries :
    (m table : MembershipTable) (u : Uuid)
    → get (new_entries m table) u ≡ (if contains_key m u then none else get table u)
unfolding get new_entries
get-new_entries m [] u = ground arith
get-new_entries m ((v, addr) ∷ table) u = ground (arith, get-new_entries m table u, eqb_iff v u)

new_entries-Distinct : (m table : MembershipTable) → Distinct table → Distinct (new_entries m table)
unfolding get new_entries
new_entries-Distinct m [] d = tt
new_entries-Distinct m ((v, addr) ∷ table) d =
    ground (arith, get-new_entries m table v, new_entries-Distinct m table d.1)

get-adopt :
    (m entries : MembershipTable) (u : Uuid)
    → Distinct entries
    → get (adopt m entries) u
      ≡ elim (get entries u) as (λ _. Option String) [ none ↦ get m u | some addr ↦ some addr ]
unfolding get
get-adopt m [] u d = refl
get-adopt m ((v, addr) ∷ entries) u d =
    ground (arith, get-adopt (insert m v addr) entries u d.1, get-insert m v addr u, eqb_iff v u)

-- The address of a server once a table is taken over.
abbrev pub known_or : MembershipTable → MembershipTable → Uuid → Option String
known_or m table u = elim (get m u) [ none ↦ get table u | some addr ↦ some addr ]

pub done_inj : {T : Type 0} → {p q : Peer T} → done p ≡ done q → p ≡ q
done_inj {T = T} {p = p} h =
    ap (λ (r : Handled T). elim r as (λ _. Peer T) [ done s ↦ s | failed s ↦ p | blocked s ↦ p ]) h

module _ (x : Platform) (net : Network) where
  rest_done :
      (p : Peer x.Table) (u : Uuid) (addr : String) (q : Peer x.Table) (is_predecessor : Bool)
      (prev : Option ℕ) (old : ℕ → Result (List ShoppingList)) (rest : Handled x.Table)
      → (if is_predecessor
          then elim prev as (λ _. Handled x.Table) [
            | none ↦ rest
            | some h ↦ elim (old h) as (λ _. Handled x.Table) [
              | err ↦ failed (record p { membership = insert p.membership u addr })
              | ok lists ↦ elim lists as (λ _. Handled x.Table) [
                | [] ↦ rest
                | _ ∷ _ ↦ blocked (record p { membership = insert p.membership u addr })
              ]
            ]
          ]
          else rest)
        ≡ done q
      → rest ≡ done q
  rest_done p u addr q is_predecessor prev old rest h = ground arith

  pub gossip_entries_done :
      (p q : Peer x.Table) (predecessors : List Uuid) (entries : MembershipTable)
      → gossip_entries x net p predecessors entries ≡ done q
      → q ≡ record p { membership = adopt p.membership entries }
  unfolding gossip_entries
  gossip_entries_done p q predecessors [] h = sym (done_inj h)
  gossip_entries_done p q predecessors ((u, addr) ∷ entries) h =
      let known = record p { membership = insert p.membership u addr } in
      gossip_entries_done known q predecessors entries (
        rest_done p u addr q (contains predecessors u) (prev_node_hash p.hashring p.uuid)
          (λ h. get_old_data x p.storage p.uuid h) (gossip_entries x net known predecessors entries)
          h)

  pub known_or_lem :
      (m table : MembershipTable) (u : Uuid)
      → Distinct table
      → get (adopt m (new_entries m table)) u ≡ known_or m table u
  unfolding contains_key
  known_or_lem m table u d = ground (
    arith,
    get-adopt m (new_entries m table) u (new_entries-Distinct m table d),
    get-new_entries m table u,
  )

  -- When the handler of a gossip whose table has no key twice returns without an error, each server
  -- that was unknown has the address of that table, a server that was known keeps its address, the
  -- ring has gained the servers of the table, and the storage, the requests in flight and the
  -- messages are as before: nothing is sent.
  pub handle_gossip_members :
      (p q : Peer x.Table) (table : MembershipTable)
      → Distinct table
      → handle_gossip x net p table ≡ done q
      → ((u : Uuid) → get q.membership u ≡ known_or p.membership table u)
        × (q.hashring ≡ add_nodes x p.hashring (keys table))
        × (q.storage ≡ p.storage)
        × (q.in_flight ≡ p.in_flight)
        × (q.sent ≡ p.sent)
  unfolding handle_gossip
  handle_gossip_members p q table d h =
      let grown = record p { hashring = add_nodes x p.hashring (keys table) } in
      let e =
        gossip_entries_done grown q (get_predecessors grown.hashring p.uuid)
          (new_entries p.membership table) h in
      (
        λ u. ap (λ (r : Peer x.Table). get r.membership u) e ∙ known_or_lem p.membership table u d,
        ap (λ (r : Peer x.Table). r.hashring) e,
        ap (λ (r : Peer x.Table). r.storage) e,
        ap (λ (r : Peer x.Table). r.in_flight) e,
        ap (λ (r : Peer x.Table). r.sent) e,
      )

  gossip_entries_blocked :
      (p : Peer x.Table) (predecessors : List Uuid) (entries : MembershipTable) (u : Uuid) (h : ℕ)
      (list : ShoppingList) (lists : List ShoppingList)
      → contains_key entries u ≡ true
      → contains predecessors u ≡ true
      → prev_node_hash p.hashring p.uuid ≡ some h
      → get_old_data x p.storage p.uuid h ≡ ok (list ∷ lists)
      → is_blocked (gossip_entries x net p predecessors entries) ≡ true
  unfolding gossip_entries contains_key get
  gossip_entries_blocked p predecessors [] u h list lists c m a o = absurd (ground arith)
  gossip_entries_blocked p predecessors ((v, addr) ∷ entries) u h list lists c m a o =
      let rest =
        gossip_entries_blocked (record p { membership = insert p.membership v addr }) predecessors
          entries u h list lists in
      elim (Bool-cases (eqb v u)) [
        | inl e ↦ ground (arith, ap (contains predecessors) ((eqb_iff v u).0 e))
        | inr e ↦ ground (arith, rest (ground arith) m a o)
      ]

  -- A gossip that brings an unknown server that is then a predecessor on the ring, while the query
  -- for old data finds a list to hand over, leaves the handler blocked: it would lock again the
  -- membership table that it holds.
  pub handle_gossip_blocked :
      (p : Peer x.Table) (table : MembershipTable) (u : Uuid) (h : ℕ) (list : ShoppingList)
      (lists : List ShoppingList)
      → contains_key p.membership u ≡ false
      → contains_key table u ≡ true
      → contains (get_predecessors (add_nodes x p.hashring (keys table)) p.uuid) u ≡ true
      → prev_node_hash (add_nodes x p.hashring (keys table)) p.uuid ≡ some h
      → get_old_data x p.storage p.uuid h ≡ ok (list ∷ lists)
      → is_blocked (handle_gossip x net p table) ≡ true
  unfolding handle_gossip contains_key
  handle_gossip_blocked p table u h list lists new c m a o =
      let grown = record p { hashring = add_nodes x p.hashring (keys table) } in
      gossip_entries_blocked grown (get_predecessors grown.hashring p.uuid)
        (new_entries p.membership table) u h list lists
        (ground (arith, get-new_entries p.membership table u)) m a o

  -- With at least one replica on the ring, the replicas of a list that has a coordinator do not
  -- include it, name no server twice, and are one fewer than the replicas or, if that is less, the
  -- servers.
  pub get_replicas_lem :
      (p : Peer x.Table) (list_id coordinator : Uuid)
      → 0 < p.hashring.replicas
      → get_coordinator x.hashing p.hashring list_id ≡ some coordinator
      → (contains (get_replicas x p list_id) coordinator ≡ false)
        × IsNodup (get_replicas x p list_id)
        × (length (get_replicas x p list_id) + 1
            ≡ min p.hashring.replicas (server_count p.hashring))
  unfolding get_replicas get_coordinator
  get_replicas_lem p list_id coordinator h c =
      let (nodup, count, _) = preference_list_servers x.hashing p.hashring list_id h in
      tail_lem (get_preference_list x.hashing p.hashring list_id) c nodup count
    where
      tail_lem :
          (l : List Uuid)
          → elim l as (λ _. Option Uuid) [ [] ↦ none | id ∷ _ ↦ some id ] ≡ some coordinator
          → IsNodup l
          → length l ≡ min p.hashring.replicas (server_count p.hashring)
          → (contains (elim l as (λ _. List Uuid) [ [] ↦ [] | _ ∷ rs ↦ rs ]) coordinator ≡ false)
            × IsNodup (elim l as (λ _. List Uuid) [ [] ↦ [] | _ ∷ rs ↦ rs ])
            × (length (elim l as (λ _. List Uuid) [ [] ↦ [] | _ ∷ rs ↦ rs ]) + 1
                ≡ min p.hashring.replicas (server_count p.hashring))
      tail_lem [] c n k = absurd (ground arith)
      tail_lem (a ∷ l) c n k = (ground arith, n.1, omega arith)
