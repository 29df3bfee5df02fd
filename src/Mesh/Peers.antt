-- ===== src/Mesh/Peers.antt =====
-- `PeerListFor` lists every other node, and not the node itself.
use mathlib.Core.List.{mem-cons, mem-cons_self, mem-cons_of_mem, not-mem-nil, Mem-prop}
use mathlib.Core.Logic.{∥∥₁_elim, ∥∥₁_map, ∥∥₁_prop}
use mathlib.Core.Logic.Or
use rv_tx.Base.{
  ◌≡◌, ◌≢◌, sym, ◌↔◌, inl, inr, String, List, [], ◌∷◌, Mem, ◌==◌, Bool-cases, eq-false_of_ne,
  ne_of_eq-false, subst,
}
use rv_tx.Protocol.{PeerInfo}
use rv_tx.Db.Node.{Node}
use rv_tx.Mesh.{peer_info, peer_list_for}

-- Some node of the list has another key and this description.
abbrev pub IsPeer : String → List Node → PeerInfo → Type 0
IsPeer key nodes p = ∥ ((n : Node) × Mem n nodes × (n.public_key ≢ key) × (p ≡ peer_info n)) ∥₁

later :
    (key : String) (m : Node) (nodes : List Node) (p : PeerInfo)
    → IsPeer key nodes p
    → IsPeer key (m ∷ nodes) p
later key m nodes p t = ∥∥₁_map t λ q. (q.0, mem-cons_of_mem m q.1, q.2, q.3)

listed :
    (key : String) (nodes : List Node) (p : PeerInfo)
    → Mem p (peer_list_for key nodes)
    → IsPeer key nodes p
unfolding peer_list_for
listed key [] p m = absurd (not-mem-nil m)
listed key (n ∷ nodes) p m = elim (Bool-cases (n.public_key == key)) [
  | inl own ↦ later key n nodes p (listed key nodes p (rw (own, peer_list_for) at m))
  | inr other ↦
      Or.elim ∥∥₁_prop (mem-cons.0 (rw (other, peer_list_for) at m))
        (λ e. ∣ (n, mem-cons_self, ne_of_eq-false _ _ other, e) ∣₁)
        (λ m'. later key n nodes p (listed key nodes p m'))
]

lists :
    (key : String) (nodes : List Node) (n : Node)
    → Mem n nodes
    → n.public_key ≢ key
    → Mem (peer_info n) (peer_list_for key nodes)
unfolding peer_list_for
lists key [] n m other = absurd (not-mem-nil m)
lists key (h ∷ nodes) n m other =
    Or.elim Mem-prop (mem-cons.0 m)
      (λ e.
        let apart : h.public_key ≢ key = subst (λ (k : Node). k.public_key ≢ key) e other in
        rw (e, eq-false_of_ne h.public_key key apart) mem-cons_self)
      (λ m'.
        let rest = lists key nodes n m' other in
        elim (Bool-cases (h.public_key == key)) [
          | inl own ↦ rw own rest
          | inr apart ↦ rw apart (mem-cons_of_mem _ rest)
        ])

-- The peer list for a key holds exactly the descriptions of the nodes with another key.
pub mem-peer_list_for :
    (key : String) (nodes : List Node) (p : PeerInfo)
    → Mem p (peer_list_for key nodes) ↔ IsPeer key nodes p
mem-peer_list_for key nodes p = (
  listed key nodes p,
  λ t.
      ∥∥₁_elim t Mem-prop
        (λ q. subst (λ k. Mem k (peer_list_for key nodes)) (sym q.3) (lists key nodes q.0 q.1 q.2)),
)
