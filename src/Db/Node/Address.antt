-- ===== src/Db/Node/Address.antt =====
-- The address of a name, once assigned, stays.
use rv_tx.Base.{
  ℕ, ◌≡◌, refl, ap, ◌∙◌, String, Option, none, some, List, [], ◌∷◌, ◌++◌, arith, ◌≢◌, Absent,
  Distinct, eq_iff,
}
use mathlib.Core.Option
use mathlib.Core.Option.{some-injective}
use rv_tx.Db.Node.Unique.{IsUnique, ips}
use rv_tx.Db.Node.{
  Node, NodeTable, Upsert, new_node, find_node, update_rows, upsert_node, upsert_cases, touch_rows,
  touch_last_seen,
}

-- The address in the row of the name.
abbrev pub address_of : String → NodeTable → Option String
address_of name t = Option.map (λ (n : Node). n.mesh_ip) (find_node name t.rows)

address-update :
    (name : String) (u : Upsert) (rows : List Node)
    → Option.map (λ (n : Node). n.mesh_ip) (find_node name (update_rows u rows))
      ≡ Option.map (λ (n : Node). n.mesh_ip) (find_node name rows)
unfolding find_node update_rows
address-update name u [] = refl
address-update name u (n ∷ rows) = ground (arith, address-update name u rows)

address-touch :
    (name key : String) (now : ℕ) (rows : List Node)
    → Option.map (λ (n : Node). n.mesh_ip) (find_node name (touch_rows key now rows))
      ≡ Option.map (λ (n : Node). n.mesh_ip) (find_node name rows)
unfolding find_node touch_rows
address-touch name key now [] = refl
address-touch name key now (n ∷ rows) = ground (arith, address-touch name key now rows)

address-append :
    (name : String) (rows : List Node) (m : Node) (ip : String)
    → Option.map (λ (n : Node). n.mesh_ip) (find_node name rows) ≡ some ip
    → Option.map (λ (n : Node). n.mesh_ip) (find_node name (rows ++ m ∷ [])) ≡ some ip
unfolding find_node
address-append name [] m ip e = cc
address-append name (n ∷ rows) m ip e = ground (arith, address-append name rows m ip)

find-append_new :
    (name : String) (rows : List Node) (m : Node)
    → find_node name rows ≡ none
    → m.name ≡ name
    → find_node name (rows ++ m ∷ []) ≡ some m
unfolding find_node
find-append_new name [] m e same = ground (arith, eq_iff m.name name)
find-append_new name (n ∷ rows) m e same = ground (arith, find-append_new name rows m)

-- The address that the upsert returns is the one in the table.
pub upsert-address :
    (u : Upsert) (t : NodeTable) {t' : NodeTable} {ip : String}
    → upsert_node u t ≡ some (t', ip)
    → address_of u.name t' ≡ some ip
upsert-address u t e =
    upsert_cases (λ t' ip. address_of u.name t' ≡ some ip) u t
      (λ n found _.
        address-update u.name u t.rows ∙ ap (Option.map (λ (n : Node). n.mesh_ip)) found)
      (λ missing _ _.
        ap (Option.map (λ (n : Node). n.mesh_ip))
          (find-append_new u.name t.rows (new_node t.next_id u) missing refl))
      e

-- No upsert, of that name or another, changes an address.
pub upsert-keeps_address :
    (name : String) (u : Upsert) (t : NodeTable) {t' : NodeTable} {ip ip' : String}
    → address_of name t ≡ some ip
    → upsert_node u t ≡ some (t', ip')
    → address_of name t' ≡ some ip
upsert-keeps_address name u t {ip} known e =
    upsert_cases (λ t' _. address_of name t' ≡ some ip) u t
      (λ n found _. address-update name u t.rows ∙ known)
      (λ missing _ _. address-append name t.rows (new_node t.next_id u) ip known) e

pub touch-keeps_address :
    (name key : String) (now : ℕ) (t : NodeTable)
    → address_of name (touch_last_seen key now t) ≡ address_of name t
unfolding touch_last_seen
touch-keeps_address name key now t = address-touch name key now t.rows

address-Absent :
    (name ip : String) (rows : List Node)
    → Absent ip (ips rows)
    → Option.map (λ (n : Node). n.mesh_ip) (find_node name rows) ≢ some ip
unfolding find_node
address-Absent name ip [] a e = cc
address-Absent name ip (n ∷ rows) a e =
    ground (arith, address-Absent name ip rows a.1, some-injective n.mesh_ip ip)

rows-address_inj :
    (a b ip : String) (rows : List Node)
    → Distinct (ips rows)
    → Option.map (λ (n : Node). n.mesh_ip) (find_node a rows) ≡ some ip
    → Option.map (λ (n : Node). n.mesh_ip) (find_node b rows) ≡ some ip
    → a ≡ b
unfolding find_node
rows-address_inj a b ip [] d p q = cc
rows-address_inj a b ip (n ∷ rows) d p q = ground (
  arith,
  eq_iff n.name a,
  eq_iff n.name b,
  rows-address_inj a b ip rows d.1,
  address-Absent a ip rows,
  address-Absent b ip rows,
)

-- Two names do not share an address.
pub address_inj :
    (a b ip : String) (t : NodeTable)
    → IsUnique t.rows
    → address_of a t ≡ some ip
    → address_of b t ≡ some ip
    → a ≡ b
address_inj a b ip t k = rows-address_inj a b ip t.rows k.ips_distinct
