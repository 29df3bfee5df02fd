-- ===== src/Db/Node.antt =====
-- internal/controlplane/db/db.go: the nodes table of migrations/0001_nodes.sql and
-- 0009_advertised_subnets.sql, and its queries. A query sees and leaves a table; a lost connection is
-- the caller's case. The generated `id` is the number of the insertion.
pub mod Unique
pub mod Ids
pub mod Address
use rv_tx.Base.{
  ℕ, suc, ◌≡◌, refl, String, Bool, true, false, ◌||◌, Option, none, some, List, [], ◌∷◌, ◌++◌, map,
  inl, inr, arith, Option-cases, unguarded, or-eq-false, subst, if◌then◌else◌, ◌==◌,
}

pub record Node : Type 0 where
  pub id : ℕ
  pub name : String
  pub public_key : String
  pub mesh_ip : String
  pub last_endpoint : Option String
  pub last_seen : Option ℕ
  pub advertised_subnets : List String

pub record NodeTable : Type 0 where
  pub rows : List Node
  pub next_id : ℕ

-- `UsedMeshIPs`
unfoldable pub used_mesh_ips : NodeTable → List String
used_mesh_ips t = map (λ (n : Node). n.mesh_ip) t.rows

-- `ListNodes`
unfoldable pub list_nodes : NodeTable → List Node
list_nodes t = t.rows

-- The arguments of `UpsertNode`; `now` is the time of its `now()`.
pub record Upsert : Type 0 where
  pub name : String
  pub public_key : String
  pub mesh_ip : String
  pub endpoint : String
  pub advertised_subnets : List String
  pub now : ℕ

-- The `DO UPDATE` of a row.
abbrev pub refreshed : Upsert → Node → Node
refreshed u n = record n {
  public_key = u.public_key;
  last_endpoint = some u.endpoint;
  last_seen = some u.now;
  advertised_subnets = u.advertised_subnets;
}

-- The row of the name.
unfoldable pub find_node : String → List Node → Option Node
find_node name [] = none
find_node name (n ∷ rows) = if n.name == name then some n else find_node name rows

-- Another row than the name's has the key.
unfoldable pub key_taken : String → String → List Node → Bool
key_taken name key [] = false
key_taken name key (n ∷ rows) =
    let rest = key_taken name key rows in
    if n.name == name then rest else n.public_key == key || rest

unfoldable pub ip_taken : String → List Node → Bool
ip_taken ip [] = false
ip_taken ip (n ∷ rows) = n.mesh_ip == ip || ip_taken ip rows

-- The update of the row of that name.
unfoldable pub update_rows : Upsert → List Node → List Node
update_rows u [] = []
update_rows u (n ∷ rows) = (if n.name == u.name then refreshed u n else n) ∷ update_rows u rows

abbrev pub new_node : ℕ → Upsert → Node
new_node id u = record {
  id = id;
  name = u.name;
  public_key = u.public_key;
  mesh_ip = u.mesh_ip;
  last_endpoint = some u.endpoint;
  last_seen = some u.now;
  advertised_subnets = u.advertised_subnets;
}

-- `UpsertNode`: the table after it and the row's `mesh_ip`, or `none` where a unique column other
-- than the name conflicts.
unfoldable pub upsert_node : Upsert → NodeTable → Option (NodeTable × String)
upsert_node u t = elim (find_node u.name t.rows) [
  | some n ↦
      if key_taken u.name u.public_key t.rows
      then none
      else some (record t { rows = update_rows u t.rows }, n.mesh_ip)
  | none ↦
      if key_taken u.name u.public_key t.rows || ip_taken u.mesh_ip t.rows
      then none
      else some (
        record { rows = t.rows ++ new_node t.next_id u ∷ []; next_id = suc t.next_id },
        u.mesh_ip,
      )
]

-- What holds of every successful upsert: the update of a row, and the insertion of one.
pub upsert_cases {ℓ} :
    (P : NodeTable → String → Type ℓ) (u : Upsert) (t : NodeTable) {t' : NodeTable} {ip : String}
    → ((n : Node)
        → find_node u.name t.rows ≡ some n
        → key_taken u.name u.public_key t.rows ≡ false
        → P (record t { rows = update_rows u t.rows }) n.mesh_ip)
    → (find_node u.name t.rows ≡ none
        → key_taken u.name u.public_key t.rows ≡ false
        → ip_taken u.mesh_ip t.rows ≡ false
        → P
            (record { rows = t.rows ++ new_node t.next_id u ∷ []; next_id = suc t.next_id })
            u.mesh_ip)
    → upsert_node u t ≡ some (t', ip)
    → P t' ip
unfolding upsert_node
upsert_cases P u t updated inserted e = elim (Option-cases (find_node u.name t.rows)) [
  | inl missing ↦
      let (free, same) = unguarded _ (rw (missing, upsert_node) at e) in
      let (key_free, ip_free) = or-eq-false _ _ free in
      subst (λ (q : NodeTable × String). P q.0 q.1) same (inserted missing key_free ip_free)
  | inr (n, found) ↦
      let (free, same) = unguarded _ (rw (found, upsert_node) at e) in
      subst (λ (q : NodeTable × String). P q.0 q.1) same (updated n found free)
]

-- `TouchLastSeen`
unfoldable pub touch_rows : String → ℕ → List Node → List Node
touch_rows key now [] = []
touch_rows key now (n ∷ rows) =
    (if n.public_key == key then record n { last_seen = some now } else n) ∷ touch_rows key now rows

unfoldable pub touch_last_seen : String → ℕ → NodeTable → NodeTable
unfolding touch_rows
touch_last_seen key now t = record t { rows = touch_rows key now t.rows }
