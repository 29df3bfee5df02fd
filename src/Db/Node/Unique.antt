-- ===== src/Db/Node/Unique.antt =====
-- The unique columns of the nodes table: what the queries refuse, and what they keep.
use rv_tx.Base.{
  ℕ, ◌≡◌, ◌≢◌, refl, subst, inl, inr, String, false, none, some, List, [], ◌∷◌, ◌++◌, map, arith,
  All, All-append, Absent, Distinct, Distinct-append, ◌==◌, eq_iff, Bool-cases,
}
use mathlib.Core.List.{map-append}
use mathlib.Core.Option.{some-injective}
use rv_tx.Db.Node.{
  Node, NodeTable, Upsert, new_node, find_node, key_taken, ip_taken, update_rows, upsert_node,
  touch_rows, touch_last_seen, upsert_cases,
}

abbrev pub names : List Node → List String
names = map (λ (n : Node). n.name)

abbrev pub keys : List Node → List String
keys = map (λ (n : Node). n.public_key)

abbrev pub ips : List Node → List String
ips = map (λ (n : Node). n.mesh_ip)

-- `name`, `public_key` and `mesh_ip` are unique.
pub record IsUnique (rows : List Node) : Type 0 where
  pub names_distinct : Distinct (names rows)
  pub keys_distinct : Distinct (keys rows)
  pub ips_distinct : Distinct (ips rows)

find_node-none :
    (name : String) (rows : List Node) → find_node name rows ≡ none → Absent name (names rows)
unfolding find_node
find_node-none name [] e = tt
find_node-none name (n ∷ rows) e = ground (arith, eq_iff n.name name, find_node-none name rows)

key_taken-Absent :
    (name key : String) (rows : List Node)
    → Absent name (names rows)
    → key_taken name key rows ≡ false
    → Absent key (keys rows)
unfolding key_taken
key_taken-Absent name key [] a e = tt
key_taken-Absent name key (n ∷ rows) a e =
    ground (arith, eq_iff n.name name, eq_iff n.public_key key, key_taken-Absent name key rows a.1)

ip_taken-Absent : (ip : String) (rows : List Node) → ip_taken ip rows ≡ false → Absent ip (ips rows)
unfolding ip_taken
ip_taken-Absent ip [] e = tt
ip_taken-Absent ip (n ∷ rows) e = ground (arith, eq_iff n.mesh_ip ip, ip_taken-Absent ip rows)

names-update : (u : Upsert) (rows : List Node) → names (update_rows u rows) ≡ names rows
unfolding update_rows
names-update u [] = refl
names-update u (n ∷ rows) = ground (arith, names-update u rows)

ips-update : (u : Upsert) (rows : List Node) → ips (update_rows u rows) ≡ ips rows
unfolding update_rows
ips-update u [] = refl
ips-update u (n ∷ rows) = ground (arith, ips-update u rows)

-- The update reaches no row when none has the name.
update-Absent :
    (u : Upsert) (rows : List Node) → Absent u.name (names rows) → update_rows u rows ≡ rows
unfolding update_rows
update-Absent u [] a = refl
update-Absent u (n ∷ rows) a = ground (arith, eq_iff n.name u.name, update-Absent u rows a.1)

Absent-keys-update :
    (key : String) (u : Upsert) (rows : List Node)
    → u.public_key ≢ key
    → Absent key (keys rows)
    → Absent key (keys (update_rows u rows))
unfolding update_rows
Absent-keys-update key u [] d a = tt
Absent-keys-update key u (n ∷ rows) d a = ground (arith, Absent-keys-update key u rows d a.1)

keys-update :
    (u : Upsert) (rows : List Node)
    → Distinct (names rows)
    → Distinct (keys rows)
    → key_taken u.name u.public_key rows ≡ false
    → Distinct (keys (update_rows u rows))
unfolding update_rows key_taken
keys-update u [] ns ks e = tt
keys-update u (n ∷ rows) ns ks e = elim (Bool-cases (n.name == u.name)) [
  | inl same ↦
      let absent : Absent u.name (names rows) =
        subst (λ a. Absent a (names rows)) ((eq_iff _ _).0 same) ns.0 in
      rw (same, update-Absent u rows absent)
        (key_taken-Absent u.name u.public_key rows absent (ground arith), ks.1)
  | inr other ↦ rw other (
    Absent-keys-update n.public_key u rows (ground (arith, eq_iff n.public_key u.public_key)) ks.0,
    keys-update u rows ns.1 ks.1 (ground arith),
  )
]

keys-touch :
    (key : String) (now : ℕ) (rows : List Node) → keys (touch_rows key now rows) ≡ keys rows
unfolding touch_rows
keys-touch key now [] = refl
keys-touch key now (n ∷ rows) = ground (arith, keys-touch key now rows)

names-touch :
    (key : String) (now : ℕ) (rows : List Node) → names (touch_rows key now rows) ≡ names rows
unfolding touch_rows
names-touch key now [] = refl
names-touch key now (n ∷ rows) = ground (arith, names-touch key now rows)

ips-touch : (key : String) (now : ℕ) (rows : List Node) → ips (touch_rows key now rows) ≡ ips rows
unfolding touch_rows
ips-touch key now [] = refl
ips-touch key now (n ∷ rows) = ground (arith, ips-touch key now rows)

module _ (u : Upsert) (t : NodeTable) (k : IsUnique t.rows) where
  updated-IsUnique : key_taken u.name u.public_key t.rows ≡ false → IsUnique (update_rows u t.rows)
  updated-IsUnique e = record {
    names_distinct = rw (names-update u t.rows) k.names_distinct;
    keys_distinct = keys-update u t.rows k.names_distinct k.keys_distinct e;
    ips_distinct = rw (ips-update u t.rows) k.ips_distinct;
  }

  inserted-IsUnique :
      find_node u.name t.rows ≡ none
      → key_taken u.name u.public_key t.rows ≡ false
      → ip_taken u.mesh_ip t.rows ≡ false
      → IsUnique (t.rows ++ new_node t.next_id u ∷ [])
  inserted-IsUnique missing key_free ip_free =
      let absent = find_node-none u.name t.rows missing in
      record {
        names_distinct =
            rw (map-append _ t.rows _)
              (Distinct-append (names t.rows) u.name k.names_distinct absent);
        keys_distinct = rw (map-append _ t.rows _) (
            Distinct-append (keys t.rows) u.public_key k.keys_distinct
              (key_taken-Absent u.name u.public_key t.rows absent key_free));
        ips_distinct = rw (map-append _ t.rows _) (
            Distinct-append (ips t.rows) u.mesh_ip k.ips_distinct
              (ip_taken-Absent u.mesh_ip t.rows ip_free));
      }

pub upserted-IsUnique :
    (u : Upsert) (t : NodeTable) {t' : NodeTable} {ip : String}
    → IsUnique t.rows
    → upsert_node u t ≡ some (t', ip)
    → IsUnique t'.rows
upserted-IsUnique u t k e =
    upsert_cases (λ q _. IsUnique q.rows) u t (λ n _ free. updated-IsUnique u t k free)
      (λ missing key_free ip_free. inserted-IsUnique u t k missing key_free ip_free) e

-- Names, keys and addresses stay distinct.
pub touched-IsUnique :
    (key : String) (now : ℕ) (t : NodeTable)
    → IsUnique t.rows
    → IsUnique (touch_last_seen key now t).rows
unfolding touch_last_seen
touched-IsUnique key now t k = record {
  names_distinct = rw (names-touch key now t.rows) k.names_distinct;
  keys_distinct = rw (keys-touch key now t.rows) k.keys_distinct;
  ips_distinct = rw (ips-touch key now t.rows) k.ips_distinct;
}

-- What holds of all addresses and of the candidate holds of all addresses afterwards.
pub upserted-All_ips {κ} :
    (P : String → Type κ) (u : Upsert) (t : NodeTable) {t' : NodeTable} {ip : String}
    → All P (ips t.rows)
    → P u.mesh_ip
    → upsert_node u t ≡ some (t', ip)
    → All P (ips t'.rows)
upserted-All_ips P u t h p e =
    upsert_cases (λ q _. All P (ips q.rows)) u t (λ n _ _. rw (ips-update u t.rows) h)
      (λ _ _ _. rw (map-append _ t.rows _) (All-append P (ips t.rows) h p)) e

pub touched-ips :
    (key : String) (now : ℕ) (t : NodeTable) → ips (touch_last_seen key now t).rows ≡ ips t.rows
unfolding touch_last_seen
touched-ips key now t = ips-touch key now t.rows

found-All_ips {κ} :
    (P : String → Type κ) (name : String) (rows : List Node) {n : Node}
    → All P (ips rows)
    → find_node name rows ≡ some n
    → P n.mesh_ip
unfolding find_node
found-All_ips P name [] h e = cc
found-All_ips P name (m ∷ rows) {n} h e = elim (Bool-cases (m.name == name)) [
  | inl same ↦
      subst (λ (k : Node). P k.mesh_ip) (some-injective _ _ (rw (same, find_node) at e)) h.0
  | inr other ↦ found-All_ips P name rows h.1 (rw (other, find_node) at e)
]

-- So does it of the address that is returned.
pub upserted_ip {κ} :
    (P : String → Type κ) (u : Upsert) (t : NodeTable) {t' : NodeTable} {ip : String}
    → All P (ips t.rows)
    → P u.mesh_ip
    → upsert_node u t ≡ some (t', ip)
    → P ip
upserted_ip P u t h p e =
    upsert_cases (λ _ ip. P ip) u t (λ n found _. found-All_ips P u.name t.rows h found)
      (λ _ _ _. p) e
