-- ===== src/Db/Node/Ids.antt =====
-- The ids of the nodes under the operations of the agents.
use mathlib.Core.Option.{some-injective}
use rv_tx.Base.{
  ℕ, ◌≡◌, refl, true, String, some, List, [], ◌∷◌, ◌++◌, any, eqb, arith, Bool, Bool-cases, inl,
  inr, subst, ◌==◌,
}
use rv_tx.Db.Node.{
  Node, NodeTable, Upsert, find_node, update_rows, new_node, upsert_node, upsert_cases, touch_rows,
  touch_last_seen,
}

abbrev pub has_id : ℕ → List Node → Bool
has_id id rows = any (λ (n : Node). eqb n.id id) rows

-- The ids of the first table are ids of the second.
abbrev pub KeepsIds : NodeTable → NodeTable → Type 0
KeepsIds t t' = (id : ℕ) → has_id id t.rows ≡ true → has_id id t'.rows ≡ true

has_id-update :
    (id : ℕ) (u : Upsert) (rows : List Node) → has_id id (update_rows u rows) ≡ has_id id rows
unfolding update_rows
has_id-update id u [] = refl
has_id-update id u (n ∷ rows) = ground (arith, has_id-update id u rows)

has_id-append :
    (id : ℕ) (rows : List Node) (n : Node)
    → has_id id rows ≡ true
    → has_id id (rows ++ n ∷ []) ≡ true
has_id-append id [] n h = cc
has_id-append id (m ∷ rows) n h = ground (arith, has_id-append id rows n)

has_id-touch :
    (id : ℕ) (key : String) (now : ℕ) (rows : List Node)
    → has_id id (touch_rows key now rows) ≡ has_id id rows
unfolding touch_rows
has_id-touch id key now [] = refl
has_id-touch id key now (n ∷ rows) = ground (arith, has_id-touch id key now rows)

-- A registration keeps the ids, and so does a heartbeat.
pub upsert_node-KeepsIds :
    (u : Upsert) (t : NodeTable) {t' : NodeTable} {ip : String}
    → upsert_node u t ≡ some (t', ip)
    → KeepsIds t t'
upsert_node-KeepsIds u t e =
    upsert_cases (λ t' ip. KeepsIds t t') u t
      (λ n found free id h. rw (has_id-update id u t.rows) h)
      (λ missing free free_ip id h. has_id-append id t.rows (new_node t.next_id u) h) e

pub touch_last_seen-KeepsIds :
    (key : String) (now : ℕ) (t : NodeTable) → KeepsIds t (touch_last_seen key now t)
unfolding touch_last_seen
touch_last_seen-KeepsIds key now t id h = rw (has_id-touch id key now t.rows) h

pub found-has_id :
    (name : String) (rows : List Node) {n : Node}
    → find_node name rows ≡ some n
    → has_id n.id rows ≡ true
unfolding find_node
found-has_id name [] e = cc
found-has_id name (m ∷ rows) {n} e = elim (Bool-cases (m.name == name)) [
  | inl same ↦
      let is_m : m ≡ n = some-injective _ _ (rw (same, find_node) at e) in
      subst (λ (n : Node). has_id n.id (m ∷ rows) ≡ true) is_m (ground arith)
  | inr other ↦ let rest = found-has_id name rows (rw (other, find_node) at e) in ground arith
]
