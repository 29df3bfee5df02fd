-- ===== src/Db/Resource/Catalogue/Refines.antt =====
-- The tables implement the catalogue, over any history of requests.
use mathlib.Core.Path.{fun_ext}
use rv_tx.Base.{
  ◌≡◌, refl, sym, ap, ◌∙◌, subst, inl, inr, String, Option, none, some, List, [], ◌∷◌, map,
  Option-cases, ◌==◌, if◌then◌else◌, Bool-cases, eq_iff,
}
use rv_tx.Db.Node.{NodeTable}
use rv_tx.Db.Target.{TargetRow, Outcome, ok, err, and_then, validate_targets, insert_targets}
use rv_tx.Db.Target.Rows.{and_then-ok, checked-ok}
use rv_tx.Db.Resource.{
  Resource, ResourceSpec, ResourceTables, resource_row, normalize_target_scheme, find_resource,
  create_resource, update_resource, delete_resource, returned_resource, ResourceOp, create, update,
  delete, perform, committed, run_ops, no_resources,
}
use rv_tx.Db.Resource.Cases.{create_resource-ok, update_resource-ok}
use rv_tx.Db.Resource.Sound.{IsSound}
use rv_tx.Db.Resource.History.{committed-IsSound, perform-IsSound, no_resources-IsSound}
use rv_tx.Db.Resource.Catalogue.{erase, Entry, view, accepted, put, revise, replay}
use rv_tx.Db.Resource.Catalogue.Accepts.{
  added, replaced, create_resource-accepted, update_resource-accepted,
}
use rv_tx.Db.Resource.Catalogue.View.{view-added, view-replaced, view-removed}

erase-erase : (xs : List TargetRow) → map erase (map erase xs) ≡ map erase xs
erase-erase [] = refl
erase-erase (x ∷ xs) = ap (λ ys. erase x ∷ ys) (erase-erase xs)

-- The form of an accepted entry.
IsPlain : ResourceSpec → Entry → Type 0
IsPlain s e = (e.0 ≡ resource_row 0 e.0.target_scheme s) × (map erase e.1 ≡ e.1)

accepted-IsPlain :
    (nodes : NodeTable) (s : ResourceSpec) {e : Entry} → accepted nodes s ≡ ok e → IsPlain s e
unfolding accepted IsPlain
accepted-IsPlain nodes s {e} h =
    let (_, h) = checked-ok (validate_targets s.protocol s.targets) h in
    let (scheme, _, h) = and_then-ok (normalize_target_scheme s.target_scheme) h in
    let (rows, _, h) = and_then-ok (insert_targets nodes 0 s.targets []) h in
    let is_e = done h in
    subst (λ (e : Entry). (e.0 ≡ resource_row 0 e.0.target_scheme s) × (map erase e.1 ≡ e.1)) is_e
      (refl, erase-erase rows)
  where
    done : {a b : Entry} → ok a ≡ ok b → a ≡ b
    done e = cc

refused-create :
    (nodes : NodeTable) (s : ResourceSpec) (t : ResourceTables) (o : Outcome ResourceTables)
    {r : Resource}
    → find_resource s.name t.resources ≡ some r
    → create_resource s nodes t ≡ o
    → committed o t ≡ t
unfolding committed
refused-create nodes s t (err e) found h = refl
refused-create nodes s t (ok t') found h =
    let (_, _, _, missing, _, _) = create_resource-ok s nodes t h in
    let clash = sym missing ∙ found in cc

refused-update :
    (nodes : NodeTable) (s : ResourceSpec) (t : ResourceTables) (o : Outcome ResourceTables)
    → find_resource s.name t.resources ≡ none
    → update_resource s nodes t ≡ o
    → committed o t ≡ t
unfolding committed
refused-update nodes s t (err e) missing h = refl
refused-update nodes s t (ok t') missing h =
    let (_, r, _, _, found, _, _) = update_resource-ok s nodes t h in
    let clash = sym missing ∙ found in cc

row_of : (s : ResourceSpec) (e : Entry) → IsPlain s e → e.0 ≡ resource_row 0 e.0.target_scheme s
unfolding IsPlain
row_of s e p = p.0

named : (s : ResourceSpec) (e : Entry) → IsPlain s e → e.0.name ≡ s.name
unfolding IsPlain
named s e p = ap (λ (r : Resource). r.name) p.0

module _ (nodes : NodeTable) (t : ResourceTables) (k : IsSound t) (name : String) where
  with_entry :
      (s : ResourceSpec) (e : Entry) (now : Option Entry)
      → IsPlain s e
      → now ≡ (if s.name == name then some (record e.0 { id = 0 }, map erase e.1) else view t name)
      → now ≡ put s.name (ok e) (view t) name
  unfolding IsPlain
  with_entry s e now p h = h ∙ ap (λ x. if s.name == name then some x else view t name) same
    where
      same : (record e.0 { id = 0 }, map erase e.1) ≡ e
      same i = ((ap (λ (r : Resource). record r { id = 0 }) p.0 ∙ sym p.0) i, p.1 i)

  created :
      (s : ResourceSpec) (o : Outcome Entry)
      → find_resource s.name t.resources ≡ none
      → accepted nodes s ≡ o
      → view (committed (and_then o (λ e. ok (added t e))) t) name ≡ put s.name o (view t) name
  unfolding committed
  created s (err e) missing h = refl
  created s (ok e) missing h =
      let p = accepted-IsPlain nodes s h in
      let is_name = named s e p in
      with_entry s e (view (added t e) name) p (
        view-added t k e (ap (λ n. find_resource n t.resources) is_name ∙ missing) name
        ∙ ap (λ n. if n == name then some (record e.0 { id = 0 }, map erase e.1) else view t name)
            is_name)

  updated :
      (s : ResourceSpec) (r : Resource) (o : Outcome Entry)
      → find_resource s.name t.resources ≡ some r
      → accepted nodes s ≡ o
      → view (committed (and_then o (λ e. ok (replaced s r.id t e))) t) name
        ≡ put s.name o (view t) name
  unfolding committed
  updated s r (err e) found h = refl
  updated s r (ok e) found h =
      let p = accepted-IsPlain nodes s h in
      with_entry s e (view (replaced s r.id t e) name) p
        (view-replaced t k s r e (row_of s e p) found name)

  view-none : (n : String) → find_resource n t.resources ≡ none → view t n ≡ none
  view-none n e = rw e refl

  perform-create :
      (s : ResourceSpec)
      → view (committed (create_resource s nodes t) t) name ≡ revise nodes (create s) (view t) name
  perform-create s = elim (Option-cases (find_resource s.name t.resources)) [
    | inl missing ↦
        ap (λ o. view (committed o t) name) (create_resource-accepted nodes s t missing)
        ∙ created s (accepted nodes s) missing refl
        ∙ rw missing refl
    | inr (r, found) ↦
        ap (λ t. view t name) (refused-create nodes s t _ found refl) ∙ rw (found) refl
  ]

  perform-update :
      (s : ResourceSpec)
      → view (committed (update_resource s nodes t) t) name ≡ revise nodes (update s) (view t) name
  perform-update s = elim (Option-cases (find_resource s.name t.resources)) [
    | inl missing ↦
        ap (λ t. view t name) (refused-update nodes s t _ missing refl) ∙ rw (missing) refl
    | inr (r, found) ↦
        ap (λ o. view (committed o t) name) (update_resource-accepted nodes s t r found)
        ∙ updated s r (accepted nodes s) found refl
        ∙ rw found refl
  ]

  perform-delete :
      (gone : String)
      → view (committed (delete_resource gone t) t) name ≡ revise nodes (delete gone) (view t) name
  unfolding delete_resource returned_resource committed
  perform-delete gone = elim (Option-cases (find_resource gone t.resources)) [
    | inl missing ↦
        rw (missing, returned_resource)
          (elim (Bool-cases (gone == name)) [
            | inl same ↦
                rw same
                  (subst (λ n. view t n ≡ none) ((eq_iff _ _).0 same) (view-none gone missing))
            | inr other ↦ rw other refl
          ])
    | inr (r, found) ↦ rw (found, returned_resource) (view-removed t k gone r found name)
  ]

-- One request: what the tables hold afterwards is what the request makes of the catalogue.
perform-revise :
    (nodes : NodeTable) (op : ResourceOp) (t : ResourceTables)
    → IsSound t
    → view (committed (perform op nodes t) t) ≡ revise nodes op (view t)
unfolding perform
perform-revise nodes (create s) t k = fun_ext λ name. perform-create nodes t k name s
perform-revise nodes (update s) t k = fun_ext λ name. perform-update nodes t k name s
perform-revise nodes (delete gone) t k = fun_ext λ name. perform-delete nodes t k name gone

replay-from :
    (ops : List (NodeTable × ResourceOp)) (t : ResourceTables)
    → IsSound t
    → view (run_ops ops t) ≡ replay ops (view t)
unfolding run_ops
replay-from [] t k = refl
replay-from ((nodes, op) ∷ ops) t k =
    replay-from ops (committed (perform op nodes t) t)
      (committed-IsSound (perform op nodes t) t k (λ t' e. perform-IsSound op nodes t k e))
    ∙ ap (replay ops) (perform-revise nodes op t k)

-- From empty tables, any history of requests on resources, refused ones included, leaves under every name
-- what the same history makes of a catalogue without ids: a creation binds an unbound name and an update a
-- bound one, both only if the specification is accepted, and a deletion unbinds; no request
-- changes what is under another name.
pub run_ops-replay :
    (ops : List (NodeTable × ResourceOp))
    → view (run_ops ops no_resources) ≡ replay ops (λ name. none)
unfolding find_resource
run_ops-replay ops = replay-from ops no_resources no_resources-IsSound
