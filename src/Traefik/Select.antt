-- ===== src/Traefik/Select.antt =====
-- The choice between a primary and a backup target.
use rv_tx.Base.{
  ℕ, ◌≡◌, ◌⊎◌, inl, inr, refl, ◌∙◌, String, true, false, Option, none, some, List, [], ◌∷◌, map,
  ◌+◌, ◌*◌, ◌≤◌, arith, eq_iff, Bool-cases, Mem,
}
use mathlib.Core.List.{mem-cons_self, mem-cons_of_mem}
use mathlib.Core.Option.{some-injective}
use rv_tx.Db.Listing.{Target}
use rv_tx.Db.Target.Validate.{IsPair}
use rv_tx.Traefik.{by_role, is_fresh, preferred, select_master_backup_target}

-- An external target, or one whose node was seen at most 45 seconds ago.
abbrev pub IsUp : ℕ → Target → Type 0
IsUp now t =
    (t.external ≡ true) ⊎ ((seen : ℕ) × (t.last_seen ≡ some seen) × (now ≤ seen + 45 * 1000000000))

pair :
    (now : ℕ) (p b : Target)
    → p.role ≡ "primary"
    → b.role ≡ "backup"
    → (select_master_backup_target now (p ∷ b ∷ []) ≡ preferred now (p, b))
      × (select_master_backup_target now (b ∷ p ∷ []) ≡ preferred now (p, b))
unfolding select_master_backup_target by_role
pair now p b hp hb = ground (
  arith,
  eq_iff p.role "primary",
  eq_iff b.role "primary",
  eq_iff b.role "backup",
  eq_iff "backup" "primary",
)

SeenLately : ℕ → Option ℕ → Type 0
SeenLately now o = (seen : ℕ) × (o ≡ some seen) × (now ≤ seen + 45 * 1000000000)

lately : (now : ℕ) (o : Option ℕ) → is_fresh now o ≡ true → SeenLately now o
unfolding SeenLately
lately now none e = cc
lately now (some seen) e = (seen, refl, ground arith)

not_lately :
    (now : ℕ) (o : Option ℕ) (seen : ℕ)
    → is_fresh now o ≡ false
    → o ≡ some seen
    → now ≤ seen + 45 * 1000000000
    → true ≡ false
not_lately now none seen e is le = cc
not_lately now (some s) seen e is le = let same = some-injective _ _ is in ground arith

up_preferred : (now : ℕ) (p b : Target) → IsUp now p → preferred now (p, b) ≡ p
up_preferred now p b (inl e) = rw e refl
up_preferred now p b (inr (seen, is, le)) = elim (Bool-cases (is_fresh now p.last_seen)) [
  | inl e ↦ ground arith
  | inr e ↦ let no = not_lately now p.last_seen seen e is le in cc
]

down_preferred : (now : ℕ) (p b : Target) → (¬ IsUp now p) → preferred now (p, b) ≡ b
unfolding SeenLately
down_preferred now p b down = elim (Bool-cases p.external) [
  | inl e ↦ absurd (down (inl e))
  | inr e ↦ elim (Bool-cases (is_fresh now p.last_seen)) [
    | inl f ↦ absurd (down (inr (lately now p.last_seen f)))
    | inr f ↦ rw (e, f) refl
  ]
]

module _ (now : ℕ) (p b : Target) where
  -- Of a primary and a backup, in either order, a primary that is external or whose node was seen at
  -- most 45 seconds ago is selected.
  pub select-up :
      p.role ≡ "primary"
      → b.role ≡ "backup"
      → IsUp now p
      → (select_master_backup_target now (p ∷ b ∷ []) ≡ p)
        × (select_master_backup_target now (b ∷ p ∷ []) ≡ p)
  select-up hp hb up =
      let (one, two) = pair now p b hp hb in
      let first = up_preferred now p b up in (one ∙ first, two ∙ first)

  -- Of a primary and a backup, in either order, where the primary is not external and its node was
  -- not seen in the last 45 seconds, the backup is selected.
  pub select-down :
      p.role ≡ "primary"
      → b.role ≡ "backup"
      → (¬ IsUp now p)
      → (select_master_backup_target now (p ∷ b ∷ []) ≡ b)
        × (select_master_backup_target now (b ∷ p ∷ []) ≡ b)
  select-down hp hb down =
      let (one, two) = pair now p b hp hb in
      let second = down_preferred now p b down in (one ∙ second, two ∙ second)

swap : {A B : Type 0} → A ⊎ B → B ⊎ A
swap (inl a) = inr a
swap (inr b) = inl b

preferred_own : (now : ℕ) (p b : Target) → (preferred now (p, b) ≡ p) ⊎ (preferred now (p, b) ≡ b)
preferred_own now p b = ground arith

two_roles :
    (a b : String)
    → IsPair (a ∷ b ∷ [])
    → ((a ≡ "primary") × (b ≡ "backup")) ⊎ ((b ≡ "primary") × (a ≡ "backup"))
two_roles a b h = ground arith

no_more : {A : Type 0} (a b c : String) (cs : List String) → IsPair (a ∷ b ∷ c ∷ cs) → A
no_more a b c cs h = absurd (ground arith)

own_of_two : (t u x : Target) → (x ≡ t) ⊎ (x ≡ u) → Mem x (t ∷ u ∷ [])
own_of_two t u x (inl e) = rw e mem-cons_self
own_of_two t u x (inr e) = rw e (mem-cons_of_mem t mem-cons_self)

-- Of one target, or of a primary and a backup in either order, the selected target is one of them,
-- and not the zero value.
pub select-own :
    (now : ℕ) (ts : List Target)
    → IsPair (map (λ (t : Target). t.role) ts)
    → Mem (select_master_backup_target now ts) ts
unfolding select_master_backup_target
select-own now [] h = absurd (ground arith)
select-own now (t ∷ []) h = mem-cons_self
select-own now (t ∷ u ∷ []) h = own_of_two t u _ (elim (two_roles t.role u.role h) [
  | inl r ↦ let e = (pair now t u r.0 r.1).0 in rw e (preferred_own now t u)
  | inr r ↦ let e = (pair now u t r.0 r.1).1 in rw e (swap (preferred_own now u t))
])
select-own now (t ∷ u ∷ v ∷ ts) h = no_more t.role u.role v.role _ h
