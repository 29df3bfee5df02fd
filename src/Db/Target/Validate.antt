-- ===== src/Db/Target/Validate.antt =====
-- What `validateTargets` accepts.
use rv_tx.Base.{
  ◌≡◌, ◌≢◌, ◌↔◌, ◌⊎◌, inl, inr, refl, String, true, false, none, List, [], ◌∷◌, map, any, All,
  arith, eq_iff, Bool-cases, ◌&&◌,
}
use rv_tx.Db.Target.{
  TargetSpec, role_of, is_ambiguous, has_role, validate_backends, validate_targets,
}

-- A target names a node or has an address, not both.
abbrev pub IsOne : TargetSpec → Type 0
IsOne t = (t.node_name ≡ "") ↔ (t.address ≢ "")

-- The roles that the protocol serves: any for http; one backend, or a primary and a backup, for tcp
-- and udp.
abbrev pub IsPair : List String → Type 0
IsPair roles =
    ((a : String) × (roles ≡ a ∷ []))
    ⊎ ((roles ≡ "primary" ∷ "backup" ∷ []) ⊎ (roles ≡ "backup" ∷ "primary" ∷ []))

abbrev pub IsServed : String → List String → Type 0
IsServed protocol roles =
    (protocol ≡ "http") ⊎ (((protocol ≡ "tcp") ⊎ (protocol ≡ "udp")) × IsPair roles)

one : (t : TargetSpec) → (is_ambiguous t ≡ false) ↔ IsOne t
one t = ground (arith, eq_iff t.node_name "", eq_iff t.address "")

all_one : (ts : List TargetSpec) → (any is_ambiguous ts ≡ false) ↔ All IsOne ts
all_one [] = (λ _. tt, λ _. refl)
all_one (t ∷ ts) = ground (arith, one t, all_one ts)

apart : ◌≢◌ {A = String} "primary" "backup"
apart = ground (arith, eq_iff "primary" "backup")

-- Two targets carry both roles.
pair :
    (t u : TargetSpec)
    → (has_role "primary" (t ∷ u ∷ []) && has_role "backup" (t ∷ u ∷ []) ≡ true) ↔ (
        ((role_of t ≡ "primary") × (role_of u ≡ "backup"))
        ⊎ ((role_of t ≡ "backup") × (role_of u ≡ "primary")))
unfolding has_role
pair t u =
    let n = apart in
    ground (
      arith,
      eq_iff (role_of t) "primary",
      eq_iff (role_of t) "backup",
      eq_iff (role_of u) "primary",
      eq_iff (role_of u) "backup",
    )

module _ (protocol : String) where
  IsServed-pair :
      (t u : TargetSpec)
      → (validate_backends protocol (t ∷ u ∷ []) ≡ none)
        ↔ IsServed protocol (map role_of (t ∷ u ∷ []))
  unfolding validate_backends
  IsServed-pair t u =
      let both = pair t u in
      ground (arith, eq_iff protocol "http", eq_iff protocol "tcp", eq_iff protocol "udp")

  IsServed-many :
      (t u v : TargetSpec) (ts : List TargetSpec)
      → (validate_backends protocol (t ∷ u ∷ v ∷ ts) ≡ none)
        ↔ IsServed protocol (map role_of (t ∷ u ∷ v ∷ ts))
  unfolding validate_backends
  IsServed-many t u v ts =
      ground (arith, eq_iff protocol "http", eq_iff protocol "tcp", eq_iff protocol "udp")

  IsServed-one :
      (t : TargetSpec)
      → (validate_backends protocol (t ∷ []) ≡ none) ↔ IsServed protocol (map role_of (t ∷ []))
  unfolding validate_backends
  IsServed-one t =
      ground (arith, eq_iff protocol "http", eq_iff protocol "tcp", eq_iff protocol "udp")

  served :
      (t : TargetSpec) (ts : List TargetSpec)
      → (validate_backends protocol (t ∷ ts) ≡ none) ↔ IsServed protocol (map role_of (t ∷ ts))
  served t [] = IsServed-one t
  served t (u ∷ []) = IsServed-pair t u
  served t (u ∷ v ∷ ts) = IsServed-many t u v ts

  -- The targets of a resource are accepted exactly if there is one, each names a node or has an
  -- address but not both, and their roles, an empty role being primary, are what the protocol
  -- serves: any for http; for tcp and udp one, or a primary and a backup.
  pub validate_targets_iff :
      (ts : List TargetSpec)
      → (validate_targets protocol ts ≡ none)
        ↔ ((ts ≢ []) × All IsOne ts × IsServed protocol (map role_of ts))
  unfolding validate_targets
  validate_targets_iff [] = ground arith
  validate_targets_iff (t ∷ ts) =
      let ones = all_one (t ∷ ts) in
      let backends = served t ts in
      elim (Bool-cases (any is_ambiguous (t ∷ ts))) [ inl e ↦ ground arith | inr e ↦ ground arith ]
