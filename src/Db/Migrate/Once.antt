-- ===== src/Db/Migrate/Once.antt =====
-- A migration is applied once.
use rv_tx.Base.{
  ◌≡◌, refl, subst, String, Bool, true, false, ◌||◌, Option, none, some, List, [], ◌∷◌, ◌++◌, All,
  Absent, Distinct, Distinct-append, contains, ◌==◌, arith, eq_iff, Option-cases, Bool-cases, inl,
  inr,
}
use rv_tx.Db.Migrate.{Migrated, apply_file, apply_files, migrate, sort_strings, sql_files}

contains-append :
    (xs : List String) (a b : String) → contains (xs ++ a ∷ []) b ≡ (contains xs b || a == b)
unfolding contains
contains-append [] a b = ground arith
contains-append (x ∷ xs) a b = ground (arith, contains-append xs a b)

not_contained : (xs : List String) (a : String) → contains xs a ≡ false → Absent a xs
unfolding contains
not_contained [] a e = tt
not_contained (x ∷ xs) a e = ground (arith, eq_iff x a, not_contained xs a)

module _ {D : Type 0} (read : String → Option String) (exec : String → D → Option D) where
  -- What a round does to the names that were applied.
  file_cases :
      (P : Migrated D × Bool → Type 0) (name : String) (s : Migrated D)
      → (contains s.applied name ≡ true → P (s, true))
      → P (s, false)
      → ((d : D)
          → contains s.applied name ≡ false
          → P (record { applied = s.applied ++ name ∷ []; schema = d }, true))
      → P (apply_file read exec name s)
  unfolding apply_file
  file_cases P name s there fails added = elim (Bool-cases (contains s.applied name)) [
    | inl e ↦ rw (e, apply_file) (there e)
    | inr e ↦ elim (Option-cases (read name)) [
      | inl f ↦ rw (e, apply_file) (rw f fails)
      | inr (contents, f) ↦ elim (Option-cases (exec contents s.schema)) [
        | inl g ↦ rw (e, apply_file) (rw f (rw g fails))
        | inr (d, g) ↦ rw (e, apply_file) (rw f (rw g (added d e)))
      ]
    ]
  ]

  file-keeps :
      (name other : String) (s : Migrated D)
      → contains s.applied other ≡ true
      → contains (apply_file read exec name s).0.applied other ≡ true
  file-keeps name other s h =
      file_cases (λ r. contains r.0.applied other ≡ true) name s (λ _. h) h
        (λ d _. let law = contains-append s.applied name other in ground arith)

  file-adds :
      (name : String) (s : Migrated D)
      → (apply_file read exec name s).1 ≡ true
      → contains (apply_file read exec name s).0.applied name ≡ true
  file-adds name s =
      file_cases (λ r. r.1 ≡ true → contains r.0.applied name ≡ true) name s (λ e _. e) (λ e. cc)
        (λ d _ _. let law = contains-append s.applied name name in ground (arith, eq_iff name name))

  file-Distinct :
      (name : String) (s : Migrated D)
      → Distinct s.applied
      → Distinct (apply_file read exec name s).0.applied
  file-Distinct name s h =
      file_cases (λ r. Distinct r.0.applied) name s (λ _. h) h
        (λ d e. Distinct-append s.applied name h (not_contained s.applied name e))

  files-Distinct :
      (names : List String) (s : Migrated D)
      → Distinct s.applied
      → Distinct (apply_files read exec names s).0.applied
  unfolding apply_files
  files-Distinct [] s h = h
  files-Distinct (name ∷ names) s h =
      let h' = file-Distinct name s h in
      elim (Bool-cases (apply_file read exec name s).1) [
        | inl e ↦ rw e (files-Distinct names (apply_file read exec name s).0 h')
        | inr e ↦ rw e h'
      ]

  files-keeps :
      (names : List String) (other : String) (s : Migrated D)
      → contains s.applied other ≡ true
      → contains (apply_files read exec names s).0.applied other ≡ true
  unfolding apply_files
  files-keeps [] other s h = h
  files-keeps (name ∷ names) other s h =
      let h' = file-keeps name other s h in
      elim (Bool-cases (apply_file read exec name s).1) [
        | inl e ↦ rw e (files-keeps names other (apply_file read exec name s).0 h')
        | inr e ↦ rw e h'
      ]

  files-adds :
      (names : List String) (s s' : Migrated D)
      → apply_files read exec names s ≡ (s', true)
      → All (λ name. contains s'.applied name ≡ true) names
  unfolding apply_files
  files-adds [] s s' e = tt
  files-adds (name ∷ names) s s' e = elim (Bool-cases (apply_file read exec name s).1) [
    | inl f ↦
        let s1 : Migrated D = (apply_file read exec name s).0 in
        let e' : apply_files read exec names s1 ≡ (s', true) = rw f at e in
        let kept = files-keeps names name s1 (file-adds name s f) in
        (
          subst (λ (r : Migrated D × Bool). contains r.0.applied name ≡ true) e' kept,
          files-adds names s1 s' e',
        )
    | inr f ↦ let e' = rw f at e in cc
  ]

  nothing_left :
      (names : List String) (s : Migrated D)
      → All (λ name. contains s.applied name ≡ true) names
      → apply_files read exec names s ≡ (s, true)
  unfolding apply_files apply_file
  nothing_left [] s h = refl
  nothing_left (name ∷ names) s h = rw h.0 (nothing_left names s h.1)

  -- After migrations that succeed, running them again, on the same directory, succeeds and changes
  -- nothing.
  pub migrate-again :
      (entries : List (String × Bool)) (s : Migrated D) {s' : Migrated D}
      → migrate read exec (some entries) s ≡ (s', true)
      → migrate read exec (some entries) s' ≡ (s', true)
  unfolding migrate
  migrate-again entries s {s'} e =
      let names = sort_strings (sql_files entries) in
      nothing_left names s' (files-adds names s s' e)

  -- No file is recorded twice, whether the migrations succeed or stop at an error.
  pub migrate-Distinct :
      (entries : List (String × Bool)) (s : Migrated D)
      → Distinct s.applied
      → Distinct (migrate read exec (some entries) s).0.applied
  unfolding migrate
  migrate-Distinct entries s h = files-Distinct (sort_strings (sql_files entries)) s h

-- After migrations that succeed, every file is recorded, and a later run on the same directory does
-- nothing, whatever has become of the schema and whatever the files hold by then.
pub migrate-settled :
    {D : Type 0} (read read' : String → Option String) (exec exec' : String → D → Option D)
    (entries : Option (List (String × Bool))) (s : Migrated D) {s' : Migrated D}
    → migrate read exec entries s ≡ (s', true)
    → (d : D)
    → migrate read' exec' entries (record s' { schema = d }) ≡ (record s' { schema = d }, true)
unfolding migrate
migrate-settled read read' exec exec' none s e d = cc
migrate-settled read read' exec exec' (some entries) s {s'} e d =
    let names = sort_strings (sql_files entries) in
    nothing_left read' exec' names (record s' { schema = d }) (files-adds read exec names s s' e)

-- The files of the directory that end in .sql, in order.
abbrev pub files_of : Option (List (String × Bool)) → List String
files_of none = []
files_of (some entries) = sort_strings (sql_files entries)

pub migrate-applies :
    {D : Type 0} (read : String → Option String) (exec : String → D → Option D)
    (entries : Option (List (String × Bool))) (s : Migrated D) {s' : Migrated D}
    → migrate read exec entries s ≡ (s', true)
    → All (λ name. contains s'.applied name ≡ true) (files_of entries)
unfolding migrate
migrate-applies read exec none s e = tt
migrate-applies read exec (some entries) s {s'} e =
    files-adds read exec (sort_strings (sql_files entries)) s s' e
