-- ===== src/Base/Dict.antt =====
-- Go maps with text keys, as association lists; a key is bound at most once where `insert` builds
-- the list.
use Prim.Native.String.{String}
use mathlib.Core.Path.{◌≡◌, refl}
use mathlib.Core.Option.{Option, none, some}
use mathlib.Core.List.{List, [], ◌∷◌}
use native.Mathlib.Omega.{arith}
use text.Mathlib.Text.{◌==◌}
use text.Mathlib.TextEquality.{eq_iff}
use rv_tx.Base.Tests.{if◌then◌else◌}

abbrev pub Dict {ℓ} : Type ℓ → Type ℓ
Dict V = List (String × V)

module _ {ℓ} {V : Type ℓ} where
  unfoldable pub lookup : String → Dict V → Option V
  lookup key [] = none
  lookup key (entry ∷ dict) = if entry.0 == key then some entry.1 else lookup key dict

  -- `dict[key] = value`
  unfoldable pub insert : String → V → Dict V → Dict V
  insert key value [] = (key, value) ∷ []
  insert key value (entry ∷ dict) =
      let tail = insert key value dict in
      if entry.0 == key then (entry.0, value) ∷ dict else entry ∷ tail

  -- `delete(dict, key)`
  unfoldable pub delete : String → Dict V → Dict V
  delete key [] = []
  delete key (entry ∷ dict) =
      let tail = delete key dict in if entry.0 == key then tail else entry ∷ tail

  pub lookup-delete :
      (key other : String) (dict : Dict V)
      → lookup other (delete key dict) ≡ (if key == other then none else lookup other dict)
  unfolding lookup delete
  lookup-delete key other [] = ground arith
  lookup-delete key other (entry ∷ dict) = ground (
    arith,
    lookup-delete key other dict,
    eq_iff entry.0 key,
    eq_iff entry.0 other,
    eq_iff key other,
  )

  pub lookup-insert :
      (key other : String) (value : V) (dict : Dict V)
      → lookup other (insert key value dict)
        ≡ (if key == other then some value else lookup other dict)
  unfolding lookup insert
  lookup-insert key other value [] = refl
  lookup-insert key other value (entry ∷ dict) = ground (
    arith,
    lookup-insert key other value dict,
    eq_iff entry.0 key,
    eq_iff entry.0 other,
    eq_iff key other,
  )
