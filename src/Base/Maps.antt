-- ===== src/Base/Maps.antt =====
-- Go's `map[string]V`, as a list of entries with different keys.
use Prim.Native.String.{String}
use mathlib.Core.Path.{◌≡◌, refl}
use mathlib.Core.List.{List, [], ◌∷◌}
use mathlib.Core.Option.{Option, none, some}
use text.Mathlib.Text.{◌==◌ as str_eq}
use text.Mathlib.TextEquality.{eq_iff as str_eq_iff}
use native.Mathlib.Omega.{arith}
use merge_bot.Base.Tests.{if◌then◌else◌}

module _ {ℓ} {V : Type ℓ} where
  -- `v, ok := m[key]`
  unfoldable pub lookup : String → List (String × V) → Option V
  lookup key [] = none
  lookup key (entry ∷ entries) =
      let later = lookup key entries in if str_eq entry.0 key then some entry.1 else later

  -- `m[key] = value`: an entry of this key is overwritten where it stands.
  unfoldable pub insert : String → V → List (String × V) → List (String × V)
  insert key value [] = (key, value) ∷ []
  insert key value (entry ∷ entries) =
      let later = insert key value entries in
      if str_eq entry.0 key then (key, value) ∷ entries else entry ∷ later

  pub lookup-insert :
      (name key : String) (value : V) (entries : List (String × V))
      → lookup name (insert key value entries)
        ≡ (if str_eq key name then some value else lookup name entries)
  unfolding lookup insert
  lookup-insert name key value [] = refl
  lookup-insert name key value (entry ∷ entries) = ground (
    arith,
    lookup-insert name key value entries,
    str_eq_iff key name,
    str_eq_iff entry.0 key,
    str_eq_iff entry.0 name,
  )
