-- ===== src/Base/Assoc.antt =====
-- A Go map from texts as a list of entries; a key stands there once.
use mathlib.Core.Path.{◌≡◌, refl}
use mathlib.Core.Option.{Option, none, some}
use mathlib.Core.List.{List, [], ◌∷◌}
use native.Mathlib.Omega.{arith}
use Prim.Native.String.{String}
use text.Mathlib.Text.{◌==◌}
use text.Mathlib.TextEquality.{eq_iff}
use modelo_man.Base.Tests.{if◌then◌else◌}

module _ {A : Type 0} where
  -- `m[key]`, with the flag.
  unfoldable pub lookup : String → List (String × A) → Option A
  lookup key [] = none
  lookup key (entry ∷ entries) = if entry.0 == key then some entry.1 else lookup key entries

  -- `m[key] = a`; a new key goes to the end.
  unfoldable pub insert : String → A → List (String × A) → List (String × A)
  insert key a [] = (key, a) ∷ []
  insert key a (entry ∷ entries) =
      let behind = insert key a entries in
      if entry.0 == key then (key, a) ∷ entries else entry ∷ behind

  -- `delete(m, key)`.
  unfoldable pub remove : String → List (String × A) → List (String × A)
  remove key [] = []
  remove key (entry ∷ entries) =
      let behind = remove key entries in if entry.0 == key then behind else entry ∷ behind

  pub lookup-insert :
      (key other : String) (a : A) (entries : List (String × A))
      → lookup other (insert key a entries)
        ≡ (if key == other then some a else lookup other entries)
  unfolding lookup insert
  lookup-insert key other a [] = refl
  lookup-insert key other a (entry ∷ entries) =
      let found = lookup-insert key other a entries in
      ground (arith, found, eq_iff entry.0 other, eq_iff entry.0 key, eq_iff key other)

  pub lookup-remove :
      (key other : String) (entries : List (String × A))
      → lookup other (remove key entries) ≡ (if key == other then none else lookup other entries)
  unfolding lookup remove
  lookup-remove key other [] = ground arith
  lookup-remove key other (entry ∷ entries) =
      let found = lookup-remove key other entries in
      ground (arith, found, eq_iff entry.0 other, eq_iff entry.0 key, eq_iff key other)
