-- ===== src/Base/Keyed.antt =====
-- Lists of items that carry a text key: the searching, replacing and deleting loops of the program.
use Prim.Native.String.{String}
use mathlib.Core.Path.{◌≡◌, refl, subst}
use mathlib.Core.Bool.{Bool, true, false}
use mathlib.Core.Option.{Option, none, some, some-injective}
use mathlib.Core.List.{List, [], ◌∷◌}
use native.Mathlib.Omega.{arith}
use text.Mathlib.Text.{◌==◌}
use text.Mathlib.TextEquality.{eq_iff}
use modelo_man.Base.Tests.{if◌then◌else◌, Bool-cases}
use modelo_man.Base.Lists.{All}
use mathlib.Core.Logic.{inl, inr}

abbrev pub is_found {ℓ} : {A : Type ℓ} → Option A → Bool
is_found none = false
is_found (some a) = true

module _ {A : Type 0} (key : A → String) where
  -- The first item with the key.
  unfoldable pub find_by : String → List A → Option A
  find_by k [] = none
  find_by k (x ∷ xs) = if key x == k then some x else find_by k xs

  -- The loop of the upserts: the first item with the key is replaced, or the item is appended.
  unfoldable pub upsert_by : A → List A → List A
  upsert_by x [] = x ∷ []
  upsert_by x (y ∷ ys) = if key y == key x then x ∷ ys else y ∷ upsert_by x ys

  -- The loop of the deletions: the first item with the key goes, and the flag says if there was one.
  unfoldable pub delete_by : String → List A → Bool × List A
  delete_by k [] = (false, [])
  delete_by k (y ∷ ys) =
      let (found, rest) = delete_by k ys in if key y == k then (true, ys) else (found, y ∷ rest)

  -- No two items have the same key.
  abbrev pub HasUniqueKeys : List A → Type 0
  HasUniqueKeys [] = Unit
  HasUniqueKeys (x ∷ xs) = (find_by (key x) xs ≡ none) × HasUniqueKeys xs

  pub find_by-upsert_by :
      (x : A) (xs : List A) (k : String)
      → find_by k (upsert_by x xs) ≡ (if key x == k then some x else find_by k xs)
  unfolding find_by upsert_by
  find_by-upsert_by x [] k = refl
  find_by-upsert_by x (y ∷ ys) k =
      ground (
        arith,
        find_by-upsert_by x ys k,
        eq_iff (key y) (key x),
        eq_iff (key y) k,
        eq_iff (key x) k,
      )

  pub upsert_by-HasUniqueKeys :
      (x : A) (xs : List A) → HasUniqueKeys xs → HasUniqueKeys (upsert_by x xs)
  unfolding find_by upsert_by
  upsert_by-HasUniqueKeys x [] u = (refl, tt)
  upsert_by-HasUniqueKeys x (y ∷ ys) (fresh, u) = ground (
    arith,
    eq_iff (key y) (key x),
    eq_iff (key x) (key y),
    find_by-upsert_by x ys (key y),
    upsert_by-HasUniqueKeys x ys u,
  )

  pub delete_by-found : (k : String) (xs : List A) → (delete_by k xs).0 ≡ is_found (find_by k xs)
  unfolding find_by delete_by
  delete_by-found k [] = refl
  delete_by-found k (y ∷ ys) = ground (arith, delete_by-found k ys)

  pub find_by-delete_by :
      (k : String) (xs : List A) (j : String)
      → HasUniqueKeys xs
      → find_by j (delete_by k xs).1 ≡ (if k == j then none else find_by j xs)
  unfolding find_by delete_by
  find_by-delete_by k [] j u = ground arith
  find_by-delete_by k (y ∷ ys) j (fresh, u) =
      ground (arith, eq_iff (key y) k, eq_iff (key y) j, eq_iff k j, find_by-delete_by k ys j u)

  pub delete_by-HasUniqueKeys :
      (k : String) (xs : List A) → HasUniqueKeys xs → HasUniqueKeys (delete_by k xs).1
  unfolding find_by delete_by
  delete_by-HasUniqueKeys k [] u = tt
  delete_by-HasUniqueKeys k (y ∷ ys) (fresh, u) =
      ground (arith, find_by-delete_by k ys (key y) u, delete_by-HasUniqueKeys k ys u)

  pub All-upsert_by {κ} :
      (P : A → Type κ) (x : A) (xs : List A) → P x → All P xs → All P (upsert_by x xs)
  unfolding upsert_by
  All-upsert_by P x [] p h = (p, tt)
  All-upsert_by P x (y ∷ ys) p (q, h) = elim (Bool-cases (key y == key x)) [
    | inl e ↦ rw e (p, h)
    | inr e ↦ rw e (q, All-upsert_by P x ys p h)
  ]

  pub All-delete_by {κ} :
      (P : A → Type κ) (k : String) (xs : List A) → All P xs → All P (delete_by k xs).1
  unfolding delete_by
  All-delete_by P k [] h = tt
  All-delete_by P k (y ∷ ys) (q, h) = elim (Bool-cases (key y == k)) [
    | inl e ↦ rw e h
    | inr e ↦ rw e (q, All-delete_by P k ys h)
  ]

  pub All-find_by {κ} :
      (P : A → Type κ) (k : String) (xs : List A) (x : A) → All P xs → find_by k xs ≡ some x → P x
  unfolding find_by
  All-find_by P k [] x h e = cc
  All-find_by P k (y ∷ ys) x (q, h) e = elim (Bool-cases (key y == k)) [
    | inl s ↦ subst P (some-injective _ _ (rw s at e)) q
    | inr s ↦ All-find_by P k ys x h (rw s at e)
  ]
