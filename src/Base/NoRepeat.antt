-- ===== src/Base/NoRepeat.antt =====
-- Lists of texts that serve as sets: what they contain, and whether a text stands twice, through
-- `append` and the sorts of Go.
use mathlib.Core.Path.{◌≡◌, refl, ◌∙◌}
use mathlib.Core.Bool.{Bool, true, false, ◌||◌}
use mathlib.Core.List.{List, [], ◌∷◌, ◌++◌}
use Prim.Native.String.{String}
use text.Mathlib.Text.{◌==◌}
use text.Mathlib.TextEquality.{eq_iff}
use native.Mathlib.Omega.{arith}
use modelo_man.Base.Tests.{if◌then◌else◌}
use modelo_man.Base.Text.{contains}
use modelo_man.Base.Sort.{insert_by, sort_by}

-- No text stands twice.
abbrev pub HasNoRepeat : List String → Type 0
HasNoRepeat [] = Unit
HasNoRepeat (x ∷ xs) = (contains xs x ≡ false) × HasNoRepeat xs

pub contains-append :
    (xs ys : List String) (k : String) → contains (xs ++ ys) k ≡ (contains xs k || contains ys k)
contains-append [] ys k = refl
contains-append (x ∷ xs) ys k = let e = contains-append xs ys k in ground arith

apart : (x y : String) (b : Bool) → (x == y || b) ≡ false → (y == x || false) ≡ false
apart x y b e = ground (arith, eq_iff x y, eq_iff y x)

pub append-HasNoRepeat :
    (xs : List String) (x : String)
    → HasNoRepeat xs
    → contains xs x ≡ false
    → HasNoRepeat (xs ++ x ∷ [])
append-HasNoRepeat [] x u e = (refl, tt)
append-HasNoRepeat (y ∷ ys) x (n, u) e =
    let c = contains-append ys (x ∷ []) y in
    let a = apart y x (contains ys x) e in (ground arith, append-HasNoRepeat ys x u (ground arith))

module _ (before : String → String → Bool) where
  contains-insert_by :
      (x : String) (ys : List String) (k : String)
      → contains (insert_by before x ys) k ≡ (x == k || contains ys k)
  unfolding insert_by
  contains-insert_by x [] k = refl
  contains-insert_by x (y ∷ ys) k = let e = contains-insert_by x ys k in ground arith

  pub contains-sort_by :
      (xs : List String) (k : String) → contains (sort_by before xs) k ≡ contains xs k
  unfolding sort_by
  contains-sort_by [] k = refl
  contains-sort_by (x ∷ xs) k =
      let e = contains-sort_by xs k in
      let i = contains-insert_by x (sort_by before xs) k in ground arith

  placed :
      (b : Bool) (x y : String) (ys later : List String)
      → HasNoRepeat ys
      → contains ys y ≡ false
      → (y == x || contains ys x) ≡ false
      → HasNoRepeat later
      → contains later y ≡ (x == y || contains ys y)
      → HasNoRepeat (if b then y ∷ later else x ∷ y ∷ ys)
  placed true x y ys later u n e v i =
      let a = apart y x (contains ys x) e in (ground (arith, eq_iff x y, eq_iff y x), v)
  placed false x y ys later u n e v i = (e, (n, u))

  insert_by-HasNoRepeat :
      (x : String) (ys : List String)
      → HasNoRepeat ys
      → contains ys x ≡ false
      → HasNoRepeat (insert_by before x ys)
  unfolding insert_by
  insert_by-HasNoRepeat x [] u e = (refl, tt)
  insert_by-HasNoRepeat x (y ∷ ys) (n, u) e =
      placed (before y x) x y ys _ u n e (insert_by-HasNoRepeat x ys u (ground arith))
        (contains-insert_by x ys y)

  pub sort_by-HasNoRepeat : (xs : List String) → HasNoRepeat xs → HasNoRepeat (sort_by before xs)
  unfolding sort_by
  sort_by-HasNoRepeat [] u = tt
  sort_by-HasNoRepeat (x ∷ xs) (n, u) =
      insert_by-HasNoRepeat x (sort_by before xs) (sort_by-HasNoRepeat xs u)
        (contains-sort_by xs x ∙ n)
