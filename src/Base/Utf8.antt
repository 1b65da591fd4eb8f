-- ===== src/Base/Utf8.antt =====
-- Sequences of bytes: Go's `string` and `[]byte` where the program measures or cuts them.
use Prim.Native.Nat.{ℕ, zero, suc, ◌+◌, ◌-◌, ◌/◌, ◌%◌, ◌≤◌}
use Prim.Native.Char.{code}
use Prim.Native.String.{String}
use mathlib.Core.Path.{◌≡◌, refl, ap, ◌∙◌}
use mathlib.Core.List.{List, [], ◌∷◌, ◌++◌}
use native.Mathlib.Omega.{arith}
use modelo_man.Base.Tests.{ltb, if◌then◌else◌}
use modelo_man.Base.Lists.{length, take}

abbrev pub Bytes : Type 0
Bytes = List ℕ

-- The UTF-8 of a code point, before that of the rest.
abbrev utf8_code : ℕ → Bytes → Bytes
utf8_code c rest =
    if ltb c 0x80
    then c ∷ rest
    else if ltb c 0x800
    then (0xc0 + c / 0x40) ∷ (0x80 + c % 0x40) ∷ rest
    else if ltb c 0x10000
    then (0xe0 + c / 0x1000) ∷ (0x80 + c / 0x40 % 0x40) ∷ (0x80 + c % 0x40) ∷ rest
    else (0xf0 + c / 0x40000)
      ∷ (0x80 + c / 0x1000 % 0x40)
      ∷ (0x80 + c / 0x40 % 0x40)
      ∷ (0x80 + c % 0x40)
      ∷ rest

-- The bytes of a text.
unfoldable pub utf8 : String → Bytes
utf8 String.[] = []
utf8 (String.◌∷◌ c s) = utf8_code (code c) (utf8 s)

module _ {A : Type 0} where
  pub length-take-le : (n : ℕ) (xs : List A) → length (take n xs) ≤ n
  length-take-le zero xs = omega arith
  length-take-le (suc n) [] = omega arith
  length-take-le (suc n) (x ∷ xs) = omega (arith, length-take-le n xs)

  pub length-take_full : (n : ℕ) (xs : List A) → n ≤ length xs → length (take n xs) ≡ n
  length-take_full zero xs le = refl
  length-take_full (suc n) [] le = omega (arith, le)
  length-take_full (suc n) (x ∷ xs) le = ap suc (length-take_full n xs (omega (arith, le)))

  -- A cut at the end of a list or before it does not see what follows.
  pub take-append_short : (n : ℕ) (xs ys : List A) → n ≤ length xs → take n (xs ++ ys) ≡ take n xs
  take-append_short zero xs ys le = refl
  take-append_short (suc n) [] ys le = ground (arith, le)
  take-append_short (suc n) (x ∷ xs) ys le =
      ap (λ zs. x ∷ zs) (take-append_short n xs ys (omega (arith, le)))

  -- A cut behind a list is a cut of what follows.
  pub take-append_long :
      (n : ℕ) (xs ys : List A) → length xs ≤ n → take n (xs ++ ys) ≡ xs ++ take (n - length xs) ys
  take-append_long n [] ys le = let e : n ≡ n - 0 = omega arith in ap (λ k. take k ys) e
  take-append_long zero (x ∷ xs) ys le = ground (arith, le)
  take-append_long (suc n) (x ∷ xs) ys le =
      let e : n - length xs ≡ suc n - suc (length xs) = omega arith in
      ap (λ zs. x ∷ zs) (take-append_long n xs ys (omega (arith, le)) ∙ ap (λ k. xs ++ take k ys) e)

  pub take_all : (n : ℕ) (xs : List A) → length xs ≤ n → take n xs ≡ xs
  take_all zero [] le = refl
  take_all (suc n) [] le = refl
  take_all zero (x ∷ xs) le = ground (arith, le)
  take_all (suc n) (x ∷ xs) le = ap (λ zs. x ∷ zs) (take_all n xs (omega (arith, le)))
