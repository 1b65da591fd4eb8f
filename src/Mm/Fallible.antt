-- ===== src/Mm/Fallible.antt =====
-- A value, or the text of an error: what the functions of internal/mm return.
use modelo_man.Base.{String}

pub data Fallible (A : Type 0) : Type 0 where
  got : A → Fallible A
  fault : String → Fallible A

infixl 10 ◌>>=◌
-- `x, err := m; if err != nil { return …, err }`, then the rest.
abbrev pub ◌>>=◌ : {A B : Type 0} → Fallible A → (A → Fallible B) → Fallible B
(got a) >>= f = f a
(fault e) >>= f = fault e
