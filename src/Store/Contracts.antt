-- ===== src/Store/Contracts.antt =====
-- What an operation keeps of the store, and what it tells of its result where it succeeds.
use modelo_man.Base.{Bool, true, false, ◌≡◌, refl}
use modelo_man.Domain.{AppError}
use modelo_man.Store.Effects.{
  FileStore, World, Result, ok, err, Act, resume, pure, fail, reject_if, use_host, ◌>>=◌,
}

-- `R` of the value of a success.
abbrev pub Post : {A : Type 0} → (A → Type 0) → Result A → Type 0
Post R (ok a) = R a
Post R (err e) = Unit

-- The operation keeps `Q` of the store, and a value that it returns has `R`.
pub record Ensures {F A : Type 0} (Q : FileStore F → Type 0) (R : A → Type 0) (m : Act F A)
    : Type 0 where
  pub at : (w : World F) → Q w.store → Q (m w).1.store × Post R (m w).0

-- Nothing is said of the value.
abbrev pub Anything : {A : Type 0} → A → Type 0
Anything a = Unit

module _ {F : Type 0} {Q : FileStore F → Type 0} where
  pub pure-Ensures : {A : Type 0} {R : A → Type 0} (a : A) → R a → Ensures Q R (pure a)
  unfolding pure
  pure-Ensures a r = record { at = λ w q. (q, r) }

  pub fail-Ensures : {A : Type 0} {R : A → Type 0} (e : AppError) → Ensures Q R (fail e)
  unfolding fail
  fail-Ensures e = record { at = λ w q. (q, tt) }

  pub reject_if-Ensures : (b : Bool) (e : AppError) → Ensures Q (λ _. b ≡ false) (reject_if b e)
  unfolding reject_if
  reject_if-Ensures true e = record { at = λ w q. (q, tt) }
  reject_if-Ensures false e = record { at = λ w q. (q, refl) }

  pub use_host-Ensures : Ensures Q Anything use_host
  unfolding use_host
  use_host-Ensures = record { at = λ w q. (q, tt) }

  module _ {A B : Type 0} {R : A → Type 0} {S : B → Type 0} where
    resume-Ensures :
        (f : A → Act F B) (r : Result A) (w : World F)
        → ((a : A) → R a → Ensures Q S (f a))
        → Post R r
        → Q w.store
        → Q (resume f r w).1.store × Post S (resume f r w).0
    resume-Ensures f (ok a) w g p q = (g a p).at w q
    resume-Ensures f (err e) w g p q = (q, tt)

    pub bind-Ensures :
        (m : Act F A) (f : A → Act F B)
        → Ensures Q R m
        → ((a : A) → R a → Ensures Q S (f a))
        → Ensures Q S (m >>= f)
    unfolding ◌>>=◌
    bind-Ensures m f k g = record {
      at = λ w q. let (kept, told) = k.at w q in resume-Ensures f (m w).0 (m w).1 g told kept;
    }
