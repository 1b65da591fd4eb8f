-- ===== src/Store/Steps.antt =====
-- Rules for operations: those that only read, and what each step of one that succeeds then did.
use modelo_man.Base.{Bool, ◌≡◌, refl, sym, ap, subst}
use modelo_man.Domain.{AppError}
use modelo_man.Store.Effects.{World, Result, ok, err, Act, resume, pure, fail, reject_if, ◌>>=◌}

-- The operation changes nothing, whether it succeeds or not.
pub record ReadsOnly {F A : Type 0} (m : Act F A) : Type 0 where
  pub at : (w : World F) → (m w).1 ≡ w

module _ {F A : Type 0} where
  pub pure-ReadsOnly : (a : A) → ReadsOnly (pure {F = F} a)
  unfolding pure
  pure-ReadsOnly a = record { at = λ w. refl }

  pub fail-ReadsOnly : (e : AppError) → ReadsOnly (fail {F = F} {A = A} e)
  unfolding fail
  fail-ReadsOnly e = record { at = λ w. refl }

pub reject_if-ReadsOnly : {F : Type 0} (b : Bool) (e : AppError) → ReadsOnly (reject_if {F = F} b e)
unfolding reject_if
reject_if-ReadsOnly b e = record { at = λ w. refl }

module _ {F A B : Type 0} where
  resume_kept :
      (f : A → Act F B) (r : Result A) (w w' : World F)
      → ((a : A) → ReadsOnly (f a))
      → w' ≡ w
      → (resume f r w').1 ≡ w
  resume_kept f (ok a) w w' g e = subst (λ v. (f a v).1 ≡ w) (sym e) ((g a).at w)
  resume_kept f (err x) w w' g e = e

  pub bind-ReadsOnly :
      (m : Act F A) (f : A → Act F B)
      → ReadsOnly m
      → ((a : A) → ReadsOnly (f a))
      → ReadsOnly (m >>= f)
  unfolding ◌>>=◌
  bind-ReadsOnly m f k g = record { at = λ w. resume_kept f (m w).0 w (m w).1 g (k.at w) }

  resume-eq-ok :
      (f : A → Act F B) (r : Result A) (w w' : World F) {b : B}
      → w' ≡ w
      → (resume f r w').0 ≡ ok b
      → (a : A) × (r ≡ ok a) × ((f a w).0 ≡ ok b) × (resume f r w' ≡ f a w)
  resume-eq-ok f (ok a) w w' {b} e p = (a, refl, subst (λ v. (f a v).0 ≡ ok b) e p, ap (f a) e)
  resume-eq-ok f (err x) w w' e p = cc

  -- Where a block whose first step only reads succeeds, so do that step and, from the same world, the
  -- rest.
  pub bind-eq-ok :
      (m : Act F A) (f : A → Act F B) (w : World F) {b : B}
      → ReadsOnly m
      → ((m >>= f) w).0 ≡ ok b
      → (a : A) × ((m w).0 ≡ ok a) × ((f a w).0 ≡ ok b) × ((m >>= f) w ≡ f a w)
  unfolding ◌>>=◌
  bind-eq-ok m f w k p = resume-eq-ok f (m w).0 w (m w).1 (k.at w) p

  -- So too where the first step reads a known value.
  pub read-eq-ok :
      (m : Act F A) (f : A → Act F B) (w : World F) (a : A) {b : B}
      → m w ≡ (ok a, w)
      → ((m >>= f) w).0 ≡ ok b
      → ((f a w).0 ≡ ok b) × ((m >>= f) w ≡ f a w)
  unfolding ◌>>=◌
  read-eq-ok m f w a {b} k p =
      let same = ap (λ (r : Result A × World F). resume f r.0 r.1) k in (rw same at p, same)

-- A block that ends by returning a known value.
pub resume-pure-eq-ok :
    {F A B : Type 0} (r : Result A) (w : World F) (b : B) {b' : B}
    → (resume (λ _. pure b) r w).0 ≡ ok b'
    → (b ≡ b') × ((resume (λ _. pure b) r w).1 ≡ w)
unfolding pure
resume-pure-eq-ok (ok a) w b e = (cc, refl)
resume-pure-eq-ok (err x) w b e = cc

pub ruleset reads_rules = (pure-ReadsOnly, fail-ReadsOnly, reject_if-ReadsOnly, bind-ReadsOnly)
