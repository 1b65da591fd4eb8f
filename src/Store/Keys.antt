-- ===== src/Store/Keys.antt =====
-- Operations that leave a part of the world alone: the idempotency keys, or all that is stored.
use modelo_man.Base.{Bool, true, false, ◌≡◌, refl, ap, ◌∙◌, String, List, if◌then◌else◌}
use modelo_man.Domain.{AppError, Host, State}
use modelo_man.Store.Effects.{
  FileStore, Disk, IdempotencyRecord, World, Result, ok, err, Act, resume, pure, fail, reject_if,
  use_host, ◌>>=◌,
}
use modelo_man.Store.File.{mutate}
use modelo_man.Store.Persistence.{keys-mutate}
use modelo_man.Store.Steps.{ReadsOnly}

-- What `view` shows of the world is the same after the operation, whether it succeeds or not.
pub record Keeps {F A X : Type 0} (view : World F → X) (m : Act F A) : Type 0 where
  pub at : (w : World F) → view (m w).1 ≡ view w

module _ {F X : Type 0} (view : World F → X) where
  pub pure-Keeps : {A : Type 0} (a : A) → Keeps view (pure a)
  unfolding pure
  pure-Keeps a = record { at = λ w. refl }

  pub fail-Keeps : {A : Type 0} (e : AppError) → Keeps view (fail {A = A} e)
  unfolding fail
  fail-Keeps e = record { at = λ w. refl }

  pub reject_if-Keeps : (b : Bool) (e : AppError) → Keeps view (reject_if b e)
  unfolding reject_if
  reject_if-Keeps b e = record { at = λ w. refl }

  pub if-Keeps :
      {A : Type 0} (b : Bool) (m n : Act F A)
      → Keeps view m
      → Keeps view n
      → Keeps view (if b then m else n)
  if-Keeps true m n k l = k
  if-Keeps false m n k l = l

  resume-Keeps :
      {A B : Type 0} (f : A → Act F B) (r : Result A) (w : World F)
      → ((a : A) → Keeps view (f a))
      → view (resume f r w).1 ≡ view w
  resume-Keeps f (ok a) w g = (g a).at w
  resume-Keeps f (err e) w g = refl

  pub bind-Keeps :
      {A B : Type 0} (m : Act F A) (f : A → Act F B)
      → Keeps view m
      → ((a : A) → Keeps view (f a))
      → Keeps view (m >>= f)
  unfolding ◌>>=◌
  bind-Keeps m f k g = record { at = λ w. resume-Keeps f (m w).0 (m w).1 g ∙ k.at w }

  pub read-Keeps : {A : Type 0} (m : Act F A) → ReadsOnly m → Keeps view m
  read-Keeps m k = record { at = λ w. ap view (k.at w) }

  -- An operation whose result is dropped for another.
  pub dropped-Keeps :
      {A B : Type 0} (b : B) (m : Act F A) → Keeps view m → Keeps view (λ w. (ok b, (m w).1))
  dropped-Keeps b m k = record { at = k.at }

abbrev pub keys_of : {F : Type 0} → World F → List (String × IdempotencyRecord)
keys_of w = w.store.idempotency

-- The operation leaves the idempotency keys alone.
abbrev pub KeepsKeys : {F A : Type 0} → Act F A → Type 0
KeepsKeys m = Keeps keys_of m

abbrev pub stored : {F : Type 0} → World F → FileStore F × Disk F
stored w = (w.store, w.disk)

-- The operation leaves the store and the disk alone.
abbrev pub KeepsStore : {F A : Type 0} → Act F A → Type 0
KeepsStore m = Keeps stored m

pub use_host-KeepsKeys : {F : Type 0} → KeepsKeys (use_host {F = F})
unfolding use_host
use_host-KeepsKeys = record { at = λ w. refl }

pub use_host-KeepsStore : {F : Type 0} → KeepsStore (use_host {F = F})
unfolding use_host
use_host-KeepsStore = record { at = λ w. refl }

pub mutate-KeepsKeys :
    (h : Host) {A : Type 0} (change : State h.F → Result (A × State h.F))
    → KeepsKeys (mutate h change)
mutate-KeepsKeys h change = record { at = λ w. keys-mutate h change w }

pub ruleset keeps_rules = (pure-Keeps, fail-Keeps, reject_if-Keeps, if-Keeps, bind-Keeps)

pub ruleset keys_rules = (keeps_rules, use_host-KeepsKeys, mutate-KeepsKeys)

pub ruleset store_rules = (keeps_rules, use_host-KeepsStore)
