-- ===== src/Store/Effects.antt =====
-- The state that the hub's operations read and write, and operations that may fail. What was written
-- before a failure stays written, so the state is returned beside an error too.
use modelo_man.Base.{ℕ, suc, String, Bool, List, if◌then◌else◌}
use modelo_man.Domain.{AppError, State}

-- `IdempotencyRecord`.
pub record IdempotencyRecord : Type 0 where
  pub request_hash : String
  pub response_json : String
  pub completed : Bool

-- `FileStore`: the path is fixed and the lock is held during each operation, so both are left out.
pub record FileStore (F : Type 0) : Type 0 where
  pub state : State F
  pub idempotency : List (String × IdempotencyRecord)

-- What a file holds: nothing as it does not exist, bytes that encode no state, or a state.
pub data Contents (F : Type 0) : Type 0 where
  missing : Contents F
  corrupt : Contents F
  encoded : State F → Contents F

-- The data file and the temporary file beside it.
pub record Disk (F : Type 0) : Type 0 where
  pub file : Contents F
  pub temp : Contents F

-- The store, its disk, and how often the host was used.
pub record World (F : Type 0) : Type 0 where
  pub store : FileStore F
  pub disk : Disk F
  pub uses : ℕ

pub data Result (A : Type 0) : Type 0 where
  ok : A → Result A
  err : AppError → Result A

-- An operation on the world.
abbrev pub Act : Type 0 → Type 0 → Type 0
Act F A = World F → Result A × World F

unfoldable pub pure : {F A : Type 0} → A → Act F A
pure a w = (ok a, w)

unfoldable pub fail : {F A : Type 0} → AppError → Act F A
fail e w = (err e, w)

abbrev pub resume : {F A B : Type 0} → (A → Act F B) → Result A → Act F B
resume f (ok a) w = f a w
resume f (err e) w = (err e, w)

-- `if b { return …, e }`.
unfoldable pub reject_if : {F : Type 0} → Bool → AppError → Act F (Unit {0})
reject_if b e w = (if b then err e else ok tt, w)

-- The number of this use of the host.
unfoldable pub use_host : {F : Type 0} → Act F ℕ
use_host w = (ok w.uses, record w { uses = suc w.uses })

infixl 10 ◌>>=◌ ◌>>◌
-- `x, err := m; if err != nil { return …, err }`, then the rest. To open it is to open the steps
-- above.
unfoldable pub ◌>>=◌ : {F A B : Type 0} → Act F A → (A → Act F B) → Act F B
unfolding pure fail reject_if use_host
◌>>=◌ m f w = let (r, w') = m w in resume f r w'

abbrev pub ◌>>◌ : {F B : Type 0} → Act F (Unit {0}) → Act F B → Act F B
m >> k = m >>= λ _. k
