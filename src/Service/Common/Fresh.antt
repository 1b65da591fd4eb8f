-- ===== src/Service/Common/Fresh.antt =====
-- The clock and the fresh ids leave the store alone.
use modelo_man.Base.{String}
use modelo_man.Domain.{Host}
use modelo_man.Store.{FileStore}
use modelo_man.Store.Contracts.{Ensures, Anything, pure-Ensures, use_host-Ensures, bind-Ensures}
use modelo_man.Service.Common.{time_now, new_id}

module _ (h : Host) {Q : FileStore h.F → Type 0} where
  pub time_now-Ensures : Ensures Q Anything (time_now h)
  unfolding time_now
  time_now-Ensures = bind-Ensures _ _ use_host-Ensures (λ k _. pure-Ensures _ tt)

  pub new_id-Ensures : (prefix : String) → Ensures Q Anything (new_id h prefix)
  unfolding new_id
  new_id-Ensures prefix =
      bind-Ensures _ _ use_host-Ensures
        (λ k _. bind-Ensures _ _ use_host-Ensures (λ j _. pure-Ensures _ tt))
