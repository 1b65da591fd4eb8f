-- ===== src/Service/Health.antt =====
-- `Health` of hub_service.go.
use modelo_man.Base.{String}
use modelo_man.Domain.{Host}
use modelo_man.Store.{Act, ◌>>=◌, pure, use_host}

-- The map that `Health` returns, an entry per field.
pub record HealthReport : Type 0 where
  pub status : String
  pub data_source : String
  pub time_utc : String

unfoldable pub health : (h : Host) → String → Act h.F HealthReport
health h data_source = do
  k ← use_host
  pure (record { status = "ok"; data_source = data_source; time_utc = h.format_time (h.clock k) })
