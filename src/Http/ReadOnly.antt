-- ===== src/Http/ReadOnly.antt =====
-- What a request over HTTP changes.
use modelo_man.Base.{
  ℤ, pos, String, Bool, true, false, Option, none, some, ◌≡◌, refl, ◌==◌, if◌then◌else◌,
}
use modelo_man.Domain.{Host}
use modelo_man.Store.{Act, World}
use modelo_man.Store.Keys.{KeepsStore, stored}
use modelo_man.Service.Reads.{
  telemetry_summary-KeepsStore, get_policy-KeepsStore, list_policy_caps-KeepsStore,
  leaderboard-KeepsStore,
}
use modelo_man.Server.Wire.{Response}
use modelo_man.Http.{
  Status, bad_request, internal_server_error, Request, count_or, handle, board_with,
  serve_leaderboard, serve_http,
}

-- The reply was made without a change of the store or the disk.
record Unchanged {F A : Type 0} (w : World F) (x : A × World F) : Type 0 where
  pub same : stored x.1 ≡ stored w

module _ {F A : Type 0} (w : World F) where
  either-Unchanged :
      (c : Bool) (a b : A × World F)
      → Unchanged w a
      → Unchanged w b
      → Unchanged w (if c then a else b)
  either-Unchanged true a b e f = e
  either-Unchanged false a b e f = f

  reply-Unchanged : (a : A) → Unchanged w (a, w)
  reply-Unchanged a = record { same = refl }

module _ (h : Host) where
  open h use {F}

  handle-Unchanged :
      {A : Type 0} (failure : Status) (write : A → Response F) (call : Act F A) (w : World F)
      → KeepsStore call
      → Unchanged w (handle h failure write call w)
  unfolding handle
  handle-Unchanged failure write call w k = record { same = k.at w }

  board-Unchanged :
      (r : Request) (limit days : Option ℤ) (w : World F)
      → Unchanged w (board_with h r limit days w)
  board-Unchanged r none days w = reply-Unchanged w _
  board-Unchanged r (some limit) none w = reply-Unchanged w _
  board-Unchanged r (some limit) (some days) w =
      handle-Unchanged bad_request Response.leaderboard _ w (leaderboard-KeepsStore h _)

  served-Unchanged :
      (parse_int : String → Option ℤ) (r : Request) (w : World F)
      → Unchanged w (serve_http h parse_int r w)
  unfolding serve_http serve_leaderboard
  served-Unchanged parse_int r w =
      let summary =
        handle-Unchanged internal_server_error Response.telemetry _ w
          (telemetry_summary-KeepsStore h) in
      let policy =
        handle-Unchanged internal_server_error Response.policy _ w (get_policy-KeepsStore h) in
      let caps =
        handle-Unchanged internal_server_error Response.caps _ w (list_policy_caps-KeepsStore h) in
      let board =
        board-Unchanged r (count_or parse_int (r.query "limit") (pos 20))
          (count_or parse_int (r.query "window_days") (pos 0)) w in
      either-Unchanged w (r.path == "/healthz") _ _ (reply-Unchanged w _) (
        either-Unchanged w (r.path == "/api/telemetry-summary") _ _ summary (
          either-Unchanged w (r.path == "/api/policy") _ _ policy (
            either-Unchanged w (r.path == "/api/policy-caps") _ _ caps
              (either-Unchanged w (r.path == "/api/leaderboard") _ _ board (reply-Unchanged w _)))))

  -- A request over HTTP, whatever its path and its query, leaves the store and the disk as they were.
  pub stored-serve_http :
      (parse_int : String → Option ℤ) (r : Request) (w : World F)
      → stored (serve_http h parse_int r w).1 ≡ stored w
  stored-serve_http parse_int r w = (served-Unchanged parse_int r w).same
