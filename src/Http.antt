-- ===== src/Http.antt =====
-- internal/transport/http/server.go: the pages and the JSON that the hub serves over HTTP. What
-- `encoding/json` makes of a value is not part of a reply here; it does not change its status.
pub mod ReadOnly
use modelo_man.Base.{
  ℤ, pos, ltb_ℤ, String, Bool, true, false, Option, none, some, List, ◌==◌, trim_space,
  if◌then◌else◌,
}
use modelo_man.Domain.{Host, AppError, error_text}
use modelo_man.Store.{Act, World, Result, ok, err}
use modelo_man.Store
use modelo_man.Service.Requests.{LeaderboardRequest}
use modelo_man.Service.Summary.{telemetry_summary}
use modelo_man.Service.Leaderboard.{leaderboard}
use modelo_man.Service.Policy
use modelo_man.Server.Wire.{Response}

-- `http.StatusOK`, `http.StatusBadRequest` and `http.StatusInternalServerError`.
pub data Status : Type 0 where
  status_ok bad_request internal_server_error : Status

-- The payload of `writeJSON`, or the page of the leaderboard.
pub data Body (F : Type 0) : Type 0 where
  page : Body F
  health : Body F
  value : Response F → Body F
  error : String → Body F

-- A request: its path, what `r.URL.Query().Get` and `r.Header.Get` give for a name, and where it comes
-- from. The handlers read the first two only.
pub record Request : Type 0 where
  pub path : String
  pub query : String → String
  pub header : String → String
  pub remote_addr : String

-- A query value: the default where it is blank, or a number that is not negative.
unfoldable pub count_or : (String → Option ℤ) → String → ℤ → Option ℤ
count_or parse_int raw default =
    if trim_space raw == "" then some default else elim (parse_int (trim_space raw)) [
      | none ↦ none
      | some n ↦ if ltb_ℤ n (pos 0) then none else some n
    ]

module _ (h : Host) where
  open h use {F}

  -- What the service returned, or its error with this status.
  abbrev pub answered : {A : Type 0} → Status → (A → Response F) → Result A → Status × Body F
  answered failure write (ok a) = (status_ok, value (write a))
  answered failure write (err e) = (failure, error (error_text e))

  unfoldable pub handle :
      {A : Type 0} → Status → (A → Response F) → Act F A → World F → (Status × Body F) × World F
  handle failure write call w = let (r, w') = call w in (answered failure write r, w')

  abbrev pub board_request : Request → ℤ → ℤ → LeaderboardRequest
  board_request r window_days limit = record {
    workflow = trim_space (r.query "workflow");
    model = trim_space (r.query "model");
    prompt_version = trim_space (r.query "prompt_version");
    window_days = window_days;
    limit = limit;
  }

  abbrev pub refuse : String → World F → (Status × Body F) × World F
  refuse message w = ((bad_request, error message), w)

  -- The handler of the leaderboard, from its two numbers.
  abbrev pub board_with : Request → Option ℤ → Option ℤ → World F → (Status × Body F) × World F
  board_with r none days w = refuse "limit must be non-negative int64" w
  board_with r (some limit) none w = refuse "window_days must be non-negative int64" w
  board_with r (some limit) (some days) w =
      handle bad_request Response.leaderboard (leaderboard h (board_request r days limit)) w

  unfoldable pub serve_leaderboard :
      (String → Option ℤ) → Request → World F → (Status × Body F) × World F
  unfolding count_or handle
  serve_leaderboard parse_int r w =
      board_with r (count_or parse_int (r.query "limit") (pos 20))
        (count_or parse_int (r.query "window_days") (pos 0)) w

  -- The handlers of `NewServer`, by the path; the pattern "/" takes every other one.
  unfoldable pub serve_http : (String → Option ℤ) → Request → World F → (Status × Body F) × World F
  unfolding handle serve_leaderboard
  serve_http parse_int r w =
      if r.path == "/healthz"
      then ((status_ok, health), w)
      else if r.path == "/api/telemetry-summary"
      then handle internal_server_error Response.telemetry (telemetry_summary h) w
      else if r.path == "/api/policy"
      then handle internal_server_error Response.policy (Store.get_policy h) w
      else if r.path == "/api/policy-caps"
      then handle internal_server_error Response.caps (Policy.list_policy_caps h) w
      else if r.path == "/api/leaderboard"
      then serve_leaderboard parse_int r w
      else ((status_ok, page), w)
