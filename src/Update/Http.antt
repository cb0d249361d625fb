-- ===== src/Update/Http.antt =====
-- internal/update/update.go: the request to the releases API (fetchLatest) and the answer at /api/update
-- (ServeHTTP). The HTTP client is a parameter.
use lp_700_server.Prelude.{
  ℕ, ◌*◌, Bool, not, ◌&&◌, ◌++◌, Option, none, some, codes, take, if◌then◌else◌,
}
use lp_700_server.Prelude.Result.{Result, err}
use lp_700_server.Meter.Snapshot.{Bytes, bytes_eq}
use lp_700_server.Update.Version.{display_version}
use lp_700_server.Update.Checker.{
  Checker, Status, status, Release, FetchError, network, parse_release,
}
use lp_700_server.Web.{Request, Response, encode, write_json_error}

-- What is asked of the server.
pub record ApiRequest : Type 0 where
  pub target : Bytes
  pub accept : Bytes
  pub user_agent : Bytes

-- Its answer: the whole body is what the connection would deliver; `readable` is false where reading it
-- fails.
pub record Answer : Type 0 where
  pub status : ℕ
  pub remaining : Bytes
  pub body : Bytes
  pub readable : Bool

abbrev pub max_body : ℕ
max_body = 1024 * 1024

abbrev pub product_name : Bytes
product_name = codes "LP-700-Server"

unfoldable pub api_request : Bytes → Bytes → ApiRequest
api_request target version = record {
  target = target;
  accept = codes "application/vnd.github+json";
  user_agent = product_name ++ codes "/" ++ display_version version;
}

-- `is_url` says whether http.NewRequestWithContext takes the target, `send` is `client.Do`.
module _ (is_url : Bytes → Bool) (send : ApiRequest → Option Answer)
    (unmarshal : Bytes → Option Release) where
  read_answer : Option Answer → Result FetchError Release
  read_answer none = err network
  read_answer (some a) =
      if a.readable
      then parse_release unmarshal a.status a.remaining (take max_body a.body)
      else err network

  unfoldable pub fetch_latest : Bytes → Bytes → Result FetchError Release
  unfolding read_answer
  fetch_latest target version =
      if is_url target then read_answer (send (api_request target version)) else err network

-- `ServeHTTP`
unfoldable pub serve_http {ℓ} : {A : Type ℓ} → Checker → Request A → Response Status
serve_http c r =
    if not (bytes_eq r.method (codes "GET")) && not (bytes_eq r.method (codes "HEAD"))
    then write_json_error (codes "GET, HEAD") 405 (codes "method not allowed")
    else encode (status c)
