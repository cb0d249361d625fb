-- ===== src/Update/Checker.antt =====
-- internal/update/update.go: the checker's state, what a finished check means, and the status that
-- GET /api/update serves. The answer of GitHub, and Go's URL parser, come from outside.
pub mod Notices
pub mod Quiet
use lp_700_server.Prelude.{
  ℕ, Bool, true, false, not, ◌&&◌, ◌||◌, List, [], ◌∷◌, ◌++◌, Option, none, some, ltb, leb, ◌==◌,
  if◌then◌else◌, codes,
}
use lp_700_server.Prelude.Result.{Result, ok, err}
use lp_700_server.Meter.Snapshot.{Bytes, bytes_eq}
use lp_700_server.Update.Version.{Version, trim_space, parse_version}
use lp_700_server.Update.Compare.{is_newer, is_dev_version, is_nil}
use lp_700_server.Update.Schedule.{should_check}

pub record Release : Type 0 where
  pub tag_name : Bytes
  pub html_url : Bytes

pub data FetchError : Type 0 where
  no_release rate_limited unreadable network : FetchError
  http_status : ℕ → FetchError

-- What `url.Parse` and `path.Clean` say of a link.
pub record Url : Type 0 where
  pub scheme : Bytes
  pub host : Bytes
  pub has_user : Bool
  pub clean_path : Bytes

abbrev pub releases_path : Bytes
releases_path = codes "/VU3ESV/LP-700-Server/releases"

abbrev pub releases_url : Bytes
releases_url = codes "https://github.com/VU3ESV/LP-700-Server/releases"

-- `strings.HasPrefix`
abbrev pub has_prefix : Bytes → Bytes → Bool
has_prefix s [] = true
has_prefix [] (_ ∷ _) = false
has_prefix (c ∷ s) (d ∷ p) = c == d && has_prefix s p

-- A link to one of the repository's release pages.
unfoldable pub is_release_link : Option Url → Bool
is_release_link none = false
is_release_link (some u) =
    bytes_eq u.scheme (codes "https")
    && bytes_eq u.host (codes "github.com")
    && not u.has_user
    && has_prefix u.clean_path (releases_path ++ codes "/")

unfoldable pub release_page : (Bytes → Option Url) → Bytes → Bytes
release_page parse html_url = if is_release_link (parse html_url) then html_url else releases_url

-- The body part of ParseRelease.
read_release : (Bytes → Option Release) → Bytes → Result FetchError Release
read_release unmarshal body = elim (unmarshal body) [
  | none ↦ err unreadable
  | some rel ↦
      let tag = trim_space rel.tag_name in
      if bytes_eq tag [] then err unreadable else ok (record rel { tag_name = tag })
]

-- `remaining` is the header X-RateLimit-Remaining; `unmarshal` is `json.Unmarshal` into a Release.
unfoldable pub parse_release :
    (Bytes → Option Release) → ℕ → Bytes → Bytes → Result FetchError Release
unfolding read_release
parse_release unmarshal status remaining body =
    if status == 200
    then read_release unmarshal body
    else if status == 404
    then err no_release
    else if status == 429 || status == 403 && bytes_eq remaining (codes "0")
    then err rate_limited
    else err (http_status status)

pub record Checker : Type 0 where
  pub enabled : Bool
  pub current : Bytes
  pub automatic : Bool
  pub test_hook : Bool
  pub first_delay : ℕ
  pub interval : ℕ
  pub last_success : Option ℕ
  pub last_failure : Option ℕ
  pub latest : Option Release
  pub logged_tag : Bytes

-- 0 where the source's delay is not positive.
abbrev pub or_default : ℕ → ℕ → ℕ
or_default d default = if d == 0 then default else d

-- `test` is the value of the environment variable of the test hook.
unfoldable pub new_checker : Bool → Bytes → ℕ → ℕ → Bytes → Checker
new_checker enabled version first_delay interval test =
    let hook = not (bytes_eq (trim_space test) []) in
    let current = if hook then trim_space test else trim_space version in
    record {
      enabled = enabled;
      current = current;
      automatic = hook || not (is_dev_version current) && not (is_nil (parse_version current).core);
      test_hook = hook;
      first_delay = or_default first_delay 60000000000;
      interval = or_default interval 3600000000000;
      last_success = none;
      last_failure = none;
      latest = none;
      logged_tag = [];
    }

module _ (parse : Bytes → Option Url) where
  -- A success whose release is newer: the result to show, and the notice if this tag has none yet.
  note_newer : Checker → Release → Checker × Option Bytes
  note_newer c rel =
      let c' = record c {
        latest = some (record rel { html_url = release_page parse rel.html_url });
      } in
      if bytes_eq rel.tag_name c.logged_tag
      then (c', none)
      else (record c' { logged_tag = rel.tag_name }, some rel.tag_name)

  -- What a finished check means, and the tag of the notice that it logs.
  unfoldable pub record_check : Checker → Result FetchError Release → ℕ → Checker × Option Bytes
  unfolding note_newer
  record_check c (err e) now = (record c { last_failure = some now }, none)
  record_check c (ok rel) now =
      let c' = record c { last_success = some now; last_failure = none } in
      if is_newer rel.tag_name c.current
      then note_newer c' rel
      else (record c' { latest = none }, none)

  -- One round of the loop at time `now`: the answer, if a request is made, comes at time `later`, and
  -- `cancelled` says whether the server is shutting down by then. The last part is whether it was made.
  unfoldable pub check_if_due :
      Checker → ℕ → Result FetchError Release → Bool → ℕ → Checker × Option Bytes × Bool
  check_if_due c now answer cancelled later =
      if not (should_check c.last_success c.last_failure now)
      then (c, none, false)
      else if cancelled
      then (c, none, true)
      else let (c', notice) = record_check c answer later in (c', notice, true)

pub record Status : Type 0 where
  pub enabled : Bool
  pub automatic : Bool
  pub current : Bytes
  pub update_available : Bool
  pub latest : Bytes
  pub html_url : Bytes
  pub checked_at : Option ℕ

status_with : Checker → Option Release → Status
status_with c rel = record {
  enabled = c.enabled;
  automatic = c.enabled && c.automatic;
  current = c.current;
  update_available = elim rel [ none ↦ false | some r ↦ true ];
  latest = elim rel [ none ↦ [] | some r ↦ r.tag_name ];
  html_url = elim rel [ none ↦ [] | some r ↦ r.html_url ];
  checked_at = c.last_success;
}

unfoldable pub status : Checker → Status
unfolding status_with
status c = status_with c c.latest
