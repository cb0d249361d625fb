-- ===== src/Tests/UpdateRuns.antt =====
-- Runs of the release check.
use lp_700_server.Prelude.{
  ◌≡◌, ◌≢◌, refl, true, false, Option, List, [], ◌∷◌, none, some, arith, ◌<◌, ◌≤◌, ◌+◌, ◌⊎◌, inl,
  codes, All, Ordering,
}
use lp_700_server.Prelude.Result.{Result, ok}
use lp_700_server.Meter.Snapshot.{Bytes}
use lp_700_server.Update.Version.{
  Version, trim_space, display_version, trim_dirty, describe_tail, parse_rest, parse_version,
  digits, cut_dash, split_dots, parse_core,
}
use lp_700_server.Update.Compare.{compare_versions, compare_core, compare_from}
use lp_700_server.Update.Compare.Precedence.{prerelease_below}
use lp_700_server.Update.Schedule.{minimum_interval, failure_backoff}
use lp_700_server.Update.Checker.{Checker, Release, Url, FetchError, record_check}
use lp_700_server.Update.Checker.Notices.{IsShown, record_check-IsShown}
use lp_700_server.Update.Checker.Quiet.{Round, run, run_rounds, quiet, Alternates, run-Alternates}

v100_is : parse_version (codes "v1.0.0") ≡ record { core = 1 ∷ 0 ∷ 0 ∷ []; pre = []; ahead = 0 }
unfolding parse_version display_version trim_space trim_dirty describe_tail parse_rest cut_dash
    split_dots parse_core digits
v100_is = refl

abbrev rc : Version
rc = record { core = 1 ∷ 0 ∷ []; pre = codes "rc" ∷ []; ahead = 0 }

abbrev release : Version
release = record { core = 1 ∷ 0 ∷ 0 ∷ []; pre = []; ahead = 3 }

same_core : compare_core rc.core release.core ≡ Ordering.eq
unfolding compare_core compare_from
same_core = refl

has_pre : rc.pre ≢ []
has_pre e = cc e

prerelease_below_at_input : compare_versions rc release ≡ Ordering.lt
prerelease_below_at_input = prerelease_below rc release same_core has_pre refl

-- A parser that takes every link for a release page.
abbrev parse : Bytes → Option Url
parse link = some (record {
  scheme = codes "https";
  host = codes "github.com";
  has_user = false;
  clean_path = codes "/VU3ESV/LP-700-Server/releases/tag/v1.2";
})

abbrev checker : Checker
checker = record {
  enabled = true;
  current = codes "1.1";
  automatic = true;
  test_hook = false;
  first_delay = 60000000000;
  interval = 3600000000000;
  last_success = some 1000;
  last_failure = none;
  latest = none;
  logged_tag = codes "1.1";
}

abbrev answer : Result FetchError Release
answer = ok (record { tag_name = codes "1.2"; html_url = codes "https://github.com/x" })

record_check-IsShown_example :
    IsShown parse
      (record_check parse checker answer 5000).0.current
      (record_check parse checker answer 5000).0.latest
record_check-IsShown_example = record_check-IsShown parse checker answer 5000 tt

abbrev rounds : List Round
rounds =
    record { now = 2000; answer = answer; cancelled = false; later = 2100 }
    ∷ record { now = 90000; answer = answer; cancelled = false; later = 91000 }
    ∷ []

in_the_day :
    ((checker.last_success ≡ some 1000)
      × All (λ r. (1000 ≤ r.now) × (r.now < 1000 + minimum_interval)) rounds)
    ⊎ ((checker.last_failure ≡ some 1000)
        × All (λ r. (1000 ≤ r.now) × (r.now < 1000 + failure_backoff)) rounds)
in_the_day = inl (refl, ((omega arith, omega arith), ((omega arith, omega arith), tt)))

quiet_example : run parse checker rounds ≡ (checker, [], 0)
quiet_example = quiet parse checker rounds 1000 in_the_day

abbrev later_rounds : List Round
later_rounds =
    record { now = 90000000000000; answer = answer; cancelled = false; later = 90000000000001 }
    ∷ record { now = 190000000000000; answer = answer; cancelled = false; later = 190000000000001 }
    ∷ []

run-Alternates_example : Alternates parse (codes "1.1") (run_rounds parse checker later_rounds).1
run-Alternates_example = run-Alternates parse checker later_rounds
