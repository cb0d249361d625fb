-- ===== src/Update/Checker/Notices.antt =====
-- What the checker logs and shows (update.go, record and Status).
use lp_700_server.Prelude.{
  ℕ, ◌≡◌, ◌≢◌, refl, ◌⊎◌, inl, inr, ◌↔◌, Bool, true, false, not, ◌&&◌, [], ◌∷◌, ◌++◌, codes, Option,
  none, some, arith, Bool-cases,
}
use lp_700_server.Prelude.Result.{Result, ok, err}
use lp_700_server.Meter.Snapshot.{Bytes, bytes_eq}
use lp_700_server.Meter.Snapshot.Deadband.{bytes_eq_iff}
use lp_700_server.Update.Compare.{is_newer}
use lp_700_server.Update.Checker.{
  Checker, Release, Url, FetchError, is_release_link, release_page, record_check, has_prefix,
}

has_prefix-append : (s p : Bytes) → has_prefix s p ≡ true → (rest : Bytes) × (s ≡ p ++ rest)
has_prefix-append s [] h = (s, refl)
has_prefix-append [] (d ∷ p) h = absurd (cc h)
has_prefix-append (c ∷ s) (d ∷ p) h =
    let (rest, e) = has_prefix-append s p (ground arith) in (rest, cc (same, e))
  where
    same : c ≡ d
    same = ground arith

each :
    (a b x d : Bool)
    → (a && b && not x && d) ≡ true
    → (a ≡ true) × (b ≡ true) × (x ≡ false) × (d ≡ true)
each a b x d h = ground arith

module _ (parse : Bytes → Option Url) where
  -- A release page of the repository: https at github.com without user info, and a path, after
  -- normalisation, below the repository's releases.
  abbrev pub IsReleasePage : Bytes → Type 0
  IsReleasePage link =
      (u : Url) × (parse link ≡ some u)
      × (u.scheme ≡ codes "https")
      × (u.host ≡ codes "github.com")
      × (u.has_user ≡ false)
      × ((page : Bytes) × (u.clean_path ≡ codes "/VU3ESV/LP-700-Server/releases/" ++ page))

  -- A link that the operator may be sent to.
  abbrev pub IsTrusted : Bytes → Type 0
  IsTrusted link =
      (link ≡ codes "https://github.com/VU3ESV/LP-700-Server/releases") ⊎ IsReleasePage link

  is_release_link-IsReleasePage :
      (link : Bytes) (r : Option Url)
      → parse link ≡ r
      → is_release_link r ≡ true
      → IsReleasePage link
  unfolding is_release_link
  is_release_link-IsReleasePage link none e h = absurd (cc h)
  is_release_link-IsReleasePage link (some u) e h =
      let (scheme, host, no_user, below) = each _ _ u.has_user _ h in
      (
        u,
        e,
        (bytes_eq_iff u.scheme (codes "https")).0 scheme,
        (bytes_eq_iff u.host (codes "github.com")).0 host,
        no_user,
        has_prefix-append u.clean_path (codes "/VU3ESV/LP-700-Server/releases/") below,
      )

  release_page-IsTrusted : (link : Bytes) → IsTrusted (release_page parse link)
  unfolding release_page
  release_page-IsTrusted link = elim (Bool-cases (is_release_link (parse link))) [
    | inl e ↦ rw e (inr (is_release_link-IsReleasePage link (parse link) refl e))
    | inr e ↦ rw e (inl refl)
  ]

  -- The release that the checker shows is newer than the running version, and its link is trusted.
  abbrev pub IsShown : Bytes → Option Release → Type 0
  IsShown current none = Unit {0}
  IsShown current (some r) = (is_newer r.tag_name current ≡ true) × IsTrusted r.html_url

  -- A finished check, failed or not, keeps this: the release that the checker shows, if any, is
  -- newer than the running version, and its link is the releases list or an https link to github.com,
  -- without user info, whose normalised path lies below the repository's releases.
  pub record_check-IsShown :
      (c : Checker) (answer : Result FetchError Release) (now : ℕ)
      → IsShown c.current c.latest
      → IsShown
          (record_check parse c answer now).0.current
          (record_check parse c answer now).0.latest
  unfolding record_check
  record_check-IsShown c (err e) now h = h
  record_check-IsShown c (ok rel) now h = elim (Bool-cases (is_newer rel.tag_name c.current)) [
    | inr old ↦ rw old tt
    | inl new ↦ elim (Bool-cases (bytes_eq rel.tag_name c.logged_tag)) [
      | inl again ↦ rw new (rw again (new, release_page-IsTrusted rel.html_url))
      | inr first ↦ rw new (rw first (new, release_page-IsTrusted rel.html_url))
    ]
  ]

  -- A notice is logged exactly for a successful answer whose release is newer than the running version
  -- and has another tag than the last notice; its tag is remembered, so the next answer with that tag
  -- logs nothing.
  pub record_check_notice_iff :
      (c : Checker) (rel : Release) (now : ℕ) (tag : Bytes)
      → ((record_check parse c (ok rel) now).1 ≡ some tag) ↔ (
          (tag ≡ rel.tag_name)
          × (is_newer rel.tag_name c.current ≡ true)
          × (rel.tag_name ≢ c.logged_tag))
  unfolding record_check
  record_check_notice_iff c rel now tag = (
    (λ h. (
      ground arith,
      ground arith,
      λ e. notice_new h ((bytes_eq_iff rel.tag_name c.logged_tag).1 e),
    )),
    (λ (t, new, first). elim (Bool-cases (bytes_eq rel.tag_name c.logged_tag)) [
      | inl same ↦ absurd (first ((bytes_eq_iff rel.tag_name c.logged_tag).0 same))
      | inr other ↦ rw (new, t) (rw other)
    ]),
  )
    where
      notice_new :
          (record_check parse c (ok rel) now).1 ≡ some tag
          → bytes_eq rel.tag_name c.logged_tag ≡ true
          → ⊥
      notice_new h e = ground arith

  -- A check logs nothing and remembers the tag it knew, or it logs another tag and remembers that one.
  pub record_check_notice-cases :
      (c : Checker) (answer : Result FetchError Release) (now : ℕ)
      → (((record_check parse c answer now).1 ≡ none)
          × ((record_check parse c answer now).0.logged_tag ≡ c.logged_tag))
        ⊎ ((t : Bytes) × ((record_check parse c answer now).1 ≡ some t)
            × (t ≢ c.logged_tag)
            × ((record_check parse c answer now).0.logged_tag ≡ t))
  unfolding record_check
  record_check_notice-cases c (err e) now = inl (refl, refl)
  record_check_notice-cases c (ok rel) now = elim (Bool-cases (is_newer rel.tag_name c.current)) [
    | inr old ↦ rw old (inl (refl, refl))
    | inl new ↦ elim (Bool-cases (bytes_eq rel.tag_name c.logged_tag)) [
      | inl again ↦ rw new (rw again (inl (refl, refl)))
      | inr first ↦ rw new (rw first (inr (rel.tag_name, refl, other first, refl)))
    ]
  ]
    where
      other : bytes_eq rel.tag_name c.logged_tag ≡ false → rel.tag_name ≢ c.logged_tag
      other h e = cc (h, (bytes_eq_iff rel.tag_name c.logged_tag).1 e)
