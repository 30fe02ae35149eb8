-- ===== src/Api/Tests.antt =====
-- The tokens of the API at work. In the tests a digest is the token itself.
use asc_daemon.Prelude.{
  ℕ, ◌≡◌, refl, ◌↔◌, true, Option, none, some, Text, [], ◌∷◌, ◌*◌, ◌⊎◌, codes, All,
}
use asc_daemon.Api.Tokens.{
  AccessEntry, second, Clock, AccessMap, primary, Resolved, of_kind, of_access, constant_time_eq,
  resolve, issue_access, find_entry, sweep, resolve_access, resolve_primary,
}
use asc_daemon.Api.Tokens.Secret.{constant_time_eq_iff}
use asc_daemon.Api.Tokens.Sections.{issue, revoke, replace, History, start, after}
use asc_daemon.Api.Tokens.Recognised.{Recognised, resolve-Recognised}
use asc_daemon.Api.Tokens.Alive.{Bounded, after-Bounded}
use asc_daemon.Api.Tokens.Granting.{Granted, Stays, issue_access_lem}
use asc_daemon.Api.Requests.{Request, Facts, serve}
use asc_daemon.Api.Requests.Allowed.{InGrace, serve-Allowed}

abbrev plain : Text → Text
plain t = t

abbrev at_second : ℕ → Clock
at_second n = record { instant = n * second; system = n * second }

-- A rotation at second 5, with a grace of a minute; an access token is issued between its two locks.
abbrev rotated : History
rotated =
    (at_second 6, replace (60 * second) (codes "new"))
    ∷ (at_second 5, issue none (codes "ci") (codes "in between"))
    ∷ (at_second 5, revoke)
    ∷ (at_second 1, issue none (codes "ci") (codes "early"))
    ∷ []

unfoldable recognised_at : ℕ → Text → Option Resolved
unfolding resolve after
recognised_at n presented =
    let s = after plain (codes "old") rotated in
    (resolve plain (n * second) (n * second) presented s.primary s.access).1

old_in_grace :
    recognised_at 60 (codes "old")
    ≡ some (record { kind = primary; grace = true; expires_at = none })
unfolding recognised_at resolve_primary constant_time_eq
old_in_grace = refl

old_after_grace : recognised_at 66 (codes "old") ≡ none
unfolding recognised_at resolve_primary constant_time_eq
old_after_grace = refl

early_is_revoked : recognised_at 7 (codes "early") ≡ none
unfolding recognised_at resolve_primary constant_time_eq
early_is_revoked = refl

-- a token minted under the old primary outlives it
in_between_survives : recognised_at 66 (codes "in between") ≡ some (of_access 605)
unfolding recognised_at resolve_primary constant_time_eq
in_between_survives = refl

same_secret : (constant_time_eq (codes "ab") (codes "ab") ≡ true) ↔ (codes "ab" ≡ codes "ab")
same_secret = constant_time_eq_iff (codes "ab") (codes "ab")

resolve-Recognised_example :
    Recognised plain
      (codes "old")
      rotated
      rotated
      (7 * second)
      (7 * second)
      (codes "new")
      (resolve plain
        (7 * second)
        (7 * second)
        (codes "new")
        (after plain (codes "old") rotated).primary
        (after plain (codes "old") rotated).access).1
    × (codes "new" ≡ codes "new"
        → (resolve plain
            (7 * second)
            (7 * second)
            (codes "new")
            (after plain (codes "old") rotated).primary
            (after plain (codes "old") rotated).access).1
          ≡ some (of_kind primary))
resolve-Recognised_example =
    resolve-Recognised plain (codes "old") rotated rotated (7 * second) (7 * second) (codes "new")

after-Bounded_example : Bounded (after plain (codes "old") rotated).access
after-Bounded_example = after-Bounded plain (codes "old") rotated

abbrev early : AccessMap
early =
    (codes "early", record { expires = 601 * second; expires_at = 601; label = codes "ci" }) ∷ []

abbrev issued_next : AccessMap × ℕ
issued_next = issue_access plain (at_second 2) none [] (codes "next") early

issue_access_lem_example :
    ((e : AccessEntry) × Granted (at_second 2) none [] e
      × (find_entry (codes "next") issued_next.0 ≡ some e)
      × (issued_next.1 ≡ e.expires_at))
    × All (Stays (codes "next") (sweep (2 * second) early) issued_next.0) (sweep (2 * second) early)
issue_access_lem_example =
    issue_access_lem plain (at_second 2) none [] (codes "next") early (refl, tt)

abbrev facts : Facts
facts = record {
  presented_at = 7 * second;
  found_at = 7 * second;
  before = at_second 7;
  after = at_second 8;
  token = codes "newest";
  persisted = true;
}

serve-Allowed_example :
    ((serve plain facts (codes "early") (Request.rotate none) (start (codes "old"))).1 ≡ record {
      primary = (start (codes "old")).primary;
      access = (resolve_access plain (7 * second) (codes "early") []).0;
    })
    ⊎ (codes "early" ≡ codes "old")
    ⊎ (InGrace (7 * second) (codes "early") (start (codes "old")).primary
        × (◌≡◌ {A = Request} (Request.rotate none) Request.commit_rotation
            → (serve plain facts (codes "early") (Request.rotate none) (start (codes "old"))).1
              ≡ start (codes "old")))
serve-Allowed_example =
    serve-Allowed plain facts (codes "early") (Request.rotate none) (start (codes "old"))
