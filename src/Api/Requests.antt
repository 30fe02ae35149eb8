-- ===== src/Api/Requests.antt =====
-- src/daemon/api/rest.rs and mod.rs: the requests on the tokens, and `auth` before them. A text is the list of its bytes here.
pub mod Allowed
use asc_daemon.Api.Tokens
use asc_daemon.Prelude.{
  ℕ, ◌*◌, Bool, true, false, Option, none, some, Text, List, [], ◌∷◌, if◌then◌else◌,
}
use asc_daemon.Failure.{Result, ok, err, ModuleError}
use asc_daemon.Api.Tokens.{
  second, Clock, Resolved, TokenStore, Rotation, require_primary, reject_grace, resolve,
  issue_access, revoke_all_access,
}

pub data Request : Type 0 where
  issue : Option ℕ → Text → Request
  revoke commit_rotation : Request
  rotate : Option ℕ → Request

pub data Reply : Type 0 where
  unauthorized denied no_content : Reply
  issued : Text → ℕ → Reply
  revoked : ℕ → Reply
  rotated : Result Rotation → Reply

abbrev pub rotation_grace : ℕ
rotation_grace = 300 * second

-- what a request is served with: the clocks when it is classified, before and after it is persisted, the next
-- token of `random_hex`, and whether `write_token` succeeds
pub record Facts : Type 0 where
  pub presented_at : ℕ
  pub found_at : ℕ
  pub before : Clock
  pub after : Clock
  pub token : Text
  pub persisted : Bool

abbrev grace_secs : Option ℕ → ℕ
grace_secs none = rotation_grace
grace_secs (some secs) = secs * second

abbrev from_secs : Option ℕ → Option ℕ
from_secs none = none
from_secs (some secs) = some (secs * second)

module _ (digest : Text → Text) (facts : Facts) where
  issue_for : Option ℕ → Text → TokenStore → Reply × TokenStore
  unfolding issue_access
  issue_for ttl label s =
      let (live, expires_at) =
        issue_access digest facts.before (from_secs ttl) label facts.token s.access in
      (issued facts.token expires_at, record s { access = live })

  revoke_for : TokenStore → Reply × TokenStore
  unfolding revoke_all_access
  revoke_for s =
      let (live, count) = revoke_all_access facts.before.instant s.access in
      (revoked count, record s { access = live })

  rotate_for : Option ℕ → TokenStore → Reply × TokenStore
  unfolding Tokens.rotate
  rotate_for grace s =
      let (r, s') =
        Tokens.rotate facts.before facts.after (grace_secs grace) facts.token facts.persisted s in
      (rotated r, s')

  -- `issue_access_token` … `commit_token_rotation` of rest.rs
  unfoldable pub handle : Option Resolved → Bool → Request → TokenStore → Reply × TokenStore
  unfolding require_primary reject_grace issue_for rotate_for revoke_for Tokens.commit_rotation
  handle r is_root (issue ttl label) s =
      if require_primary r is_root then issue_for ttl label s else (denied, s)
  handle r is_root revoke s = if require_primary r is_root then revoke_for s else (denied, s)
  handle r is_root (rotate grace) s =
      if require_primary r is_root then rotate_for grace s else (denied, s)
  handle r is_root commit_rotation s =
      if require_primary r is_root
      then if reject_grace r
        then (no_content, record s { primary = Tokens.commit_rotation s.primary })
        else (denied, s)
      else (denied, s)

  -- `auth`, and what it lets through
  unfoldable pub with_resolved : Option Resolved → Request → TokenStore → Reply × TokenStore
  unfolding handle
  with_resolved none request s = (unauthorized, s)
  with_resolved (some r) request s = handle (some r) true request s

  unfoldable pub serve : Text → Request → TokenStore → Reply × TokenStore
  unfolding resolve with_resolved
  serve presented request s =
      let (live, r) =
        resolve digest facts.presented_at facts.found_at presented s.primary s.access in
      with_resolved r request (record s { access = live })
