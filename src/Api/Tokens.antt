-- ===== src/Api/Tokens.antt =====
-- src/daemon/api/tokens.rs: `TokenStore`, in the sections that its locks make. A text is the list of its bytes here.
pub mod Secret
pub mod Sections
pub mod Recognised
pub mod Entries
pub mod Soonest
pub mod Room
pub mod Alive
pub mod Granting
use Prim.Native.Nat.{bit_or, bit_xor}
use asc_daemon.Prelude.{
  ℕ, zero, suc, ◌+◌, ◌*◌, ◌/◌, ◌-◌, ◌≡◌, Bool, true, false, ◌&&◌, not, Option, none, some, Text,
  List, [], ◌∷◌, text_eq, length, retain, min, ltb, leb, ◌==◌, if◌then◌else◌,
}
use asc_daemon.Failure.{Result, ok, err, internal}

-- `Instant` and `SystemTime` in nanoseconds
abbrev pub second : ℕ
second = 1000000000

pub record Clock : Type 0 where
  pub instant : ℕ
  pub system : ℕ

abbrev pub access_ttl : ℕ
access_ttl = 600 * second

abbrev pub access_ttl_max : ℕ
access_ttl_max = 3600 * second

abbrev pub max_live_access : ℕ
max_live_access = 64

abbrev pub rotation_grace_max : ℕ
rotation_grace_max = 3600 * second

pub data TokenKind : Type 0 where
  primary access local_peer : TokenKind

pub record Resolved : Type 0 where
  pub kind : TokenKind
  pub grace : Bool
  pub expires_at : Option ℕ

abbrev pub of_kind : TokenKind → Resolved
of_kind kind = record { kind = kind; grace = false; expires_at = none }

abbrev pub of_access : ℕ → Resolved
of_access expires_at = record {
  kind = TokenKind.access;
  grace = false;
  expires_at = some expires_at;
}

pub record Primary : Type 0 where
  pub current : Text
  pub previous : Option (Text × ℕ)

pub record AccessEntry : Type 0 where
  pub expires : ℕ
  pub expires_at : ℕ
  pub label : Text

-- `HashMap` of the digests
abbrev pub AccessMap : Type 0
AccessMap = List (Text × AccessEntry)

pub record TokenStore : Type 0 where
  pub primary : Primary
  pub access : AccessMap

-- `require_primary`
unfoldable pub require_primary : Option Resolved → Bool → Bool
require_primary none is_root = false
require_primary (some r) is_root = elim r.kind [
  | primary ↦ true
  | access ↦ false
  | local_peer ↦ is_root
]

-- `reject_grace`: whether it lets the caller through
unfoldable pub reject_grace : Option Resolved → Bool
reject_grace none = true
reject_grace (some r) = not r.grace

-- the fold of `constant_time_eq`
unfoldable pub difference : ℕ → Text → Text → ℕ
difference acc [] b = acc
difference acc (x ∷ a) [] = acc
difference acc (x ∷ a) (y ∷ b) = difference (bit_or acc (bit_xor x y)) a b

unfoldable pub constant_time_eq : Text → Text → Bool
unfolding difference
constant_time_eq a b = if not (length a == length b) then false else difference 0 a b == 0

unfoldable pub unix_seconds : ℕ → ℕ
unix_seconds at = at / second

-- `sweep`
unfoldable pub sweep : ℕ → AccessMap → AccessMap
sweep now live = retain (λ e. ltb now e.1.expires) live

-- `get`, `insert` and `remove` of the map
unfoldable pub find_entry : Text → AccessMap → Option AccessEntry
unfolding text_eq
find_entry key [] = none
find_entry key ((k, e) ∷ live) =
    let rest = find_entry key live in if text_eq k key then some e else rest

unfoldable pub insert_entry : Text → AccessEntry → AccessMap → AccessMap
unfolding text_eq
insert_entry key e [] = (key, e) ∷ []
insert_entry key e ((k, f) ∷ live) =
    let rest = insert_entry key e live in if text_eq k key then (key, e) ∷ live else (k, f) ∷ rest

unfoldable pub remove_entry : Text → AccessMap → AccessMap
unfolding text_eq
remove_entry key live = retain (λ e. not (text_eq e.0 key)) live

-- `min_by_key(expires)`, the first in the order of the list
unfoldable pub soonest_from : Text × AccessEntry → AccessMap → Text × AccessEntry
soonest_from best [] = best
soonest_from best (e ∷ live) =
    soonest_from (if ltb e.1.expires best.1.expires then e else best) live

unfoldable pub remove_soonest : AccessMap → AccessMap
unfolding soonest_from remove_entry
remove_soonest [] = []
remove_soonest (e ∷ live) = remove_entry (soonest_from e live).0 (e ∷ live)

-- the loop of `issue_access`, on fuel
unfoldable pub evict : ℕ → AccessMap → AccessMap
unfolding remove_soonest
evict zero live = live
evict (suc fuel) live =
    let rest = evict fuel (remove_soonest live) in
    if leb max_live_access (length live) then rest else live

-- the lifetime that is granted: `unwrap_or(ACCESS_TTL).clamp(1 s, ACCESS_TTL_MAX)`
abbrev clamp_ttl : ℕ → ℕ
clamp_ttl ttl =
    if ltb ttl second then second else if ltb access_ttl_max ttl then access_ttl_max else ttl

unfoldable pub granted_ttl : Option ℕ → ℕ
granted_ttl none = clamp_ttl access_ttl
granted_ttl (some ttl) = clamp_ttl ttl

-- the part of `resolve` under the lock of the primary
abbrev pub grace_token : ℕ → Text → Option (Text × ℕ) → Option Resolved
grace_token now presented none = none
grace_token now presented (some (previous, deadline)) =
    if ltb now deadline && constant_time_eq presented previous
    then some (record { kind = TokenKind.primary; grace = true; expires_at = none })
    else none

unfoldable pub resolve_primary : ℕ → Text → Primary → Option Resolved
resolve_primary now presented p =
    if constant_time_eq presented p.current
    then some (of_kind TokenKind.primary)
    else grace_token now presented p.previous

-- the part of `rotate` under the lock of the primary
unfoldable pub replace_primary : ℕ → ℕ → Text → Primary → Primary
replace_primary now grace token p = record {
  current = token;
  previous = if grace == 0 then none else some (p.current, now + grace);
}

-- the entry of a new access token
unfoldable pub new_entry : Clock → Option ℕ → Text → AccessEntry
unfolding granted_ttl unix_seconds
new_entry clock ttl label = record {
  expires = clock.instant + granted_ttl ttl;
  expires_at = unix_seconds (clock.system + granted_ttl ttl);
  label = label;
}

abbrev pub or_access :
    AccessMap → AccessMap × Option Resolved → Option Resolved → AccessMap × Option Resolved
or_access live next none = next
or_access live next (some r) = (live, some r)

-- `Sha256::digest` is not code of the repository.
module _ (digest : Text → Text) where
  -- the part of `resolve` under the lock of the access tokens
  unfoldable pub resolve_access : ℕ → Text → AccessMap → AccessMap × Option Resolved
  unfolding sweep find_entry
  resolve_access now presented live =
      let swept = sweep now live in
      (
        swept,
        elim (find_entry (digest presented) swept) [
          | none ↦ none
          | some e ↦ some (of_access e.expires_at)
        ],
      )

  -- `resolve`: the primary and the access tokens are read one after the other
  unfoldable pub resolve : ℕ → ℕ → Text → Primary → AccessMap → AccessMap × Option Resolved
  resolve now later presented p live =
      or_access live (resolve_access later presented live) (resolve_primary now presented p)

  -- `issue_access`, of the `token` that `random_hex` gives
  unfoldable pub issue_access : Clock → Option ℕ → Text → Text → AccessMap → AccessMap × ℕ
  unfolding new_entry sweep evict insert_entry
  issue_access clock ttl label token live =
      let entry = new_entry clock ttl label in
      let swept = sweep clock.instant live in
      (insert_entry (digest token) entry (evict (length swept) swept), entry.expires_at)

-- `revoke_all_access`
unfoldable pub revoke_all_access : ℕ → AccessMap → AccessMap × ℕ
unfolding sweep
revoke_all_access now live = ([], length (sweep now live))

pub record Rotation : Type 0 where
  pub token : Text
  pub rotated_at : ℕ
  pub grace_until : Option ℕ
  pub revoked : ℕ

-- `rotate`: the clocks before and after `persist`, and whether that succeeds
unfoldable pub rotate : Clock → Clock → ℕ → Text → Bool → TokenStore → Result Rotation × TokenStore
unfolding revoke_all_access replace_primary unix_seconds
rotate before after requested token persisted store =
    let (live, revoked) = revoke_all_access before.instant store.access in
    let grace = min requested rotation_grace_max in
    if persisted
    then (
      ok (record {
        token = token;
        rotated_at = unix_seconds after.system;
        grace_until = if grace == 0 then none else some (unix_seconds (after.system + grace));
        revoked = revoked;
      }),
      record { primary = replace_primary after.instant grace token store.primary; access = live },
    )
    else (err internal, record store { access = live })

-- `commit_rotation`
unfoldable pub commit_rotation : Primary → Primary
commit_rotation p = record p { previous = none }
