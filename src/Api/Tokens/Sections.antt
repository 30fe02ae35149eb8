-- ===== src/Api/Tokens/Sections.antt =====
-- src/daemon/api/tokens.rs: the sections that the operations make of the locks, in any order, and what they leave to know.
use asc_daemon.Prelude.{
  ℕ, ◌≡◌, ◌+◌, ◌⊎◌, Option, none, some, Text, List, [], ◌∷◌, min, ◌==◌, if◌then◌else◌,
}
use asc_daemon.Api.Tokens.{
  Clock, AccessEntry, TokenStore, rotation_grace_max, new_entry, issue_access, revoke_all_access,
  resolve_access, replace_primary, commit_rotation,
}

-- A rotation is `revoke`, then the write of the file, then `replace` if that succeeds.
pub data Section : Type 0 where
  issue : Option ℕ → Text → Text → Section
  revoke : Section
  replace : ℕ → Text → Section
  commit : Section
  look_up : Text → Section

-- the last section first
abbrev pub History : Type 0
History = List (Clock × Section)

abbrev pub start : Text → TokenStore
start token = record { primary = record { current = token; previous = none }; access = [] }

-- The current primary is the one of the last replacement.
abbrev pub current_of : Text → History → Text
current_of token [] = token
current_of token ((c, replace grace new) ∷ h) = new
current_of token ((c, issue ttl label new) ∷ h) = current_of token h
current_of token ((c, revoke) ∷ h) = current_of token h
current_of token ((c, commit) ∷ h) = current_of token h
current_of token ((c, look_up presented) ∷ h) = current_of token h

-- The one before it, and until when it works: unless the replacement was without grace, or has been confirmed.
abbrev pub previous_of : Text → History → Option (Text × ℕ)
previous_of token [] = none
previous_of token ((c, replace grace new) ∷ h) =
    if min grace rotation_grace_max == 0
    then none
    else some (current_of token h, c.instant + min grace rotation_grace_max)
previous_of token ((c, issue ttl label new) ∷ h) = previous_of token h
previous_of token ((c, revoke) ∷ h) = previous_of token h
previous_of token ((c, commit) ∷ h) = none
previous_of token ((c, look_up presented) ∷ h) = previous_of token h

module _ (digest : Text → Text) where
  unfoldable pub take_place : Clock × Section → TokenStore → TokenStore
  unfolding issue_access revoke_all_access resolve_access replace_primary commit_rotation
  take_place (c, issue ttl label token) s = record s {
    access = (issue_access digest c ttl label token s.access).0;
  }
  take_place (c, revoke) s = record s { access = (revoke_all_access c.instant s.access).0 }
  take_place (c, replace grace token) s = record s {
    primary = replace_primary c.instant (min grace rotation_grace_max) token s.primary;
  }
  take_place (c, commit) s = record s { primary = commit_rotation s.primary }
  take_place (c, look_up presented) s = record s {
    access = (resolve_access digest c.instant presented s.access).0;
  }

  unfoldable pub after : Text → History → TokenStore
  unfolding take_place
  after token [] = start token
  after token (section ∷ h) = take_place section (after token h)

  -- An access token with the digest `key` was issued, as `e` says, and none have been revoked since.
  abbrev pub Issued : History → Text → AccessEntry → Type 0
  Issued [] key e = ⊥
  Issued ((c, issue ttl label token) ∷ h) key e =
      ((key ≡ digest token) × (e ≡ new_entry c ttl label)) ⊎ Issued h key e
  Issued ((c, revoke) ∷ h) key e = ⊥
  Issued ((c, replace grace token) ∷ h) key e = Issued h key e
  Issued ((c, commit) ∷ h) key e = Issued h key e
  Issued ((c, look_up presented) ∷ h) key e = Issued h key e
