-- ===== src/Files/Tests.antt =====
-- Paths and a scope at work, on a file system with a link `/srv/app/data` to `/mnt/disk`.
use asc_daemon.Prelude.{◌≡◌, refl, List, [], ◌∷◌, ◌++◌, codes, if◌then◌else◌}
use asc_daemon.Files.Error.{done, failed, invalid_path, outside_scope}
use asc_daemon.Files.Path.{PathBuf, parse_path, show_path, child}
use asc_daemon.Files.Path.Reparse.{Normal, parse_path-show_path}
use asc_daemon.Files.Scope.{Lookup, real, absent, AppScope, path_eq, new_scope, resolve}
use asc_daemon.Files.Scope.Confined.{Confined, LeadsTo, new_scope-resolve}

abbrev srv_app : PathBuf
srv_app = codes "srv" ∷ codes "app" ∷ []

read_srv_app : parse_path (codes "/srv//./app/") ≡ done srv_app
unfolding parse_path
read_srv_app = refl

no_way_up : parse_path (codes "/srv/../etc") ≡ failed invalid_path
unfolding parse_path
no_way_up = refl

parse_path-show_path_example : Normal srv_app × (parse_path (show_path srv_app) ≡ done srv_app)
parse_path-show_path_example = parse_path-show_path (codes "/srv//./app/") srv_app read_srv_app

child_data : child srv_app (codes "data") ≡ done (srv_app ++ codes "data" ∷ [])
unfolding child
child_data = refl

abbrev disk : PathBuf
disk = codes "mnt" ∷ codes "disk" ∷ []

abbrev linked : PathBuf → Lookup
linked p =
    if path_eq p srv_app
    then real srv_app
    else if path_eq p (srv_app ++ codes "data" ∷ [])
    then real disk
    else if path_eq p disk
    then real disk
    else if path_eq p []
    then real []
    else absent

abbrev roots : List PathBuf
roots = srv_app ∷ (srv_app ++ codes "data" ∷ []) ∷ disk ∷ []

abbrev app_scope : AppScope
app_scope = record { roots = srv_app ∷ disk ∷ [] }

scope_made : new_scope linked roots ≡ done app_scope
unfolding new_scope
scope_made = refl

new_file :
    resolve linked app_scope (srv_app ++ codes "data" ∷ codes "new" ∷ [])
    ≡ done (disk ++ codes "new" ∷ [])
unfolding resolve
new_file = refl

apart : resolve linked app_scope (codes "etc" ∷ []) ≡ failed outside_scope
unfolding resolve
apart = refl

new_scope-resolve_example :
    Confined linked roots (disk ++ codes "new" ∷ [])
    × LeadsTo linked (srv_app ++ codes "data" ∷ codes "new" ∷ []) (disk ++ codes "new" ∷ [])
new_scope-resolve_example =
    new_scope-resolve linked roots app_scope (srv_app ++ codes "data" ∷ codes "new" ∷ [])
      (disk ++ codes "new" ∷ []) scope_made new_file
