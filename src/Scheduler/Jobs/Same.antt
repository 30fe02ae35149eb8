-- ===== src/Scheduler/Jobs/Same.antt =====
-- src/daemon/scheduler/jobs.rs: the derived `PartialEq` of `JobAction` and of `Job`.
use asc_daemon.Prelude.{
  Bool, true, false, ◌&&◌, bool_eq, Option, none, some, Text, List, [], ◌∷◌, text_eq, ◌==◌,
}
use asc_daemon.Scheduler.Job.{
  JobAction, node_reboot, app_start, app_stop, app_restart, app_update, backup, shell, http, Job,
}

abbrev pub option_eq : {A : Type 0} → (A → A → Bool) → Option A → Option A → Bool
option_eq eq none none = true
option_eq eq (some a) (some b) = eq a b
option_eq eq _ _ = false

abbrev pub list_eq : {A : Type 0} → (A → A → Bool) → List A → List A → Bool
list_eq eq [] [] = true
list_eq eq (a ∷ xs) (b ∷ ys) = eq a b && list_eq eq xs ys
list_eq eq _ _ = false

abbrev pub pair_eq : Text × Text → Text × Text → Bool
pair_eq p q = text_eq p.0 q.0 && text_eq p.1 q.1

unfoldable pub action_eq : JobAction → JobAction → Bool
unfolding text_eq
action_eq node_reboot node_reboot = true
action_eq (app_start a) (app_start b) = text_eq a b
action_eq (app_stop a) (app_stop b) = text_eq a b
action_eq (app_restart a) (app_restart b) = text_eq a b
action_eq (app_update a) (app_update b) = text_eq a b
action_eq (backup a storages keep include exclude) (backup b storages2 keep2 include2 exclude2) =
    text_eq a b
    && list_eq text_eq storages storages2
    && option_eq ◌==◌ keep keep2
    && list_eq text_eq include include2
    && list_eq text_eq exclude exclude2
action_eq (shell command app timeout) (shell command2 app2 timeout2) =
    text_eq command command2 && option_eq text_eq app app2 && option_eq ◌==◌ timeout timeout2
action_eq (http method url headers body timeout) (http method2 url2 headers2 body2 timeout2) =
    text_eq method method2
    && text_eq url url2
    && list_eq pair_eq headers headers2
    && text_eq body body2
    && option_eq ◌==◌ timeout timeout2
action_eq _ _ = false

unfoldable pub job_eq : Job → Job → Bool
unfolding text_eq action_eq
job_eq j k =
    text_eq j.id k.id
    && text_eq j.trigger k.trigger
    && bool_eq j.utc k.utc
    && bool_eq j.enabled k.enabled
    && text_eq j.comment k.comment
    && option_eq text_eq j.managed_by k.managed_by
    && action_eq j.action k.action
    && j.created_at == k.created_at
    && j.updated_at == k.updated_at
