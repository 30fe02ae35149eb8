-- ===== src/Scheduler/Jobs/Histories.antt =====
-- src/daemon/scheduler/jobs.rs: the histories after `JobStore::replace_managed`.
use asc_daemon.Prelude.{
  ◌≢◌, ◌≡◌, refl, sym, ap, ◌∙◌, Bool, true, false, Text, List, [], ◌∷◌, retain, any, All, Among,
  inl, inr, text_eq, text_eq_sound, text_eq_refl, if◌then◌else◌, arith,
}
use asc_daemon.Scheduler.Job.{Job}
use asc_daemon.Scheduler.Jobs.{Runs, drop_runs}
use asc_daemon.Scheduler.Jobs.Managed.{is_managed, has_id, dropped_ids, drop_all}
use asc_daemon.Scheduler.Jobs.History.{runs_in}

-- no job of `by` in `jobs` has the id
abbrev pub NotOf : Text → Text → List Job → Type 0
NotOf by id = All (λ (j : Job). is_managed by j ≡ true → j.id ≢ id)

-- The history of a job of `by` that no job that came in replaces is gone; every other is as it was.
pub record Histories (by : Text) (before stamped : List Job) (runs runs' : Runs) : Type 0 where
  pub gone :
      (j : Job)
      → Among j before
      → is_managed by j ≡ true
      → All (λ (k : Job). k.id ≢ j.id) stamped
      → runs_in j.id runs' ≡ []
  pub came_in : (k : Job) → Among k stamped → runs_in k.id runs' ≡ runs_in k.id runs
  pub not_of : (id : Text) → NotOf by id before → runs_in id runs' ≡ runs_in id runs

any_text : Text → List Text → Bool
any_text id ids = any (text_eq id) ids

runs_in-drop :
    (id k : Text) (runs : Runs)
    → runs_in id (drop_runs k runs) ≡ (if text_eq id k then [] else runs_in id runs)
unfolding runs_in drop_runs
runs_in-drop id k [] = ground arith
runs_in-drop id k (r ∷ runs) =
    ground
      (arith, runs_in-drop id k runs, text_eq_sound r.0 id, text_eq_sound r.0 k, text_eq_sound id k)

runs_in-drop_all :
    (id : Text) (ids : List Text) (runs : Runs)
    → runs_in id (drop_all ids runs) ≡ (if any_text id ids then [] else runs_in id runs)
unfolding drop_all any_text
runs_in-drop_all id [] runs = refl
runs_in-drop_all id (k ∷ ids) runs =
    runs_in-drop_all id ids (drop_runs k runs) ∙ ground (arith, runs_in-drop id k runs)

has_no_id :
    (id : Text) (jobs : List Job) → All (λ (k : Job). k.id ≢ id) jobs → has_id id jobs ≡ false
unfolding has_id
has_no_id id [] a = refl
has_no_id id (k ∷ jobs) a = ground (arith, text_eq_sound k.id id, a.0, has_no_id id jobs a.1)

has_its_id : (k : Job) (jobs : List Job) → Among k jobs → has_id k.id jobs ≡ true
unfolding has_id
has_its_id k [] m = absurd m
has_its_id k (j ∷ jobs) (inl e) = rw e (ground (arith, text_eq_refl j.id))
has_its_id k (j ∷ jobs) (inr m) = ground (arith, has_its_id k jobs m)

module _ (by : Text) (stamped : List Job) where
  abbrev dropped : List Job → List Text
  dropped before = dropped_ids (retain (is_managed by) before) stamped

  dropped_gone :
      (j : Job) (before : List Job)
      → Among j before
      → is_managed by j ≡ true
      → has_id j.id stamped ≡ false
      → any_text j.id (dropped before) ≡ true
  unfolding dropped_ids any_text
  dropped_gone j [] m h n = absurd m
  dropped_gone j (i ∷ before) (inl e) h n =
      let first : is_managed by i ≡ true = ap (is_managed by) (sym e) ∙ h in
      let id : j.id ≡ i.id = ap (λ (j : Job). j.id) e in
      let fresh : has_id i.id stamped ≡ false = ap (λ t. has_id t stamped) (sym id) ∙ n in
      ground (arith, first, fresh, id, text_eq_refl i.id)
  dropped_gone j (i ∷ before) (inr m) h n = ground (arith, dropped_gone j before m h n)

  dropped_stays :
      (id : Text) (before : List Job)
      → has_id id stamped ≡ true
      → any_text id (dropped before) ≡ false
  unfolding dropped_ids any_text
  dropped_stays id [] h = refl
  dropped_stays id (i ∷ before) h =
      ground (arith, h, text_eq_sound id i.id, dropped_stays id before h)

  dropped_not_of :
      (id : Text) (before : List Job) → NotOf by id before → any_text id (dropped before) ≡ false
  unfolding dropped_ids any_text
  dropped_not_of id [] a = refl
  dropped_not_of id (i ∷ before) a =
      go (is_managed by i) refl (text_eq id i.id) refl (dropped_not_of id before a.1)
    where
      go :
          (b : Bool)
          → is_managed by i ≡ b
          → (t : Bool) → text_eq id i.id ≡ t
          → any_text id (dropped before) ≡ false
          → any_text id (dropped (i ∷ before)) ≡ false
      go true y true e ih = absurd (a.0 y (sym (text_eq_sound id i.id e)))
      go true y false e ih = ground (arith, y, e, ih)
      go false n t e ih = ground (arith, n, ih)

  pub drop_all-Histories :
      (before : List Job) (runs runs' : Runs)
      → runs' ≡ drop_all (dropped before) runs
      → Histories by before stamped runs runs'
  drop_all-Histories before runs runs' e = record {
    gone = λ j m h a.
        ap (runs_in j.id) e
        ∙ runs_in-drop_all j.id (dropped before) runs
        ∙ (rw (dropped_gone j before m h (has_no_id j.id stamped a)) refl);
    came_in = λ k m.
        ap (runs_in k.id) e
        ∙ runs_in-drop_all k.id (dropped before) runs
        ∙ (rw (dropped_stays k.id before (has_its_id k stamped m)) refl);
    not_of = λ id a.
        ap (runs_in id) e
        ∙ runs_in-drop_all id (dropped before) runs
        ∙ (rw (dropped_not_of id before a) refl);
  }
