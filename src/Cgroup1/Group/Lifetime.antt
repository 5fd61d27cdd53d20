-- ===== src/Cgroup1/Group/Lifetime.antt =====
-- cgroup1/cgroup.go: the life of a group, which `Delete` and `State` may end. The other methods do not
-- assign to the group.

pub mod Refines
pub mod Final
use cgroups.Prelude.{none, some, ◌≡◌}
use cgroups.Error.{Error, Outcome, ok, err, panic, cgroup_deleted}
use cgroups.Text.{Bytes, codes}
use cgroups.Cgroup1.Group.{Group}

-- The two methods that assign to the group they are called on
pub data Method : Type 0 where
  delete state : Method

-- What comes back.
pub data Report : Type 0 where
  success panicked : Report
  failure : Error → Report
  found : Bytes → Report

abbrev pub delete_report : Outcome Group → Report
delete_report (ok c) = success
delete_report (err e) = failure e
delete_report panic = panicked

abbrev pub state_report : Outcome (Group × Bytes) → Report
state_report (ok (c, s)) = found s
state_report (err e) = failure e
state_report panic = panicked

-- The group behind a call that gives a new one where it succeeds.
abbrev pub group_or : Group → Outcome Group → Group
group_or c (ok c') = c'
group_or c (err e) = c
group_or c panic = c

abbrev pub group_of : Group → Outcome (Group × Bytes) → Group
group_of c (ok (c', s)) = c'
group_of c (err e) = c
group_of c panic = c

-- The abstract machine
pub data Phase : Type 0 where
  live gone : Phase

pub data Moves : Method → Phase → Report → Phase → Type 0 where
  removes : Moves delete live success gone
  fails : {e : Error} → Moves delete live (failure e) live
  refuses : Moves delete gone (failure cgroup_deleted) gone
  delete_panics : Moves delete live panicked live
  stands : {s : Bytes} → Moves state live (found s) live
  vanishes : Moves state live (found (codes "deleted")) gone
  remembers : Moves state gone (found (codes "deleted")) gone
  state_panics : {p : Phase} → Moves state p panicked p

-- A group in its phase; it has no other error than that it is deleted.
pub data InPhase (c : Group) : Phase → Type 0 where
  is_live : c.err ≡ none → InPhase c live
  is_gone : c.err ≡ some cgroup_deleted → InPhase c gone

-- All but the error is as before.
pub record SameGroup (c c' : Group) : Type 0 where
  pub path : c'.path ≡ c.path
  pub subsystems : c'.subsystems ≡ c.subsystems
