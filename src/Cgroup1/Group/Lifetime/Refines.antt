-- ===== src/Cgroup1/Group/Lifetime/Refines.antt =====
-- cgroup1/cgroup.go: each call on a group is a step of the abstract machine.
use cgroups.Prelude.{some, ◌≢◌}
use cgroups.Error.{Error, Outcome, err, cgroup_deleted}
use cgroups.Os.{Os, ◌>>=◌}
use cgroups.Cgroup1.Subsystem.{Subsystem}
use cgroups.Cgroup1.Group.{Group}
use cgroups.Cgroup1.Group.Deletion.{delete_all, mark_deleted}
use cgroups.Cgroup1.Group.Operations
use cgroups.Cgroup1.Group.Deletion
use cgroups.Cgroup1.Group.Lifetime.{Method, Report, Phase, Moves, InPhase, SameGroup}

abbrev gone_group : Group → Group
gone_group c = record c { err = some cgroup_deleted }

-- A step from one group, in some phase, with what comes back, to another.
pub Steps : Method → Group → Phase → Report → Group → Type 0
Steps m c p r c' = SameGroup c c' × (p' : Phase) × InPhase c' p' × Moves m p r p'

-- An outcome that is not an error: `State` has none.
NoError {ℓ} : {A : Type ℓ} → Outcome A → Type ℓ
NoError o = (e : Error) → o ≢ err e
