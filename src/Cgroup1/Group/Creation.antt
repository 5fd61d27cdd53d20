-- ===== src/Cgroup1/Group/Creation.antt =====
-- cgroup1/cgroup.go: which subsystems a new group has.
use cgroups.Prelude.{
  false, Option, none, some, List, [], ◌∷◌, ◌++◌, ◌≡◌, ◌⊎◌, ap, Bool-cases, inl, inr,
}
use cgroups.Error.{Error, Outcome, ok, err, panic, controller_not_active}
use cgroups.Text.{equal}
use cgroups.Os.{History, Os, pure, attempt}
use cgroups.Spec.{LinuxResources}
use cgroups.Os.{continue-ok}
use cgroups.Cgroup1.Subsystem.{GroupPath, Subsystem, devices_name, require_devices, check_inactive}
use cgroups.Cgroup1.Group.{Group, get_subsystem, initialize_subsystem, if_active, activate, new}

-- What a subsystem has become, if the creation went on.
if_active-ok :
    (os : Os) (x : Subsystem) (path : GroupPath) (failure : Option Error) (h : History)
    {act : List Subsystem}
    → (if_active os (some require_devices) x path failure h).0 ≡ ok act
    → (act ≡ x ∷ []) ⊎ ((act ≡ []) × (equal x.name devices_name ≡ false))
unfolding if_active check_inactive require_devices
if_active-ok os x path none h e = inl cc
if_active-ok os x path (some controller_not_active) h e =
    elim (Bool-cases (equal x.name devices_name)) [
      | inl devices ↦ cc (rw devices at e)
      | inr others ↦ (let passed = rw others at e in inr (cc (passed), others))
    ]
if_active-ok os x path (some y) h e = cc (e)

keeps :
    (x : Subsystem) (act rest : List Subsystem) {s : Subsystem}
    → (act ≡ x ∷ []) ⊎ ((act ≡ []) × (equal x.name devices_name ≡ false))
    → get_subsystem devices_name (x ∷ rest) ≡ some s
    → get_subsystem devices_name (act ++ rest) ≡ some s
unfolding get_subsystem
keeps x act rest (inl e) found = rw e found
keeps x act rest (inr (e, others)) found = rw e (rw others at found)

found_later :
    (x : Subsystem) (xs rest : List Subsystem) {s : Subsystem}
    → get_subsystem devices_name (x ∷ xs) ≡ some s
    → (get_subsystem devices_name xs ≡ some s → get_subsystem devices_name rest ≡ some s)
    → get_subsystem devices_name (x ∷ rest) ≡ some s
unfolding get_subsystem
found_later x xs rest found later = elim (Bool-cases (equal x.name devices_name)) [
  | inl devices ↦ rw devices (rw devices at found)
  | inr others ↦ rw others (later (rw others at found))
]

abbrev group_subsystems : Outcome Group → List Subsystem
group_subsystems (ok c) = c.subsystems
group_subsystems (err e) = []
group_subsystems panic = []

module _ (os : Os) (path : GroupPath) (resources : LinuxResources) where
  activate_keeps :
      (ss : List Subsystem) (h : History) {active : List Subsystem} {s : Subsystem}
      → (activate os (some require_devices) path resources ss h).0 ≡ ok active
      → get_subsystem devices_name ss ≡ some s
      → get_subsystem devices_name active ≡ some s
  unfolding activate
  activate_keeps [] h e found = unfold get_subsystem in cc (found)
  activate_keeps (x ∷ xs) h {active} {s} e found =
      let tried = attempt (initialize_subsystem os x path resources) h in
      let (failure, _, e₁) = continue-ok tried.0 _ tried.1 e in
      let one = if_active os (some require_devices) x path failure tried.1 in
      let (act, adds, e₂) = continue-ok one.0 _ one.1 e₁ in
      let others = activate os (some require_devices) path resources xs one.1 in
      let (rest, more, last) = continue-ok others.0 _ others.1 e₂ in
      let same : act ++ rest ≡ active = cc (last) in
      rw (← same) (
        keeps x act rest (if_active-ok os x path failure tried.1 adds)
          (found_later x xs rest found (activate_keeps xs one.1 more)))

  -- If `New` succeeds with the check of `RequireDevices`, which is the default, and the hierarchy has
  -- the devices subsystem, so has the group, whatever the other subsystems did.
  pub new_keeps_devices :
      (subsystems : List Subsystem) (h : History) (c : Group) (s : Subsystem)
      → (new os path resources (some require_devices) (pure subsystems) h).0 ≡ ok c
      → get_subsystem devices_name subsystems ≡ some s
      → get_subsystem devices_name c.subsystems ≡ some s
  unfolding new
  new_keeps_devices subsystems h c s e found =
      let made = activate os (some require_devices) path resources subsystems h in
      let (active, ended, is) = continue-ok made.0 _ made.1 e in
      let these : active ≡ c.subsystems = ap group_subsystems is in
      rw (← these) (activate_keeps subsystems h ended found)
