-- ===== src/Cgroup2/Systemd.antt =====
-- cgroup2/manager.go: groups as units of systemd. The calls over D-Bus are calls of the system.
pub mod Starting
pub mod ZeroPeriod
use cgroups.Prelude.{
  ℕ, zero, suc, ◌+◌, ◌-◌, ◌*◌, ◌/◌, ◌%◌, ◌^◌, ◌≤◌, ◌<◌, bit_and, bit_or, Bool, true, false, not,
  ◌&&◌, ◌||◌, Option, none, some, List, [], ◌∷◌, ◌++◌, ◌≡◌, ◌≢◌, ◌↔◌, ◌⊎◌, refl, sym, arith, ap,
  ◌∙◌, append-nil, append_assoc, map, foldl, reverse, ◌==◌, ==_iff, ltb, leb, ltb→lt, lt→ltb,
  leb→le, if◌then◌else◌, Bool-cases, Option-cases, inl, inr, length, get_elem?, set, length-append,
  take, drop, get_or, dec_lt, ℕ_discrete,
}
use cgroups.Prelude.Int.{
  ℤ, pos, negsuc, pos_part, neg_part, sub_ℕ, ◌+ℤ◌, ◌-ℤ◌, ◌*ℤ◌, ◌≤ℤ◌, ltb_ℤ, int_laws, pattern64,
  signed64, wrap_int64,
}
use cgroups.Error.{
  Errno, not_exist, no_such_process, invalid_argument, other, NumError, syntax, range, Error, sys,
  num, Outcome, ok, err, panic, refuse_if, deref, invalid_format, nil_resources,
  name_must_be_relative, unable_to_remove, running_tasks, subtree_control, invalid_pid,
  cgroup_deleted, freezer_not_supported, memory_not_supported, no_such_subsystem,
  controller_not_active, devices_required, ignore_subsystem, outside_root, invalid_group_path,
}
use cgroups.Text.{
  Bytes, codes, equal, cut_prefix, has_prefix, trim_prefix, has_suffix, trim_suffix, contains,
  split, split_n, cut, join, fields, fields_func, fields_from, is_space, emit, trim_left, trim,
  trim_space, to_lower, to_upper, equal_iff, equal_refl, split-append, split_single, cut-append,
  fields_two, IsWord, onto_first,
}
use cgroups.Text.Scan.{Scanner, whole}
use cgroups.Os.{
  Call, mkdir_all, remove, remove_all, read_file, write_file, lstat, open_file, open_read, read,
  write, sleep_ms, open_dir, attach_filter, kill, Reply, done, failed, History, Visit, Walk, Os,
  Action, pure, raise, lift, continue, ◌>>=◌, ◌>>◌, outcome_of, call, run, caught, attempt,
}
use cgroups.Os.{
  PropertyValue, flag, amount, amounts, UnitProperty, description, wants, in_slice, property,
  bus_connect, start_unit, stop_unit, reset_failed_unit, await_job, manager_version,
}
use cgroups.Error.{bus, unit_status, timed_out}
use cgroups.FilePath.{file_name}
use cgroups.Strconv
use cgroups.Cgroup2.Paths.{get_systemd_full_path}
use cgroups.Cgroup2.Resources.{Cpu, Memory, Resources}
use cgroups.Cgroup2.Resources.CpuMax.{extract_quota_and_period, cpu_quota_per_sec_usec}
use cgroups.Cgroup2.Manager.{Manager}

abbrev pub default_slice : Bytes
default_slice = codes "system.slice"

abbrev pub or_default_slice : Bytes → Bytes
or_default_slice [] = default_slice
or_default_slice (c ∷ s) = c ∷ s

-- `isUnitExists`
unfoldable pub is_unit_exists : Error → Bool
is_unit_exists (bus name) = contains_text name (codes "org.freedesktop.systemd1.UnitExists")
  where
    contains_text : Bytes → Bytes → Bool
    contains_text [] t = has_prefix [] t
    contains_text (c ∷ s) t = has_prefix (c ∷ s) t || contains_text s t
is_unit_exists _ = false

-- `systemdUnitFromPath`
unfoldable pub systemd_unit_from_path : Bytes → Bytes
systemd_unit_from_path path = file_name path

-- The digits at the front, as the loop of `systemdVersionAtoi` cuts them
unfoldable pub front_digits : Bytes → Bytes
front_digits [] = []
front_digits (c ∷ s) = let rest = front_digits s in if leb 48 c && leb c 57 then c ∷ rest else []

-- `systemdVersionAtoi`
unfoldable pub systemd_version_atoi : Bytes → Outcome ℤ
systemd_version_atoi str =
    as_version (Strconv.atoi (front_digits (trim_left (λ c. c == b'"' || c == b'v') str)))
  where
    as_version : ℤ × Option NumError → Outcome ℤ
    as_version (ver, none) = ok ver
    as_version (ver, some e) = err (num e)

-- The property for a limit that is set and not 0
abbrev pub limit_property : Bytes → Option ℤ → List UnitProperty
limit_property name none = []
limit_property name (some z) =
    if pattern64 z == 0 then [] else property name (amount (pattern64 z)) ∷ []

abbrev pub memory_properties : Option Memory → List UnitProperty
memory_properties none = []
memory_properties (some m) =
    limit_property (codes "MemoryMin") m.min ++ limit_property (codes "MemoryMax") m.max

abbrev pub weight_property : Option ℕ → List UnitProperty
weight_property none = []
weight_property (some w) = if w == 0 then [] else property (codes "CPUWeight") (amount w) ∷ []

abbrev pub cpu_weight_properties : Option Cpu → List UnitProperty
cpu_weight_properties none = []
cpu_weight_properties (some c) = weight_property c.weight

-- `pid == -1`
abbrev pub is_unset : ℤ → Bool
is_unset (negsuc zero) = true
is_unset _ = false

abbrev pub pid_properties : ℤ → List UnitProperty
pid_properties (negsuc zero) = []
pid_properties pid = property (codes "PIDs") (amounts (pattern64 pid % 2 ^ 32 ∷ [])) ∷ []

abbrev pub pids_properties : Option ℤ → List UnitProperty
pids_properties none = []
pids_properties (some max) =
    if ltb_ℤ (pos 0) max
    then property (codes "TasksAccounting") (flag true)
      ∷ property (codes "TasksMax") (amount (pattern64 max))
      ∷ []
    else []

-- The properties up to the CPU quota
unfoldable pub unit_properties : Bytes → ℤ → Resources → List UnitProperty
unit_properties group pid resources =
    description (codes "cgroup " ++ group)
    ∷ property (codes "DefaultDependencies") (flag false)
    ∷ property (codes "MemoryAccounting") (flag true)
    ∷ property (codes "CPUAccounting") (flag true)
    ∷ property (codes "IOAccounting") (flag true)
    ∷ (if has_suffix group (codes ".slice") then wants default_slice else in_slice default_slice)
    ∷ (pid_properties pid
        ++ (memory_properties resources.memory ++ cpu_weight_properties resources.cpu))

module _ (os : Os) where
  -- `attemptFailedUnitReset`; an error is logged
  unfoldable pub attempt_failed_unit_reset : Bytes → Action (Unit {0})
  attempt_failed_unit_reset group = do _ ← attempt (run os (reset_failed_unit group)); pure tt

  -- The status of the job; no answer within 30 seconds is an error of the call.
  abbrev pub after_job : Bytes → Outcome Bytes → Action (Unit {0})
  after_job group (ok s) =
      if equal s (codes "done")
      then pure tt
      else attempt_failed_unit_reset group >> raise (unit_status s)
  after_job group (err e) = attempt_failed_unit_reset group >> raise timed_out
  after_job group panic = lift panic

  abbrev pub as_value {ℓ} : {A : Type ℓ} → Action A → Action (Outcome A)
  as_value m h = let (o, h') = m h in (ok o, h')

  unfoldable pub wait_job : Bytes → Action (Unit {0})
  wait_job group = do status ← as_value (call os await_job); after_job group status

  -- A round of the loop of `startUnit`: `again` is the next round, if there is one.
  unfoldable pub after_start :
      Bytes → Bool → Option (Action (Unit {0})) → Option Error → Action (Unit {0})
  after_start group ignore_exists again none = wait_job group
  after_start group ignore_exists again (some e) =
      if not (is_unit_exists e) then raise e else if ignore_exists then pure tt else retry again
    where
      retry : Option (Action (Unit {0})) → Action (Unit {0})
      retry none = raise e
      retry (some m) = attempt_failed_unit_reset group >> m

  -- The rounds of `startUnit`, with the retries that are left: 1 while `retry` is true, and then 0
  unfoldable pub start_rounds : Bytes → List UnitProperty → Bool → ℕ → Action (Unit {0})
  start_rounds group properties ignore_exists zero = do
    failure ← attempt (run os (start_unit group (codes "replace") properties))
    after_start group ignore_exists none failure
  start_rounds group properties ignore_exists (suc n) = do
    failure ← attempt (run os (start_unit group (codes "replace") properties))
    after_start group ignore_exists (some (start_rounds group properties ignore_exists n)) failure

  -- `startUnit`
  unfoldable pub start_transient : Bytes → List UnitProperty → Bool → Action (Unit {0})
  start_transient group properties ignore_exists = start_rounds group properties ignore_exists 1

  -- `systemdVersion` with the version that is known since the first call, if it is
  unfoldable pub systemd_version : Option ℤ → Action ℤ
  systemd_version (some version) h = (ok version, h)
  systemd_version none h = let (o, h') = call os manager_version h in (version_of o, h')
    where
      known : Outcome ℤ → Outcome ℤ
      known (ok v) = ok v
      known (err e) = ok (negsuc 0)
      known panic = panic

      version_of : Outcome Bytes → Outcome ℤ
      version_of (ok str) = known (systemd_version_atoi str)
      version_of (err e) = ok (negsuc 0)
      version_of panic = panic

  abbrev pub period_properties : Option ℤ → ℕ → Action (List UnitProperty)
  period_properties version zero = pure []
  period_properties version (suc p) = do
    sd_ver ← systemd_version version
    pure (
        if ltb_ℤ sd_ver (pos 242)
        then []
        else property (codes "CPUQuotaPeriodUSec") (amount (suc p)) ∷ [])

  abbrev pub quota_unit_properties : Option ℤ → Bytes → Action (List UnitProperty)
  quota_unit_properties version [] = pure []
  quota_unit_properties version (c ∷ max) = do
    (quota, period) ← lift (extract_quota_and_period (c ∷ max))
    first ← period_properties version period
    usec ← lift (cpu_quota_per_sec_usec quota period)
    pure (first ++ (property (codes "CPUQuotaPerSecUSec") (amount usec) ∷ []))

  abbrev pub cpu_quota_properties : Option ℤ → Option Cpu → Action (List UnitProperty)
  cpu_quota_properties version none = pure []
  cpu_quota_properties version (some c) = quota_unit_properties version c.max

  -- `NewSystemd`. `canDelegate` is false, as nothing in the package sets it.
  unfoldable pub new_systemd : Option ℤ → Bytes → Bytes → ℤ → Resources → Action Manager
  new_systemd version slice group pid resources = do
    _ ← call os bus_connect
    quota ← cpu_quota_properties version resources.cpu
    start_transient group
        (unit_properties group pid resources ++ (quota ++ pids_properties resources.pids))
        (is_unset pid)
    pure (record {
      unified_mountpoint = [];
      path = get_systemd_full_path (or_default_slice slice) group;
    })

  -- `DeleteSystemd`
  unfoldable pub delete_systemd : Manager → Action (Unit {0})
  delete_systemd c = do
    _ ← call os bus_connect
    _ ← call os (stop_unit (systemd_unit_from_path c.path) (codes "replace"))
    _ ← as_value (call os await_job)
    pure tt

-- `LoadSystemd`
unfoldable pub load_systemd : Bytes → Bytes → Manager
load_systemd slice group = record {
  unified_mountpoint = [];
  path = get_systemd_full_path (or_default_slice slice) group;
}
