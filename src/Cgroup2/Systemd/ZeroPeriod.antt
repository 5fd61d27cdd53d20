-- ===== src/Cgroup2/Systemd/ZeroPeriod.antt =====
-- cgroup2/manager.go: `NewSystemd` for a quota with the period 0.
use cgroups.Prelude.{ℕ, suc, Option, some, List, [], ◌∷◌, ◌++◌, ◌≡◌, ◌≢◌, refl, arith, ap, ◌∙◌}
use cgroups.Prelude.Int.{ℤ, pos}
use cgroups.Error.{syntax, num, Outcome, ok, err, panic}
use cgroups.Text.{Bytes, equal, split, to_lower}
use cgroups.Os.{done, History, Os, pure, continue, ◌>>◌, call}
use cgroups.Strconv.{FitsInt64}
use cgroups.Os.{bus_connect, UnitProperty}
use cgroups.Strconv.{parse_int, parse_uint, parse_digits}
use cgroups.Cgroup2.Resources.{Cpu, Resources}
use cgroups.Cgroup2.Resources.CpuMax.{
  quota_of, quota_and_period, new_cpu_max, extract_quota_and_period, extract-new_cpu_max,
  cpu_quota_per_sec_usec,
}
use cgroups.Cgroup2.Systemd.{
  start_transient, unit_properties, pids_properties, is_unset, get_systemd_full_path,
  or_default_slice, new_systemd, quota_unit_properties, cpu_quota_properties,
}

nothing_extracted : extract_quota_and_period [] ≡ err (num syntax)
unfolding extract_quota_and_period quota_of quota_and_period parse_int parse_uint parse_digits split
    equal to_lower
nothing_extracted = refl

quota_panics :
    (os : Os) (version : Option ℤ) (max : Bytes) (n : ℕ) (h : History)
    → extract_quota_and_period max ≡ ok (pos (suc n), 0)
    → max ≢ []
    → quota_unit_properties os version max h ≡ (panic, h)
unfolding cpu_quota_per_sec_usec
quota_panics os version [] n h e ne = absurd (ne refl)
quota_panics os version (c ∷ max) n h e ne = rw e refl

-- When the connection to D-Bus is made, a CPUMax that NewCPUMax gives for a positive int64 quota and the
-- period 0 makes NewSystemd panic, whatever the other arguments are: it divides by the period, before
-- any further call to systemd.
pub new_systemd_zero_period :
    (os : Os) (version : Option ℤ) (slice group : Bytes) (pid : ℤ) (resources : Resources)
    (cpu : Cpu) (n : ℕ) (h : History) {b : Bytes}
    → os.answer h bus_connect ≡ done b
    → resources.cpu ≡ some cpu
    → cpu.max ≡ new_cpu_max (some (pos (suc n))) (some 0)
    → FitsInt64 (pos (suc n))
    → new_systemd os version slice group pid resources h ≡ (panic, bus_connect ∷ h)
unfolding new_systemd call
new_systemd_zero_period os version slice group pid resources cpu n h connected has_cpu has_max
      fits =
    let text =
      ap extract_quota_and_period has_max
      ∙ extract-new_cpu_max (some (pos (suc n))) (some 0) fits (omega arith) in
    let quota =
      ap (λ o. cpu_quota_properties os version o (bus_connect ∷ h)) has_cpu
      ∙ quota_panics os version cpu.max n (bus_connect ∷ h) text
          (λ e. cc (ap extract_quota_and_period e, text, nothing_extracted)) in
    rw connected (
      ap
        (λ (p : Outcome (List UnitProperty) × History).
          continue p.0
            (λ quota. do
              start_transient os group
                  (unit_properties group pid resources ++ (quota ++ pids_properties resources.pids))
                  (is_unset pid)
              pure (record {
                unified_mountpoint = [];
                path = get_systemd_full_path (or_default_slice slice) group;
              }))
            p.1)
        quota)
