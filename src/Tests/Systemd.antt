-- ===== src/Tests/Systemd.antt =====
-- Tests of groups as units of systemd.
use cgroups.Prelude.{false, none, some, arith, [], ◌∷◌, ◌≡◌, ◌↔◌, refl}
use cgroups.Error.{bus, ok, panic}
use cgroups.Prelude.Int.{pos}
use cgroups.Os.{bus_connect}
use cgroups.Cgroup2.Resources.{Cpu, Resources}
use cgroups.Cgroup2.Resources.CpuMax.{new_cpu_max}
use cgroups.Cgroup2.Systemd.ZeroPeriod.{new_systemd_zero_period}
use cgroups.Text.{Bytes, codes, equal, has_prefix, cut_prefix}
use cgroups.Text.Scan.{whole}
use cgroups.Os.{Call, start_unit, reset_failed_unit, await_job, Reply, done, failed, History, Os}
use cgroups.Cgroup2.Systemd.{is_unit_exists, start_transient, new_systemd}
use cgroups.Cgroup2.Systemd.Starting.{Success, after_reset, start_transient_iff}

abbrev unit_exists : Bytes
unit_exists = codes "org.freedesktop.systemd1.UnitExists"

-- The unit exists until it has been reset.
abbrev reply : History → Call → Reply
reply [] c = failed (bus unit_exists)
reply (_ ∷ h) c = done (codes "done")

abbrev leftover : Os
leftover = record {
  answer = reply;
  walk = λ h path. record { visits = []; error = none };
  scan = λ content. whole [];
}

abbrev unit : Bytes
unit = codes "a.scope"

abbrev four_calls : History
four_calls =
    await_job
    ∷ start_unit unit (codes "replace") []
    ∷ reset_failed_unit unit
    ∷ start_unit unit (codes "replace") []
    ∷ []

start_transient_iff_example :
    (start_transient leftover unit [] false [] ≡ (ok tt, four_calls))
    ↔ Success leftover unit [] false [] four_calls
start_transient_iff_example = start_transient_iff leftover unit [] false [] four_calls

starts_leftover : Success leftover unit [] false [] four_calls
unfolding is_unit_exists equal has_prefix cut_prefix
starts_leftover = after_reset (_, refl, refl) ((_, refl), (_, refl, refl))

abbrev connected : Os
connected = record leftover { answer = λ h c. done [] }

-- A quota of 50000 with the period 0.
abbrev no_period : Cpu
no_period = record {
  weight = none;
  max = new_cpu_max (some (pos 50000)) (some 0);
  cpus = [];
  mems = [];
}

abbrev with_no_period : Resources
with_no_period = record {
  cpu = some no_period;
  memory = none;
  pids = none;
  io = none;
  rdma = none;
  huge_tlb = none;
  devices = [];
}

new_systemd_zero_period_example :
    new_systemd connected none [] unit (pos 7) with_no_period [] ≡ (panic, bus_connect ∷ [])
new_systemd_zero_period_example =
    new_systemd_zero_period connected none [] unit (pos 7) with_no_period no_period 49999 [] refl
      refl refl (omega arith)
