-- ===== src/Tests/Settings.antt =====
-- Tests of the settings, their conversion, and the paths of groups.
use cgroups.Prelude.{
  ℕ, ◌+◌, ◌-◌, ◌*◌, ◌/◌, ◌%◌, ◌≤◌, ◌<◌, true, none, some, List, [], ◌∷◌, ◌≡◌, ◌↔◌, refl, arith,
}
use cgroups.Prelude.Int.{pos, negsuc}
use cgroups.Error.{ok}
use cgroups.Text.{Bytes, codes, equal, cut_prefix, has_prefix, contains, split, join}
use cgroups.Spec.{LinuxMemory}
use cgroups.Cgroup2.Resources.{Resources, values, enabled_controllers}
use cgroups.Cgroup2.Resources.CpuMax.{
  new_cpu_max, extract_quota_and_period, cpu_quota_per_sec_usec, extract-new_cpu_max,
  cpu_quota_per_sec_usec_rounds,
}
use cgroups.Cgroup2.Resources.Files.{all_owned, values_enabled}
use cgroups.Cgroup2.Convert.{Float, weight_curve, convert_memory, bfq_weight}
use cgroups.Cgroup2.Convert.Weights.{bfq_weight_exact}
use cgroups.Cgroup2.Convert.Swap.{convert_memory_total, convert_memory_unlimited_swap}
use cgroups.Cgroup2.Paths.{verify_group_path, IsGroupPath, verify_group_path_iff, group_directory}
use cgroups.FilePath.{IsName, clean, join_path, push, push_all, pop, relative}

extract-new_cpu_max_example :
    extract_quota_and_period (new_cpu_max (some (negsuc 0)) (some 5000)) ≡ ok (negsuc 0, 5000)
extract-new_cpu_max_example =
    extract-new_cpu_max (some (negsuc 0)) (some 5000) (omega arith) (omega arith)

cpu_quota_per_sec_usec_rounds_example :
    (usec : ℕ) × (cpu_quota_per_sec_usec (pos 33333) 100000 ≡ ok usec)
    × (usec % 10000 ≡ 0)
    × (33333 * 1000000 / 100000 ≤ usec)
    × (usec < 33333 * 1000000 / 100000 + 10000)
cpu_quota_per_sec_usec_rounds_example = cpu_quota_per_sec_usec_rounds 33332 99999 (omega arith)

abbrev some_settings : Resources
some_settings = record {
  cpu = some (record { weight = some 100; max = []; cpus = codes "0-1"; mems = [] });
  memory = some (record {
    swap = none;
    min = none;
    max = some (pos 4096);
    low = none;
    high = none;
    oom_group = some true;
  });
  pids = some (pos 10);
  io = none;
  rdma = none;
  huge_tlb = some (record { huge_page_size = codes "2MB"; limit = 3 } ∷ []);
  devices = [];
}

values_enabled_example : all_owned (enabled_controllers some_settings) (values some_settings) ≡ true
values_enabled_example = values_enabled some_settings

bfq_weight_exact_example : (bfq_weight 500 ≡ 1 + (500 - 10) * 9999 / 990) ↔ (500 ≤ 16)
bfq_weight_exact_example = bfq_weight_exact 500 (omega arith) (omega arith)

-- Operations for the test alone: natural numbers in place of floats, and a linear curve.
abbrev test_float : Float
test_float = record {
  F = ℕ;
  of_uint64 = λ n. n;
  ratio = λ a b. a;
  log2 = λ n. n;
  add = λ a b. a + b;
  sub = λ a b. a - b;
  mul = λ a b. a;
  div = λ a b. a;
  pow = λ a b. b;
  ceil = λ n. n + 1;
}

test_curve : (s : ℕ) → 2 < s → s < 262144 → 1 ≤ weight_curve test_float s
unfolding weight_curve
test_curve s low high = omega arith

abbrev no_limits : LinuxMemory
no_limits = record {
  limit = none;
  reservation = none;
  swap = none;
  kernel = none;
  kernel_tcp = none;
  swappiness = none;
  disable_oom_killer = none;
}

abbrev limits_300_500 : LinuxMemory
limits_300_500 = record no_limits { limit = some (pos 300); swap = some (pos 500) }

convert_memory_total_example :
    (reduced : ℕ) × ((convert_memory limits_300_500).max ≡ some (pos 300))
    × ((convert_memory limits_300_500).swap ≡ some (pos reduced))
    × (300 + reduced ≡ 500)
convert_memory_total_example =
    convert_memory_total limits_300_500 300 500 refl refl (omega arith) (omega arith)

abbrev unlimited_swap : LinuxMemory
unlimited_swap = record no_limits { limit = some (pos 300); swap = some (negsuc 0) }

convert_memory_unlimited_swap_example : (convert_memory unlimited_swap).swap ≡ some (negsuc 300)
convert_memory_unlimited_swap_example =
    convert_memory_unlimited_swap unlimited_swap 299 refl refl (omega arith)

verify_group_path_iff_example :
    (verify_group_path (codes "/a/../b") ≡ ok tt) ↔ IsGroupPath (codes "/a/../b")
verify_group_path_iff_example = verify_group_path_iff (codes "/a/../b")

group_verified : verify_group_path (codes "/a/b") ≡ ok tt
unfolding verify_group_path has_prefix cut_prefix equal clean split push push_all pop relative join
group_verified = refl

sys_IsName : IsName (codes "sys")
unfolding contains equal
sys_IsName = record { ne_nil = λ e. cc; no_slash = refl; ne_dot = refl; ne_dot_dot = refl }

group_directory_example :
    (names : List Bytes) × (codes "/a/b" ≡ b'/' ∷ join names b'/')
    × (join_path (b'/' ∷ join (codes "sys" ∷ []) b'/') (codes "/a/b")
        ≡ b'/' ∷ join (codes "sys" ∷ names) b'/')
group_directory_example =
    group_directory (codes "/a/b") (codes "sys" ∷ []) (sys_IsName, tt) group_verified
