-- ===== src/Tests/Actions.antt =====
-- Tests of what is called.
use cgroups.Prelude.{arith, true, false, none, some, List, [], ◌∷◌, ◌++◌, ◌≡◌, ◌↔◌, refl, drop}
use cgroups.Prelude.Int.{pos, negsuc}
use cgroups.Error.{not_exist, invalid_argument, sys, ok, err, subtree_control}
use cgroups.Text.{Bytes, codes, equal, cut_prefix, has_prefix, split, join, trim_space}
use cgroups.Text.Scan.{whole}
use cgroups.Os.{Call, write_file, open_file, attach_filter, Reply, done, failed, Os, call, run}
use cgroups.Strconv
use cgroups.Strconv.{format_int, parse_digits, is_digit, with_sign}
use cgroups.Cgroup1.Controllers
use cgroups.Os.{open_read, read}
use cgroups.FilePath.{join_path, clean, push, push_all, pop, relative}
use cgroups.Spec.{LinuxMemory, LinuxResources}
use cgroups.Cgroup2.DeviceFilter.{
  Device, header, init, append_all, append_device, append_rule, finalize, append_block, next_id,
  bpf_type, bpf_access, type_check, access_check, number_check, accept_block, set_symbol,
  device_filter,
}
use cgroups.Cgroup2.DeviceFilter.Asm.{Instruction, r0, mov_imm32, return, plain, with_symbol}
use cgroups.Cgroup2.Resources.{Resources}
use cgroups.Cgroup2.Manager.{
  new_manager, set_devices, toggle_controllers, toggle_rounds, toggle_round, is_toggled,
  write_subtree_control, toggle_func, or_remove, undo,
}
use cgroups.Cgroup2.Resources.{enabled_controllers}
use cgroups.Cgroup2.Paths.{verify_group_path}
use cgroups.Os.{History, remove_all, sleep_ms}
use cgroups.Error.{unable_to_remove}
use cgroups.Cgroup2.Lifecycle.{remove_path}
use cgroups.Cgroup2.Lifecycle.Removal.{remove_path-ok, remove_path_gives_up}
use cgroups.Os.{read_file}
use cgroups.Cgroup2.Lifecycle.{frozen, freeze_value, state_of}
use cgroups.Cgroup2.Lifecycle.Freezer.{
  same_state, freeze, freeze_file, rounds, SettlesAfter, Reads, freeze_ends,
}
use cgroups.Cgroup2.Manager.Creation.{CleanedUp, new_manager-Cleans}
use cgroups.Cgroup2.Manager.Devices.{DeniesAll, set_devices_refused}
use cgroups.Cgroup1.Controllers.{read_uint, uint_of}
use cgroups.Cgroup1.Memory.{
  MemoryController, MemorySetting, memory_path, memory_settings, setting_file, update_memory,
}
use cgroups.Cgroup1.Memory.Order.{after, writes, write_of, WritesSucceed, update_memory_order}

-- A system on which every call succeeds, and a file holds 300.
abbrev willing : Os
willing = record {
  answer = λ h c. done (codes "300");
  walk = λ h path. record { visits = []; error = none };
  scan = λ content. whole [];
}

-- A system that refuses to attach a filter and to open a file for writing, and nothing else.
abbrev refuses : Call → Reply
refuses (attach_filter insts) = failed (sys invalid_argument)
refuses (open_file path) = failed (sys not_exist)
refuses _ = done []

abbrev unwilling : Os
unwilling = record {
  answer = λ h. refuses;
  walk = λ h path. record { visits = []; error = none };
  scan = λ content. whole [];
}

abbrev group_a : Bytes
group_a = codes "/a"

abbrev no_resources : Resources
no_resources = record {
  cpu = none;
  memory = none;
  pids = none;
  io = none;
  rdma = none;
  huge_tlb = none;
  devices = [];
}

not_created :
    (new_manager unwilling (codes "/m") group_a (some no_resources) []).0
    ≡ err (subtree_control (sys not_exist))
unfolding new_manager run call verify_group_path has_prefix cut_prefix equal clean split push
    push_all pop relative join join_path toggle_controllers toggle_rounds toggle_round is_toggled
    write_subtree_control toggle_func or_remove undo enabled_controllers
not_created = refl

new_manager-Cleans_example :
    CleanedUp
      (join_path (codes "/m") group_a)
      []
      (new_manager unwilling (codes "/m") group_a (some no_resources) []).1
new_manager-Cleans_example =
    new_manager-Cleans unwilling (codes "/m") group_a (some no_resources) [] not_created

abbrev deny_all : Device
deny_all = record {
  allow = false;
  type = codes "a";
  major = some (negsuc 0);
  minor = some (negsuc 0);
  access = codes "rwm";
}

abbrev deny_code : List Instruction
deny_code = header ++ with_symbol (pos 0) (plain (mov_imm32 r0 0)) ∷ plain return ∷ []

deny_all_compiles : device_filter (deny_all ∷ []) ≡ ok deny_code
unfolding device_filter init append_all append_device append_rule finalize append_block next_id
    bpf_type bpf_access equal type_check access_check number_check accept_block set_symbol
deny_all_compiles = refl

set_devices_refused_example :
    ((set_devices unwilling (codes "/m/a") (deny_all ∷ []) []).0 ≡ ok tt)
    ↔ DeniesAll (deny_all ∷ [])
set_devices_refused_example =
    set_devices_refused unwilling (codes "/m/a") [] deny_all [] [] deny_all_compiles refl refl

abbrev settings : List MemorySetting
settings =
    record { name = codes "limit_in_bytes"; value = some (pos 4096) }
    ∷ record { name = codes "swappiness"; value = none }
    ∷ []

willing-WritesSucceed : WritesSucceed willing
willing-WritesSucceed h file text = (codes "300", refl)

abbrev controller : MemoryController
controller = record { root = codes "/memory"; ignored = [] }

abbrev raised : LinuxMemory
raised = record {
  limit = some (pos 400);
  reservation = none;
  swap = some (pos 500);
  kernel = none;
  kernel_tcp = none;
  swappiness = none;
  disable_oom_killer = none;
}

abbrev raised_resources : LinuxResources
raised_resources = record {
  devices = [];
  memory = some raised;
  cpu = none;
  pids = none;
  block_io = none;
  hugepage_limits = none;
  network = none;
  rdma = none;
}

abbrev limit_file : Bytes
limit_file = join_path (memory_path controller group_a) (codes "memory.limit_in_bytes")

limit_read :
    read_uint willing limit_file [] ≡ (ok 300, read limit_file 32 ∷ open_read limit_file ∷ [])
unfolding read_uint uint_of call equal trim_space Controllers.parse_uint Strconv.parse_uint
    Strconv.parse_int parse_digits is_digit with_sign
limit_read = refl

update_memory_order_example : update_memory willing controller group_a raised_resources [] ≡ (
  ok tt,
  after (read limit_file 32 ∷ open_read limit_file ∷ []) (
      write_file
        (setting_file (memory_path controller group_a) (codes "limit_in_bytes"))
        (format_int (pos 400))
      ∷ write_file
          (setting_file (memory_path controller group_a) (codes "memsw.limit_in_bytes"))
          (format_int (pos 500))
      ∷ writes (memory_path controller group_a) (drop 3 (memory_settings raised))),
)
unfolding write_of
update_memory_order_example =
    update_memory_order willing controller group_a raised_resources raised (pos 400) (pos 500) 300
      [] (read limit_file 32 ∷ open_read limit_file ∷ []) willing-WritesSucceed refl refl refl refl
      refl limit_read refl

removed : (remove_path willing (codes "/m/a") []).0 ≡ ok tt
unfolding remove_path run call
removed = refl

remove_path-ok_example :
    (h' : History) × (b : Bytes) × ((remove_path willing (codes "/m/a") []).1
      ≡ remove_all (codes "/m/a") ∷ h')
    × (willing.answer h' (remove_all (codes "/m/a")) ≡ done b)
remove_path-ok_example = remove_path-ok willing (codes "/m/a") [] removed

-- A system on which nothing succeeds.
abbrev broken : Os
broken = record {
  answer = λ h c. failed (sys invalid_argument);
  walk = λ h path. record { visits = []; error = none };
  scan = λ content. whole [];
}

remove_path_gives_up_example : remove_path broken (codes "/m/a") [] ≡ (
  err unable_to_remove,
  remove_all (codes "/m/a")
      ∷ sleep_ms 80
      ∷ remove_all (codes "/m/a")
      ∷ sleep_ms 40
      ∷ remove_all (codes "/m/a")
      ∷ sleep_ms 20
      ∷ remove_all (codes "/m/a")
      ∷ sleep_ms 10
      ∷ remove_all (codes "/m/a")
      ∷ [],
)
remove_path_gives_up_example =
    remove_path_gives_up broken (codes "/m/a") (λ h. (sys invalid_argument, refl)) []

-- A system on which a group is frozen after a first pause.
abbrev kernel_state : History → Bytes
kernel_state (c ∷ sleep_ms n ∷ h) = codes "1"
kernel_state h = codes "0"

abbrev slow_answer : Call → History → Reply
slow_answer (read_file file) h = done (kernel_state h)
slow_answer c h = done []

abbrev slow : Os
slow = record {
  answer = λ h c. slow_answer c h;
  walk = λ h path. record { visits = []; error = none };
  scan = λ content. whole [];
}

slow-SettlesAfter : SettlesAfter slow (codes "/m/a") frozen (codes "1") 1 []
unfolding SettlesAfter Reads state_of same_state equal trim_space
slow-SettlesAfter = ((codes "0", refl, refl), (codes "1", refl, refl))

freeze_ends_example : freeze slow (codes "/m/a") frozen 5 [] ≡ (
  ok true,
  read_file (freeze_file slow (codes "/m/a") frozen)
      ∷ write_file (freeze_file slow (codes "/m/a") frozen) (codes "1")
      ∷ rounds slow (codes "/m/a") frozen (codes "1") 1 [],
)
unfolding freeze_value
freeze_ends_example =
    freeze_ends slow (codes "/m/a") frozen (codes "1") refl (λ h. ([], refl)) 1 5 [] (omega arith)
      slow-SettlesAfter
