-- ===== src/Tests/Events.antt =====
-- Tests of the events of cgroup2.
use cgroups.Prelude.{true, arith, none, [], ◌∷◌, ◌≡◌, refl, if◌then◌else◌}
use cgroups.Error.{not_exist, sys, ok}
use cgroups.Text.{Bytes, codes, equal, join, split, fields, fields_from, fields_func, is_space}
use cgroups.Map.{lookup, insert}
use cgroups.Strconv
use cgroups.Strconv.{parse_digits, parse_int, is_digit, with_sign}
use cgroups.Cgroup2.Parse
use cgroups.Cgroup2.Parse.{read_kv_stats, read_kv_lines, parse_kv, key_value, or_negative}
use cgroups.Text.Scan.{whole}
use cgroups.Os.{Call, open_read, read, Reply, done, failed, History, Os}
use cgroups.FilePath.{join_path, clean, push_all, push, pop, relative}
use cgroups.Cgroup2.Manager.{Manager}
use cgroups.Cgroup2.Metrics.Events.{Event, closed, event_loop}
use cgroups.Cgroup2.Metrics.Events.Ends.{
  Life, Counts, IsEmpty, Holds, unpopulated, idle, emptied, event_loop-Life, looked, wake,
}

abbrev sixteen : Bytes
sixteen = codes "0123456789abcdef"

-- The first wake has no event.
abbrev reply : History → Call → Reply
reply [] c = done []
reply (_ ∷ h) (read path n) = done sixteen
reply (_ ∷ h) (open_read path) =
    if equal path (codes "/g/cgroup.events")
    then done (codes "populated 0")
    else done (codes "oom 3")
reply (_ ∷ h) c = failed (sys not_exist)

abbrev leaving : Os
leaving = record {
  answer = reply;
  walk = λ h path. record { visits = []; error = none };
  scan = λ content. whole (content ∷ []);
}

abbrev group : Manager
group = record { unified_mountpoint = codes "/"; path = codes "/g" }

abbrev first_wake : History
first_wake = wake leaving group ∷ []

group_is_empty : IsEmpty leaving group first_wake true
unfolding equal join_path clean join push_all split push read_kv_stats read_kv_lines parse_kv fields
    Parse.parse_uint or_negative Strconv.parse_uint parse_digits lookup insert key_value pop
    relative is_digit parse_int with_sign fields_from fields_func is_space
group_is_empty = unpopulated {out = (codes "populated", 0) ∷ []} refl refl

Counts-oom : Counts leaving group first_wake (ok ((codes "oom", 3) ∷ []))
unfolding equal join_path clean join push_all split push read_kv_stats read_kv_lines parse_kv fields
    Parse.parse_uint or_negative Strconv.parse_uint parse_digits lookup insert key_value pop
    relative is_digit parse_int with_sign fields_from fields_func is_space
Counts-oom = refl

abbrev event : Event
event = record { low = 0; high = 0; max = 0; oom = 3; oom_kill = 0; oom_group_kill = 0 }

Holds-oom : Holds ((codes "oom", 3) ∷ []) event
unfolding lookup equal
Holds-oom = record {
  low = refl;
  high = refl;
  max = refl;
  oom = refl;
  oom_kill = refl;
  oom_group_kill = refl;
}

two_rounds : Life leaving group 2 [] (event ∷ []) (looked leaving group first_wake)
two_rounds =
    idle ([], refl, refl) (emptied (sixteen, refl, refl) group_is_empty Counts-oom Holds-oom)

event_loop-Life_example :
    event_loop leaving group 5 [] ≡ (ok (event ∷ [], closed), looked leaving group first_wake)
event_loop-Life_example = event_loop-Life leaving group 5 2 (omega arith) two_rounds
