-- ===== src/Lib.antt =====
-- Verification of containerd/cgroups, a library that creates, configures and inspects control groups.
--
-- The program. A client describes limits by the OCI resource types or by the types of package
-- cgroup2. `cgroup2.ToResources` converts the former to the latter; `cgroup2.NewManager` makes the
-- directory of a group, enables its controllers in the directories above, writes each limit to a
-- file, and attaches an eBPF program that decides the accesses to devices. Package cgroup1 does the
-- same for the older hierarchies, one controller each. Both read statistics back from files.
--
-- The model. Results are an `Outcome`: a value, an error, or a run-time panic (Error). Code that
-- calls the operating system is an `Action` (Os): it takes the calls so far, returns those after it,
-- and asks the parameter `Os` for each answer, so a theorem holds for every behaviour of the system.
-- Machine integers are natural numbers or ℤ with the wrap-around written out.
--
-- - Prelude, Prelude/Lists, Prelude/Int: shared names, lists, integers of 64 bits.
-- - Text, Strconv, FilePath, Map, Spec: what the source uses of the Go packages strings, strconv and
--   path/filepath, of Go maps, and of the OCI runtime specification. Strings are lists of bytes; case
--   and white space are those of ASCII, in which the kernel writes these files.
-- - Cgroup2/DeviceFilter: cgroup2/devicefilter.go. `device_filter` is DeviceFilter, `append_device`
--   appendDevice, `finalize` finalize. Asm and Machine are the assembler and the machine, which are
--   not part of the repository: a machine is any function that obeys the documented instructions.
-- - Cgroup2/Resources: cgroup2/cpu.go, memory.go, pids.go, io.go, rdma.go, hugetlb.go, and Resources
--   and Value of cgroup2/manager.go. Resources/CpuMax has CPUMax and the quota of NewSystemd.
-- - Cgroup2/Convert: ToResources of cgroup2/utils.go. Its float functions are a parameter, and so is
--   the order in which Go iterates over a map.
-- - Cgroup2/Paths: VerifyGroupPath of cgroup2/paths.go, its paths of processes, and the slice paths of cgroup2/manager.go.
-- - Cgroup2/Parse: the parsers of cgroup2/utils.go and readKVStatsFile of cgroup2/manager.go.
-- - Cgroup2/Manager: NewManager, NewChild, Load, Update, ToggleControllers, AddProc, AddThread and
--   setDevices of cgroup2/manager.go, with cgroup2/ebpf.go.
-- - Cgroup2/Lifecycle: cgroup2/state.go, remove of cgroup2/utils.go, and GetType, Delete, MoveTo and
--   getTasks (for a whole tree) of cgroup2/manager.go.
--   Lifecycle/Freezer has the loop of freeze, and Lifecycle/Killing has Kill, fallbackKill and SetType.
-- - Cgroup2/Systemd: NewSystemd, startUnit, systemdVersion, LoadSystemd and DeleteSystemd of
--   cgroup2/manager.go. A call over D-Bus is a call of the system.
-- - Cgroup2/Stats: readIoStats and toRdmaEntry of cgroup2/utils.go.
-- - Cgroup2/Metrics: Stat and StatFiltered of cgroup2/manager.go with the files that they read. Psi and
--   HugePages have getStatPSIFromFile and getHugePageSizeFromFilenames of cgroup2/utils.go; the sizes of
--   the pages of a machine, and ParseFloat, are parameters. Events has EventChan of cgroup2/manager.go,
--   whose events are taken by a receiver that is always ready.
-- - Cgroup1/Controllers: parseUint and readUint of cgroup1/utils.go, and Create of cgroup1/cpu.go,
--   pids.go, net_cls.go, net_prio.go, hugetlb.go and rdma.go.
-- - Cgroup1/Memory: cgroup1/memory.go; Events has its events, which Cgroup1/Group/Events registers.
-- - Cgroup1/Names, Cgroup1/HugePages: Subsystems of cgroup1/subsystem.go, and hugePageSizes of
--   cgroup1/utils.go, with docker/go-units as a parameter. Mode: Mode of utils.go.
-- - Cgroup1/Accounting: cgroup1/cpuacct.go and ticks.go, and parseKV of cgroup1/utils.go.
-- - Cgroup1/Devices: cgroup1/devices.go. Cgroup1/Blkio: cgroup1/blkio.go.
-- - Cgroup1/Cpuset: cgroup1/cpuset.go, and cleanPath of cgroup1/utils.go; Inheriting says by the files what a
--   new directory takes from the one above.
-- - Cgroup1/Stats: Stat of cgroup1/cpu.go, pids.go, hugetlb.go and rdma.go.
-- - Cgroup1/Subsystem: cgroup1/subsystem.go, the pure parts of paths.go and opts.go, readPids and pathers of
--   cgroup1/utils.go. A subsystem is a record of the methods that its dynamic type has.
-- - Cgroup1/Group: cgroup1/cgroup.go and freezer.go. `new` and `load` are New and Load; Operations has
--   the methods, Deletion the method Delete, and Lifetime what ends the life of a
--   group. The mutex of a group lets one call run at a time, so a call is one step. Gathering has the
--   method Stat: its goroutines take steps in any order, on shared metrics and a channel of bounded size; what the
--   method Stat of each subsystem does to the metrics is a parameter.
-- - Cgroup1/Defaults: defaults of cgroup1/utils.go, Default of cgroup1/v1.go and SingleSubsystem: the
--   controllers as subsystems of a group. Cgroup1/Paths: NestedPath and PidPath of cgroup1/paths.go.
-- - Cgroup1/Systemd: cgroup1/systemd.go. What `once` keeps is an argument: the answer to the test for
--   delegation, if it was made.
-- - ProcFile: ParseCgroupFromReaderUnified of utils.go, getCgroupDestination of cgroup1/utils.go and
--   v1MountPoint of cgroup1/v1.go.
-- - Tests: runs of the definitions, and the theorems at concrete inputs.
--
-- Bounds. The loops are structural recursion on their lists or on their counter, but for four. The
-- loop of `freeze` in cgroup2, the one of `wait_state` in cgroup1 and the one of `event_loop` wait for
-- the kernel without a bound and have fuel: any fuel that is as large as the number of rounds. The recursion of
-- `ensure_parent` has one unit of fuel for each byte of the path, and the path is shorter in each
-- round.
--
-- Not modelled: MemoryEventFD, the options of New and Load, the generated statistics types, the
-- command line tool cmd/cgctl, and what is logged. File modes and the closing of files are left out,
-- as no modelled function depends on them. Of the goroutines of Stat in cgroup1, those that are left
-- behind when a path is an error are not followed further.

pub mod Prelude
pub mod Error
pub mod Text
pub mod Strconv
pub mod Cgroup2
mod Tests
pub mod Spec
pub mod FilePath
pub mod Map
pub mod Os
pub mod Cgroup1
pub mod ProcFile
pub mod Mode
