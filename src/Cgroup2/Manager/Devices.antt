-- ===== src/Cgroup2/Manager/Devices.antt =====
-- cgroup2/manager.go: which failures to attach a device filter are skipped.
use cgroups.Prelude.{
  Bool, true, false, not, ◌||◌, ◌&&◌, some, List, [], ◌∷◌, ◌≡◌, ◌↔◌, refl, if◌then◌else◌,
}
use cgroups.Error.{Error, ok}
use cgroups.Text.{Bytes, contains}
use cgroups.Os.{open_dir, attach_filter, done, failed, History, Os, call}
use cgroups.Cgroup2.DeviceFilter.{Device, device_filter}
use cgroups.Cgroup2.DeviceFilter.Asm.{Instruction}
use cgroups.Cgroup2.Manager.{is_rwm, can_skip_ebpf_error, skip_if, set_devices}

-- The letters of all three accesses are there, in any order.
abbrev pub IsFullAccess : Bytes → Type 0
IsFullAccess access =
    (contains access b'r' ≡ true) × (contains access b'w' ≡ true) × (contains access b'm' ≡ true)

-- Every rule is a denial of all access.
pub DeniesAll : List Device → Type 0
DeniesAll [] = Unit
DeniesAll (d ∷ ds) = (d.allow ≡ false) × IsFullAccess d.access × DeniesAll ds

three : (r w m : Bool) → (r && (w && m)) ≡ true → (r ≡ true) × (w ≡ true) × (m ≡ true)
three true true true h = (refl, refl, refl)
three true true false h = cc
three true false m h = cc
three false w m h = cc

is_rwm-IsFullAccess : (access : Bytes) → is_rwm access ≡ true → IsFullAccess access
unfolding is_rwm
is_rwm-IsFullAccess access h =
    three (contains access b'r') (contains access b'w') (contains access b'm') h

IsFullAccess-is_rwm : (access : Bytes) → IsFullAccess access → is_rwm access ≡ true
unfolding is_rwm
IsFullAccess-is_rwm access (r, w, m) = rw r (rw w (rw m refl))

guard_passed :
    (allow rwm rest : Bool)
    → (if allow || not rwm then false else rest) ≡ true
    → (allow ≡ false) × (rwm ≡ true) × (rest ≡ true)
guard_passed true rwm rest h = cc
guard_passed false false rest h = cc
guard_passed false true rest h = (refl, refl, h)

skip_if-ok : (skip : Bool) (e : Error) → skip_if skip (some e) ≡ ok tt → skip ≡ true
skip_if-ok true e h = refl
skip_if-ok false e h = cc

can_skip_ebpf_error-DeniesAll : (ds : List Device) → can_skip_ebpf_error ds ≡ true → DeniesAll ds
unfolding can_skip_ebpf_error DeniesAll
can_skip_ebpf_error-DeniesAll [] h = tt
can_skip_ebpf_error-DeniesAll (d ∷ ds) h =
    let (a, r, rest) = guard_passed d.allow (is_rwm d.access) (can_skip_ebpf_error ds) h in
    (a, is_rwm-IsFullAccess d.access r, can_skip_ebpf_error-DeniesAll ds rest)

DeniesAll-can_skip_ebpf_error : (ds : List Device) → DeniesAll ds → can_skip_ebpf_error ds ≡ true
unfolding can_skip_ebpf_error DeniesAll
DeniesAll-can_skip_ebpf_error [] h = refl
DeniesAll-can_skip_ebpf_error (d ∷ ds) (a, f, h) =
    simp (a, IsFullAccess-is_rwm d.access f) (DeniesAll-can_skip_ebpf_error ds h)

set_devices-skip_if :
    (os : Os) (path dir : Bytes) (d : Device) (ds : List Device) {insts : List Instruction}
    (h : History) {e : Error}
    → device_filter (d ∷ ds) ≡ ok insts
    → os.answer h (open_dir path) ≡ done dir
    → os.answer (open_dir path ∷ h) (attach_filter insts) ≡ failed e
    → (set_devices os path (d ∷ ds) h).0 ≡ skip_if (can_skip_ebpf_error (d ∷ ds)) (some e)
unfolding set_devices call
set_devices-skip_if os path dir d ds h compiled opened refused =
    simp (compiled, opened, refused) refl

-- Where the filter of a nonempty list of rules compiles and the directory opens, but the kernel
-- refuses to attach the filter, `setDevices` returns without an error exactly when every rule
-- denies read, write and mknod together.
pub set_devices_refused :
    (os : Os) (path dir : Bytes) (d : Device) (ds : List Device) {insts : List Instruction}
    (h : History) {e : Error}
    → device_filter (d ∷ ds) ≡ ok insts
    → os.answer h (open_dir path) ≡ done dir
    → os.answer (open_dir path ∷ h) (attach_filter insts) ≡ failed e
    → (set_devices os path (d ∷ ds) h).0 ≡ ok tt ↔ DeniesAll (d ∷ ds)
set_devices_refused os path dir d ds h {e} compiled opened refused =
    rw (set_devices-skip_if os path dir d ds h compiled opened refused) (
      (λ skipped. can_skip_ebpf_error-DeniesAll (d ∷ ds) (skip_if-ok _ e skipped)),
      (λ denied. rw (DeniesAll-can_skip_ebpf_error (d ∷ ds) denied) refl),
    )
