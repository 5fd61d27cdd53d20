-- ===== src/Error.antt =====
-- The errors that the code returns or passes on, and results that may also be a run-time panic.
-- The named errors are those of cgroup1/errors.go, cgroup1/paths.go, cgroup1/opts.go and
-- cgroup2/errors.go; an error made by `fmt.Errorf` or `errors.New` in place has a constructor of
-- its own. `sys` is an error of the operating system.
use cgroups.Prelude.{ℕ, ◌≡◌, refl, Option, none, some, Bool, true, false, List}

pub data Errno : Type 0 where
  not_exist : Errno
  no_such_process : Errno
  invalid_argument : Errno
  other : ℕ → Errno

-- `ErrSyntax` and `ErrRange` of strconv
pub data NumError : Type 0 where
  syntax range : NumError

pub data Error : Type 0 where
  sys : Errno → Error
  num : NumError → Error
  invalid_pid mount_point_not_exist invalid_format freezer_not_supported : Error
  memory_not_supported cgroup_deleted no_cgroup_mount_destination : Error
  controller_not_active ignore_subsystem devices_required invalid_group_path : Error
  finalized_program invalid_device_type invalid_major invalid_minor unknown_access : Error
  nil_resources name_must_be_relative path_not_found invalid_entry : Error
  unable_to_remove running_tasks invalid_psi invalid_suffix invalid_line : Error
  no_such_subsystem missing_field outside_root no_directory_fd no_relative_path : Error
  subtree_control : Error → Error
  bus : List ℕ → Error
  unit_status : List ℕ → Error
  timed_out : Error
  at_line : ℕ → Error → Error

pub data Outcome {ℓ} (A : Type ℓ) : Type ℓ where
  ok : A → Outcome A
  err : Error → Outcome A
  panic : Outcome A

infixl 5 ◌>>=◌ ◌>>◌
abbrev pub ◌>>=◌ {ℓ κ} : {A : Type ℓ} {B : Type κ} → Outcome A → (A → Outcome B) → Outcome B
ok a >>= f = f a
err e >>= f = err e
panic >>= f = panic

abbrev pub ◌>>◌ {ℓ} : {B : Type ℓ} → Outcome (Unit {0}) → Outcome B → Outcome B
m >> k = m >>= λ _. k

-- `if b { return e }`
abbrev pub refuse_if : Bool → Error → Outcome (Unit {0})
refuse_if true e = err e
refuse_if false e = ok tt

-- `*p`, a panic where the pointer is nil
abbrev pub deref {ℓ} : {A : Type ℓ} → Option A → Outcome A
deref none = panic
deref (some a) = ok a

-- A bind that succeeds has two successful parts.
pub >>=-eq-ok {ℓ κ} :
    {A : Type ℓ} {B : Type κ} (first : Outcome A) (next : A → Outcome B) {result : B}
    → (first >>= next) ≡ ok result
    → (value : A) × (first ≡ ok value) × (next value ≡ ok result)
>>=-eq-ok panic next both = cc
>>=-eq-ok (err failure) next both = cc
>>=-eq-ok (ok value) next both = (value, refl, both)
