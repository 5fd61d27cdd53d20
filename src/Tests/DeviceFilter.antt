-- ===== src/Tests/DeviceFilter.antt =====
-- Tests of cgroup2/devicefilter.go.
use cgroups.Prelude.{
  ◌↔◌, ℕ, ◌+◌, ◌*◌, ◌^◌, true, false, none, some, List, [], ◌∷◌, ◌++◌, ◌≡◌, refl, arith, ◌==◌,
  if◌then◌else◌, ◌||◌, inr,
}
use cgroups.Prelude.Int.{pos, negsuc}
use cgroups.Error.{Error, ok, err, panic}
use cgroups.Text.{codes, equal, contains}
use cgroups.Cgroup2.DeviceFilter.Asm.{
  r0, r1, r2, r3, r4, r5, Size, half, word, load_mem, rsh_imm32, mov_reg32, mov_imm32, and_imm32,
  jne_imm, jeq_imm, return, Instruction, plain, with_symbol,
}
use cgroups.Cgroup2.DeviceFilter.{
  Device, Program, header, init, bpf_type, bpf_access, accept_block, set_symbol, type_check,
  access_check, number_check, next_id, append_block, append_rule, append_device, finalize,
  append_all, device_filter,
}
use cgroups.Cgroup2.DeviceFilter.Machine.{Regs}
use cgroups.Cgroup2.DeviceFilter.Rules.{Request, rule_matches, decision}
use cgroups.Cgroup2.DeviceFilter.Reading.{open_program}
use cgroups.Cgroup2.DeviceFilter.Correct.{device_filter-decides}
use cgroups.Cgroup2.DeviceFilter.Wildcard.{IsWildcard, device_filter-wildcard}
use cgroups.Cgroup2.DeviceFilter.Refusals.{
  is_rule, append_device-accepts, device_filter-nil, device_filter-high_major,
}
use cgroups.Tests.Interpreter.{exec, interpreter}

-- cgroup2/devicefilter_test.go: deny all, allow what is listed after it
abbrev deny_all : Device
deny_all = record {
  allow = false;
  type = codes "a";
  major = some (negsuc 0);
  minor = some (negsuc 0);
  access = codes "rwm";
}

abbrev allow_null : Device
allow_null = record {
  allow = true;
  type = codes "c";
  major = some (pos 1);
  minor = some (pos 3);
  access = codes "rw";
}

abbrev rules : List Device
rules = deny_all ∷ allow_null ∷ []

abbrev read_null : Request
read_null = record {
  is_char = true;
  read = true;
  write = false;
  mknod = false;
  major = 1;
  minor = 3;
}

-- The context of the request at address 0.
abbrev context : ℕ → Size → ℕ
context a half = 2
context a word = if a == 0 then 2 * 2 ^ 16 + 2 else if a == 4 then 1 else 3

abbrev start : Regs
start = record { r0 = 0; r1 = 0; r2 = 0; r3 = 0; r4 = 0; r5 = 0 }

abbrev code : List Instruction
code =
    plain (load_mem r2 r1 0 half)
    ∷ plain (load_mem r3 r1 0 word)
    ∷ plain (rsh_imm32 r3 16)
    ∷ plain (load_mem r4 r1 4 word)
    ∷ plain (load_mem r5 r1 8 word)
    ∷ with_symbol (pos 0) (plain (jne_imm r2 2 (pos 1)))
    ∷ plain (mov_reg32 r1 r3)
    ∷ plain (and_imm32 r1 6)
    ∷ plain (jeq_imm r1 0 (pos 1))
    ∷ plain (jne_imm r4 1 (pos 1))
    ∷ plain (jne_imm r5 3 (pos 1))
    ∷ plain (mov_imm32 r0 1)
    ∷ plain return
    ∷ with_symbol (pos 1) (plain (mov_imm32 r0 0))
    ∷ plain return
    ∷ []

rules_compile : device_filter rules ≡ ok code
unfolding device_filter init append_all append_device append_rule finalize append_block next_id
    bpf_type bpf_access equal type_check access_check number_check accept_block set_symbol
rules_compile = refl

rules_run : exec context none code start ≡ some 1
unfolding exec
rules_run = refl

device_filter-decides_example :
    interpreter.run context code start ≡ some (if decision false rules read_null then 1 else 0)
device_filter-decides_example =
    device_filter-decides interpreter context read_null start rules
      (record { asks = refl; major_fits = omega arith; minor_fits = omega arith })
      (record { kind = refl; access_type = refl; major = refl; minor = refl }) (omega arith)
      rules_compile

rules_allow : decision false rules read_null ≡ true
unfolding decision rule_matches equal contains
rules_allow = refl

deny_all-IsWildcard : IsWildcard deny_all
unfolding bpf_type equal bpf_access
deny_all-IsWildcard = record {
  type = refl;
  major_number = 0;
  major = refl;
  minor_number = 0;
  minor = refl;
  access = refl;
}

device_filter-wildcard_example :
    device_filter (allow_null ∷ deny_all ∷ allow_null ∷ []) ≡ device_filter rules
device_filter-wildcard_example =
    device_filter-wildcard (allow_null ∷ []) (allow_null ∷ []) deny_all deny_all-IsWildcard

append_device-accepts_example :
    ((is_rule allow_null ≡ true)
      ↔ ((p : Program) × (append_device (open_program [] 0) allow_null ≡ ok p)))
    × ((is_rule allow_null ≡ false)
        ↔ ((e : Error) × (append_device (open_program [] 0) allow_null ≡ err e)))
append_device-accepts_example = append_device-accepts [] 0 allow_null (pos 1) (pos 3) refl refl

abbrev no_minor : Device
no_minor = record allow_null { minor = none }

device_filter-nil_example : device_filter (deny_all ∷ no_minor ∷ []) ≡ panic
device_filter-nil_example =
    device_filter-nil (deny_all ∷ []) no_minor is_char (inr (pos 1, refl, refl, refl))
  where
    is_char :
        (equal no_minor.type (codes "c")
          || (equal no_minor.type (codes "b") || equal no_minor.type (codes "a")))
        ≡ true
    is_char = unfold equal in refl

abbrev high : Device
high = record {
  allow = true;
  type = codes "c";
  major = some (pos (2 ^ 31));
  minor = some (negsuc 0);
  access = codes "rwm";
}

abbrev high_code : List Instruction
high_code =
    header
    ++ (with_symbol (pos 0) (plain (jne_imm r2 2 (pos 1)))
        ∷ plain (jne_imm r4 (2 ^ 31) (pos 1))
        ∷ plain (mov_imm32 r0 1)
        ∷ plain return
        ∷ with_symbol (pos 1) (plain (mov_imm32 r0 0))
        ∷ plain return
        ∷ [])

high_compiles : device_filter (high ∷ []) ≡ ok high_code
unfolding device_filter init append_all append_device append_rule finalize append_block next_id
    bpf_type bpf_access equal type_check access_check number_check accept_block set_symbol
high_compiles = refl

abbrev to_high : Request
to_high = record {
  is_char = true;
  read = true;
  write = false;
  mknod = false;
  major = 2 ^ 31;
  minor = 0;
}

abbrev high_context : ℕ → Size → ℕ
high_context a half = 2
high_context a word = if a == 0 then 2 * 2 ^ 16 + 2 else if a == 4 then 2 ^ 31 else 0

device_filter-high_major_example : interpreter.run high_context high_code start ≡ some 0
device_filter-high_major_example =
    device_filter-high_major interpreter high_context to_high start high (2 ^ 31)
      (record { asks = refl; major_fits = omega arith; minor_fits = omega arith })
      (record { kind = refl; access_type = refl; major = refl; minor = refl }) refl (omega arith)
      (omega arith) high_compiles

abbrev no_major : Device
no_major = record { allow = true; type = codes "c"; major = none; minor = none; access = codes "r" }
