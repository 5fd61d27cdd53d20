-- ===== src/Cgroup2/DeviceFilter.antt =====
-- cgroup2/devicefilter.go: the eBPF program that decides the accesses to devices.
pub mod Asm
pub mod Machine
pub mod Rules
pub mod Checks
pub mod Blocks
pub mod Reading
pub mod Loop
pub mod Correct
pub mod Wildcard
pub mod Refusals
use cgroups.Prelude.{
  ℕ, zero, suc, ◌+◌, ◌-◌, ◌*◌, ◌/◌, ◌%◌, ◌^◌, ◌≤◌, ◌<◌, bit_and, bit_or, Bool, true, false, not,
  ◌&&◌, ◌||◌, Option, none, some, List, [], ◌∷◌, ◌++◌, ◌≡◌, ◌≢◌, ◌↔◌, ◌⊎◌, refl, sym, arith, ap,
  ◌∙◌, append-nil, append_assoc, map, foldl, reverse, ◌==◌, ==_iff, ltb, leb, ltb→lt, lt→ltb,
  leb→le, if◌then◌else◌, Bool-cases, Option-cases, inl, inr, length, get_elem?, set, length-append,
  take, drop, get_or, dec_lt, ℕ_discrete,
}
use cgroups.Prelude.Int.{
  ℤ, pos, negsuc, pos_part, neg_part, sub_ℕ, ◌+ℤ◌, ◌-ℤ◌, ◌*ℤ◌, ◌≤ℤ◌, ltb_ℤ, int_laws,
}
use cgroups.Error.{
  Errno, not_exist, no_such_process, invalid_argument, other, NumError, syntax, range, Error, sys,
  num, Outcome, ok, err, panic, ◌>>=◌, ◌>>◌, refuse_if, deref, finalized_program,
  invalid_device_type, invalid_major, invalid_minor, unknown_access, >>=-eq-ok,
}
use cgroups.Text.{
  Bytes, codes, equal, cut_prefix, has_prefix, trim_prefix, has_suffix, trim_suffix, contains,
  split, split_n, cut, join, fields, fields_func, fields_from, is_space, emit, trim_left, trim,
  trim_space, to_lower, to_upper, equal_iff, equal_refl, split-append, split_single, cut-append,
  IsWord, onto_first,
}
use cgroups.Text.Scan.{Scanner, whole}
use Asm.{
  Reg, r0, r1, r2, r3, r4, r5, Size, half, word, Op, load_mem, rsh_imm32, mov_reg32, mov_imm32,
  and_imm32, jne_imm, jeq_imm, return, Instruction, plain, with_symbol,
}

-- `specs.LinuxDeviceCgroup` of the OCI runtime specification; `major` and `minor` are pointers.
pub record Device : Type 0 where
  pub allow : Bool
  pub type : Bytes
  pub major : Option ℤ
  pub minor : Option ℤ
  pub access : Bytes

-- `BPF_DEVCG_*` of the kernel's uapi/linux/bpf.h, through golang.org/x/sys/unix
abbrev pub dev_block : ℕ
dev_block = 1

abbrev pub dev_char : ℕ
dev_char = 2

abbrev pub acc_mknod : ℕ
acc_mknod = 1

abbrev pub acc_read : ℕ
acc_read = 2

abbrev pub acc_write : ℕ
acc_write = 4

pub record Program : Type 0 where
  pub insts : List Instruction
  pub has_wild_card : Bool
  pub block_id : ℤ

abbrev pub header : List Instruction
header =
    plain (load_mem r2 r1 0 half)
    ∷ plain (load_mem r3 r1 0 word)
    ∷ plain (rsh_imm32 r3 16)
    ∷ plain (load_mem r4 r1 4 word)
    ∷ plain (load_mem r5 r1 8 word)
    ∷ []

-- `p := &program{}; p.init()`
unfoldable pub init : Program
init = record { insts = header; has_wild_card = false; block_id = pos 0 }

-- The type as `bpfType`, or `none` where there is no check of it.
unfoldable pub bpf_type : Bytes → Outcome (Option ℕ)
bpf_type t =
    if equal t (codes "c")
    then ok (some dev_char)
    else if equal t (codes "b")
    then ok (some dev_block)
    else if equal t (codes "a")
    then ok none
    else err invalid_device_type

-- The loop over `dev.Access`.
unfoldable pub bpf_access : ℕ → Bytes → Outcome ℕ
bpf_access mask [] = ok mask
bpf_access mask (r ∷ access) =
    let read = bpf_access (bit_or mask acc_read) access in
    let write = bpf_access (bit_or mask acc_write) access in
    let mknod = bpf_access (bit_or mask acc_mknod) access in
    if r == b'r'
    then read
    else if r == b'w'
    then write
    else if r == b'm'
    then mknod
    else err unknown_access

abbrev pub all_access : ℕ
all_access = bit_or (bit_or acc_read acc_write) acc_mknod

unfoldable pub accept_block : Bool → List Instruction
accept_block accept = plain (mov_imm32 r0 (if accept then 1 else 0)) ∷ plain return ∷ []

-- `p.insts[i] = p.insts[i].WithSymbol(...)`
unfoldable pub set_symbol : ℕ → ℤ → List Instruction → List Instruction
set_symbol i n [] = []
set_symbol zero n (x ∷ xs) = with_symbol n x ∷ xs
set_symbol (suc i) n (x ∷ xs) = x ∷ set_symbol i n xs

-- The checks of one rule. `none` stands for a false `hasType`, `hasAccess`, `hasMajor`, `hasMinor`.
unfoldable pub type_check : Option ℕ → ℤ → List Instruction
type_check none next = []
type_check (some t) next = plain (jne_imm r2 t next) ∷ []

unfoldable pub access_check : ℕ → ℤ → List Instruction
access_check mask next =
    if mask == all_access
    then []
    else plain (mov_reg32 r1 r3) ∷ plain (and_imm32 r1 mask) ∷ plain (jeq_imm r1 0 next) ∷ []

-- `int32(n)` of a number that is not negative keeps the low 32 bits.
unfoldable pub number_check : Reg → ℤ → ℤ → List Instruction
number_check r (pos n) next = plain (jne_imm r (n % 2 ^ 32) next) ∷ []
number_check r (negsuc n) next = []

abbrev pub is_negative : ℤ → Bool
is_negative z = ltb_ℤ z (pos 0)

abbrev pub is_none : Option ℕ → Bool
is_none none = true
is_none (some _) = false

-- `p.blockID + 1`
unfoldable pub next_id : ℤ → ℤ
next_id (pos n) = pos (n + 1)
next_id (negsuc zero) = pos 0
next_id (negsuc (suc n)) = negsuc n

-- The body of `appendDevice` once the rule has been read.
unfoldable pub append_block : Program → Option ℕ → ℕ → ℤ → ℤ → Bool → Program
append_block p t mask major minor allow =
    let next = next_id p.block_id in
    let added =
      type_check t next
      ++ (access_check mask next
          ++ (number_check r4 major next ++ (number_check r5 minor next ++ accept_block allow))) in
    record {
      insts = set_symbol (length p.insts) p.block_id (p.insts ++ added);
      has_wild_card = is_none t && mask == all_access && is_negative major && is_negative minor;
      block_id = next;
    }

abbrev pub max_uint32 : ℤ
max_uint32 = pos (2 ^ 32 - 1)

-- `appendDevice` behind its two early returns.
unfoldable pub append_rule : Program → Device → Outcome Program
append_rule p dev = do
  t ← bpf_type dev.type
  major ← deref dev.major
  refuse_if (ltb_ℤ max_uint32 major) invalid_major
  minor ← deref dev.minor
  refuse_if (ltb_ℤ max_uint32 minor) invalid_minor
  mask ← bpf_access 0 dev.access
  ok (append_block p t mask major minor dev.allow)

unfoldable pub append_device : Program → Device → Outcome Program
append_device p dev =
    if is_negative p.block_id
    then err finalized_program
    else if p.has_wild_card
    then ok p
    else append_rule p dev

-- The finalized program and its instructions. After a wildcard entry there is nothing to add.
unfoldable pub finalize : Program → Program × List Instruction
finalize p =
    if p.has_wild_card
    then (p, p.insts)
    else let insts =
        p.insts ++ with_symbol p.block_id (plain (mov_imm32 r0 0)) ∷ plain return ∷ [] in
      (record p { insts = insts; block_id = negsuc 0 }, insts)

-- The loop of `DeviceFilter`, over the devices from the last to the first.
unfoldable pub append_all : Program → List Device → Outcome Program
append_all p [] = ok p
append_all p (d ∷ ds) = do q ← append_device p d; append_all q ds

-- `DeviceFilter`, without its constant license string
unfoldable pub device_filter : List Device → Outcome (List Instruction)
device_filter devices = do p ← append_all init (reverse devices); ok (finalize p).1
