-- ===== src/Cgroup2/DeviceFilter/Asm.antt =====
-- The eBPF instructions of cgroup2/devicefilter.go, one constructor for each function of the
-- package github.com/cilium/ebpf/asm that the file calls. An int32 operand is its bit pattern.
use cgroups.Prelude.{ℕ, ◌+◌, ◌-◌, ◌^◌, Option, none, some, ltb, if◌then◌else◌}
use cgroups.Prelude.Int.{ℤ}

pub data Reg : Type 0 where
  r0 r1 r2 r3 r4 r5 : Reg

pub data Size : Type 0 where
  half word : Size

pub data Op : Type 0 where
  load_mem : Reg → Reg → ℕ → Size → Op
  rsh_imm32 : Reg → ℕ → Op
  mov_reg32 : Reg → Reg → Op
  mov_imm32 : Reg → ℕ → Op
  and_imm32 : Reg → ℕ → Op
  jne_imm : Reg → ℕ → ℤ → Op
  jeq_imm : Reg → ℕ → ℤ → Op
  return : Op

-- An instruction and its symbol: `some n` is the symbol "block-n", as the last operand n of a
-- jump is.
pub record Instruction : Type 0 where
  pub symbol : Option ℤ
  pub op : Op

abbrev pub plain : Op → Instruction
plain o = record { symbol = none; op = o }

-- `Instruction.WithSymbol`
abbrev pub with_symbol : ℤ → Instruction → Instruction
with_symbol n i = record { symbol = some n; op = i.op }

-- The int32 pattern v as a 64-bit operand.
unfoldable pub sign_extend : ℕ → ℕ
sign_extend v = if ltb v (2 ^ 31) then v else v + (2 ^ 64 - 2 ^ 32)
