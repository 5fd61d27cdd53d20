-- ===== src/Cgroup2/DeviceFilter/Machine.antt =====
-- The machine that runs the filter, the kernel's eBPF interpreter, as a parameter with the
-- documented behaviour of the instructions that the filter uses.
use cgroups.Prelude.{
  ℕ, ◌+◌, ◌/◌, ◌%◌, ◌^◌, bit_and, Bool, false, Option, none, some, List, [], ◌∷◌, ◌≡◌, ◌==◌,
  if◌then◌else◌,
}
use cgroups.Prelude.Int.{ℤ, pos, negsuc}
use cgroups.Cgroup2.DeviceFilter.Asm.{
  Reg, r0, r1, r2, r3, r4, r5, Size, load_mem, rsh_imm32, mov_reg32, mov_imm32, and_imm32, jne_imm,
  jeq_imm, return, Instruction, sign_extend,
}

-- The registers that the filter uses. A 32-bit operation clears the upper half of its result.
pub record Regs : Type 0 where
  pub r0 : ℕ
  pub r1 : ℕ
  pub r2 : ℕ
  pub r3 : ℕ
  pub r4 : ℕ
  pub r5 : ℕ

abbrev pub get : Reg → Regs → ℕ
get r0 s = s.r0
get r1 s = s.r1
get r2 s = s.r2
get r3 s = s.r3
get r4 s = s.r4
get r5 s = s.r5

abbrev pub put : Reg → ℕ → Regs → Regs
put r0 v s = record s { r0 = v }
put r1 v s = record s { r1 = v }
put r2 v s = record s { r2 = v }
put r3 v s = record s { r3 = v }
put r4 v s = record s { r4 = v }
put r5 v s = record s { r5 = v }

-- An address and a size to the number that is stored there.
abbrev pub Memory : Type 0
Memory = ℕ → Size → ℕ

abbrev pub same_id : ℤ → ℤ → Bool
same_id (pos a) (pos b) = a == b
same_id (negsuc a) (negsuc b) = a == b
same_id (pos a) (negsuc b) = false
same_id (negsuc a) (pos b) = false

abbrev pub has_symbol : ℤ → Option ℤ → Bool
has_symbol n none = false
has_symbol n (some m) = same_id n m

-- The code from the instruction with a symbol on: the target of a forward jump.
unfoldable pub seek : ℤ → List Instruction → List Instruction
seek n [] = []
seek n (i ∷ is) = let later = seek n is in if has_symbol n i.symbol then i ∷ is else later

-- `run mem code s` is what the program returns that goes on with `code` in the registers `s`.
-- The value of a jump's int32 operand is extended by its sign and compared on 64 bits.
pub record Machine : Type 0 where
  pub run : Memory → List Instruction → Regs → Option ℕ
  pub run_load :
      (mem : Memory) (y : Option ℤ) (d b : Reg) (off : ℕ) (z : Size) (is : List Instruction)
      (s : Regs)
      → run mem (record { symbol = y; op = load_mem d b off z } ∷ is) s
        ≡ run mem is (put d (mem (get b s + off) z) s)
  pub run_rsh :
      (mem : Memory) (y : Option ℤ) (d : Reg) (k : ℕ) (is : List Instruction) (s : Regs)
      → run mem (record { symbol = y; op = rsh_imm32 d k } ∷ is) s
        ≡ run mem is (put d (get d s % 2 ^ 32 / 2 ^ k) s)
  pub run_mov_reg :
      (mem : Memory) (y : Option ℤ) (d b : Reg) (is : List Instruction) (s : Regs)
      → run mem (record { symbol = y; op = mov_reg32 d b } ∷ is) s
        ≡ run mem is (put d (get b s % 2 ^ 32) s)
  pub run_mov_imm :
      (mem : Memory) (y : Option ℤ) (d : Reg) (v : ℕ) (is : List Instruction) (s : Regs)
      → run mem (record { symbol = y; op = mov_imm32 d v } ∷ is) s ≡ run mem is (put d v s)
  pub run_and :
      (mem : Memory) (y : Option ℤ) (d : Reg) (v : ℕ) (is : List Instruction) (s : Regs)
      → run mem (record { symbol = y; op = and_imm32 d v } ∷ is) s
        ≡ run mem is (put d (bit_and (get d s % 2 ^ 32) v) s)
  pub run_jne :
      (mem : Memory) (y : Option ℤ) (d : Reg) (v : ℕ) (n : ℤ) (is : List Instruction) (s : Regs)
      → run mem (record { symbol = y; op = jne_imm d v n } ∷ is) s
        ≡ (if get d s == sign_extend v then run mem is s else run mem (seek n is) s)
  pub run_jeq :
      (mem : Memory) (y : Option ℤ) (d : Reg) (v : ℕ) (n : ℤ) (is : List Instruction) (s : Regs)
      → run mem (record { symbol = y; op = jeq_imm d v n } ∷ is) s
        ≡ (if get d s == sign_extend v then run mem (seek n is) s else run mem is s)
  pub run_return :
      (mem : Memory) (y : Option ℤ) (is : List Instruction) (s : Regs)
      → run mem (record { symbol = y; op = return } ∷ is) s ≡ some s.r0
