-- ===== src/Tests/Interpreter.antt =====
-- A machine for the tests: an interpreter of the instructions of the device filter.
use cgroups.Prelude.{
  ℕ, ◌+◌, ◌/◌, ◌%◌, ◌^◌, bit_and, Bool, false, not, Option, none, some, List, [], ◌∷◌, ◌≡◌, refl,
  ◌==◌, if◌then◌else◌, Bool-cases, inl, inr,
}
use cgroups.Prelude.Int.{ℤ}
use cgroups.Cgroup2.DeviceFilter.Asm.{
  Op, load_mem, rsh_imm32, mov_reg32, mov_imm32, and_imm32, jne_imm, jeq_imm, return, Instruction,
  sign_extend,
}
use cgroups.Cgroup2.DeviceFilter.Machine.{Regs, get, put, Memory, has_symbol, seek, Machine}

perform : Memory → Op → (Option ℤ → Regs → Option ℕ) → Regs → Option ℕ
perform mem (load_mem d b off z) next s = next none (put d (mem (get b s + off) z) s)
perform mem (rsh_imm32 d k) next s = next none (put d (get d s % 2 ^ 32 / 2 ^ k) s)
perform mem (mov_reg32 d b) next s = next none (put d (get b s % 2 ^ 32) s)
perform mem (mov_imm32 d v) next s = next none (put d v s)
perform mem (and_imm32 d v) next s = next none (put d (bit_and (get d s % 2 ^ 32) v) s)
perform mem (jne_imm d v n) next s =
    if get d s == sign_extend v then next none s else next (some n) s
perform mem (jeq_imm d v n) next s =
    if get d s == sign_extend v then next (some n) s else next none s
perform mem return next s = some s.r0

skips : Option ℤ → Option ℤ → Bool
skips none y = false
skips (some n) y = not (has_symbol n y)

-- With a target, the instructions before its symbol are skipped.
unfoldable pub exec : Memory → Option ℤ → List Instruction → Regs → Option ℕ
unfolding perform skips sign_extend
exec mem target [] s = none
exec mem target (i ∷ is) s =
    let next = λ (t : Option ℤ) (s' : Regs). exec mem t is s' in
    if skips target i.symbol then next target s else perform mem i.op next s

exec-seek :
    (mem : Memory) (n : ℤ) (is : List Instruction) (s : Regs)
    → exec mem (some n) is s ≡ exec mem none (seek n is) s
unfolding exec seek
exec-seek mem n [] s = refl
exec-seek mem n (i ∷ is) s = elim (Bool-cases (has_symbol n i.symbol)) [
  | inl e ↦ rw e
  | inr e ↦ rw e (exec-seek mem n is s)
]

pub jump :
    (mem : Memory) (b : Bool) (n : ℤ) (is : List Instruction) (s : Regs)
    → (if b then exec mem none is s else exec mem (some n) is s)
      ≡ (if b then exec mem none is s else exec mem none (seek n is) s)
jump mem b n is s = rw exec-seek

pub jump_back :
    (mem : Memory) (b : Bool) (n : ℤ) (is : List Instruction) (s : Regs)
    → (if b then exec mem (some n) is s else exec mem none is s)
      ≡ (if b then exec mem none (seek n is) s else exec mem none is s)
jump_back mem b n is s = rw exec-seek

abbrev pub interpreter : Machine
unfolding exec
interpreter = record {
  run = λ mem is s. exec mem none is s;
  run_load = λ mem y d b off z is s. refl;
  run_rsh = λ mem y d k is s. refl;
  run_mov_reg = λ mem y d b is s. refl;
  run_mov_imm = λ mem y d v is s. refl;
  run_and = λ mem y d v is s. refl;
  run_jne = λ mem y d v n is s. jump mem (get d s == sign_extend v) n is s;
  run_jeq = λ mem y d v n is s. jump_back mem (get d s == sign_extend v) n is s;
  run_return = λ mem y is s. refl;
}
