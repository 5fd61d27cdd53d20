-- ===== src/Cgroup2/DeviceFilter/Checks.antt =====
-- Each check of a rule, run on the machine: it goes on if the rule matches so far, and else jumps
-- to the next block.
use cgroups.Prelude.{
  ℕ, ◌%◌, ◌^◌, bit_and, Bool, true, false, not, ◌||◌, Option, none, some, List, ◌++◌, ◌≡◌, arith,
  ap, ◌∙◌, ◌==◌, if◌then◌else◌, Bool-cases, inl, inr,
}
use cgroups.Prelude.Int.{ℤ, pos, negsuc}
use cgroups.Cgroup2.DeviceFilter.Asm.{Reg, r0, r1, r2, r3, Instruction, sign_extend}
use cgroups.Cgroup2.DeviceFilter.{all_access, accept_block, type_check, access_check, number_check}
use cgroups.Cgroup2.DeviceFilter.Machine.{Regs, get, put, Memory, seek, Machine}
use cgroups.Cgroup2.DeviceFilter.Rules.{Request, kind_of, access_of}

-- The registers hold the request.
pub record Holds (q : Request) (s : Regs) : Type 0 where
  pub kind : s.r2 ≡ kind_of q
  pub access : s.r3 ≡ access_of q
  pub major : s.r4 ≡ q.major
  pub minor : s.r5 ≡ q.minor

-- From this code on the program returns v for the request.
pub record Decides (vm : Machine) (mem : Memory) (q : Request) (code : List Instruction) (v : ℕ)
    : Type 0 where
  pub returns : (s : Regs) → Holds q s → vm.run mem code s ≡ some v

-- Whether the machine goes on behind a check.
abbrev pub type_passes : Option ℕ → Request → Bool
type_passes none q = true
type_passes (some t) q = kind_of q == sign_extend t

abbrev pub access_passes : ℕ → Request → Bool
access_passes mask q = mask == all_access || not (bit_and (access_of q) mask == 0)

abbrev pub number_passes : ℤ → ℕ → Bool
number_passes (pos n) x = x == sign_extend (n % 2 ^ 32)
number_passes (negsuc n) x = true

module _ (vm : Machine) (mem : Memory) (q : Request) where
  pub run-accept_block :
      (allow : Bool) (tail : List Instruction)
      → Decides vm mem q (accept_block allow ++ tail) (if allow then 1 else 0)
  unfolding accept_block
  run-accept_block allow tail = record {
    returns = λ s h. vm.run_mov_imm mem none r0 _ _ s ∙ vm.run_return mem none tail _;
  }

  branch :
      (b : Bool) (x y : List Instruction) (s : Regs) (v w : ℕ)
      → vm.run mem x s ≡ some v
      → vm.run mem y s ≡ some w
      → (if b then vm.run mem x s else vm.run mem y s) ≡ some (if b then v else w)
  branch true x y s v w h k = h
  branch false x y s v w h k = k

  pub run-type_check :
      (t : Option ℕ) (next : ℤ) (rest : List Instruction) (v w : ℕ)
      → Decides vm mem q rest v
      → Decides vm mem q (seek next rest) w
      → Decides vm mem q (type_check t next ++ rest) (if type_passes t q then v else w)
  unfolding type_check
  run-type_check none next rest v w pass skip = pass
  run-type_check (some t) next rest v w pass skip = record {
    returns = λ s h.
        vm.run_jne mem none r2 t next rest s
        ∙ branch (s.r2 == sign_extend t) rest (seek next rest) s v w (pass.returns s h)
            (skip.returns s h)
        ∙ rw h.kind;
  }

  pub run-number_check :
      (r : Reg) (x : ℕ) (z : ℤ) (next : ℤ) (rest : List Instruction) (v w : ℕ)
      → ((s : Regs) → Holds q s → get r s ≡ x)
      → Decides vm mem q rest v
      → Decides vm mem q (seek next rest) w
      → Decides vm mem q (number_check r z next ++ rest) (if number_passes z x then v else w)
  unfolding number_check
  run-number_check r x (negsuc n) next rest v w held pass skip = pass
  run-number_check r x (pos n) next rest v w held pass skip = record {
    returns = λ s h.
        vm.run_jne mem none r (n % 2 ^ 32) next rest s
        ∙ branch (get r s == sign_extend (n % 2 ^ 32)) rest (seek next rest) s v w
            (pass.returns s h) (skip.returns s h)
        ∙ rw (held s h);
  }

  -- The scratch register is no part of the request.
  Holds-scratch : (s : Regs) (v : ℕ) → Holds q s → Holds q (put r1 v s)
  Holds-scratch s v h = record {
    kind = h.kind;
    access = h.access;
    major = h.major;
    minor = h.minor;
  }

  access-mod : access_of q % 2 ^ 32 % 2 ^ 32 ≡ access_of q
  access-mod = ground arith

  swap_branches :
      (a mask v w : ℕ)
      → a ≡ bit_and (access_of q) mask
      → (if a == sign_extend 0 then w else v)
        ≡ (if not (bit_and (access_of q) mask == 0) then v else w)
  unfolding sign_extend
  swap_branches a mask v w e = rw e (ground arith)

  pub run-access_check :
      (mask : ℕ) (next : ℤ) (rest : List Instruction) (v w : ℕ)
      → Decides vm mem q rest v
      → Decides vm mem q (seek next rest) w
      → Decides vm mem q (access_check mask next ++ rest) (if access_passes mask q then v else w)
  unfolding access_check
  run-access_check mask next rest v w pass skip = elim (Bool-cases (mask == all_access)) [
    | inl e ↦ rw e pass
    | inr e ↦ rw e (record {
      returns = λ s h.
          let a = bit_and (s.r3 % 2 ^ 32 % 2 ^ 32) mask in
          let s₁ = put r1 (s.r3 % 2 ^ 32) s in
          let s₂ = put r1 a s₁ in
          let held = Holds-scratch s₁ a (Holds-scratch s (s.r3 % 2 ^ 32) h) in
          let value : a ≡ bit_and (access_of q) mask =
            ap (λ (r : ℕ). bit_and (r % 2 ^ 32 % 2 ^ 32) mask) h.access
            ∙ ap (λ (r : ℕ). bit_and r mask) access-mod in
          vm.run_mov_reg mem none r1 r3 _ s
          ∙ vm.run_and mem none r1 mask _ s₁
          ∙ vm.run_jeq mem none r1 0 next rest s₂
          ∙ branch (a == sign_extend 0) (seek next rest) rest s₂ w v (skip.returns s₂ held)
              (pass.returns s₂ held)
          ∙ ap some (swap_branches a mask v w value);
    })
  ]
