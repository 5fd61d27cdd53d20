-- ===== src/Cgroup2/DeviceFilter/Blocks.antt =====
-- The block of one rule: its jumps reach the next block, and it returns what the rule says if all
-- its checks pass.
use cgroups.Prelude.{
  ℕ, Bool, true, ◌&&◌, Option, none, some, List, [], ◌∷◌, ◌++◌, ◌≡◌, ◌≢◌, refl, sym, arith, ap, ◌∙◌,
  append_assoc, ◌==◌, if◌then◌else◌, Bool-cases, inl, inr, length,
}
use cgroups.Prelude.Int.{ℤ, pos, negsuc}
use cgroups.Cgroup2.DeviceFilter.Asm.{
  Reg, r4, r5, Op, load_mem, rsh_imm32, mov_reg32, mov_imm32, and_imm32, jne_imm, jeq_imm, return,
  Instruction, with_symbol,
}
use cgroups.Cgroup2.DeviceFilter.{
  all_access, accept_block, set_symbol, type_check, access_check, number_check,
}
use cgroups.Cgroup2.DeviceFilter.Machine.{Regs, Memory, same_id, seek, Machine}
use cgroups.Cgroup2.DeviceFilter.Rules.{Request}
use cgroups.Cgroup2.DeviceFilter.Checks.{
  Decides, type_passes, access_passes, number_passes, run-accept_block, run-type_check,
  run-number_check, run-access_check,
}

-- The code that starts with the instruction of symbol n.
abbrev pub StartsAt : ℤ → List Instruction → Type 0
StartsAt n code = seek n code ≡ code

-- The instructions that one rule adds, before the first of them gets its symbol.
abbrev pub block : Option ℕ → ℕ → ℤ → ℤ → Bool → ℤ → List Instruction
block t mask major minor allow next =
    type_check t next
    ++ (access_check mask next
        ++ (number_check r4 major next ++ (number_check r5 minor next ++ accept_block allow)))

-- The checks carry no symbol.
seek-type_check :
    (n next : ℤ) (t : Option ℕ) (rest : List Instruction)
    → seek n (type_check t next ++ rest) ≡ seek n rest
unfolding seek type_check
seek-type_check n next none rest = refl
seek-type_check n next (some t) rest = refl

seek-access_check :
    (n next : ℤ) (mask : ℕ) (rest : List Instruction)
    → seek n (access_check mask next ++ rest) ≡ seek n rest
unfolding seek access_check
seek-access_check n next mask rest = elim (Bool-cases (mask == all_access)) [
  | inl e ↦ rw e
  | inr e ↦ rw e
]

seek-number_check :
    (n next : ℤ) (r : Reg) (z : ℤ) (rest : List Instruction)
    → seek n (number_check r z next ++ rest) ≡ seek n rest
unfolding seek number_check
seek-number_check n next r (pos k) rest = refl
seek-number_check n next r (negsuc k) rest = refl

seek-accept_block :
    (n : ℤ) (allow : Bool) (rest : List Instruction)
    → seek n (accept_block allow ++ rest) ≡ seek n rest
unfolding seek accept_block
seek-accept_block n allow rest = refl

ruleset seek_laws = (seek-type_check, seek-access_check, seek-number_check, seek-accept_block)

abbrev pub passes : Option ℕ → ℕ → ℤ → ℤ → Request → Bool
passes t mask major minor q =
    type_passes t q
    && (access_passes mask q && (number_passes major q.major && number_passes minor q.minor))

nested_if :
    (a b c d : Bool) (v w : ℕ)
    → (if a then (if b then (if c then (if d then v else w) else w) else w) else w)
      ≡ (if a && (b && (c && d)) then v else w)
nested_if a b c d v w = ground arith

block-append :
    (t : Option ℕ) (mask : ℕ) (major minor : ℤ) (allow : Bool) (next : ℤ) (tail : List Instruction)
    → block t mask major minor allow next ++ tail
      ≡ type_check t next
        ++ (access_check mask next
            ++ (number_check r4 major next
                ++ (number_check r5 minor next ++ (accept_block allow ++ tail))))
block-append t mask major minor allow next tail = simp append_assoc

module _ (vm : Machine) (mem : Memory) (q : Request) where
  pub Decides-block :
      (t : Option ℕ) (mask : ℕ) (major minor : ℤ) (allow : Bool) (next : ℤ)
      (tail : List Instruction) (w : ℕ)
      → StartsAt next tail
      → Decides vm mem q tail w
      → Decides vm mem q
          (block t mask major minor allow next ++ tail)
          (if passes t mask major minor q then (if allow then 1 else 0) else w)
  Decides-block t mask major minor allow next tail w starts skip =
      let target : (code : List Instruction)
          → seek next code ≡ seek next tail
          → Decides vm mem q (seek next code) w =
        λ code e. rw (e, starts) skip in
      let v : ℕ = if allow then 1 else 0 in
      let accept = run-accept_block vm mem q allow tail in
      let with_minor =
        run-number_check vm mem q r5 q.minor minor next _ v w (λ s h. h.minor) accept
          (target _ (simp seek_laws)) in
      let with_major =
        run-number_check vm mem q r4 q.major major next _ _ w (λ s h. h.major) with_minor
          (target _ (simp seek_laws)) in
      let with_access =
        run-access_check vm mem q mask next _ _ w with_major (target _ (simp seek_laws)) in
      let with_type =
        run-type_check vm mem q t next _ _ w with_access (target _ (simp seek_laws)) in
      rw
        (
          block-append t mask major minor allow next tail,
          ← nested_if (type_passes t q) (access_passes mask q) (number_passes major q.major)
              (number_passes minor q.minor) v w,
        )
        with_type

  -- A symbol does not change what an instruction does.
  run-with_symbol :
      (n : ℤ) (i : Instruction) (rest : List Instruction) (s : Regs)
      → vm.run mem (with_symbol n i ∷ rest) s ≡ vm.run mem (i ∷ rest) s
  run-with_symbol n i rest s = go i.op i.symbol
    where
      go :
          (o : Op) (y : Option ℤ)
          → vm.run mem (record { symbol = some n; op = o } ∷ rest) s
            ≡ vm.run mem (record { symbol = y; op = o } ∷ rest) s
      go (load_mem d b k z) y =
          vm.run_load mem (some n) d b k z rest s ∙ sym (vm.run_load mem y d b k z rest s)
      go (rsh_imm32 d k) y = vm.run_rsh mem (some n) d k rest s ∙ sym (vm.run_rsh mem y d k rest s)
      go (mov_reg32 d b) y =
          vm.run_mov_reg mem (some n) d b rest s ∙ sym (vm.run_mov_reg mem y d b rest s)
      go (mov_imm32 d v) y =
          vm.run_mov_imm mem (some n) d v rest s ∙ sym (vm.run_mov_imm mem y d v rest s)
      go (and_imm32 d v) y = vm.run_and mem (some n) d v rest s ∙ sym (vm.run_and mem y d v rest s)
      go (jne_imm d v l) y =
          vm.run_jne mem (some n) d v l rest s ∙ sym (vm.run_jne mem y d v l rest s)
      go (jeq_imm d v l) y =
          vm.run_jeq mem (some n) d v l rest s ∙ sym (vm.run_jeq mem y d v l rest s)
      go return y = vm.run_return mem (some n) rest s ∙ sym (vm.run_return mem y rest s)

-- The first instruction gets a symbol.
abbrev pub labelled : ℤ → List Instruction → List Instruction
labelled n [] = []
labelled n (i ∷ is) = with_symbol n i ∷ is

pub set_symbol-append :
    (n : ℤ) (front code : List Instruction)
    → set_symbol (length front) n (front ++ code) ≡ front ++ labelled n code
unfolding set_symbol
set_symbol-append n [] [] = refl
set_symbol-append n [] (i ∷ code) = refl
set_symbol-append n (x ∷ front) code = ap (◌∷◌ x) (set_symbol-append n front code)

same_id_refl : (n : ℤ) → same_id n n ≡ true
same_id_refl (pos a) = ground arith
same_id_refl (negsuc a) = ground arith

seek-with_symbol :
    (n : ℤ) (i : Instruction) (rest : List Instruction)
    → seek n (with_symbol n i ∷ rest) ≡ with_symbol n i ∷ rest
unfolding seek
seek-with_symbol n i rest = rw same_id_refl

pub labelled-StartsAt :
    (n : ℤ) (code tail : List Instruction) → code ≢ [] → StartsAt n (labelled n code ++ tail)
labelled-StartsAt n [] tail ne = absurd (ne refl)
labelled-StartsAt n (i ∷ code) tail ne = seek-with_symbol n i (code ++ tail)

pub block-ne-nil :
    (t : Option ℕ) (mask : ℕ) (major minor : ℤ) (allow : Bool) (next : ℤ)
    → block t mask major minor allow next ≢ []
unfolding accept_block
block-ne-nil t mask major minor allow next = append_right (type_check t next) _ (
    append_right (access_check mask next) _ (
      append_right (number_check r4 major next) _
        (append_right (number_check r5 minor next) _ (cc))))
  where
    append_right : (xs ys : List Instruction) → ys ≢ [] → xs ++ ys ≢ []
    append_right [] ys h e = h e
    append_right (x ∷ xs) ys h e = cc

pub Decides-labelled :
    (vm : Machine) (mem : Memory) (q : Request) (n : ℤ) (code tail : List Instruction) (v : ℕ)
    → Decides vm mem q (code ++ tail) v
    → Decides vm mem q (labelled n code ++ tail) v
Decides-labelled vm mem q n [] tail v d = d
Decides-labelled vm mem q n (i ∷ code) tail v d = record {
  returns = λ s h. run-with_symbol vm mem q n i (code ++ tail) s ∙ d.returns s h;
}
