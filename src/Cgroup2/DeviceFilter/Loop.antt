-- ===== src/Cgroup2/DeviceFilter/Loop.antt =====
-- What each part of the loop of `device_filter` adds, and what it makes the machine return.
use cgroups.Prelude.{
  ℕ, ◌+◌, Bool, true, false, ◌&&◌, Option, none, some, List, [], ◌∷◌, ◌++◌, ◌≡◌, refl, arith, ◌∙◌,
  append-nil, append_assoc, ◌==◌, if◌then◌else◌, Bool-cases, inl, inr,
}
use cgroups.Prelude.Int.{ℤ, pos, negsuc}
use cgroups.Error.{ok, >>=-eq-ok}
use cgroups.Cgroup2.DeviceFilter.Asm.{r0, mov_imm32, return, Instruction, plain, with_symbol}
use cgroups.Cgroup2.DeviceFilter.{
  Device, Program, all_access, accept_block, type_check, access_check, number_check, next_id,
  append_block, append_device, finalize, append_all, is_negative, is_none,
}
use cgroups.Cgroup2.DeviceFilter.Machine.{Memory, seek, Machine}
use cgroups.Cgroup2.DeviceFilter.Rules.{Request, IsRequest, rule_matches, IsSmall, AreSmall}
use cgroups.Cgroup2.DeviceFilter.Checks.{Decides, run-accept_block}
use cgroups.Cgroup2.DeviceFilter.Blocks.{
  StartsAt, block, passes, Decides-block, labelled, set_symbol-append, labelled-StartsAt,
  block-ne-nil, Decides-labelled,
}
use cgroups.Cgroup2.DeviceFilter.Reading.{Read, open_program, append_device-ok, passes-rule_matches}

abbrev pub bit : Bool → ℕ
bit b = if b then 1 else 0

-- The first rule that matches decides: the rules from the last to the first.
unfoldable pub verdict : Bool → List Device → Request → Bool
verdict so_far [] q = so_far
verdict so_far (d ∷ ds) q = if rule_matches d q then d.allow else verdict so_far ds q

-- The code that a program still adds, and what it returns.
pub record Rest (vm : Machine) (mem : Memory) (q : Request) (is insts : List Instruction) (k : ℕ)
    (v : ℕ) : Type 0 where
  pub code : List Instruction
  pub insts_are : insts ≡ is ++ code
  pub starts : StartsAt (pos k) code
  pub decides : Decides vm mem q code v

module _ (vm : Machine) (mem : Memory) (q : Request) (asks : IsRequest q) where
  pub nil-Rest :
      (is : List Instruction) (k : ℕ) → Rest vm mem q is (finalize (open_program is k)).1 k 0
  unfolding finalize seek
  nil-Rest is k = record {
    code = with_symbol (pos k) (plain (mov_imm32 r0 0)) ∷ plain return ∷ [];
    insts_are = refl;
    starts = ground arith;
    decides = record {
      returns = λ s h. vm.run_mov_imm mem (some (pos k)) r0 0 _ s ∙ vm.run_return mem none [] _;
    };
  }

  pub block-Rest :
      (is insts : List Instruction) (k : ℕ) (d : Device) (r : Read d) (v : ℕ)
      → Rest vm mem q
          (is ++ labelled (pos k) (block r.type r.mask r.major r.minor d.allow (pos (k + 1))))
          insts
          (k + 1)
          v
      → Rest vm mem q is insts k (if passes r.type r.mask r.major r.minor q then bit d.allow else v)
  block-Rest is insts k d r v rest =
      let code = block r.type r.mask r.major r.minor d.allow (pos (k + 1)) in
      record {
        code = labelled (pos k) code ++ rest.code;
        insts_are = rest.insts_are ∙ append_assoc is _ _;
        starts =
            labelled-StartsAt (pos k) code rest.code
              (block-ne-nil r.type r.mask r.major r.minor d.allow (pos (k + 1)));
        decides = Decides-labelled vm mem q (pos k) code rest.code _ (
            Decides-block vm mem q r.type r.mask r.major r.minor d.allow (pos (k + 1)) rest.code v
              rest.starts rest.decides);
      }

-- A rule with no check of its own.
abbrev pub is_wild : Option ℕ → ℕ → ℤ → ℤ → Bool
is_wild t mask major minor =
    is_none t && mask == all_access && is_negative major && is_negative minor

wild_block :
    (t : Option ℕ) (mask : ℕ) (major minor : ℤ) (allow : Bool) (next : ℤ)
    → is_wild t mask major minor ≡ true
    → block t mask major minor allow next ≡ accept_block allow
unfolding type_check access_check number_check
wild_block none mask (negsuc a) (negsuc b) allow next h = ground arith
wild_block _ _ _ _ allow next h = ground arith

wild_passes :
    (t : Option ℕ) (mask : ℕ) (major minor : ℤ) (q : Request)
    → is_wild t mask major minor ≡ true
    → passes t mask major minor q ≡ true
wild_passes none mask (negsuc a) (negsuc b) q h = ground arith
wild_passes _ _ _ _ q h = ground arith

-- The program after a rule that was read.
pub append_block-eq :
    (is : List Instruction) (k : ℕ) (d : Device) (r : Read d)
    → append_block (open_program is k) r.type r.mask r.major r.minor d.allow ≡ record {
      insts = is ++ labelled (pos k) (block r.type r.mask r.major r.minor d.allow (pos (k + 1)));
      has_wild_card = is_wild r.type r.mask r.major r.minor;
      block_id = pos (k + 1);
    }
unfolding append_block next_id
append_block-eq is k d r = rw set_symbol-append

abbrev pub closed_program : List Instruction → ℕ → Program
closed_program is k = record { insts = is; has_wild_card = true; block_id = pos k }

-- All entries after a wildcard entry are ignored.
pub append_all-closed :
    (ds : List Device) (is : List Instruction) (k : ℕ)
    → append_all (closed_program is k) ds ≡ ok (closed_program is k)
unfolding append_all append_device
append_all-closed [] is k = refl
append_all-closed (d ∷ ds) is k = ground (arith, append_all-closed ds is k)

module _ (vm : Machine) (mem : Memory) (q : Request) (asks : IsRequest q) where
  wild-Rest :
      (is : List Instruction) (k : ℕ) (d : Device) (r : Read d) (v : ℕ)
      → is_wild r.type r.mask r.major r.minor ≡ true
      → Rest vm mem q is
          (is ++ labelled (pos k) (block r.type r.mask r.major r.minor d.allow (pos (k + 1))))
          k
          (if passes r.type r.mask r.major r.minor q then bit d.allow else v)
  wild-Rest is k d r v wild =
      let next = pos (k + 1) in
      let code = block r.type r.mask r.major r.minor d.allow next in
      let same = wild_block r.type r.mask r.major r.minor d.allow next wild in
      let ne = block-ne-nil r.type r.mask r.major r.minor d.allow next in
      let decides : Decides vm mem q (code ++ []) (bit d.allow) =
        rw same (run-accept_block vm mem q d.allow []) in
      record {
        code = labelled (pos k) code;
        insts_are = refl;
        starts = rw append-nil at (labelled-StartsAt (pos k) code [] ne);
        decides =
            rw (wild_passes r.type r.mask r.major r.minor q wild)
              (rw append-nil at (Decides-labelled vm mem q (pos k) code [] (bit d.allow) decides));
      }

  verdict-cons :
      (d : Device) (r : Read d) (ds : List Device)
      → IsSmall d.major
      → IsSmall d.minor
      → (if passes r.type r.mask r.major r.minor q then bit d.allow else bit (verdict false ds q))
        ≡ bit (verdict false (d ∷ ds) q)
  unfolding verdict
  verdict-cons d r ds major minor = rw (passes-rule_matches d r q major minor asks) (ground arith)

  pub all-Rest :
      (ds : List Device) (is : List Instruction) (k : ℕ) (p : Program)
      → append_all (open_program is k) ds ≡ ok p
      → AreSmall ds
      → Rest vm mem q is (finalize p).1 k (bit (verdict false ds q))
  unfolding append_all
  all-Rest [] is k p h small =
      let e : open_program is k ≡ p = cc in rw (← e) (unfold verdict in nil-Rest vm mem q asks is k)
  all-Rest (d ∷ ds) is k p h small =
      let (p₁, h₁, h₂) = >>=-eq-ok (append_device (open_program is k) d) _ h in
      let (r, e) = append_device-ok is k d h₁ in
      let added =
        is ++ labelled (pos k) (block r.type r.mask r.major r.minor d.allow (pos (k + 1))) in
      let next = e ∙ append_block-eq is k d r in
      rw (← verdict-cons d r ds small.0.0 small.0.1)
        (elim (Bool-cases (is_wild r.type r.mask r.major r.minor)) [
          | inl wild ↦
              let closed : p₁ ≡ closed_program added (k + 1) = rw wild at next in
              let last : closed_program added (k + 1) ≡ p =
                cc (rw closed at h₂, append_all-closed ds added (k + 1)) in
              rw (← last) (unfold finalize in wild-Rest is k d r _ wild)
          | inr narrow ↦
              let goes_on : p₁ ≡ open_program added (k + 1) = rw narrow at next in
              block-Rest vm mem q asks is (finalize p).1 k d r _
                (all-Rest ds added (k + 1) p (rw goes_on at h₂) small.1)
        ])
