-- ===== src/Cgroup2/DeviceFilter/Correct.antt =====
-- The generated program decides as the rules do.
use cgroups.Prelude.{
  ℕ, ◌+◌, ◌*◌, ◌/◌, ◌%◌, ◌^◌, Bool, false, none, some, List, [], ◌∷◌, ◌++◌, ◌≡◌, refl, arith, ap,
  ◌∙◌, reverse, if◌then◌else◌,
}
use cgroups.Error.{ok, >>=-eq-ok}
use mathlib.Core.List.{reverse-append}
use cgroups.Cgroup2.DeviceFilter.Asm.{r1, r2, r3, r4, r5, half, word, Instruction}
use cgroups.Cgroup2.DeviceFilter.{Device, header, init, append_all, device_filter}
use cgroups.Cgroup2.DeviceFilter.Machine.{Regs, put, Memory, Machine}
use cgroups.Cgroup2.DeviceFilter.Rules.{
  Request, kind_of, access_of, IsRequest, rule_matches, decision, IsSmall, AreSmall,
}
use cgroups.Cgroup2.DeviceFilter.Checks.{Decides}
use cgroups.Cgroup2.DeviceFilter.Loop.{verdict, all-Rest}

verdict-concat :
    (so_far : Bool) (ds : List Device) (d : Device) (q : Request)
    → verdict so_far (ds ++ d ∷ []) q ≡ verdict (if rule_matches d q then d.allow else so_far) ds q
unfolding verdict
verdict-concat so_far [] d q = refl
verdict-concat so_far (x ∷ ds) d q = rw (verdict-concat so_far ds d q)

-- From the last rule to the first, the first match is the last one of the list.
verdict-reverse :
    (so_far : Bool) (ds : List Device) (q : Request)
    → verdict so_far (reverse ds) q ≡ decision so_far ds q
unfolding decision
verdict-reverse so_far [] q = unfold verdict in refl
verdict-reverse so_far (d ∷ ds) q =
    ap (λ l. verdict so_far l q) (reverse-append (d ∷ []) ds)
    ∙ verdict-concat so_far (reverse ds) d q
    ∙ verdict-reverse (if rule_matches d q then d.allow else so_far) ds q

AreSmall-concat :
    (ds : List Device) (d : Device)
    → AreSmall ds
    → IsSmall d.major × IsSmall d.minor
    → AreSmall (ds ++ d ∷ [])
AreSmall-concat [] d h k = (k, tt)
AreSmall-concat (x ∷ ds) d h k = (h.0, AreSmall-concat ds d h.1 k)

AreSmall-reverse : (ds : List Device) → AreSmall ds → AreSmall (reverse ds)
AreSmall-reverse [] h = tt
AreSmall-reverse (d ∷ ds) h =
    rw (reverse-append (d ∷ []) ds) (AreSmall-concat (reverse ds) d (AreSmall-reverse ds h.1) h.0)

-- What the kernel stores for the program at the address in r1: `struct bpf_cgroup_dev_ctx`, with
-- the access in the upper half of its first word.
pub record InContext (mem : Memory) (base : ℕ) (q : Request) : Type 0 where
  pub kind : mem (base + 0) half ≡ kind_of q
  pub access_type : mem (base + 0) word ≡ access_of q * 2 ^ 16 + kind_of q
  pub major : mem (base + 4) word ≡ q.major
  pub minor : mem (base + 8) word ≡ q.minor

access_half : (q : Request) → (access_of q * 2 ^ 16 + kind_of q) % 2 ^ 32 / 2 ^ 16 ≡ access_of q
access_half q = ground arith

pub run-header :
    (vm : Machine) (mem : Memory) (q : Request) (s : Regs) (code : List Instruction) (v : ℕ)
    → InContext mem s.r1 q
    → Decides vm mem q code v
    → vm.run mem (header ++ code) s ≡ some v
run-header vm mem q s code v c d =
    let s₁ = put r2 (mem (s.r1 + 0) half) s in
    let s₂ = put r3 (mem (s.r1 + 0) word) s₁ in
    let s₃ = put r3 (s₂.r3 % 2 ^ 32 / 2 ^ 16) s₂ in
    let s₄ = put r4 (mem (s.r1 + 4) word) s₃ in
    let s₅ = put r5 (mem (s.r1 + 8) word) s₄ in
    vm.run_load mem none r2 r1 0 half _ s
    ∙ vm.run_load mem none r3 r1 0 word _ s₁
    ∙ vm.run_rsh mem none r3 16 _ s₂
    ∙ vm.run_load mem none r4 r1 4 word _ s₃
    ∙ vm.run_load mem none r5 r1 8 word _ s₄
    ∙ d.returns s₅ (record {
      kind = c.kind;
      access = ap (λ (w : ℕ). w % 2 ^ 32 / 2 ^ 16) c.access_type ∙ access_half q;
      major = c.major;
      minor = c.minor;
    })

-- On every machine with the documented instructions, and for rules with numbers below 2 ^ 31, the
-- generated program returns 1 or 0 for a request, as the last rule that matches it allows or
-- denies it, and 0 if none matches.
pub device_filter-decides :
    (vm : Machine) (mem : Memory) (q : Request) (s : Regs) (devices : List Device)
    {insts : List Instruction}
    → IsRequest q
    → InContext mem s.r1 q
    → AreSmall devices
    → device_filter devices ≡ ok insts
    → vm.run mem insts s ≡ some (if decision false devices q then 1 else 0)
unfolding device_filter init
device_filter-decides vm mem q s devices {insts} asks context small h =
    let (p, h₁, h₂) = >>=-eq-ok (append_all init (reverse devices)) _ h in
    let rest =
      all-Rest vm mem q asks (reverse devices) header 0 p h₁ (AreSmall-reverse devices small) in
    let insts_are : insts ≡ header ++ rest.code = cc (rest.insts_are) in
    rw (insts_are, ← verdict-reverse false devices q)
      (run-header vm mem q s rest.code _ context rest.decides)
