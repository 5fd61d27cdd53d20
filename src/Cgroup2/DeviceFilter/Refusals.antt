-- ===== src/Cgroup2/DeviceFilter/Refusals.antt =====
-- Which rules are accepted, and rules with numbers from 2 ^ 31 on.
use cgroups.Prelude.{
  ◌↔◌, ℕ, ◌^◌, ◌≤◌, ◌<◌, bit_or, Bool, true, false, not, ◌&&◌, ◌||◌, Option, none, some, List, [],
  ◌∷◌, ◌++◌, ◌≡◌, refl, sym, arith, ap, ◌∙◌, reverse, ◌==◌, Bool-cases, inl, inr, ◌⊎◌,
}
use mathlib.Core.List.{reverse-append}
use cgroups.Prelude.Int.{ℤ, pos, ltb_ℤ}
use cgroups.Error.{
  Error, Outcome, ok, err, panic, ◌>>=◌, refuse_if, deref, invalid_major, invalid_minor, >>=-eq-ok,
}
use cgroups.Text.{Bytes, codes, equal}
use cgroups.Cgroup2.DeviceFilter.Asm.{Instruction, sign_extend}
use cgroups.Cgroup2.DeviceFilter.{
  Device, Program, acc_mknod, acc_read, acc_write, header, init, bpf_type, bpf_access, append_rule,
  append_device, finalize, append_all, device_filter, max_uint32,
}
use cgroups.Cgroup2.DeviceFilter.Machine.{Regs, Memory, Machine}
use cgroups.Cgroup2.DeviceFilter.Rules.{Request, IsRequest}
use cgroups.Cgroup2.DeviceFilter.Checks.{number_passes}
use cgroups.Cgroup2.DeviceFilter.Blocks.{block, passes, labelled}
use cgroups.Cgroup2.DeviceFilter.Reading.{open_program, append_device-ok, append_device-open}
use cgroups.Cgroup2.DeviceFilter.Loop.{nil-Rest, block-Rest, append_block-eq, is_wild}
use cgroups.Cgroup2.DeviceFilter.Correct.{InContext, run-header}

abbrev pub is_access : Bytes → Bool
is_access [] = true
is_access (c ∷ s) = (c == b'r' || (c == b'w' || c == b'm')) && is_access s

abbrev pub is_number : Option ℤ → Bool
is_number none = false
is_number (some z) = not (ltb_ℤ (pos 0xffffffff) z)

-- The type is a, b or c, both numbers are given and at most 2 ^ 32 - 1, and the access has the
-- letters r, w and m only.
abbrev pub is_rule : Device → Bool
is_rule d =
    (equal d.type (codes "c") || (equal d.type (codes "b") || equal d.type (codes "a")))
    && (is_number d.major && (is_number d.minor && is_access d.access))

abbrev pub succeeds {ℓ} : {A : Type ℓ} → Outcome A → Bool
succeeds (ok a) = true
succeeds (err e) = false
succeeds panic = false

succeeds-bpf_access :
    (mask : ℕ) (access : Bytes) → succeeds (bpf_access mask access) ≡ is_access access
unfolding bpf_access
succeeds-bpf_access mask [] = refl
succeeds-bpf_access mask (c ∷ access) = ground (
  arith,
  succeeds-bpf_access (bit_or mask acc_read) access,
  succeeds-bpf_access (bit_or mask acc_write) access,
  succeeds-bpf_access (bit_or mask acc_mknod) access,
)

succeeds-bpf_type :
    (t : Bytes)
    → succeeds (bpf_type t) ≡ (equal t (codes "c") || (equal t (codes "b") || equal t (codes "a")))
unfolding bpf_type
succeeds-bpf_type t = ground arith

succeeds-bind {ℓ κ} :
    {A : Type ℓ} {B : Type κ} (o : Outcome A) (f : A → Outcome B) (b : Bool)
    → ((a : A) → succeeds (f a) ≡ b)
    → succeeds (o >>= f) ≡ (succeeds o && b)
succeeds-bind (ok a) f b h = h a
succeeds-bind (err e) f b h = refl
succeeds-bind panic f b h = refl

succeeds-number {ℓ} :
    {B : Type ℓ} (o : Option ℤ) (e : Error) (f : ℤ → Outcome B) (b : Bool)
    → ((z : ℤ) → succeeds (f z) ≡ b)
    → succeeds (deref o >>= λ z. refuse_if (ltb_ℤ max_uint32 z) e >>= λ _. f z) ≡ (is_number o && b)
succeeds-number none e f b h = refl
succeeds-number (some z) e f b h = elim (Bool-cases (ltb_ℤ max_uint32 z)) [
  | inl big ↦ rw big
  | inr fits ↦ rw fits (h z)
]

-- A rule succeeds, by a program that is open, exactly if it is well formed.
append_device-succeeds :
    (is : List Instruction) (k : ℕ) (d : Device)
    → succeeds (append_device (open_program is k) d) ≡ is_rule d
unfolding append_rule
append_device-succeeds is k d =
    ap succeeds (append_device-open is k d)
    ∙ succeeds-bind (bpf_type d.type) _ _ (λ t. succeeds-number d.major invalid_major _ _ (λ major.
      succeeds-number d.minor invalid_minor _ _ (λ minor.
        succeeds-bind (bpf_access 0 d.access) _ true (λ mask. refl)
        ∙ and_true (succeeds (bpf_access 0 d.access))
        ∙ succeeds-bpf_access 0 d.access)))
    ∙ ap (λ b. b && (is_number d.major && (is_number d.minor && is_access d.access)))
        (succeeds-bpf_type d.type)
  where
    and_true : (b : Bool) → (b && true) ≡ b
    and_true b = ground arith

abbrev panics {ℓ} : {A : Type ℓ} → Outcome A → Bool
panics (ok a) = false
panics (err e) = false
panics panic = true

panics-bind {ℓ κ} :
    {A : Type ℓ} {B : Type κ} (o : Outcome A) (f : A → Outcome B)
    → panics o ≡ false
    → ((a : A) → panics (f a) ≡ false)
    → panics (o >>= f) ≡ false
panics-bind (ok a) f h k = k a
panics-bind (err e) f h k = refl
panics-bind panic f h k = cc

panics-refuse_if : (b : Bool) (e : Error) → panics (refuse_if b e) ≡ false
panics-refuse_if true e = refl
panics-refuse_if false e = refl

panics-bpf_type : (t : Bytes) → panics (bpf_type t) ≡ false
unfolding bpf_type
panics-bpf_type t = ground arith

panics-bpf_access : (mask : ℕ) (access : Bytes) → panics (bpf_access mask access) ≡ false
unfolding bpf_access
panics-bpf_access mask [] = refl
panics-bpf_access mask (c ∷ access) = ground (
  arith,
  panics-bpf_access (bit_or mask acc_read) access,
  panics-bpf_access (bit_or mask acc_write) access,
  panics-bpf_access (bit_or mask acc_mknod) access,
)

-- With both numbers there is no panic.
append_device-panics :
    (is : List Instruction) (k : ℕ) (d : Device) (major minor : ℤ)
    → d.major ≡ some major
    → d.minor ≡ some minor
    → panics (append_device (open_program is k) d) ≡ false
unfolding append_rule
append_device-panics is k d major minor hmajor hminor =
    ap panics (append_device-open is k d)
    ∙ panics-bind (bpf_type d.type) _ (panics-bpf_type d.type) (λ t.
      rw (hmajor, hminor)
        (panics-bind (refuse_if (ltb_ℤ max_uint32 major) invalid_major) _
          (panics-refuse_if (ltb_ℤ max_uint32 major) invalid_major)
          (λ _.
            panics-bind (refuse_if (ltb_ℤ max_uint32 minor) invalid_minor) _
              (panics-refuse_if (ltb_ℤ max_uint32 minor) invalid_minor)
              (λ _.
                panics-bind (bpf_access 0 d.access) _ (panics-bpf_access 0 d.access)
                  (λ mask. refl)))))

succeeds-ok {ℓ} : {A : Type ℓ} (o : Outcome A) → succeeds o ≡ true → (a : A) × (o ≡ ok a)
succeeds-ok (ok a) h = (a, refl)
succeeds-ok (err e) h = cc
succeeds-ok panic h = cc

fails-err {ℓ} :
    {A : Type ℓ} (o : Outcome A) → succeeds o ≡ false → panics o ≡ false → (e : Error) × (o ≡ err e)
fails-err (ok a) h k = cc
fails-err (err e) h k = (e, refl)
fails-err panic h k = cc

-- A rule whose two numbers are given is accepted, by a program that is open, exactly if its type is a,
-- b or c, neither number is above 2 ^ 32 - 1, and its access has the letters r, w and m only; every
-- other such rule is an error, and not a panic.
pub append_device-accepts :
    (is : List Instruction) (k : ℕ) (d : Device) (major minor : ℤ)
    → d.major ≡ some major
    → d.minor ≡ some minor
    → ((is_rule d ≡ true) ↔ ((p : Program) × (append_device (open_program is k) d ≡ ok p)))
      × ((is_rule d ≡ false) ↔ ((e : Error) × (append_device (open_program is k) d ≡ err e)))
append_device-accepts is k d major minor hmajor hminor =
    let same = append_device-succeeds is k d in
    (
      (
        (λ rule. succeeds-ok (append_device (open_program is k) d) (same ∙ rule)),
        (λ (p, accepted). sym same ∙ ap succeeds accepted),
      ),
      (
        (λ no_rule.
            fails-err (append_device (open_program is k) d) (same ∙ no_rule)
              (append_device-panics is k d major minor hmajor hminor)),
        (λ (e, refused). sym same ∙ ap succeeds refused),
      ),
    )

-- A number that the rule needs first is not given.
abbrev pub LacksNumber : Device → Type 0
LacksNumber d =
    (d.major ≡ none)
    ⊎ ((major : ℤ) × (d.major ≡ some major)
        × (ltb_ℤ (pos 0xffffffff) major ≡ false)
        × (d.minor ≡ none))

append_rule-nil :
    (p : Program) (d : Device) {t : Option ℕ}
    → bpf_type d.type ≡ ok t
    → LacksNumber d
    → append_rule p d ≡ panic
unfolding append_rule
append_rule-nil p d typed (inl no_major) = rw (typed, no_major) refl
append_rule-nil p d typed (inr (major, given, fits, no_minor)) =
    rw (typed, given, fits, no_minor) refl

-- The last rule of a list is the first that is read. If its type is a, b or c and its major number is
-- not given, or the major number is at most 2 ^ 32 - 1 and the minor number is not given, then
-- DeviceFilter is a panic, whatever the other rules are: a number that is not given is no -1.
pub device_filter-nil :
    (ds : List Device) (d : Device)
    → (equal d.type (codes "c") || (equal d.type (codes "b") || equal d.type (codes "a"))) ≡ true
    → LacksNumber d
    → device_filter (ds ++ (d ∷ [])) ≡ panic
unfolding device_filter append_all init
device_filter-nil ds d type_given missing =
    let (t, typed) = succeeds-ok (bpf_type d.type) (succeeds-bpf_type d.type ∙ type_given) in
    rw (reverse-append ds (d ∷ [])) (
      rw (append_device-open header 0 d)
        (rw (append_rule-nil (open_program header 0) d typed missing) refl))

high_number_passes :
    (t : Option ℕ) (mask n : ℕ) (minor : ℤ) (q : Request)
    → IsRequest q
    → 2 ^ 31 ≤ n
    → n < 2 ^ 32
    → passes t mask (pos n) minor q ≡ false
high_number_passes t mask n minor q asks high fits = rw number (ground arith)
  where
    number : number_passes (pos n) q.major ≡ false
    number = unfold sign_extend in ground arith

is_wild_pos : (t : Option ℕ) (mask n : ℕ) (minor : ℤ) → is_wild t mask (pos n) minor ≡ false
is_wild_pos t mask n minor = ground arith

-- A rule with a major number from 2 ^ 31 to 2 ^ 32 - 1 matches nothing: on every machine with the
-- documented instructions, the program of this one rule returns 0 for every request, also for one
-- to a device of that number.
pub device_filter-high_major :
    (vm : Machine) (mem : Memory) (q : Request) (s : Regs) (d : Device) (n : ℕ)
    {insts : List Instruction}
    → IsRequest q
    → InContext mem s.r1 q
    → d.major ≡ some (pos n)
    → 2 ^ 31 ≤ n
    → n < 2 ^ 32
    → device_filter (d ∷ []) ≡ ok insts
    → vm.run mem insts s ≡ some 0
unfolding device_filter init append_all
device_filter-high_major vm mem q s d n {insts} asks context major high fits h =
    let (p, h₀, h₁) = >>=-eq-ok (append_all init (reverse (d ∷ []))) _ h in
    let (p₁, h₂, h₃) = >>=-eq-ok (append_device init d) _ h₀ in
    let (r, e) = append_device-ok header 0 d h₂ in
    let number : r.major ≡ pos n = cc (r.major_is, major) in
    let code = block r.type r.mask r.major r.minor d.allow (pos 1) in
    let added = header ++ labelled (pos 0) code in
    let narrow : is_wild r.type r.mask r.major r.minor ≡ false =
      rw number (is_wild_pos r.type r.mask n r.minor) in
    let last : open_program added 1 ≡ p =
      sym (rw narrow at (e ∙ append_block-eq header 0 d r)) ∙ (cc) in
    let rest =
      block-Rest vm mem q asks header (finalize (open_program added 1)).1 0 d r 0
        (nil-Rest vm mem q asks added 1) in
    let misses : passes r.type r.mask r.major r.minor q ≡ false =
      rw number (high_number_passes r.type r.mask n r.minor q asks high fits) in
    let insts_are : insts ≡ header ++ rest.code =
      cc (rest.insts_are, ap (λ p'. (finalize p').1) last) in
    rw insts_are (run-header vm mem q s rest.code 0 context (rw misses at rest.decides))
