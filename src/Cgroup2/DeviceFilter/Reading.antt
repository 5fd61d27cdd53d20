-- ===== src/Cgroup2/DeviceFilter/Reading.antt =====
-- What `append_device` reads from a rule, against what the rule means.
use cgroups.Prelude.{
  ℕ, ◌-◌, ◌^◌, bit_or, Bool, true, false, ◌&&◌, ◌||◌, Option, none, some, List, [], ◌∷◌, ◌≡◌, refl,
  sym, arith, ap, ◌∙◌,
}
use cgroups.Prelude.Int.{ℤ, pos, negsuc, ◌≤ℤ◌, ltb_ℤ}
use cgroups.Error.{ok, refuse_if, deref, invalid_major, invalid_minor, >>=-eq-ok}
use cgroups.Text.{Bytes, codes, contains, equal_iff}
use cgroups.Cgroup2.DeviceFilter.Asm.{Instruction, sign_extend}
use cgroups.Cgroup2.DeviceFilter.{
  Device, acc_mknod, acc_read, acc_write, Program, bpf_type, bpf_access, append_block,
  append_device, append_rule, max_uint32,
}
use cgroups.Cgroup2.DeviceFilter.Rules.{
  Request, bits, IsRequest, type_matches, number_matches, rule_matches, IsSmall,
}
use cgroups.Cgroup2.DeviceFilter.Checks.{type_passes, access_passes, number_passes}
use cgroups.Cgroup2.DeviceFilter.Blocks.{passes}

-- The parts of a rule that was accepted.
pub record Read (d : Device) : Type 0 where
  pub type : Option ℕ
  pub mask : ℕ
  pub major : ℤ
  pub minor : ℤ
  pub type_is : bpf_type d.type ≡ ok type
  pub mask_is : bpf_access 0 d.access ≡ ok mask
  pub major_is : d.major ≡ some major
  pub minor_is : d.minor ≡ some minor

abbrev pub open_program : List Instruction → ℕ → Program
open_program is k = record { insts = is; has_wild_card = false; block_id = pos k }

deref-ok {ℓ} : {A : Type ℓ} (o : Option A) {a : A} → deref o ≡ ok a → o ≡ some a
deref-ok none h = cc
deref-ok (some b) h = cc

pub append_device-open :
    (is : List Instruction) (k : ℕ) (d : Device)
    → append_device (open_program is k) d ≡ append_rule (open_program is k) d
unfolding append_device
append_device-open is k d = ground arith

pub append_device-ok :
    (is : List Instruction) (k : ℕ) (d : Device) {p : Program}
    → append_device (open_program is k) d ≡ ok p
    → (r : Read d) × (p ≡ append_block (open_program is k) r.type r.mask r.major r.minor d.allow)
unfolding append_rule
append_device-ok is k d h =
    let (t, ht, h₁) = >>=-eq-ok (bpf_type d.type) _ (rw append_device-open at h) in
    let (major, hmajor, h₂) = >>=-eq-ok (deref d.major) _ h₁ in
    let (u, _, h₃) = >>=-eq-ok (refuse_if (ltb_ℤ max_uint32 major) invalid_major) _ h₂ in
    let (minor, hminor, h₄) = >>=-eq-ok (deref d.minor) _ h₃ in
    let (u', _, h₅) = >>=-eq-ok (refuse_if (ltb_ℤ max_uint32 minor) invalid_minor) _ h₄ in
    let (mask, hmask, h₆) = >>=-eq-ok (bpf_access 0 d.access) _ h₅ in
    (
      record {
        type = t;
        mask = mask;
        major = major;
        minor = minor;
        type_is = ht;
        mask_is = hmask;
        major_is = deref-ok d.major hmajor;
        minor_is = deref-ok d.minor hminor;
      },
      cc,
    )

type_passes-matches :
    (type : Bytes) (t : Option ℕ) (q : Request)
    → bpf_type type ≡ ok t
    → type_passes t q ≡ type_matches type q
unfolding bpf_type sign_extend
type_passes-matches type t q h =
    ground
      (arith, equal_iff type (codes "a"), equal_iff type (codes "b"), equal_iff type (codes "c"))

or_read : (r w m : Bool) → bit_or (bits r w m) acc_read ≡ bits true w m
or_read r w m = ground arith

or_write : (r w m : Bool) → bit_or (bits r w m) acc_write ≡ bits r true m
or_write r w m = ground arith

or_mknod : (r w m : Bool) → bit_or (bits r w m) acc_mknod ≡ bits r w true
or_mknod r w m = ground arith

or_true : (a b : Bool) → (a || (true || b)) ≡ true
or_true true b = refl
or_true false b = refl

-- The mask so far and the letters that are left.
mask_of_access :
    (r w m : Bool) (access : Bytes) (mask : ℕ)
    → bpf_access (bits r w m) access ≡ ok mask
    → mask
      ≡ bits (r || contains access b'r') (w || contains access b'w') (m || contains access b'm')
unfolding bpf_access contains
mask_of_access r w m [] mask h = ground arith
mask_of_access r w m (c ∷ access) mask h = ground (
  arith,
  or_read r w m,
  or_write r w m,
  or_mknod r w m,
  mask_of_access true w m access mask,
  mask_of_access r true m access mask,
  mask_of_access r w true access mask,
)

number_passes-matches :
    (z : ℤ) (x : ℕ) → z ≤ℤ pos (2 ^ 31 - 1) → number_passes z x ≡ number_matches (some z) x
unfolding sign_extend
number_passes-matches (pos n) x h = ground arith
number_passes-matches (negsuc n) x h = refl

-- The mask 7 skips the check, and a request asks for something.
access_passes-bits :
    (r w m : Bool) (q : Request)
    → (q.read || (q.write || q.mknod)) ≡ true
    → access_passes (bits r w m) q ≡ ((r && q.read) || ((w && q.write) || (m && q.mknod)))
access_passes-bits true w m q h = ground arith
access_passes-bits false w m q h = ground arith

and_cong :
    {a b c d a' b' c' d' : Bool}
    → a ≡ a'
    → b ≡ b'
    → c ≡ c'
    → d ≡ d'
    → (a && (b && (c && d))) ≡ (a' && (b' && (c' && d')))
and_cong e f g h = cc

-- The checks of a rule that was read pass exactly for the requests that the rule is about.
pub passes-rule_matches :
    (d : Device) (r : Read d) (q : Request)
    → IsSmall d.major
    → IsSmall d.minor
    → IsRequest q
    → passes r.type r.mask r.major r.minor q ≡ rule_matches d q
unfolding rule_matches
passes-rule_matches d r q major minor asks =
    and_cong (type_passes-matches d.type r.type q r.type_is)
      (ap (λ mask. access_passes mask q)
          (mask_of_access false false false d.access r.mask r.mask_is)
        ∙ access_passes-bits (contains d.access b'r') (contains d.access b'w')
            (contains d.access b'm') q asks.asks)
      (number d.major r.major q.major r.major_is major)
      (number d.minor r.minor q.minor r.minor_is minor)
  where
    number :
        (o : Option ℤ) (z : ℤ) (x : ℕ)
        → o ≡ some z
        → IsSmall o
        → number_passes z x ≡ number_matches o x
    number o z x e small =
        number_passes-matches z x (rw e at small) ∙ sym (ap (λ o'. number_matches o' x) e)
