-- ===== src/Cgroup2/DeviceFilter/Rules.antt =====
-- What the rules of a device cgroup mean, without reference to the program that is generated.
use cgroups.Prelude.{
  ℕ, ◌+◌, ◌-◌, ◌^◌, ◌<◌, Bool, true, false, not, ◌&&◌, ◌||◌, Option, none, some, List, [], ◌∷◌, ◌≡◌,
  ◌==◌, if◌then◌else◌,
}
use cgroups.Prelude.Int.{ℤ, pos, negsuc, ◌≤ℤ◌}
use cgroups.Text.{Bytes, codes, equal, contains}
use cgroups.Cgroup2.DeviceFilter.{Device, dev_block, dev_char, acc_mknod, acc_read, acc_write}

-- An access to a device: `struct bpf_cgroup_dev_ctx`.
pub record Request : Type 0 where
  pub is_char : Bool
  pub read : Bool
  pub write : Bool
  pub mknod : Bool
  pub major : ℕ
  pub minor : ℕ

abbrev pub kind_of : Request → ℕ
kind_of q = if q.is_char then dev_char else dev_block

-- A mask of `BPF_DEVCG_ACC_*`.
abbrev pub bits : Bool → Bool → Bool → ℕ
bits read write mknod =
    (if mknod then acc_mknod else 0)
    + ((if read then acc_read else 0) + (if write then acc_write else 0))

abbrev pub access_of : Request → ℕ
access_of q = bits q.read q.write q.mknod

-- The request asks for something, and its numbers are 32 bits wide.
pub record IsRequest (q : Request) : Type 0 where
  pub asks : (q.read || (q.write || q.mknod)) ≡ true
  pub major_fits : q.major < 2 ^ 32
  pub minor_fits : q.minor < 2 ^ 32

-- "a" stands for both types.
abbrev pub type_matches : Bytes → Request → Bool
type_matches t q =
    equal t (codes "a")
    || ((equal t (codes "c") && q.is_char) || (equal t (codes "b") && not q.is_char))

-- The rule names one of the accesses that are asked for.
abbrev pub access_matches : Bytes → Request → Bool
access_matches access q =
    (contains access b'r' && q.read)
    || ((contains access b'w' && q.write) || (contains access b'm' && q.mknod))

-- A missing or negative number stands for all.
abbrev pub number_matches : Option ℤ → ℕ → Bool
number_matches none x = false
number_matches (some (negsuc n)) x = true
number_matches (some (pos n)) x = x == n

unfoldable pub rule_matches : Device → Request → Bool
rule_matches d q =
    type_matches d.type q
    && (access_matches d.access q
        && (number_matches d.major q.major && number_matches d.minor q.minor))

-- The rules are applied in order to an initial refusal: the last one that matches decides.
unfoldable pub decision : Bool → List Device → Request → Bool
decision so_far [] q = so_far
decision so_far (d ∷ ds) q = decision (if rule_matches d q then d.allow else so_far) ds q

-- The numbers of a rule are below 2 ^ 31, as every Linux device number is.
abbrev pub IsSmall : Option ℤ → Type 0
IsSmall none = Unit {0}
IsSmall (some z) = z ≤ℤ pos (2 ^ 31 - 1)

abbrev pub AreSmall : List Device → Type 0
AreSmall [] = Unit {0}
AreSmall (d ∷ ds) = (IsSmall d.major × IsSmall d.minor) × AreSmall ds
