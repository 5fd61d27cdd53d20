-- ===== src/Cgroup2/Resources/Files.antt =====
-- Every file that a setting is written to belongs to a controller that is enabled for it.
use cgroups.Prelude.{
  ℕ, zero, suc, Bool, true, false, ◌&&◌, ◌||◌, Option, none, some, List, [], ◌∷◌, ◌++◌, ◌≡◌, refl,
  arith, map, ◌==◌, if◌then◌else◌,
}
use cgroups.Prelude.Int.{ℤ, pos, negsuc}
use cgroups.Text.{Bytes, codes, cut_prefix, has_prefix}
use cgroups.Cgroup2.Resources.{
  Datum, uint16, string, Value, setting, when_some, Cpu, cpu_values, Memory, memory_values,
  pids_values, Entry, entry_text, Io, io_values, RdmaEntry, rdma_values, HugeTlbEntry,
  huge_tlb_values, Resources, if_some, values, cpu_controllers, enabled_controllers,
}

-- The file is one of a controller of the list: its name begins with that of the controller and a dot.
abbrev pub is_owned : List Bytes → Value → Bool
is_owned [] v = false
is_owned (c ∷ cs) v = has_prefix v.filename (c ++ b'.' ∷ []) || is_owned cs v

abbrev pub all_owned : List Bytes → List Value → Bool
all_owned cs [] = true
all_owned cs (v ∷ vs) = is_owned cs v && all_owned cs vs

is_owned-append :
    (a b : List Bytes) (v : Value) → is_owned (a ++ b) v ≡ (is_owned a v || is_owned b v)
is_owned-append [] b v = refl
is_owned-append (c ∷ a) b v = ground (arith, is_owned-append a b v)

owned_left :
    (a b : List Bytes) (vs : List Value) → all_owned a vs ≡ true → all_owned (a ++ b) vs ≡ true
owned_left a b [] h = refl
owned_left a b (v ∷ vs) h = ground (arith, is_owned-append a b v, owned_left a b vs)

owned_right :
    (a b : List Bytes) (vs : List Value) → all_owned b vs ≡ true → all_owned (a ++ b) vs ≡ true
owned_right a b [] h = refl
owned_right a b (v ∷ vs) h = ground (arith, is_owned-append a b v, owned_right a b vs)

owned_append :
    (cs : List Bytes) (vs ws : List Value)
    → all_owned cs vs ≡ true
    → all_owned cs ws ≡ true
    → all_owned cs (vs ++ ws) ≡ true
owned_append cs [] ws h k = k
owned_append cs (v ∷ vs) ws h k = ground (arith, owned_append cs vs ws)

-- The files of the left part belong to the left controllers, and so on the right.
both :
    (a b : List Bytes) (vs ws : List Value)
    → all_owned a vs ≡ true
    → all_owned b ws ≡ true
    → all_owned (a ++ b) (vs ++ ws) ≡ true
both a b vs ws h k = owned_append (a ++ b) vs ws (owned_left a b vs h) (owned_right a b ws k)

owned_when_some {ℓ} :
    {A : Type ℓ} (cs : List Bytes) (filename : Bytes) (f : A → Datum) (o : Option A)
    → ((d : Datum) → is_owned cs (record { filename = filename; value = d }) ≡ true)
    → all_owned cs (when_some filename f o) ≡ true
owned_when_some cs filename f none h = refl
owned_when_some cs filename f (some a) h = rw (h (f a))

owned_if_some {ℓ} :
    {A : Type ℓ} (o : Option A) (controllers : A → List Bytes) (f : A → List Value)
    → ((a : A) → all_owned (controllers a) (f a) ≡ true)
    → all_owned (if_some o controllers) (if_some o f) ≡ true
owned_if_some none controllers f h = refl
owned_if_some (some a) controllers f h = h a

cpu_owned : (c : Cpu) → all_owned (cpu_controllers c) (cpu_values c) ≡ true
unfolding cpu_controllers cpu_values has_prefix cut_prefix
cpu_owned c = ground arith

memory_owned : (r : Memory) → all_owned (codes "memory" ∷ []) (memory_values r) ≡ true
unfolding memory_values has_prefix cut_prefix
memory_owned r = ground arith

pids_owned : (z : ℤ) → all_owned (codes "pids" ∷ []) (pids_values z) ≡ true
unfolding pids_values has_prefix cut_prefix
pids_owned (pos zero) = refl
pids_owned (pos (suc n)) = refl
pids_owned (negsuc n) = refl

max_owned :
    (es : List Entry)
    → all_owned
        (codes "io" ∷ [])
        (map (λ e. record { filename = codes "io.max"; value = string (entry_text e) }) es)
      ≡ true
unfolding has_prefix cut_prefix
max_owned [] = refl
max_owned (e ∷ es) = max_owned es

weight_owned :
    (w : ℕ)
    → all_owned
        (codes "io" ∷ [])
        (if w == 0 then [] else setting (codes "io.bfq.weight") (uint16 w))
      ≡ true
unfolding has_prefix cut_prefix
weight_owned w = ground arith

io_owned : (i : Io) → all_owned (codes "io" ∷ []) (io_values i) ≡ true
unfolding io_values
io_owned i = owned_append (codes "io" ∷ []) _ _ (weight_owned i.bfq_weight) (max_owned i.max)

rdma_owned : (es : List RdmaEntry) → all_owned (codes "rdma" ∷ []) (rdma_values es) ≡ true
unfolding rdma_values has_prefix cut_prefix
rdma_owned [] = refl
rdma_owned (e ∷ es) = rdma_owned es

huge_tlb_owned :
    (es : List HugeTlbEntry) → all_owned (codes "hugetlb" ∷ []) (huge_tlb_values es) ≡ true
unfolding huge_tlb_values has_prefix cut_prefix
huge_tlb_owned [] = refl
huge_tlb_owned (e ∷ es) = huge_tlb_owned es

-- For all resources, each file of `values` is one of a controller of `enabled_controllers`.
pub values_enabled : (r : Resources) → all_owned (enabled_controllers r) (values r) ≡ true
unfolding enabled_controllers values
values_enabled r =
    both (if_some r.cpu cpu_controllers) _ _ _
      (owned_if_some r.cpu cpu_controllers cpu_values cpu_owned)
      (both (if_some r.memory (λ _. codes "memory" ∷ [])) _ _ _
        (owned_if_some r.memory _ memory_values memory_owned)
        (both (if_some r.pids (λ _. codes "pids" ∷ [])) _ _ _
          (owned_if_some r.pids _ pids_values pids_owned)
          (both (if_some r.io (λ _. codes "io" ∷ [])) _ _ _
            (owned_if_some r.io _ io_values io_owned)
            (both (if_some r.rdma (λ _. codes "rdma" ∷ [])) _ _ _
              (owned_if_some r.rdma _ rdma_values rdma_owned)
              (owned_if_some r.huge_tlb _ huge_tlb_values huge_tlb_owned)))))
