-- ===== src/Cgroup2/Stats/Rdma.antt =====
-- cgroup2/rdma.go and cgroup2/utils.go: the text of an rdma limit, and its parser.
use cgroups.Prelude.{
  ℕ, ◌^◌, ◌<◌, false, none, List, [], ◌∷◌, ◌++◌, ◌≡◌, ◌≢◌, refl, arith, ap, ◌∙◌, map,
}
use cgroups.Text.{Bytes, codes, equal, contains, fields, is_space, cut-append, IsWord}
use cgroups.Strconv.{
  format_uint, IsDigits, format_uint-IsDigits, format_uint_shape, is_digit, parse_uint-format_uint,
}
use cgroups.Text.{fields-space, fields_word}
use cgroups.Cgroup2.Resources.{RdmaEntry, rdma_entry_text}
use cgroups.Cgroup2.Parse
use cgroups.Cgroup2.Parse.{or_negative}
use cgroups.Cgroup2.Stats.{rdma_value, set_rdma, parse_rdma_kv, rdma_line, to_rdma_entry}

-- A device name without white space, and numbers of 32 bits.
pub record IsRdmaEntry (e : RdmaEntry) : Type 0 where
  pub word : IsWord e.device
  pub ne_nil : e.device ≢ []
  pub handles_fit : e.hca_handles < 2 ^ 32
  pub objects_fit : e.hca_objects < 2 ^ 32

abbrev pub AreRdmaEntries : List RdmaEntry → Type 0
AreRdmaEntries [] = Unit {0}
AreRdmaEntries (e ∷ es) = IsRdmaEntry e × AreRdmaEntries es

digits-IsWord : (s : Bytes) → IsDigits s → IsWord s
unfolding is_digit is_space
digits-IsWord [] h = tt
digits-IsWord (c ∷ s) h = let digit = h.0 in (ground arith, digits-IsWord s h.1)

pub number-IsWord : (n : ℕ) → IsWord (format_uint n)
number-IsWord n = digits-IsWord (format_uint n) (format_uint-IsDigits n)

not_max : (n : ℕ) → equal (format_uint n) (codes "max") ≡ false
unfolding equal is_digit
not_max n = let (c, s, e, d) = format_uint_shape n in rw e (ground arith)

rdma_value-format_uint : (n : ℕ) → n < 2 ^ 32 → rdma_value (format_uint n) ≡ (n, none)
unfolding rdma_value Parse.parse_uint or_negative
rdma_value-format_uint n h =
    rw (not_max n, parse_uint-format_uint n 32 (omega (arith, h)) (omega (arith, h))) refl

parse_handles :
    (n : ℕ) (e : RdmaEntry)
    → n < 2 ^ 32
    → parse_rdma_kv (codes "hca_handle=" ++ format_uint n) e ≡ record e { hca_handles = n }
unfolding parse_rdma_kv set_rdma contains equal
parse_handles n e h =
    rw (cut-append (codes "hca_handle") (format_uint n) b'=' refl, rdma_value-format_uint n h)
      (ap (λ v. record e { hca_handles = v }) (omega (arith, h)))

parse_objects :
    (n : ℕ) (e : RdmaEntry)
    → n < 2 ^ 32
    → parse_rdma_kv (codes "hca_object=" ++ format_uint n) e ≡ record e { hca_objects = n }
unfolding parse_rdma_kv set_rdma contains equal
parse_objects n e h =
    rw (cut-append (codes "hca_object") (format_uint n) b'=' refl, rdma_value-format_uint n h)
      (ap (λ v. record e { hca_objects = v }) (omega (arith, h)))

labelled-IsWord :
    (n : ℕ)
    → IsWord (codes "hca_handle=" ++ format_uint n) × IsWord (codes "hca_object=" ++ format_uint n)
unfolding is_space
labelled-IsWord n = (
  (
    refl,
    (refl, (refl, (refl, (refl, (refl, (refl, (refl, (refl, (refl, (refl, number-IsWord n)))))))))),
  ),
  (
    refl,
    (refl, (refl, (refl, (refl, (refl, (refl, (refl, (refl, (refl, (refl, number-IsWord n)))))))))),
  ),
)

fields-rdma_entry_text :
    (e : RdmaEntry)
    → IsRdmaEntry e
    → fields (rdma_entry_text e)
      ≡ e.device
        ∷ (codes "hca_handle=" ++ format_uint e.hca_handles)
        ∷ (codes "hca_object=" ++ format_uint e.hca_objects)
        ∷ []
unfolding rdma_entry_text
fields-rdma_entry_text e h =
    fields-space e.device _ h.word h.ne_nil
    ∙ ap (◌∷◌ e.device) (
        fields-space (codes "hca_handle=" ++ format_uint e.hca_handles) _
          (labelled-IsWord e.hca_handles).0 (λ q. cc)
        ∙ ap (◌∷◌ (codes "hca_handle=" ++ format_uint e.hca_handles)) (
            fields_word (codes "hca_object=" ++ format_uint e.hca_objects)
              (labelled-IsWord e.hca_objects).1 (λ q. cc)))

-- The lines with the texts of limits, as they are written to rdma.max, are read into these limits,
-- for device names without white space and numbers below 2 ^ 32.
pub to_rdma_entry-rdma_entry_text :
    (es : List RdmaEntry) → AreRdmaEntries es → to_rdma_entry (map rdma_entry_text es) ≡ es
unfolding to_rdma_entry rdma_line
to_rdma_entry-rdma_entry_text [] h = refl
to_rdma_entry-rdma_entry_text (e ∷ es) h =
    rw
      (
        fields-rdma_entry_text e h.0,
        parse_handles e.hca_handles _ h.0.handles_fit,
        parse_objects e.hca_objects _ h.0.objects_fit,
      )
      (ap (◌∷◌ e) (to_rdma_entry-rdma_entry_text es h.1))
