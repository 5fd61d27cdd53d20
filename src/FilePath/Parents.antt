-- ===== src/FilePath/Parents.antt =====
-- The directories from the root down to a path, and `filepath.Dir`, which goes one of them up.
use cgroups.Prelude.{
  ℕ, ◌<◌, Bool, true, false, not, List, [], ◌∷◌, ◌++◌, ◌≡◌, refl, sym, ap, ◌∙◌, arith, reverse,
  length, length-append, append-nil, append_assoc, ◌==◌, if◌then◌else◌,
}
use mathlib.Core.List.{reverse-append, reverse-reverse}
use cgroups.Text.{Bytes, codes, equal, contains, contains-append, split, join, trim_left}
use cgroups.FilePath.Defs.{
  clean, is_rooted, dir, dir_name, join_path, push, push_all, climbs_out, rel_fails,
}
use cgroups.FilePath.Laws.{
  IsName, AreNames, AreNames-reverse, clean-names, clean_rooted, push_all-join, join_path-names,
  split-join, split-slash,
}

-- The path of names, the deepest first, below the root of the file system.
unfoldable pub location : List Bytes → Bytes
location up = b'/' ∷ join (reverse up) b'/'

contains-reverse : (s : Bytes) (c : ℕ) → contains (reverse s) c ≡ contains s c
unfolding contains
contains-reverse [] c = refl
contains-reverse (x ∷ s) c =
    rw (reverse-append (x ∷ []) s)
      (contains-append (reverse s) (x ∷ []) c ∙ rw (contains-reverse s c) (ground arith))

trim_left-append :
    (a b : Bytes)
    → contains a b'/' ≡ false
    → trim_left (λ c. not (c == b'/')) (a ++ (b'/' ∷ b)) ≡ b'/' ∷ b
unfolding trim_left contains
trim_left-append [] b h = refl
trim_left-append (c ∷ a) b h = ground (arith, trim_left-append a b)

-- What stands behind the last slash falls away.
pub dir_name-append :
    (a n : Bytes) → contains n b'/' ≡ false → dir_name (a ++ (b'/' ∷ n)) ≡ a ++ (b'/' ∷ [])
unfolding dir_name
dir_name-append a n h =
    ap (λ s. reverse (trim_left (λ c. not (c == b'/')) s))
      (reverse-append a (b'/' ∷ n)
        ∙ ap (λ s. s ++ reverse a) (reverse-append (b'/' ∷ []) n)
        ∙ append_assoc (reverse n) (b'/' ∷ []) (reverse a))
    ∙ ap reverse (trim_left-append (reverse n) (reverse a) (contains-reverse n b'/' ∙ h))
    ∙ reverse-append (b'/' ∷ []) (reverse a)
    ∙ ap (λ s. s ++ (b'/' ∷ [])) (reverse-reverse a)

join-append :
    (names : List Bytes) (m n : Bytes)
    → join (names ++ (m ∷ n ∷ [])) b'/' ≡ join (names ++ (m ∷ [])) b'/' ++ (b'/' ∷ n)
unfolding join
join-append [] m n = refl
join-append (x ∷ []) m n = sym (append_assoc x (b'/' ∷ m) (b'/' ∷ n))
join-append (x ∷ y ∷ names) m n =
    ap (λ s. x ++ (b'/' ∷ s)) (join-append (y ∷ names) m n)
    ∙ sym (append_assoc x (b'/' ∷ join (y ∷ names ++ (m ∷ [])) b'/') (b'/' ∷ n))

-- One more name below a directory that is not the root.
location-below :
    (n m : Bytes) (up : List Bytes) → location (n ∷ m ∷ up) ≡ location (m ∷ up) ++ (b'/' ∷ n)
unfolding location
location-below n m up =
    ap (λ names. b'/' ∷ join names b'/')
      (reverse-append (n ∷ []) (m ∷ up)
        ∙ ap (λ names. names ++ (n ∷ [])) (reverse-append (m ∷ []) up)
        ∙ append_assoc (reverse up) (m ∷ []) (n ∷ []))
    ∙ ap (λ s. b'/' ∷ s) (join-append (reverse up) m n)
    ∙ ap (λ names. b'/' ∷ (join names b'/' ++ (b'/' ∷ n))) (sym (reverse-append (m ∷ []) up))

-- A trailing slash makes no difference.
clean-slash : (up : List Bytes) → AreNames up → clean (location up ++ (b'/' ∷ [])) ≡ location up
unfolding location
clean-slash up h =
    let names = reverse up in
    let trailing : push_all true (reverse names ++ []) (split [] b'/') ≡ reverse names =
      unfold split push_all push in append-nil (reverse names) in
    clean_rooted (join names b'/' ++ (b'/' ∷ []))
    ∙ ap (λ stack. b'/' ∷ join (reverse stack) b'/')
        (push_all-join [] names [] (AreNames-reverse up h) ∙ trailing)
    ∙ ap (λ names'. b'/' ∷ join names' b'/') (reverse-reverse names)

location_top : (n : Bytes) → location (n ∷ []) ≡ [] ++ (b'/' ∷ n)
unfolding location join
location_top n = refl

location_root : location [] ≡ b'/' ∷ []
unfolding location join
location_root = refl

pub clean-location : (up : List Bytes) → AreNames up → clean (location up) ≡ location up
unfolding location
clean-location up h = clean-names (reverse up) (AreNames-reverse up h)

-- The root is its own directory.
pub dir_root : dir (location []) ≡ location []
unfolding dir dir_name trim_left
dir_root =
    ap (λ s. clean (dir_name s)) location_root ∙ ap clean (sym location_root) ∙ clean-location [] tt

-- To join the root to a path does not change the path.
pub join_path-root :
    (up : List Bytes) → AreNames up → join_path (location up) (codes "/") ≡ location up
unfolding join_path location
join_path-root up h =
    let names = reverse up in
    let trailing : push_all true (reverse names ++ []) (split (b'/' ∷ []) b'/') ≡ reverse names =
      unfold split push_all push in append-nil (reverse names) in
    clean_rooted (join names b'/' ++ (b'/' ∷ b'/' ∷ []))
    ∙ ap (λ stack. b'/' ∷ join (reverse stack) b'/')
        (push_all-join [] names (b'/' ∷ []) (AreNames-reverse up h) ∙ trailing)
    ∙ ap (λ names'. b'/' ∷ join names' b'/') (reverse-reverse names)

-- The directory of a path has one name less.
pub dir-location :
    (n : Bytes) (up : List Bytes) → AreNames (n ∷ up) → dir (location (n ∷ up)) ≡ location up
unfolding dir
dir-location n [] h =
    ap (λ s. clean (dir_name s)) (location_top n)
    ∙ ap clean (dir_name-append [] n h.0.no_slash ∙ sym location_root)
    ∙ clean-location [] tt
dir-location n (m ∷ up) h =
    ap (λ s. clean (dir_name s)) (location-below n m up)
    ∙ ap clean (dir_name-append (location (m ∷ up)) n h.0.no_slash)
    ∙ clean-slash (m ∷ up) h.1

pub is_rooted-location : (up : List Bytes) → is_rooted (location up) ≡ true
unfolding location
is_rooted-location up = refl

longer : (a n : Bytes) → IsName n → length a < length (a ++ (b'/' ∷ n))
longer a n h = rw (length-append a (b'/' ∷ n)) (omega arith)

nonempty-name : (n : Bytes) → IsName n → 0 < length n
nonempty-name [] h = absurd (h.ne_nil refl)
nonempty-name (c ∷ n) h = omega arith

-- A path is longer than its directory.
pub length-location :
    (n : Bytes) (up : List Bytes)
    → AreNames (n ∷ up)
    → length (location up) < length (location (n ∷ up))
length-location n [] h =
    unfold location join in (let some_byte = nonempty-name n h.0 in omega (arith, some_byte))
length-location n (m ∷ up) h = rw (location-below n m up) (longer (location (m ∷ up)) n h.0)

climbs_out-names : (base targ : List Bytes) → AreNames base → climbs_out base targ ≡ false
unfolding climbs_out
climbs_out-names [] targ h = refl
climbs_out-names (b ∷ base) [] h = refl
climbs_out-names (b ∷ base) (t ∷ targ) h =
    rw (climbs_out-names base targ h.1, h.0.ne_dot_dot) (ground arith)

-- The one empty element of the root.
climbs_out-nil : (targ : List Bytes) → climbs_out ([] ∷ []) targ ≡ false
unfolding climbs_out equal
climbs_out-nil [] = refl
climbs_out-nil ([] ∷ targ) = refl
climbs_out-nil ((c ∷ t) ∷ targ) = refl

climbs_out-split :
    (names targ : List Bytes)
    → AreNames names
    → climbs_out (split (join names b'/') b'/') targ ≡ false
climbs_out-split [] targ h = unfold join split in climbs_out-nil targ
climbs_out-split (c ∷ cs) targ h = rw (split-join c cs h) (climbs_out-names (c ∷ cs) targ h)

climbs_out-location :
    (base targ : List Bytes)
    → AreNames base
    → climbs_out (split (location base) b'/') (split (location targ) b'/') ≡ false
unfolding location
climbs_out-location base targ h =
    rw (split-slash (join (reverse base) b'/'), split-slash (join (reverse targ) b'/'))
      (unfold climbs_out equal in
        climbs_out-split (reverse base) (split (join (reverse targ) b'/') b'/')
          (AreNames-reverse base h))

-- A path from the root can always be made relative to a directory.
pub rel_fails-location :
    (base targ : List Bytes)
    → AreNames base
    → AreNames targ
    → rel_fails (location base) (location targ) ≡ false
unfolding rel_fails
rel_fails-location base targ hb ht =
    rw
      (
        clean-location base hb,
        clean-location targ ht,
        is_rooted-location base,
        is_rooted-location targ,
      )
      (unless_equal (equal (location targ) (location base)) (climbs_out-location base targ hb))
  where
    unless_equal : {x : Bool} (b : Bool) → x ≡ false → (if b then false else x) ≡ false
    unless_equal true e = refl
    unless_equal false e = e

-- A path has more bytes than names.
pub length-names : (up : List Bytes) → AreNames up → length up < length (location up)
length-names [] h = unfold location join in omega arith
length-names (n ∷ up) h =
    let below = length-names up h.1 in let one = length-location n up h in omega (arith, below, one)

-- Joining two paths puts the names of the second below those of the first.
pub join_path-location :
    (base up : List Bytes)
    → AreNames base
    → AreNames up
    → join_path (location base) (location up) ≡ location (up ++ base)
unfolding location
join_path-location base up hb hu =
    join_path-names (reverse base) (reverse up) (AreNames-reverse base hb) (AreNames-reverse up hu)
    ∙ ap (λ names. b'/' ∷ join names b'/') (sym (reverse-append up base))
