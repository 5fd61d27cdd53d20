-- ===== src/FilePath/Laws.antt =====
-- Clean rooted paths.
use cgroups.Prelude.{
  ℕ, true, false, List, [], ◌∷◌, ◌++◌, ◌≡◌, ◌≢◌, refl, sym, arith, ap, ◌∙◌, append-nil,
  append_assoc, reverse, ◌==◌, Bool-cases, inl, inr,
}
use cgroups.Text.{Bytes, equal, contains, split, join, split-append, split_single, onto_first}
use mathlib.Core.List.{reverse-append, reverse-reverse}
use cgroups.FilePath.Defs.{dot, dot_dot, pop, push, push_all, is_rooted, clean, join_path}

-- A name: not empty, no slash in it, neither "." nor "..".
pub record IsName (c : Bytes) : Type 0 where
  pub ne_nil : c ≢ []
  pub no_slash : contains c b'/' ≡ false
  pub ne_dot : equal c dot ≡ false
  pub ne_dot_dot : equal c dot_dot ≡ false

abbrev pub AreNames : List Bytes → Type 0
AreNames [] = Unit {0}
AreNames (c ∷ cs) = IsName c × AreNames cs

AreNames-append : (a b : List Bytes) → AreNames a → AreNames b → AreNames (a ++ b)
AreNames-append [] b h k = k
AreNames-append (c ∷ a) b h k = (h.0, AreNames-append a b h.1 k)

pub AreNames-reverse : (cs : List Bytes) → AreNames cs → AreNames (reverse cs)
AreNames-reverse [] h = tt
AreNames-reverse (c ∷ cs) h =
    rw (reverse-append (c ∷ []) cs)
      (AreNames-append (reverse cs) (c ∷ []) (AreNames-reverse cs h.1) (h.0, tt))

-- No piece holds a slash.
abbrev NoSlashes : List Bytes → Type 0
NoSlashes [] = Unit {0}
NoSlashes (c ∷ cs) = (contains c b'/' ≡ false) × NoSlashes cs

onto_first-NoSlashes :
    (c : ℕ) (cs : List Bytes) → (c == b'/') ≡ false → NoSlashes cs → NoSlashes (onto_first c cs)
unfolding contains
onto_first-NoSlashes c [] e h = (ground arith, tt)
onto_first-NoSlashes c (d ∷ cs) e h = (rw e h.0, h.1)

split-NoSlashes : (s : Bytes) → NoSlashes (split s b'/')
unfolding split
split-NoSlashes [] = (unfold contains in refl, tt)
split-NoSlashes (c ∷ s) = elim (Bool-cases (c == b'/')) [
  | inl e ↦ rw e (unfold contains in refl, split-NoSlashes s)
  | inr e ↦ rw e (onto_first-NoSlashes c (split s b'/') e (split-NoSlashes s))
]

pop-AreNames : (stack : List Bytes) → AreNames stack → AreNames (pop true stack)
unfolding pop
pop-AreNames [] h = tt
pop-AreNames (c ∷ stack) h = rw h.0.ne_dot_dot h.1

push-AreNames :
    (stack : List Bytes) (c : Bytes)
    → contains c b'/' ≡ false
    → AreNames stack
    → AreNames (push true stack c)
unfolding push
push-AreNames stack [] n h = h
push-AreNames stack (x ∷ c) n h = elim (Bool-cases (equal (x ∷ c) dot)) [
  | inl e ↦ rw e h
  | inr e ↦ elim (Bool-cases (equal (x ∷ c) dot_dot)) [
    | inl e' ↦ rw (e, e') (pop-AreNames stack h)
    | inr e' ↦ rw (e, e') (record { ne_nil = cc; no_slash = n; ne_dot = e; ne_dot_dot = e' }, h)
  ]
]

push_all-AreNames :
    (stack cs : List Bytes) → NoSlashes cs → AreNames stack → AreNames (push_all true stack cs)
unfolding push_all
push_all-AreNames stack [] n h = h
push_all-AreNames stack (c ∷ cs) n h =
    push_all-AreNames (push true stack c) cs n.1 (push-AreNames stack c n.0 h)

-- A clean rooted path is a slash and names with slashes between them.
pub clean-AreNames :
    (s : Bytes)
    → is_rooted s ≡ true
    → clean s ≡ s
    → (names : List Bytes) × (s ≡ b'/' ∷ join names b'/') × AreNames names
unfolding clean
clean-AreNames s r e = (
  reverse (push_all true [] (split s b'/')),
  sym (rw r at e),
  AreNames-reverse (push_all true [] (split s b'/'))
      (push_all-AreNames [] (split s b'/') (split-NoSlashes s) tt),
)

pub split-join :
    (c : Bytes) (cs : List Bytes) → AreNames (c ∷ cs) → split (join (c ∷ cs) b'/') b'/' ≡ c ∷ cs
unfolding join
split-join c [] h = split_single c b'/' h.0.no_slash
split-join c (d ∷ cs) h =
    split-append c (join (d ∷ cs) b'/') b'/' h.0.no_slash ∙ ap (◌∷◌ c) (split-join d cs h.1)

push-IsName : (stack : List Bytes) (c : Bytes) → IsName c → push true stack c ≡ c ∷ stack
unfolding push
push-IsName stack [] h = absurd (h.ne_nil refl)
push-IsName stack (x ∷ c) h = rw (h.ne_dot, h.ne_dot_dot)

push_all-names :
    (stack cs : List Bytes) → AreNames cs → push_all true stack cs ≡ reverse cs ++ stack
unfolding push_all
push_all-names stack [] h = refl
push_all-names stack (c ∷ cs) h =
    rw (push-IsName stack c h.0)
      (push_all-names (c ∷ stack) cs h.1 ∙ rw (reverse-append (c ∷ []) cs, append_assoc))

pub split-slash : (s : Bytes) → split (b'/' ∷ s) b'/' ≡ [] ∷ split s b'/'
unfolding split
split-slash s = refl

cleaned :
    (names : List Bytes)
    → AreNames names
    → reverse (push_all true [] (split (join names b'/') b'/')) ≡ names
cleaned [] h = unfold join split push_all push in refl
cleaned (c ∷ cs) h =
    rw (split-join c cs h, push_all-names [] (c ∷ cs) h, append-nil) (reverse-reverse (c ∷ cs))

-- A slash and names with slashes between them is a clean path.
pub clean-names :
    (names : List Bytes) → AreNames names → clean (b'/' ∷ join names b'/') ≡ b'/' ∷ join names b'/'
unfolding clean
clean-names names h =
    rw split-slash (unfold push_all push in ap (λ cs. b'/' ∷ join cs b'/') (cleaned names h))

pub push_all-join :
    (stack ms : List Bytes) (rest : Bytes)
    → AreNames ms
    → push_all true stack (split (join ms b'/' ++ (b'/' ∷ rest)) b'/')
      ≡ push_all true (reverse ms ++ stack) (split rest b'/')
unfolding join push_all
push_all-join stack [] rest h = unfold split push in refl
push_all-join stack (c ∷ []) rest h =
    ap (push_all true stack) (split-append c rest b'/' h.0.no_slash)
    ∙ (unfold push_all in ap (λ st. push_all true st (split rest b'/')) (push-IsName stack c h.0))
push_all-join stack (c ∷ d ∷ ms) rest h =
    ap (push_all true stack) (
      ap (λ s. split s b'/')
        (unfold join in append_assoc c (b'/' ∷ join (d ∷ ms) b'/') (b'/' ∷ rest))
      ∙ split-append c (join (d ∷ ms) b'/' ++ (b'/' ∷ rest)) b'/' h.0.no_slash)
    ∙ (unfold push_all in
        ap (λ st. push_all true st (split (join (d ∷ ms) b'/' ++ (b'/' ∷ rest)) b'/'))
          (push-IsName stack c h.0))
    ∙ push_all-join (c ∷ stack) (d ∷ ms) rest h.1
    ∙ ap (λ st. push_all true st (split rest b'/'))
        (sym (rw (reverse-append (c ∷ []) (d ∷ ms), append_assoc)))

push_all-append :
    (stack cs ds : List Bytes)
    → push_all true stack (cs ++ ds) ≡ push_all true (push_all true stack cs) ds
unfolding push_all
push_all-append stack [] ds = refl
push_all-append stack (c ∷ cs) ds = push_all-append (push true stack c) cs ds

pub clean_rooted :
    (s : Bytes) → clean (b'/' ∷ s) ≡ b'/' ∷ join (reverse (push_all true [] (split s b'/'))) b'/'
unfolding clean
clean_rooted s = rw split-slash (unfold push_all push in refl)

-- Joining two clean rooted paths puts the names of the second behind those of the first.
pub join_path-names :
    (ms gs : List Bytes)
    → AreNames ms
    → AreNames gs
    → join_path (b'/' ∷ join ms b'/') (b'/' ∷ join gs b'/') ≡ b'/' ∷ join (ms ++ gs) b'/'
unfolding join_path
join_path-names ms gs hm hg =
    clean_rooted (join ms b'/' ++ (b'/' ∷ b'/' ∷ join gs b'/'))
    ∙ ap (λ st. b'/' ∷ join (reverse st) b'/') stack
    ∙ ap (λ cs. b'/' ∷ join cs b'/')
        (reverse-append (reverse gs) (reverse ms ++ [])
          ∙ rw (append-nil, reverse-reverse, reverse-reverse))
  where
    behind :
        (gs : List Bytes)
        → AreNames gs
        → (stack : List Bytes)
        → push_all true stack (split (b'/' ∷ join gs b'/') b'/') ≡ reverse gs ++ stack
    behind [] h stack = unfold split push_all push join in refl
    behind (c ∷ cs) h stack =
        rw (split-slash, split-join c cs h)
          (unfold push_all push in push_all-names stack (c ∷ cs) h)

    stack :
        push_all true [] (split (join ms b'/' ++ (b'/' ∷ b'/' ∷ join gs b'/')) b'/')
        ≡ reverse gs ++ (reverse ms ++ [])
    stack = push_all-join [] ms (b'/' ∷ join gs b'/') hm ∙ behind gs hg (reverse ms ++ [])
