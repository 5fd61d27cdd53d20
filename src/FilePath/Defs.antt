-- ===== src/FilePath/Defs.antt =====
-- The definitions of `FilePath`.
use cgroups.Prelude.{
  Option, none, some, Bool, true, false, not, ◌&&◌, ◌||◌, List, [], ◌∷◌, ◌++◌, reverse, ◌==◌,
  if◌then◌else◌,
}
use cgroups.Text.{Bytes, codes, equal, split, join, trim_left}

abbrev pub dot : Bytes
dot = codes "."

abbrev pub dot_dot : Bytes
dot_dot = codes ".."

-- At "..", one element less; a relative path keeps what leads out of it.
unfoldable pub pop : Bool → List Bytes → List Bytes
pop rooted [] = if rooted then [] else dot_dot ∷ []
pop rooted (c ∷ stack) = if equal c dot_dot then dot_dot ∷ c ∷ stack else stack

-- One element of a path onto the elements before it, the last one first.
unfoldable pub push : Bool → List Bytes → Bytes → List Bytes
push rooted stack [] = stack
push rooted stack (x ∷ c) =
    if equal (x ∷ c) dot
    then stack
    else if equal (x ∷ c) dot_dot
    then pop rooted stack
    else (x ∷ c) ∷ stack

unfoldable pub push_all : Bool → List Bytes → List Bytes → List Bytes
push_all rooted stack [] = stack
push_all rooted stack (c ∷ cs) = push_all rooted (push rooted stack c) cs

unfoldable pub relative : List Bytes → Bytes
relative [] = dot
relative (c ∷ cs) = join (c ∷ cs) b'/'

abbrev pub is_rooted : Bytes → Bool
is_rooted [] = false
is_rooted (c ∷ s) = c == b'/'

-- `filepath.Clean`
unfoldable pub clean : Bytes → Bytes
clean s =
    if is_rooted s
    then b'/' ∷ join (reverse (push_all true [] (split s b'/'))) b'/'
    else relative (reverse (push_all false [] (split s b'/')))

-- `filepath.Join` of two elements: empty ones are ignored
unfoldable pub join_path : Bytes → Bytes → Bytes
join_path [] [] = []
join_path [] (c ∷ b) = clean (c ∷ b)
join_path (c ∷ a) [] = clean (c ∷ a)
join_path (c ∷ a) (d ∷ b) = clean ((c ∷ a) ++ (b'/' ∷ d ∷ b))

-- The bytes behind the last slash.
abbrev pub after_slash : Bytes → Bytes → Bytes
after_slash name [] = name
after_slash name (c ∷ s) = after_slash (if c == b'/' then [] else name ++ c ∷ []) s

-- The second result of `filepath.Split`
unfoldable pub file_name : Bytes → Bytes
file_name = after_slash []

-- The first result of `filepath.Split`: all up to the last slash
unfoldable pub dir_name : Bytes → Bytes
dir_name s = reverse (trim_left (λ c. not (c == b'/')) (reverse s))

-- `filepath.Dir`
unfoldable pub dir : Bytes → Bytes
dir s = clean (dir_name s)

-- Whether the first elements that differ have ".." on the side of the base.
unfoldable pub climbs_out : List Bytes → List Bytes → Bool
climbs_out [] targ = false
climbs_out (b ∷ base) [] = false
climbs_out (b ∷ base) (t ∷ targ) =
    let rest = climbs_out base targ in if equal b t then rest else equal b dot_dot

-- Whether `filepath.Rel` returns an error
unfoldable pub rel_fails : Bytes → Bytes → Bool
rel_fails base targ =
    if equal (clean targ) (clean base)
    then false
    else if is_rooted (clean base) && is_rooted (clean targ)
    then climbs_out (split (clean base) b'/') (split (clean targ) b'/')
    else if is_rooted (clean base) || is_rooted (clean targ)
    then true
    else if equal (clean base) dot
    then false
    else climbs_out (split (clean base) b'/') (split (clean targ) b'/')

-- `filepath.Rel("/", s)` of a clean path from the root
unfoldable pub from_root : Bytes → Bytes
from_root [] = dot
from_root (c ∷ []) = dot
from_root (c ∷ d ∷ s) = d ∷ s

-- The elements of a clean path, without the slash of a rooted one
abbrev pub elements : Bytes → List Bytes
elements [] = []
elements (c ∷ []) = if c == b'/' || c == b'.' then [] else (c ∷ []) ∷ []
elements (c ∷ d ∷ s) = if c == b'/' then split (d ∷ s) b'/' else split (c ∷ d ∷ s) b'/'

-- One step up for each element of the base behind the common ones, and the rest of the target
unfoldable pub steps : List Bytes → List Bytes → List Bytes
steps [] targ = targ
steps (b ∷ base) [] = dot_dot ∷ steps base []
steps (b ∷ base) (t ∷ targ) =
    let common = steps base targ in
    let up = steps base [] in if equal b t then common else dot_dot ∷ (up ++ (t ∷ targ))

-- `filepath.Rel`; `none` is its error
unfoldable pub rel : Bytes → Bytes → Option Bytes
rel base targ =
    if rel_fails base targ
    then none
    else some (relative (steps (elements (clean base)) (elements (clean targ))))
