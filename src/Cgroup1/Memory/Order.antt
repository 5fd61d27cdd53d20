-- ===== src/Cgroup1/Memory/Order.antt =====
-- cgroup1/memory.go: what `set` writes, and the order in which `Update` sets the limit of the memory
-- and that of memory and swap.
use cgroups.Prelude.{
  ℕ, true, Option, none, some, List, [], ◌∷◌, ◌++◌, ◌≡◌, refl, sym, ap, ◌∙◌, ltb, drop,
}
use cgroups.Prelude.Int.{ℤ, pos, ltb_ℤ, pattern64}
use cgroups.Error.{ok}
use cgroups.Text.{Bytes, codes}
use cgroups.Os.{Call, write_file, done, History, Os, Action, ◌>>◌, call, run}
use cgroups.Strconv.{format_int}
use cgroups.Spec.{LinuxMemory, LinuxResources}
use cgroups.FilePath.{join_path}
use cgroups.Cgroup1.Controllers.{read_uint}
use cgroups.Cgroup1.Memory.{
  MemoryController, MemorySetting, memory_path, memory_settings, swap_first, guarded_swap,
  setting_file, write_setting, set_memory, update_order, update_settings, update_memory,
}

-- The call that writes a setting, if it has a value.
unfoldable pub write_of : Bytes → Bytes → Option ℤ → List Call
write_of path name none = []
write_of path name (some v) = write_file (setting_file path name) (format_int v) ∷ []

unfoldable pub writes : Bytes → List MemorySetting → List Call
writes path [] = []
writes path (t ∷ ts) = write_of path t.name t.value ++ writes path ts

-- The history after further calls.
unfoldable pub after : History → List Call → History
after h [] = h
after h (c ∷ cs) = after (c ∷ h) cs

after-append : (h : History) (cs ds : List Call) → after h (cs ++ ds) ≡ after (after h cs) ds
unfolding after
after-append h [] ds = refl
after-append h (c ∷ cs) ds = after-append (c ∷ h) cs ds

-- Every write succeeds.
abbrev pub WritesSucceed : Os → Type 0
WritesSucceed os =
    (h : History) (file text : Bytes) → (b : Bytes) × (os.answer h (write_file file text) ≡ done b)

write_setting-then :
    (os : Os) (path name : Bytes) (v : Option ℤ) (k : Action (Unit {0})) (h : History)
    → WritesSucceed os
    → (write_setting os path name v >> k) h ≡ k (after h (write_of path name v))
unfolding write_setting after write_of run call
write_setting-then os path name none k h ws = refl
write_setting-then os path name (some v) k h ws =
    rw (ws h (setting_file path name) (format_int v)).1 refl

-- Where writes succeed, `set` returns without an error and has written the settings that have a
-- value, in the order of the list, each to its own file.
set_memory-writes :
    (os : Os) (path : Bytes) (settings : List MemorySetting) (h : History)
    → WritesSucceed os
    → set_memory os path settings h ≡ (ok tt, after h (writes path settings))
unfolding set_memory writes after
set_memory-writes os path [] h ws = refl
set_memory-writes os path (t ∷ ts) h ws =
    write_setting-then os path t.name t.value (set_memory os path ts) h ws
    ∙ set_memory-writes os path ts (after h (write_of path t.name t.value)) ws
    ∙ ap (λ l. (ok tt, l)) (sym (after-append h (write_of path t.name t.value) (writes path ts)))

-- Where writes succeed and the limit in force can be read, an update with a positive limit and with a
-- positive limit of memory and swap above the one in force writes the soft limit first, if there is
-- one, then the limit, then the limit of memory and swap, and then the settings after these.
pub update_memory_order :
    (os : Os) (m : MemoryController) (path : Bytes) (resources : LinuxResources) (mem : LinuxMemory)
    (limit swap : ℤ) (current : ℕ) (h h' : History)
    → WritesSucceed os
    → resources.memory ≡ some mem
    → mem.limit ≡ some limit
    → mem.swap ≡ some swap
    → ltb_ℤ (pos 0) limit ≡ true
    → ltb_ℤ (pos 0) swap ≡ true
    → read_uint os (join_path (memory_path m path) (codes "memory.limit_in_bytes")) h
      ≡ (ok current, h')
    → ltb current (pattern64 swap) ≡ true
    → update_memory os m path resources h ≡ (
      ok tt,
      after h' (
          write_of (memory_path m path) (codes "soft_limit_in_bytes") mem.reservation
          ++ write_file
              (setting_file (memory_path m path) (codes "limit_in_bytes"))
              (format_int limit)
            ∷ write_file
                (setting_file (memory_path m path) (codes "memsw.limit_in_bytes"))
                (format_int swap)
            ∷ writes (memory_path m path) (drop 3 (memory_settings mem))),
    )
unfolding update_memory update_settings update_order guarded_swap memory_settings swap_first writes
    write_of
update_memory_order os m path resources mem limit swap current h h' ws hm hl hs pl ps hr lt =
    simp (hm, hl, hs, pl, ps, hr, lt) (set_memory-writes os _ _ h' ws)
