-- ===== src/Files.antt =====
-- Paths and the discovery of source files (bootstrap/cpp/runtime/yc_runtime.c). What the operating
-- system and the allocator answer comes as arguments.
pub mod Paths
use ycpl.Base.{
  ℕ, zero, suc, ◌+◌, ◌-◌, ◌*◌, ◌≤◌, ◌<◌, Bool, true, false, ◌&&◌, ◌||◌, Option, none, some, List,
  [], ◌∷◌, ◌++◌, ◌==◌, leb, length, get_or, if◌then◌else◌,
}
use ycpl.Text.{Bytes, codes, slash, newline, str_eq}

-- `yc_has_yc_extension`: the last three bytes are ".yc".
unfoldable pub has_yc_extension : Bytes → Bool
has_yc_extension path =
    let len = length path in
    leb 3 len
    && get_or path (len - 3) 0 == b'.'
    && get_or path (len - 2) 0 == b'y'
    && get_or path (len - 1) 0 == b'c'

-- `YcPathList`; the array holds `len` strings in `cap` places.
pub record PathList : Type 0 where
  pub items : List Bytes
  pub len : ℕ
  pub cap : ℕ

abbrev pub no_paths : PathList
no_paths = record { items = []; len = 0; cap = 0 }

-- The `realloc` of `yc_path_list_push`, with whether it gave memory. Capacities are unbounded here:
-- 2 ^ 61 paths, from which on the size in bytes would wrap around, do not fit into memory.
pub path_list_grow : Bool → PathList → Option PathList
path_list_grow given list =
    if list.len == list.cap
    then (if given
        then some (record list { cap = if list.cap == 0 then 32 else list.cap * 2 })
        else none)
    else some list

-- `yc_path_list_push`, with whether its `realloc` and its `malloc` gave memory: the list after it,
-- and whether the path was entered.
unfoldable pub path_list_push : Bool → Bool → Bytes → PathList → Bool × PathList
unfolding path_list_grow
path_list_push given copied path list = elim (path_list_grow given list) [
  | none ↦ (false, list)
  | some grown ↦
      if copied
      then (true, record grown { items = grown.items ++ path ∷ []; len = grown.len + 1 })
      else (false, grown)
]

-- `YcVisitedDirectory`
pub record DirectoryId : Type 0 where
  pub device : ℕ
  pub inode : ℕ

-- `YcVisitedDirectoryList`
pub record Visited : Type 0 where
  pub items : List DirectoryId
  pub len : ℕ
  pub cap : ℕ

abbrev pub no_directories : Visited
no_directories = record { items = []; len = 0; cap = 0 }

abbrev pub same_directory : DirectoryId → DirectoryId → Bool
same_directory a b = a.device == b.device && a.inode == b.inode

unfoldable pub was_visited : List DirectoryId → DirectoryId → Bool
was_visited [] d = false
was_visited (e ∷ items) d = same_directory e d || was_visited items d

-- The results 0, -1 and 1 of `yc_mark_directory_visited`.
pub data Mark : Type 0 where
  seen_before no_memory marked : Mark

-- `yc_mark_directory_visited`, with whether its `realloc` gave memory; the capacity is unbounded too.
unfoldable pub mark_directory_visited : Bool → DirectoryId → Visited → Mark × Visited
unfolding was_visited
mark_directory_visited given d v =
    if was_visited v.items d
    then (seen_before, v)
    else if v.len == v.cap && (if given then false else true)
    then (no_memory, v)
    else (
      marked,
      record {
        items = v.items ++ d ∷ [];
        len = v.len + 1;
        cap = if v.len == v.cap then (if v.cap == 0 then 32 else v.cap * 2) else v.cap;
      },
    )
