-- ===== src/Discovery.antt =====
-- The search for source files (bootstrap/cpp/runtime/yc_runtime.c): the recursive walk over
-- directories and the text that it returns. The file system and the allocator are a record of what
-- they answer for a path.
pub mod Walk
pub mod Listing
pub mod Whole
use ycpl.Base.{
  ℕ, zero, suc, ◌+◌, ◌-◌, ◌%◌, Bool, true, false, ◌&&◌, ◌||◌, Option, none, some, List, [], ◌∷◌,
  ◌++◌, ◌==◌, ltb, leb, ◌>>=◌, length, get_or, drop, if◌then◌else◌,
}
use ycpl.Address.{word}
use ycpl.Text.{Bytes, codes, slash, newline, str_eq, str_le}
use ycpl.Files.{
  has_yc_extension, PathList, no_paths, path_list_push, DirectoryId, Visited, no_directories, Mark,
  seen_before, no_memory, marked, mark_directory_visited,
}

-- `S_ISDIR`, `S_ISREG`, and all else.
pub data Kind : Type 0 where
  directory regular other : Kind

pub record Status : Type 0 where
  pub kind : Kind
  pub id : DirectoryId

-- What `stat`, `opendir` with `readdir`, and the allocator answer for each path.
pub record FileSystem : Type 0 where
  pub stat : Bytes → Option Status
  pub entries : Bytes → Option (List Bytes)
  pub path_memory : Bytes → Bool
  pub grow_memory : Bytes → Bool
  pub copy_memory : Bytes → Bool
  pub visit_memory : Bytes → Bool

pub record Search : Type 0 where
  pub list : PathList
  pub visited : Visited

-- The path of an entry: a slash is put in between unless the directory is empty or ends in one.
unfoldable pub entry_path : Bytes → Bytes → Bytes
entry_path dir name =
    let dir_len = length dir in
    if ltb 0 dir_len && (if get_or dir (dir_len - 1) 0 == slash then false else true)
    then dir ++ slash ∷ name
    else dir ++ name

module _ (fs : FileSystem) where
  -- What a path that exists contributes; `collect` is the walk over a directory.
  pub visit :
      (Bytes → Search → Option (Bool × Search)) → Kind → Bytes → Search → Option (Bool × Search)
  visit collect directory path s = collect path s
  visit collect regular path s =
      if has_yc_extension path
      then (let (ok, list) =
            path_list_push (fs.grow_memory path) (fs.copy_memory path) path s.list in
          some (ok, record s { list = list }))
      else some (true, s)
  visit collect other path s = some (true, s)

  -- One round of the loop over the entries of `dir`, with the new value of `ok`.
  pub visit_entry :
      (Bytes → Search → Option (Bool × Search)) → Bytes → Bytes → Search → Option (Bool × Search)
  unfolding visit
  visit_entry collect dir name s =
      let path = entry_path dir name in
      if str_eq name (codes ".") || str_eq name (codes "..")
      then some (true, s)
      else if fs.path_memory path
      then elim (fs.stat path) [
        | none ↦ some (true, s)
        | some info ↦ visit collect info.kind path s
      ]
      else some (false, s)

  -- The loop over the entries, which a failure ends.
  pub visit_entries :
      (Bytes → Search → Option (Bool × Search))
      → Bytes
      → List Bytes
      → Search
      → Option (Bool × Search)
  unfolding visit_entry
  visit_entries collect dir [] s = some (true, s)
  visit_entries collect dir (name ∷ names) s = visit_entry collect dir name s >>= λ (ok, s').
      let rest = visit_entries collect dir names s' in if ok then rest else some (false, s')

  -- What follows the answer of `yc_mark_directory_visited`.
  pub enter :
      (Bytes → Search → Option (Bool × Search))
      → Bytes
      → Search
      → Mark × Visited
      → Option (Bool × Search)
  unfolding visit_entries
  enter collect dir s (no_memory, v) = some (false, record s { visited = v })
  enter collect dir s (seen_before, v) = some (true, record s { visited = v })
  enter collect dir s (marked, v) = elim (fs.entries dir) [
    | none ↦ some (false, record s { visited = v })
    | some names ↦ visit_entries collect dir names (record s { visited = v })
  ]

  -- `stat` and `S_ISDIR` on the directory that is walked.
  pub start :
      (Bytes → Search → Option (Bool × Search))
      → Bytes
      → Search
      → Option Status
      → Option (Bool × Search)
  unfolding enter
  start collect dir s none = some (false, s)
  start collect dir s (some (info)) = elim info.kind [
    | directory ↦
        enter collect dir s (mark_directory_visited (fs.visit_memory dir) info.id s.visited)
    | _ ↦ some (false, s)
  ]

  -- `yc_collect_yc_paths`, on fuel for the depth of directories in one another.
  pub collect : ℕ → Bytes → Search → Option (Bool × Search)
  unfolding start
  collect zero dir s = none
  collect (suc fuel) dir s = start (collect fuel) dir s (fs.stat dir)

-- `qsort` by `yc_compare_paths`.
pub insert_path : Bytes → List Bytes → List Bytes
insert_path p [] = p ∷ []
insert_path p (q ∷ qs) = if str_le p q then p ∷ q ∷ qs else q ∷ insert_path p qs

unfoldable pub sort_paths : List Bytes → List Bytes
unfolding insert_path
sort_paths [] = []
sort_paths (p ∷ ps) = insert_path p (sort_paths ps)

-- The loop that adds up the size of the text, with its test for overflow.
unfoldable pub total_size : ℕ → List Bytes → Option ℕ
total_size total [] = some total
total_size total (p ∷ ps) =
    let rest = total_size ((total + (length p + 1)) % word) ps in
    if ltb ((word - 1 + word - total + word - 1) % word) (length p) then none else rest

-- The loop that writes the lines.
unfoldable pub lines : List Bytes → Bytes
lines [] = []
lines (p ∷ ps) = p ++ newline ∷ lines ps

-- `yc_fs_collect_yc_files`; `given` is whether `yc_alloc` gives a block of that size.
unfoldable pub collect_yc_files : FileSystem → (ℕ → Bool) → ℕ → Bytes → Option (Option Bytes)
unfolding collect sort_paths total_size lines
collect_yc_files fs given fuel start =
    collect fs fuel start (record { list = no_paths; visited = no_directories }) >>= λ (ok, s).
    some (
      if ok
      then elim (total_size 1 (sort_paths s.list.items)) [
        | none ↦ none
        | some total ↦ if given total then some (lines (sort_paths s.list.items)) else none
      ]
      else none)

-- The directory where `yc_fs_find_yc_files` starts: the root's "src".
unfoldable pub start_path : Bytes → Bytes
start_path root =
    let root_len = length root in
    if leb 4 root_len && str_eq (drop (root_len - 4) root) (codes "/src")
    then root
    else root ++ codes "/src"

-- `yc_fs_find_yc_files_in`; `none` is the null pointer.
unfoldable pub find_yc_files_in : FileSystem → (ℕ → Bool) → ℕ → Option Bytes → Option (Option Bytes)
unfolding collect_yc_files
find_yc_files_in fs given fuel none = some none
find_yc_files_in fs given fuel (some root) = collect_yc_files fs given fuel root

-- `yc_fs_find_yc_files`; `copied` is whether `malloc` gives the start path its memory.
unfoldable pub find_yc_files :
    FileSystem → (ℕ → Bool) → Bool → ℕ → Option Bytes → Option (Option Bytes)
unfolding collect_yc_files start_path
find_yc_files fs given copied fuel none = some none
find_yc_files fs given copied fuel (some root) =
    if copied then collect_yc_files fs given fuel (start_path root) else some none
