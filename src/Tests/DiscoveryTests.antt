-- ===== src/Tests/DiscoveryTests.antt =====
-- The search over a directory that holds a source file, another file and a link to itself.
use ycpl.Base.{
  ◌+◌, ◌^◌, ◌<◌, ◌≡◌, refl, true, Option, none, some, List, [], ◌∷◌, ◌++◌, arith, if◌then◌else◌,
  length,
}
use ycpl.Text.{Bytes, codes, newline, str_eq}
use ycpl.Files.{
  DirectoryId, was_visited, no_paths, no_directories, has_yc_extension, path_list_push,
  mark_directory_visited,
}
use ycpl.Discovery.{
  directory, regular, Status, FileSystem, Search, entry_path, collect, lines, collect_yc_files,
  find_yc_files,
}
use ycpl.Discovery.Walk.{missing, IsSearch, Covers, Ends, ahead, collect-Ends}

abbrev dir_id : DirectoryId
dir_id = record { device = 1; inode = 7 }

abbrev dir_status : Status
dir_status = record { kind = directory; id = dir_id }

abbrev file_status : Status
file_status = record { kind = regular; id = record { device = 1; inode = 8 } }

abbrev stat_of : Bytes → Option Status
stat_of p =
    if str_eq p (codes "src")
    then some dir_status
    else if str_eq p (codes "src/loop")
    then some dir_status
    else if str_eq p (codes "src/b.yc")
    then some file_status
    else none

abbrev disk : FileSystem
disk = record {
  stat = stat_of;
  entries = λ p. some (codes "." ∷ codes "b.yc" ∷ codes "loop" ∷ []);
  path_memory = λ p. true;
  grow_memory = λ p. true;
  copy_memory = λ p. true;
  visit_memory = λ p. true;
}

abbrev ids : List DirectoryId
ids = dir_id ∷ []

disk-Covers : Covers disk ids
unfolding was_visited
disk-Covers p info found is = ground arith

abbrev search : Search
search = record { list = no_paths; visited = no_directories }

search-IsSearch : IsSearch disk search
search-IsSearch = record {
  listed = record { counted = refl; fits = omega arith };
  visited = record { counted = refl; fits = omega arith; distinct = tt };
  sources = tt;
}

ids_ahead : missing ids [] < 2
unfolding missing was_visited
ids_ahead = omega arith

collect-Ends_example : Ends disk ids (ahead disk ids search) (collect disk 2 (codes "src") search)
collect-Ends_example =
    collect-Ends disk ids disk-Covers 2 (codes "src") search search-IsSearch ids_ahead

-- The root is completed by "/src", and the link back to it is not entered again.
find_run : find_yc_files disk (λ _. true) true 2 (some (codes "src/../src")) ≡ some none
unfolding find_yc_files entry_path has_yc_extension path_list_push mark_directory_visited
find_run = refl

collect_run :
    collect_yc_files disk (λ _. true) 2 (codes "src")
    ≡ some (some (codes "src/b.yc" ++ newline ∷ []))
unfolding collect_yc_files entry_path has_yc_extension path_list_push mark_directory_visited
collect_run = refl

abbrev two_paths : List Bytes
two_paths = codes "a.yc" ∷ codes "b.yc" ∷ []

two_paths_fit : length (lines two_paths) + 1 < 2 ^ 64
unfolding lines
two_paths_fit = omega arith
