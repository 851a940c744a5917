-- ===== src/Tests/FilesTests.antt =====
-- Paths and the growing arrays at concrete inputs.
use ycpl.Base.{refl, [], ◌∷◌, arith}
use ycpl.Text.{Bytes, codes}
use ycpl.Files.{no_paths, DirectoryId, Visited}
use ycpl.Files.Paths.{IsPathList}

abbrev source_file : Bytes
source_file = codes "src/a.yc"

no_paths-IsPathList : IsPathList no_paths
no_paths-IsPathList = record { counted = refl; fits = omega arith }

abbrev root_id : DirectoryId
root_id = record { device = 1; inode = 2 }

abbrev one_visited : Visited
one_visited = record { items = root_id ∷ []; len = 1; cap = 32 }
