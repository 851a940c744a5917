-- ===== src/Discovery/Whole.antt =====
-- `yc_fs_collect_yc_files` and `yc_fs_find_yc_files` as a whole.
use mathlib.Core.List.{Perm}
use ycpl.Base.{
  ℕ, ◌-◌, ◌≡◌, refl, sym, ap, ◌∙◌, inl, inr, Bool, true, false, ◌⊎◌, ◌&&◌, Option, none, some, List,
  [], ◌∷◌, ◌++◌, leb, length, drop, take, take-append-drop, length-append, arith, Bool-cases,
}
use ycpl.Text.{Bytes, codes, str_eq}
use ycpl.Text.Bytes.{eq_of_str_eq, drop-append}
use ycpl.Files.{no_paths, no_directories}
use ycpl.Discovery.{FileSystem, Search, total_size, start_path}
use ycpl.Discovery.Walk.{AllSources}
use ycpl.Discovery.Listing.{IsSorted}

suffix : Bytes
suffix = codes "/src"

start_suffix : (root : Bytes) → (stem : Bytes) × (start_path root ≡ stem ++ suffix)
unfolding start_path suffix
start_suffix root =
    elim (Bool-cases (leb 4 (length root) && str_eq (drop (length root - 4) root) (codes "/src"))) [
      | inr add ↦ (root, rw add refl)
      | inl has ↦
          let tail : drop (length root - 4) root ≡ codes "/src" =
            eq_of_str_eq (drop (length root - 4) root) (codes "/src") (ground arith) in
          (
            take (length root - 4) root,
            rw has (
                sym (take-append-drop (length root - 4) root)
                ∙ ap (λ t. take (length root - 4) root ++ t) tail),
          )
    ]

start_keeps : (stem : Bytes) → start_path (stem ++ suffix) ≡ stem ++ suffix
unfolding start_path suffix
start_keeps stem =
    let long = length-append stem (codes "/src") in
    let e : length (stem ++ codes "/src") - 4 ≡ length stem = omega arith in
    let enough : leb 4 (length (stem ++ codes "/src")) ≡ true = ground arith in
    rw (enough, e, drop-append stem (codes "/src")) refl

-- The search starts in a directory whose path ends in "/src", and one that ends so is left alone.
pub start_path-suffix :
    (root : Bytes)
    → ((stem : Bytes) × (start_path root ≡ stem ++ codes "/src"))
      × (start_path (start_path root) ≡ start_path root)
unfolding suffix
start_path-suffix root = let (stem, e) = start_suffix root in ((stem, e), rw e (start_keeps stem))

-- Each path with a line end behind it.
abbrev pub terminated : List Bytes → Bytes
terminated [] = []
terminated (p ∷ ps) = p ++ codes "\n" ++ terminated ps

-- The search before the walk.
abbrev pub no_search : Search
no_search = record { list = no_paths; visited = no_directories }

-- What is returned of a walk that found `found`: a text is the lines of `found`, sorted, with its
-- length and the final NUL counted in a `size_t` and `yc_alloc` having given that much; null is a
-- walk that failed, a length that does not fit, or no memory.
abbrev pub Lists : FileSystem → (ℕ → Bool) → Bool → List Bytes → Option Bytes → Type 0
Lists fs given ok found none =
    (ps : List Bytes) × IsSorted ps
    × Perm ps found
    × ((ok ≡ false)
        ⊎ ((total_size 1 ps ≡ none) ⊎ ((t : ℕ) × (total_size 1 ps ≡ some t) × (given t ≡ false))))
Lists fs given ok found (some text) =
    (ps : List Bytes) × IsSorted ps
    × Perm ps found
    × (ok ≡ true)
    × (text ≡ terminated ps)
    × AllSources fs found
    × ((t : ℕ) × (total_size 1 ps ≡ some t) × (given t ≡ true))
