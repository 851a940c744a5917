-- ===== src/Discovery/Walk.antt =====
-- The recursive walk over directories, `yc_collect_yc_paths`.
use ycpl.Base.{
  ℕ, zero, suc, ◌+◌, ◌≤◌, ◌<◌, ◌≡◌, refl, inl, inr, Bool, true, false, ◌||◌, Option, some, List, [],
  ◌∷◌, ◌++◌, ◌>>=◌, if◌then◌else◌, arith, Bool-cases, Option-cases,
}
use ycpl.Text.{Bytes, codes, str_eq}
use ycpl.Files.{
  has_yc_extension, path_list_push, DirectoryId, Visited, was_visited, same_directory, Mark,
  seen_before, no_memory, marked, mark_directory_visited,
}
use ycpl.Files.Paths.{
  IsPathList, IsVisited, Marks, path_list_push-IsPathList, mark_directory_visited-Marks,
  was_visited-append, has_yc_extension_iff,
}
use ycpl.Discovery.{
  Kind, directory, regular, other, Status, FileSystem, Search, entry_path, visit, visit_entry,
  visit_entries, enter, start, collect,
}

-- How many of `ids` are not among the visited.
unfoldable pub missing : List DirectoryId → List DirectoryId → ℕ
missing [] vs = 0
missing (d ∷ ids) vs = (if was_visited vs d then 0 else 1) + missing ids vs

same-eq : (a b : DirectoryId) → same_directory a b ≡ true → a ≡ b
same-eq a b h = ground arith

missing-append-le :
    (ids vs : List DirectoryId) (d : DirectoryId) → missing ids (vs ++ d ∷ []) ≤ missing ids vs
unfolding missing
missing-append-le [] vs d = omega arith
missing-append-le (e ∷ ids) vs d =
    ground (arith, missing-append-le ids vs d, was_visited-append vs (d ∷ []) e)

-- A directory of `ids` that is visited now makes fewer to visit.
missing-append-lt :
    (ids vs : List DirectoryId) (d : DirectoryId)
    → was_visited ids d ≡ true
    → was_visited vs d ≡ false
    → missing ids (vs ++ d ∷ []) < missing ids vs
unfolding missing was_visited
missing-append-lt [] vs d h new = cc
missing-append-lt (e ∷ ids) vs d h new = elim (Bool-cases (same_directory e d)) [
  | inl same ↦
      rw (same-eq e d same)
        (ground (arith, missing-append-le ids vs d, was_visited-append vs (d ∷ []) d))
  | inr apart ↦ ground (
    arith,
    missing-append-lt ids vs d,
    was_visited-append vs (d ∷ []) e,
    missing-append-le ids vs d,
  )
]

module _ (fs : FileSystem) where
  -- A regular file whose name ends in ".yc".
  abbrev pub IsSource : Bytes → Type 0
  IsSource p =
      ((stem : Bytes) × (p ≡ stem ++ codes ".yc"))
      × ((info : Status) × (fs.stat p ≡ some info) × (info.kind ≡ regular))

  abbrev pub AllSources : List Bytes → Type 0
  AllSources [] = Unit
  AllSources (p ∷ ps) = IsSource p × AllSources ps

  -- What holds of the two lists throughout the walk.
  pub record IsSearch (s : Search) : Type 0 where
    pub listed : IsPathList s.list
    pub visited : IsVisited s.visited
    pub sources : AllSources s.list.items

  AllSources-append :
      (ps : List Bytes) (p : Bytes) → AllSources ps → IsSource p → AllSources (ps ++ p ∷ [])
  AllSources-append [] p a h = (h, tt)
  AllSources-append (q ∷ ps) p (hq, a) h = (hq, AllSources-append ps p a h)

  sources_if :
      (entered : Bool) (ps : List Bytes) (p : Bytes)
      → AllSources ps
      → IsSource p
      → AllSources (if entered then ps ++ p ∷ [] else ps)
  sources_if true ps p a h = AllSources-append ps p a h
  sources_if false ps p a h = a

  module _ (ids : List DirectoryId) where
    -- The directories of the file system are among `ids`.
    abbrev pub Covers : Type 0
    Covers =
        (p : Bytes) (info : Status)
        → fs.stat p ≡ some info
        → info.kind ≡ directory
        → was_visited ids info.id ≡ true

    -- The directories of `ids` that a search has still to enter.
    abbrev pub ahead : Search → ℕ
    ahead s = missing ids s.visited.items

    -- The step ends, keeps the invariant, and makes no visited directory unvisited.
    abbrev pub Ends : ℕ → Option (Bool × Search) → Type 0
    Ends n r = (ok : Bool) × (s : Search) × (r ≡ some (ok, s)) × IsSearch s × (ahead s ≤ n)

    -- What the steps ask of the walk over a directory, with fewer than `fuel` directories ahead.
    abbrev Walks : ℕ → (Bytes → Search → Option (Bool × Search)) → Type 0
    Walks fuel rec =
        (dir : Bytes) (s : Search) → IsSearch s → ahead s < fuel → Ends (ahead s) (rec dir s)

    module _ (fuel : ℕ) (rec : Bytes → Search → Option (Bool × Search))
        (walks : Walks fuel rec) where
      visit-Ends :
          (kind : Kind) (info : Status) (p : Bytes) (s : Search)
          → fs.stat p ≡ some info
          → info.kind ≡ kind
          → IsSearch s
          → ahead s < fuel
          → Ends (ahead s) (visit fs rec kind p s)
      unfolding visit
      visit-Ends directory info p s found is v lt = walks p s v lt
      visit-Ends other info p s found is v lt = (true, s, refl, v, omega arith)
      visit-Ends regular info p s found is v lt = elim (Bool-cases (has_yc_extension p)) [
        | inr other_name ↦ rw other_name (true, s, refl, v, omega arith)
        | inl source ↦
            let (listed, items, _) =
              path_list_push-IsPathList (fs.grow_memory p) (fs.copy_memory p) p s.list v.listed in
            rw source (
              _,
              _,
              refl,
              record {
                listed = listed;
                visited = v.visited;
                sources = rw items (
                    sources_if (path_list_push (fs.grow_memory p) (fs.copy_memory p) p s.list).0
                      s.list.items p v.sources
                      ((has_yc_extension_iff p).0 source, (info, found, is)));
              },
              omega arith,
            )
      ]

      visit_entry-Ends :
          (dir name : Bytes) (s : Search)
          → IsSearch s
          → ahead s < fuel
          → Ends (ahead s) (visit_entry fs rec dir name s)
      unfolding visit_entry
      visit_entry-Ends dir name s v lt =
          let p = entry_path dir name in
          elim (Bool-cases (str_eq name (codes ".") || str_eq name (codes ".."))) [
            | inl dots ↦ rw dots (true, s, refl, v, omega arith)
            | inr real ↦ elim (Bool-cases (fs.path_memory p)) [
              | inr no_room ↦ rw (real, no_room) (false, s, refl, v, omega arith)
              | inl room ↦ elim (Option-cases (fs.stat p)) [
                | inl gone ↦ rw (real, room, gone) (true, s, refl, v, omega arith)
                | inr (info, found) ↦
                    rw (real, room, found) (visit-Ends info.kind info p s found refl v lt)
              ]
            ]
          ]

      visit_entries-Ends :
          (dir : Bytes) (names : List Bytes) (s : Search)
          → IsSearch s
          → ahead s < fuel
          → Ends (ahead s) (visit_entries fs rec dir names s)
      unfolding visit_entries
      visit_entries-Ends dir [] s v lt = (true, s, refl, v, omega arith)
      visit_entries-Ends dir (name ∷ names) s v lt =
          let (ok, s₁, run₁, v₁, le₁) = visit_entry-Ends dir name s v lt in
          let (ok₂, s₂, run₂, v₂, le₂) = visit_entries-Ends dir names s₁ v₁ (omega arith) in
          elim (Bool-cases ok) [
            | inl on ↦ (ok₂, s₂, rw (run₁, ◌>>=◌, on) run₂, v₂, omega arith)
            | inr off ↦ (false, s₁, rw (run₁, ◌>>=◌, off) refl, v₁, le₁)
          ]

      -- After a directory of `ids` is marked, fewer are ahead.
      enter-Ends :
          (given : Bool) (dir : Bytes) (d : DirectoryId) (s : Search) (mark : Mark) (v : Visited)
          → IsSearch s
          → ahead s ≤ fuel
          → was_visited ids d ≡ true
          → IsVisited v
          → Marks given d s.visited mark v
          → Ends (ahead s) (enter fs rec dir s (mark, v))
      unfolding enter
      enter-Ends given dir d s no_memory v is le known valid (_, _, _, same) = (
        false,
        record s { visited = v },
        refl,
        record { listed = is.listed; visited = valid; sources = is.sources },
        rw same (omega arith),
      )
      enter-Ends given dir d s seen_before v is le known valid (_, same) = (
        true,
        record s { visited = v },
        refl,
        record { listed = is.listed; visited = valid; sources = is.sources },
        rw same (omega arith),
      )
      enter-Ends given dir d s marked v is le known valid (new, items) =
          let s₁ : Search = record s { visited = v } in
          let is₁ : IsSearch s₁ = record {
            listed = is.listed;
            visited = valid;
            sources = is.sources;
          } in
          let lt : ahead s₁ < ahead s =
            rw items (missing-append-lt ids s.visited.items d known new) in
          elim (Option-cases (fs.entries dir)) [
            | inl shut ↦ rw (shut, enter) (false, s₁, refl, is₁, omega arith)
            | inr (names, opened) ↦
                let (ok, s₂, run, v₂, le₂) = visit_entries-Ends dir names s₁ is₁ (omega arith) in
                rw (opened, enter) (ok, s₂, run, v₂, omega arith)
          ]

    start-Ends :
        Covers
        → (fuel : ℕ) (rec : Bytes → Search → Option (Bool × Search)) → Walks fuel rec
        → (dir : Bytes) (s : Search) (kind : Kind) (info : Status) → IsSearch s
        → ahead s ≤ fuel
        → fs.stat dir ≡ some info
        → info.kind ≡ kind
        → Ends (ahead s) (start fs rec dir s (some info))
    unfolding start
    start-Ends covers fuel rec walks dir s directory info v le found is =
        let (valid, marks) =
          mark_directory_visited-Marks (fs.visit_memory dir) info.id s.visited v.visited in
        rw (is, start)
          (enter-Ends fuel rec walks (fs.visit_memory dir) dir info.id s
            (mark_directory_visited (fs.visit_memory dir) info.id s.visited).0
            (mark_directory_visited (fs.visit_memory dir) info.id s.visited).1 v le
            (covers dir info found is) valid marks)
    start-Ends covers fuel rec walks dir s regular info v le found is =
        rw (is, start) (false, s, refl, v, omega arith)
    start-Ends covers fuel rec walks dir s other info v le found is =
        rw (is, start) (false, s, refl, v, omega arith)

    -- `yc_collect_yc_paths` ends, whatever the links between directories, when the fuel is more than
    -- the directories still ahead; what it lists are regular source files, and it marks no directory
    -- twice.
    pub collect-Ends :
        Covers
        → (fuel : ℕ) (dir : Bytes) (s : Search) → IsSearch s
        → ahead s < fuel
        → Ends (ahead s) (collect fs fuel dir s)
    unfolding collect
    collect-Ends covers zero dir s v lt = absurd (omega arith)
    collect-Ends covers (suc fuel) dir s v lt = elim (Option-cases (fs.stat dir)) [
      | inl gone ↦ rw gone (false, s, unfold start in refl, v, omega arith)
      | inr (info, found) ↦ rw found (
          start-Ends covers fuel (collect fs fuel)
            (λ d s' w lt'. collect-Ends covers fuel d s' w lt') dir s info.kind info v (omega arith)
            found refl)
    ]
