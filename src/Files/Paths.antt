-- ===== src/Files/Paths.antt =====
-- Which paths have the extension, and what the two growing arrays hold.
use ycpl.Base.{
  ℕ, zero, suc, ◌+◌, ◌-◌, ◌≤◌, ◌≡◌, refl, sym, ap, ◌∙◌, ◌↔◌, inl, inr, Bool, true, false, ◌&&◌,
  ◌||◌, List, [], ◌∷◌, ◌++◌, ◌==◌, leb, length, get_or, take, drop, take-append-drop, length-append,
  length-drop, if◌then◌else◌, arith, Bool-cases,
}
use ycpl.Text.{Bytes, codes}
use ycpl.Text.Bytes.{get_or-append}
use ycpl.Files.{
  has_yc_extension, PathList, path_list_push, DirectoryId, Visited, was_visited, same_directory,
  Mark, seen_before, no_memory, marked, mark_directory_visited,
}

get_or-drop : (xs : Bytes) (n i : ℕ) → get_or (drop n xs) i 0 ≡ get_or xs (n + i) 0
get_or-drop xs zero i = ap (λ n. get_or xs n 0) (omega arith)
get_or-drop [] (suc n) i = refl
get_or-drop (x ∷ xs) (suc n) i =
    let e : suc n + i ≡ suc (n + i) = omega arith in rw e (get_or-drop xs n i)

-- Three bytes are their list.
three : (xs : Bytes) → length xs ≡ 3 → xs ≡ get_or xs 0 0 ∷ get_or xs 1 0 ∷ get_or xs 2 0 ∷ []
three [] h = absurd (omega arith)
three (a ∷ []) h = absurd (omega arith)
three (a ∷ b ∷ []) h = absurd (omega arith)
three (a ∷ b ∷ c ∷ []) h = refl
three (a ∷ b ∷ c ∷ d ∷ xs) h = absurd (omega arith)

extension : Bytes
extension = codes ".yc"

extended : (stem : Bytes) → has_yc_extension (stem ++ extension) ≡ true
unfolding has_yc_extension extension
extended stem =
    let len = length-append stem extension in
    let e₀ : length (stem ++ extension) - 3 ≡ length stem + 0 = omega arith in
    let e₁ : length (stem ++ extension) - 2 ≡ length stem + 1 = omega arith in
    let e₂ : length (stem ++ extension) - 1 ≡ length stem + 2 = omega arith in
    let long : leb 3 (length (stem ++ extension)) ≡ true = ground arith in
    rw
      (
        long,
        e₀,
        e₁,
        e₂,
        get_or-append stem extension 0,
        get_or-append stem extension 1,
        get_or-append stem extension 2,
      )
      refl

last_three : (path : Bytes) → has_yc_extension path ≡ true → drop (length path - 3) path ≡ extension
unfolding has_yc_extension extension
last_three path h =
    let n = length path - 3 in
    let at = λ (i : ℕ). get_or-drop path n i in
    let long : 3 ≤ length path = ground arith in
    let e₁ : length path - 2 ≡ n + 1 = omega arith in
    let e₂ : length path - 1 ≡ n + 2 = omega arith in
    let e₀ : length path - 3 ≡ n + 0 = omega arith in
    let i₀ = ap (λ k. get_or path k 0) e₀ in
    let i₁ = ap (λ k. get_or path k 0) e₁ in
    let i₂ = ap (λ k. get_or path k 0) e₂ in
    let c₀ : get_or (drop n path) 0 0 ≡ b'.' = ground (arith, at 0) in
    let c₁ : get_or (drop n path) 1 0 ≡ b'y' = ground (arith, at 1) in
    let c₂ : get_or (drop n path) 2 0 ≡ b'c' = ground (arith, at 2) in
    three (drop n path) (omega (arith, length-drop n path)) ∙ cc (c₀, c₁, c₂)

-- `yc_has_yc_extension` holds exactly of the paths that end in ".yc".
pub has_yc_extension_iff :
    (path : Bytes)
    → (has_yc_extension path ≡ true) ↔ ((stem : Bytes) × (path ≡ stem ++ codes ".yc"))
unfolding extension
has_yc_extension_iff path = (
  λ h. (
    take (length path - 3) path,
    sym (take-append-drop (length path - 3) path)
        ∙ ap (λ t. take (length path - 3) path ++ t) (last_three path h),
  ),
  λ (stem, e). rw e (extended stem),
)

-- The arrays hold what they count, within their capacity.
pub record IsPathList (list : PathList) : Type 0 where
  pub counted : list.len ≡ length list.items
  pub fits : list.len ≤ list.cap

-- `yc_path_list_push` enters the path at the end, or, without memory, keeps the paths as they are.
pub path_list_push-IsPathList :
    (given copied : Bool) (path : Bytes) (list : PathList)
    → IsPathList list
    → IsPathList (path_list_push given copied path list).1
      × ((path_list_push given copied path list).1.items ≡ (
          if (path_list_push given copied path list).0
          then list.items ++ path ∷ []
          else list.items))
      × (given ≡ true → copied ≡ true → (path_list_push given copied path list).0 ≡ true)
unfolding path_list_push
path_list_push-IsPathList given copied path list v =
    ground (arith, length-append list.items (path ∷ []))

-- A list of directories that names none twice.
abbrev pub Distinct : List DirectoryId → Type 0
Distinct [] = Unit
Distinct (d ∷ ds) = (was_visited ds d ≡ false) × Distinct ds

pub record IsVisited (v : Visited) : Type 0 where
  pub counted : v.len ≡ length v.items
  pub fits : v.len ≤ v.cap
  pub distinct : Distinct v.items

same_directory_sym : (a b : DirectoryId) → same_directory a b ≡ same_directory b a
same_directory_sym a b = ground arith

pub was_visited-append :
    (ds es : List DirectoryId) (d : DirectoryId)
    → was_visited (ds ++ es) d ≡ (was_visited ds d || was_visited es d)
unfolding was_visited
was_visited-append [] es d = refl
was_visited-append (e ∷ ds) es d = ground (arith, was_visited-append ds es d)

Distinct-append :
    (ds : List DirectoryId) (d : DirectoryId)
    → Distinct ds
    → was_visited ds d ≡ false
    → Distinct (ds ++ d ∷ [])
unfolding was_visited
Distinct-append [] d v new = (refl, tt)
Distinct-append (e ∷ ds) d (apart, v) new = (
  ground (arith, was_visited-append ds (d ∷ []) e, same_directory_sym d e),
  Distinct-append ds d v (ground arith),
)

-- What `yc_mark_directory_visited` answers and leaves, on each of its three results.
abbrev pub Marks : Bool → DirectoryId → Visited → Mark → Visited → Type 0
Marks given d v seen_before v' = (was_visited v.items d ≡ true) × (v' ≡ v)
Marks given d v no_memory v' =
    (was_visited v.items d ≡ false) × (v.len ≡ v.cap) × (given ≡ false) × (v' ≡ v)
Marks given d v marked v' = (was_visited v.items d ≡ false) × (v'.items ≡ v.items ++ d ∷ [])

pub mark_directory_visited-Marks :
    (given : Bool) (d : DirectoryId) (v : Visited)
    → IsVisited v
    → IsVisited (mark_directory_visited given d v).1
      × Marks given d v (mark_directory_visited given d v).0 (mark_directory_visited given d v).1
unfolding mark_directory_visited
mark_directory_visited-Marks given d v valid = elim (Bool-cases (was_visited v.items d)) [
  | inl old ↦ rw old (valid, (old, refl))
  | inr new ↦ elim (Bool-cases (v.len == v.cap && (if given then false else true))) [
    | inl full ↦ rw (new, full) (valid, (new, ground arith, ground arith, refl))
    | inr room ↦
        rw (new, room)
          (
            record {
              counted = omega (arith, valid.counted, length-append v.items (d ∷ []));
              fits = ground (arith, valid.fits);
              distinct = Distinct-append v.items d valid.distinct new;
            },
            (new, refl),
          )
  ]
]
