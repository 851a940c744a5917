-- ===== src/Links.antt =====
-- Doubly linked lists of headers. bootstrap/cpp/runtime/yc_runtime.c writes the same two operations
-- out for the list of all allocations (`yc_link`, `yc_unlink`), the list of a frame (`yc_frame_link`,
-- `yc_frame_unlink`) and the children of an owner (`yc_link_owner`, `yc_detach_owner`).
pub mod Chain
pub mod Family
pub mod Push
pub mod Unlink
pub mod Leave
use ycpl.Base.{Bool, true, false, ◌==◌, if◌then◌else◌}
use ycpl.Address.{Ptr, null}

-- A field of all headers: `h->field = v`.
unfoldable pub update : {A : Type 0} → (Ptr → A) → Ptr → A → Ptr → A
update f h v x = if x == h then v else f x

-- The two links of each header, and the head of one list.
pub record Links : Type 0 where
  pub next : Ptr → Ptr
  pub prev : Ptr → Ptr
  pub head : Ptr

-- A header that is in no list becomes the first.
unfoldable pub push_front : Ptr → Links → Links
unfolding update
push_front h l =
    let next' = update l.next h l.head in
    let prev' = update l.prev h null in
    record {
      next = next';
      prev = if l.head == null then prev' else update prev' l.head h;
      head = h;
    }

-- The neighbours of a header, or the head, pass it by.
pub pass_next : Ptr → Links → Links
unfolding update
pass_next h l =
    if l.prev h == null
    then if l.head == h then record l { head = l.next h } else l
    else record l { next = update l.next (l.prev h) (l.next h) }

pub pass_prev : Ptr → Links → Links
unfolding update
pass_prev h l =
    if l.next h == null then l else record l { prev = update l.prev (l.next h) (l.prev h) }

unfoldable pub unlink : Ptr → Links → Links
unfolding pass_next pass_prev update
unlink h l =
    let l' = pass_prev h (pass_next h l) in
    record l' { prev = update l'.prev h null; next = update l'.next h null }
