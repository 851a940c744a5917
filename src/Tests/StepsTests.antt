-- ===== src/Tests/StepsTests.antt =====
-- A program that enters a frame, allocates 16 bytes, and leaves the frame.
use ycpl.Address.{Ptr, word, payload, ptr_hash}
use ycpl.Base.{sym, ◌*◌, ◌≡◌, refl, true, some, arith, ltb}
use ycpl.Registry.{Calloc}
use ycpl.Memory.{Memory}
use ycpl.Allocation.{release, frame_pop, Library, alloc, frame_push}
use ycpl.Allocation.Sound.{Sound}
use ycpl.Interface.Owner.{IsServed, stored}
use ycpl.Interface.Keeps.{Keeps, get_some}
use ycpl.Interface
use ycpl.Interface.{
  move_frame_to_parent, attach_child, attach_child_to_owner, replace_child, move_to_ancestor,
  move_to_root,
}
use ycpl.Interface.Steps.{allocates, pushes, Reachable, begins, runs, initial, second}
use ycpl.Interface.Reached.{Reachable-Sound, Reachable-Keeps}

abbrev plenty : Calloc
plenty count size = ltb (count * size) word

abbrev library : Library
library = record { malloc = λ n. some 0x1000; calloc = plenty; realloc = λ n. true }

abbrev pushed : Memory
pushed = get_some initial (frame_push (λ n. true) initial)

abbrev grown : Memory
grown = second pushed (alloc library 16 pushed)

push_run : frame_push (λ n. true) initial ≡ some pushed
unfolding frame_push
push_run = refl

alloc_run : alloc library 16 pushed ≡ some (payload 0x1000, grown)
unfolding alloc frame_push ptr_hash payload
alloc_run = refl

served : IsServed library 16 pushed
unfolding frame_push
served = record {
  granted = λ k. refl;
  honest = λ count size h. ground arith;
  small = omega arith;
  fresh = λ h given. let same : 0x1000 ≡ h = cc given in (refl, omega (arith, same));
}

grown-Reachable : Reachable grown
grown-Reachable =
    runs (runs begins (pushes (λ n. true) (omega arith) push_run))
      (allocates library 16 (payload 0x1000) served alloc_run)

Reachable-Sound_example : Sound grown
Reachable-Sound_example = Reachable-Sound grown grown-Reachable

abbrev other_library : Library
other_library = record { malloc = λ n. some 0x2000; calloc = plenty; realloc = λ n. true }

IsServed-again : IsServed other_library 16 grown
unfolding alloc frame_push ptr_hash payload
IsServed-again = record {
  granted = λ k. refl;
  honest = λ count size h. ground arith;
  small = omega arith;
  fresh = λ h given. let same : 0x2000 ≡ h = cc given in rw (sym same) (refl, omega arith);
}

Reachable-Keeps_example :
    ((p : Ptr) × (m' : Memory) × (alloc other_library 16 grown ≡ some (p, m')) × Sound m')
    × Keeps (λ fuel. stored (Interface.realloc other_library fuel 0x1068 16 grown))
    × Keeps (λ fuel. release fuel 0x1068 grown)
    × Keeps (λ fuel. attach_child other_library fuel 0x1068 0x2068 grown)
    × Keeps (λ fuel. attach_child_to_owner other_library fuel 0x1068 0x2068 grown)
    × Keeps (λ fuel. replace_child other_library fuel 0x1068 0x3068 0x2068 grown)
    × Keeps (λ fuel. move_to_ancestor other_library fuel 0x1068 1 grown)
    × Keeps (λ fuel. move_to_root other_library fuel 0x1068 grown)
    × Keeps (λ fuel. move_frame_to_parent other_library fuel fuel grown)
    × Keeps (λ fuel. frame_pop fuel fuel grown)
Reachable-Keeps_example =
    Reachable-Keeps grown grown-Reachable other_library 16 IsServed-again 0x1068 0x1068 0x2068
      0x3068 1
