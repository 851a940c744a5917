-- ===== src/Tests/LinksTests.antt =====
-- A list of two headers that are doubly linked.
use ycpl.Base.{refl, [], ◌∷◌, arith, ◌==◌, if◌then◌else◌}
use ycpl.Address.{null}
use ycpl.Links.{Links}
use ycpl.Links.Chain.{IsList}

abbrev two : Links
two = record {
  next = λ x. if x == 0x2000 then 0x1000 else null;
  prev = λ x. if x == 0x1000 then 0x2000 else null;
  head = 0x2000;
}

two-IsList : IsList two (0x2000 ∷ 0x1000 ∷ [])
two-IsList = (
  (refl, (λ e. omega (arith, e)), refl, (refl, (λ e. omega (arith, e)), refl, refl)),
  (refl, (refl, tt)),
)
