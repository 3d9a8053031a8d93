-- ===== src/Mu/Pmap/Tree.antt =====
-- What the processor makes of page tables, and the invariant of the tables that the kernel builds:
-- they are a tree, in which each table has a level, one parent and one place in it.
use open_modality.Base.{
  ℕ, zero, suc, ◌+◌, ◌*◌, ◌/◌, ◌%◌, ◌^◌, ◌<◌, ◌≡◌, ◌∙◌, refl, sym, ap, Bool, true, false, Option,
  none, some, arith,
}
use native.Mathlib.Decide.{ℕ_discrete}
use open_modality.Base.Tests.{◌==◌, ltb, if◌then◌else◌}

-- Bit 0 of an entry, and bits 12 to 51: the physical address of the next table.
abbrev pub present : ℕ → Bool
present entry = entry % 2 == 1

abbrev pub target : ℕ → ℕ
target entry = entry / 4096 % 2 ^ 40 * 4096

-- The way on from an entry, if it is present.
abbrev pub follow : ℕ → Option ℕ → Option ℕ
follow entry way = elim (present entry) [ true ↦ way | false ↦ none ]

pub follow-present : (entry : ℕ) (way : Option ℕ) → present entry ≡ true → follow entry way ≡ way
follow-present entry way h = ground arith

pub follow-absent : (entry : ℕ) (way : Option ℕ) → present entry ≡ false → follow entry way ≡ none
follow-absent entry way h = ground arith

-- Bit 7 of an entry above the lowest level: the entry is that of a large page.
abbrev pub large : ℕ → Bool
large entry = entry / 128 % 2 == 1

-- What lies below an entry, by the level of the next table: a large page ends the way, and at the top
-- the bit is reserved.
abbrev pub below : ℕ → ℕ → Option ℕ → Option ℕ
below n entry way = elim (large entry) [ false ↦ way | true ↦ if ltb n 2 then some entry else none ]

pub below-table : (n entry : ℕ) (way : Option ℕ) → large entry ≡ false → below n entry way ≡ way
below-table n entry way h = ground arith

-- The translation of the processor: from the table at `base`, of level `n`, down to the entry of
-- the page. `index` has the place to take in a table of each level.
abbrev pub walk : (ℕ → ℕ) → (ℕ → ℕ) → ℕ → ℕ → Option ℕ
walk memory index zero base = let entry = memory (base + 8 * index 0) in follow entry (some entry)
walk memory index (suc n) base =
    let entry = memory (base + 8 * index (suc n)) in
    follow entry (below n entry (walk memory index n (target entry)))

-- The last table of the way that the kernel takes, which does not look at the bit.
abbrev pub leaf_of : (ℕ → ℕ) → (ℕ → ℕ) → ℕ → ℕ → Option ℕ
leaf_of memory index zero base = some base
leaf_of memory index (suc n) base =
    let entry = memory (base + 8 * index (suc n)) in
    follow entry (leaf_of memory index n (target entry))

-- Which frames are tables: `level` is 0 elsewhere, and one more than the level of a table.
pub record Shape : Type 0 where
  pub level : ℕ → ℕ
  pub parent : ℕ → ℕ
  pub place : ℕ → ℕ

pub record IsChild (sh : Shape) (f n i c : ℕ) : Type 0 where
  pub level : sh.level c ≡ suc n
  pub parent : sh.parent c ≡ f
  pub place : sh.place c ≡ i

pub record IsTree (memory : ℕ → ℕ) (sh : Shape) : Type 0 where
  pub aligned : (f n : ℕ) → sh.level f ≡ suc n → f % 4096 ≡ 0
  pub entries :
      (f n i : ℕ)
      → sh.level f ≡ suc (suc n)
      → i < 512
      → present (memory (f + 8 * i)) ≡ true
      → IsChild sh f n i (target (memory (f + 8 * i)))
  pub tables :
      (f n i : ℕ)
      → sh.level f ≡ suc (suc n)
      → i < 512
      → present (memory (f + 8 * i)) ≡ true
      → large (memory (f + 8 * i)) ≡ false

-- Places in two tables are one word only if tables and places are the same.
pub slot_injective :
    (f g i j : ℕ)
    → f % 4096 ≡ 0
    → g % 4096 ≡ 0
    → i < 512
    → j < 512
    → f + 8 * i ≡ g + 8 * j
    → (f ≡ g) × (i ≡ j)
slot_injective f g i j af ag hi hj e = omega arith

leaf_of-entry :
    (memory : ℕ → ℕ) (index : ℕ → ℕ) (n f : ℕ) {leaf : ℕ}
    → leaf_of memory index (suc n) f ≡ some leaf
    → (present (memory (f + 8 * index (suc n))) ≡ true)
      × (leaf_of memory index n (target (memory (f + 8 * index (suc n)))) ≡ some leaf)
leaf_of-entry memory index n f e = taken (present (memory (f + 8 * index (suc n)))) _ e
  where
    taken :
        (b : Bool) (way : Option ℕ) {leaf : ℕ}
        → elim b as (λ _. Option ℕ) [ true ↦ way | false ↦ none ] ≡ some leaf
        → (b ≡ true) × (way ≡ some leaf)
    taken true way e = (refl, e)
    taken false way e = cc

places :
    (n : ℕ) (index index' : ℕ → ℕ)
    → ((k : ℕ) → k < n → index (suc k) ≡ index' (suc k))
    → index (suc n) ≡ index' (suc n)
    → (k : ℕ) → k < suc n
    → index (suc k) ≡ index' (suc k)
places n index index' below here k h = elim (ℕ_discrete k n) [
  | yes e ↦ rw e here
  | no ne ↦ below k (ground arith)
]

-- Ways that end in one table started in one table and took the same places.
pub leaf_of_unique :
    (memory : ℕ → ℕ) (sh : Shape) (index index' : ℕ → ℕ)
    → IsTree memory sh
    → ((k : ℕ) → index k < 512)
    → ((k : ℕ) → index' k < 512)
    → (n f g : ℕ) {leaf : ℕ} → sh.level f ≡ suc n
    → sh.level g ≡ suc n
    → leaf_of memory index n f ≡ some leaf
    → leaf_of memory index' n g ≡ some leaf
    → (f ≡ g) × ((k : ℕ) → k < n → index (suc k) ≡ index' (suc k))
leaf_of_unique memory sh index index' tree small small' zero f g lf lg e e' =
    (cc, λ k h. elim h [ ])
leaf_of_unique memory sh index index' tree small small' (suc n) f g lf lg e e' =
    let (there, rest) = leaf_of-entry memory index n f e in
    let (there', rest') = leaf_of-entry memory index' n g e' in
    let child = tree.entries f n (index (suc n)) lf (small (suc n)) there in
    let child' = tree.entries g n (index' (suc n)) lg (small' (suc n)) there' in
    let (same, below) =
      leaf_of_unique memory sh index index' tree small small' n _ _ child.level child'.level rest
        rest' in
    let same_parent = ap sh.parent same in
    let same_place = ap sh.place same in
    (
      sym child.parent ∙ same_parent ∙ child'.parent,
      places n index index' below (sym child.place ∙ same_place ∙ child'.place),
    )
