-- ===== src/Mu/Pmap/Descent.antt =====
-- The descent of `vma_level_base` in a tree of four levels, with an allocator that hands out frames
-- that are not in use: it returns, hangs in the tables that are missing, and changes no translation.
use mathlib.Core.Path.{subst}
use native.Mathlib.Decide.{ℕ_discrete}
use open_modality.Base.{
  ℕ, zero, suc, ◌+◌, ◌*◌, ◌%◌, ◌^◌, ◌<◌, ◌≡◌, ◌≢◌, ◌∙◌, refl, sym, ap, true, false, Option, none,
  some, inl, inr, arith,
}
use open_modality.Base.Tests.{Bool-cases}
use open_modality.Base.Run.{Run, done}
use open_modality.Sdk.Memory.{poke}
use open_modality.Mu.Pmap.{pte_p, pmap_pml1, isset, vma_level_index, clear_page, Machine, descend}
use open_modality.Mu.Pmap.Entries.{
  isset-present, bit_and-target, bit_or_low, index, index-lt, vma_level_index-index,
}
use open_modality.Mu.Pmap.Grow
use open_modality.Mu.Pmap.Tree.{present, target, follow, follow-present, leaf_of, Shape, IsTree}
use open_modality.Mm.Allocator.{IsAllocator}
use open_modality.Mu.Pmap.Extends.{Extends, Extends-refl, Extends-trans, Spares, Spares-trans}

module _ {S : Type 0} (alloc : S → Run (S × ℕ)) (vma : ℕ) where
  abbrev slot : ℕ → ℕ → ℕ
  slot base cur = base + 8 * index vma (suc cur)

  abbrev go : ℕ → ℕ → Machine S → Run (Machine S × Option ℕ)
  go cur base m = descend alloc vma pmap_pml1 true cur base m

  slot-index : (cur base : ℕ) → cur < 3 → base + 8 * vma_level_index vma (suc cur) ≡ slot base cur
  slot-index cur base h = ap (λ i. base + 8 * i) (vma_level_index-index vma (suc cur) (omega arith))

  -- The three branches of a round.
  descend-present :
      (cur base : ℕ) (m : Machine S)
      → cur < 3
      → present (m.memory (slot base cur)) ≡ true
      → go (suc cur) base m ≡ go cur (target (m.memory (slot base cur))) m
  unfolding descend
  descend-present cur base m h there =
      let on : isset (m.memory (slot base cur)) pte_p ≡ true =
        isset-present (m.memory (slot base cur)) ∙ there in
      ground (arith, slot-index cur base h, bit_and-target (m.memory (slot base cur)))

  descend-full :
      (cur base : ℕ) (m : Machine S) (s : S)
      → cur < 3
      → present (m.memory (slot base cur)) ≡ false
      → alloc m.frames ≡ done (s, 0)
      → go (suc cur) base m ≡ done (record m { frames = s }, none)
  unfolding descend
  descend-full cur base m s h gone out =
      let off : isset (m.memory (slot base cur)) pte_p ≡ false =
        isset-present (m.memory (slot base cur)) ∙ gone in
      ground (arith, slot-index cur base h)

  descend-grow :
      (cur base : ℕ) (m : Machine S) (s : S) (phys : ℕ)
      → cur < 3
      → present (m.memory (slot base cur)) ≡ false
      → alloc m.frames ≡ done (s, phys)
      → phys ≢ 0
      → phys % 4096 ≡ 0
      → go (suc cur) base m
        ≡ go cur phys (record {
          memory = poke (clear_page m.memory phys) (slot base cur) (phys + 7);
          frames = s;
        })
  unfolding descend
  descend-grow cur base m s phys h gone out nz page =
      let off : isset (m.memory (slot base cur)) pte_p ≡ false =
        isset-present (m.memory (slot base cur)) ∙ gone in
      ground (arith, slot-index cur base h, bit_or_low phys 7 page (omega arith))

  module _ {Ready : S → Type 0} {InUse : S → ℕ → Type 0} (a : IsAllocator Ready InUse alloc) where
    -- Every table is in use.
    abbrev pub Owned : Shape → S → Type 0
    Owned sh s = (f k : ℕ) → sh.level f ≡ suc k → InUse s f

    -- What a descent from the table at `base` does.
    pub record Descended (m : Machine S) (sh : Shape) (cur base : ℕ)
        (run : Run (Machine S × Option ℕ)) : Type 0 where
      pub machine : Machine S
      pub result : Option ℕ
      pub out : run ≡ done (machine, result)
      pub shape : Shape
      pub extends : Extends m.memory sh machine.memory shape
      pub ready : Ready machine.frames
      pub owned : Owned shape machine.frames
      pub spares : Spares InUse m sh machine shape
      pub found :
          (leaf : ℕ)
          → result ≡ some leaf
          → (shape.level leaf ≡ 1) × (leaf_of machine.memory (index vma) cur base ≡ some leaf)

    -- The entry that was read, or written, is still there when the descent ends.
    above :
        (m : Machine S) (sh : Shape) (cur base next : ℕ) {run : Run (Machine S × Option ℕ)}
        → sh.level base ≡ suc (suc cur)
        → present (m.memory (slot base cur)) ≡ true
        → target (m.memory (slot base cur)) ≡ next
        → Descended m sh cur next run
        → Descended m sh (suc cur) base run
    above m sh cur base next lb there to d = record {
      machine = d.machine;
      result = d.result;
      out = d.out;
      shape = d.shape;
      extends = d.extends;
      ready = d.ready;
      owned = d.owned;
      spares = d.spares;
      found = λ leaf e.
          let below = d.found leaf e in
          let same =
            d.extends.kept base cur (index vma (suc cur)) lb (index-lt vma (suc cur)) there in
          (
            below.0,
            ap (λ w. follow w (leaf_of d.machine.memory (index vma) cur (target w))) same
                ∙ follow-present _ _ there
                ∙ ap (leaf_of d.machine.memory (index vma) cur) to
                ∙ below.1,
          );
    }

    -- A descent behind a first change of the tables.
    behind :
        (m m' : Machine S) (sh sh' : Shape) (cur base : ℕ) {run : Run (Machine S × Option ℕ)}
        → Extends m.memory sh m'.memory sh'
        → Spares InUse m sh m' sh'
        → Descended m' sh' cur base run
        → Descended m sh cur base run
    behind m m' sh sh' cur base first spared d = record {
      machine = d.machine;
      result = d.result;
      out = d.out;
      shape = d.shape;
      extends = Extends-trans first d.extends;
      ready = d.ready;
      owned = d.owned;
      spares = Spares-trans InUse m m' d.machine sh sh' d.shape spared d.spares;
      found = d.found;
    }

    stop :
        (m : Machine S) (sh : Shape) (cur base : ℕ) (s : S) (result : Option ℕ)
        {run : Run (Machine S × Option ℕ)}
        → run ≡ done (record m { frames = s }, result)
        → IsTree m.memory sh
        → Ready s
        → Owned sh s
        → ((f : ℕ) → InUse m.frames f → InUse s f)
        → ((leaf : ℕ)
            → result ≡ some leaf
            → (sh.level leaf ≡ 1) × (leaf_of m.memory (index vma) cur base ≡ some leaf))
        → Descended m sh cur base run
    stop m sh cur base s result out tree ready owned keeps found = record {
      machine = record m { frames = s };
      result = result;
      out = out;
      shape = sh;
      extends = Extends-refl m.memory sh tree;
      ready = ready;
      owned = owned;
      spares = λ f page used no_table. record {
        used = keeps f used;
        no_table = no_table;
        words = λ j h. refl;
      };
      found = found;
    }

    Owned-grown :
        (m : Machine S) (sh : Shape) (base n i : ℕ) (s : S) (phys : ℕ)
        → ((x : ℕ) → InUse m.frames x → InUse s x)
        → InUse s phys
        → Owned sh m.frames
        → Owned (Grow.shape_with sh base n i phys) s
    Owned-grown m sh base n i s phys keeps used owned f k lf = elim (ℕ_discrete f phys) [
      | yes e ↦ subst (λ x. InUse s x) (sym e) used
      | no ne ↦ keeps f (owned f k (ground arith))
    ]

    -- The new table and its entry lie in other frames.
    Spares-grown :
        (cur base i : ℕ) (m : Machine S) (sh : Shape) (s : S) (phys : ℕ)
        → IsTree m.memory sh
        → sh.level base ≡ suc (suc cur)
        → i < 512
        → present (m.memory (base + 8 * i)) ≡ false
        → sh.level phys ≡ 0
        → phys % 4096 ≡ 0
        → phys < 2 ^ 52
        → ((f : ℕ) → InUse m.frames f → InUse s f)
        → (InUse m.frames phys → ⊥)
        → Spares InUse m sh
            (record {
              memory = poke (clear_page m.memory phys) (base + 8 * i) (phys + 7);
              frames = s;
            })
            (Grow.shape_with sh base cur i phys)
    Spares-grown cur base i m sh s phys tree lb small gone fresh page fits keeps unused f af used
          no_table =
        let not_fresh : f ≢ phys = λ e. unused (subst (λ x. InUse m.frames x) e used) in
        let not_base : f ≢ base = λ e. absurd (omega (arith, ap sh.level e)) in
        record {
          used = keeps f used;
          no_table = ground arith;
          words = λ j h.
              Grow.grown-elsewhere m.memory sh base cur i phys tree lb small gone fresh page fits f
                j af not_fresh not_base h;
        }

    -- A round that hangs in a new table.
    grow_round :
        (cur base : ℕ) (m : Machine S) (sh : Shape) (s : S) (phys : ℕ)
        → cur < 3
        → IsTree m.memory sh
        → sh.level base ≡ suc (suc cur)
        → present (m.memory (slot base cur)) ≡ false
        → sh.level phys ≡ 0
        → phys % 4096 ≡ 0
        → phys < 2 ^ 52
        → ((f : ℕ) → InUse m.frames f → InUse s f)
        → (InUse m.frames phys → ⊥)
        → Descended
            (record {
              memory = poke (clear_page m.memory phys) (slot base cur) (phys + 7);
              frames = s;
            })
            (Grow.shape_with sh base cur (index vma (suc cur)) phys)
            cur
            phys
            (go cur phys (record {
              memory = poke (clear_page m.memory phys) (slot base cur) (phys + 7);
              frames = s;
            }))
        → Descended m sh (suc cur) base (
            go cur phys (record {
              memory = poke (clear_page m.memory phys) (slot base cur) (phys + 7);
              frames = s;
            }))
    grow_round cur base m sh s phys h tree lb gone fresh page fits keeps unused d =
        let i = index vma (suc cur) in
        let small = index-lt vma (suc cur) in
        let entry =
          Grow.grown_entry m.memory sh base cur i phys tree lb small gone fresh page fits in
        behind m _ sh _ (suc cur) base
          (record {
            tree = Grow.grown-IsTree m.memory sh base cur i phys tree lb small gone fresh page fits;
            levels =
                Grow.grown_level-old m.memory sh base cur i phys tree lb small gone fresh page fits;
            walks = Grow.walk-grown m.memory sh base cur i phys tree lb small gone fresh page fits;
            kept = Grow.kept-grown m.memory sh base cur i phys tree lb small gone fresh page fits;
          })
          (Spares-grown cur base i m sh s phys tree lb small gone fresh page fits keeps unused)
          (above _ _ cur base phys
            (Grow.grown_level-old m.memory sh base cur i phys tree lb small gone fresh page fits
              base (suc cur) lb)
            (entry.1) (entry.0) d)

    -- A frame that is not in use is no table.
    no_level :
        (sh : Shape) (s : S) → Owned sh s → (phys : ℕ) → (InUse s phys → ⊥) → sh.level phys ≡ 0
    no_level sh s owned phys unused = level_cases (sh.level phys) refl
      where
        level_cases : (n : ℕ) → sh.level phys ≡ n → sh.level phys ≡ 0
        level_cases zero e = e
        level_cases (suc n) e = absurd (unused (owned phys n e))

    transport_run :
        (m : Machine S) (sh : Shape) (cur base : ℕ) {run run' : Run (Machine S × Option ℕ)}
        → run ≡ run'
        → Descended m sh cur base run'
        → Descended m sh cur base run
    transport_run m sh cur base e d = subst (Descended m sh cur base) (sym e) d

    pub descend_lem :
        (cur base : ℕ) (m : Machine S) (sh : Shape)
        → cur < 4
        → IsTree m.memory sh
        → sh.level base ≡ suc cur
        → Ready m.frames
        → Owned sh m.frames
        → Descended m sh cur base (go cur base m)
    descend_lem zero base m sh h tree lb ready owned =
        stop m sh zero base m.frames (some base) (unfold descend in refl) tree ready owned
          (λ f u. u) λ leaf e. (cc, cc)
    descend_lem (suc cur) base m sh h tree lb ready owned =
        elim (Bool-cases (present (m.memory (slot base cur)))) [
          | inl there ↦
              let child =
                tree.entries base cur (index vma (suc cur)) lb (index-lt vma (suc cur)) there in
              transport_run m sh (suc cur) base (descend-present cur base m (omega arith) there) (
                above m sh cur base _ lb there refl
                  (descend_lem cur _ m sh (omega arith) tree child.level ready owned))
          | inr gone ↦
              let t = a.take m.frames ready in
              elim (ℕ_discrete t.phys 0) [
                | yes z ↦
                    stop m sh (suc cur) base t.state none
                      (descend-full cur base m t.state (omega arith) gone
                        (t.out ∙ ap (λ p. done (t.state, p)) z))
                      tree t.ready (λ f k lf. t.keeps f (owned f k lf)) t.keeps (λ leaf e. cc)
                | no nz ↦
                    let (not_used, used, page, fits) = t.fresh nz in
                    let fresh : sh.level t.phys ≡ 0 =
                      no_level sh m.frames owned t.phys (λ u. nz (not_used u)) in
                    let i = index vma (suc cur) in
                    let tree' =
                      Grow.grown-IsTree m.memory sh base cur i t.phys tree lb
                        (index-lt vma (suc cur)) gone fresh page fits in
                    let level' =
                      Grow.grown_level-fresh m.memory sh base cur i t.phys tree lb
                        (index-lt vma (suc cur)) gone fresh page fits in
                    transport_run m sh (suc cur) base
                      (descend-grow cur base m t.state t.phys (omega arith) gone t.out nz page)
                      (grow_round cur base m sh t.state t.phys (omega arith) tree lb gone fresh page
                        fits t.keeps (λ u. nz (not_used u))
                        (descend_lem cur t.phys _ _ (omega arith) tree' level' t.ready
                          (Owned-grown m sh base cur i t.state t.phys t.keeps used owned)))
              ]
        ]
