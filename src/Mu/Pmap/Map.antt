-- ===== src/Mu/Pmap/Map.antt =====
-- `mu_pmap_map` in an address space whose tables are a tree of four levels.
use mathlib.Core.Path.{subst, fun_ext}
use open_modality.Base.{
  ℕ, zero, suc, ◌+◌, ◌*◌, ◌/◌, ◌%◌, ◌^◌, ◌<◌, ◌≤◌, ◌≡◌, ◌≢◌, ◌∙◌, ◌⊎◌, refl, sym, ap, bit_or, true,
  false, Option, none, some, inl, inr, arith,
}
use open_modality.Base.Tests.{Option-cases}
use open_modality.Base.Run.{Run, done}
use open_modality.Base.Result.{minus_one, Result, ok, err}
use open_modality.Base.Align.{align_down_page}
use open_modality.Sdk.Memory.{poke}
use open_modality.Mu.Pmap.{
  cr4_la57, isset, pmap_pml1, pmap_toplevel, prot_to_pte, pagesize_4k, is_ps_valid, mem_pstab,
  Machine, descend, vma_level_base, map_page, mu_pmap_map,
}
use open_modality.Mu.Pmap.Descent
use open_modality.Mu.Pmap.Entries.{
  bit_and-target, index, index-lt, vma_level_index-index, prot_to_pte-Grants,
}
use open_modality.Mm.Allocator.{IsAllocator}
use open_modality.Mu.Pmap.Leaf
use open_modality.Mu.Pmap.Extends.{Spares}
use open_modality.Mu.Pmap.Tree.{present, target, walk, Shape, IsTree, leaf_of_unique}

-- The page of an address: the 36 bits of it that four levels translate.
abbrev pub page_of : ℕ → ℕ
page_of vma = vma / 4096 % 2 ^ 36

-- Places in all four tables make up the page.
page_of-index :
    (v w : ℕ)
    → index v 0 ≡ index w 0
    → index v 1 ≡ index w 1
    → index v 2 ≡ index w 2
    → index v 3 ≡ index w 3
    → page_of v ≡ page_of w
page_of-index v w e0 e1 e2 e3 = omega arith

-- The offset in the page has no part in it.
index-page : (v w n : ℕ) → v / 4096 ≡ w / 4096 → index v n ≡ index w n
index-page v w zero e = ap (λ p. p % 512) e
index-page v w (suc n) e = index-page (v / 512) (w / 512) n (omega arith)

module _ {S : Type 0} (alloc : S → Run (S × ℕ)) {Ready : S → Type 0} {InUse : S → ℕ → Type 0}
    (a : IsAllocator Ready InUse alloc) where
  -- The address space that `cr3` names: its tables are a tree of four levels, all of them in use.
  pub record IsSpace (cr3 : ℕ) (sh : Shape) (m : Machine S) : Type 0 where
    pub tree : IsTree m.memory sh
    pub root : sh.level (target cr3) ≡ 4
    pub ready : Ready m.frames
    pub owned : (f k : ℕ) → sh.level f ≡ suc k → InUse m.frames f

  -- How an address is translated.
  abbrev pub translate : ℕ → Machine S → ℕ → Option ℕ
  translate cr3 m v = walk m.memory (index v) 3 (target cr3)

  -- What a call of `mu_pmap_map` does: on success the page has the entry; on failure, and for every
  -- other page, the translation is as before. The address space stays well-formed.
  pub record Mapped (cr3 vma entry : ℕ) (m : Machine S) (before : Shape)
      (run : Run (Machine S × Result ℕ)) : Type 0 where
    pub machine : Machine S
    pub code : Result ℕ
    pub out : run ≡ done (machine, code)
    pub shape : Shape
    pub space : IsSpace cr3 shape machine
    pub codes : (code ≡ ok 0) ⊎ (code ≡ err minus_one)
    pub mapped :
        code ≡ ok 0 → (v : ℕ) → v / 4096 ≡ vma / 4096 → translate cr3 machine v ≡ some entry
    pub others :
        (v : ℕ)
        → (code ≡ ok 0 → page_of v ≢ page_of vma)
        → translate cr3 machine v ≡ translate cr3 m v
    pub spares : Spares InUse m before machine shape

  -- The frames that hold a byte of a range are in use and no tables.
  abbrev pub IsReserved : ℕ → ℕ → Shape → S → Type 0
  IsReserved own bytes sh s =
      (f : ℕ) → f % 4096 ≡ 0 → own < f + 4096 → f < own + bytes → InUse s f × (sh.level f ≡ 0)

  module _ (own bytes : ℕ) (m m' : Machine S) (sh sh' : Shape) (spares : Spares InUse m sh m' sh')
      (reserved : IsReserved own bytes sh m.frames) where
    pub IsReserved-Spares : IsReserved own bytes sh' m'.frames
    IsReserved-Spares f page low high =
        let (used, no_table) = reserved f page low high in
        let kept = spares f page used no_table in (kept.used, kept.no_table)

    pub memory-Spares : (b : ℕ) → own ≤ b → b < own + bytes → m'.memory b ≡ m.memory b
    memory-Spares b low high =
        let f = b / 4096 * 4096 in
        let page : f % 4096 ≡ 0 = omega arith in
        let (used, no_table) = reserved f page (omega arith) (omega arith) in
        let kept = spares f page used no_table in
        let whole : f + b % 4096 ≡ b = omega arith in
        ap m'.memory (sym whole) ∙ kept.words (b % 4096) (omega arith) ∙ ap m.memory whole

  module _ (cr4 cr3 vma pma prot : ℕ) (m : Machine S) (sh : Shape)
      (four : isset cr4 cr4_la57 ≡ false) (bounded : vma < 2 ^ 64) (space : IsSpace cr3 sh m) where
    abbrev start : ℕ
    start = vma / 4096 * 4096

    abbrev entry : ℕ
    entry = bit_or pma (prot_to_pte prot)

    abbrev call : Run (Machine S × Result ℕ)
    call = mu_pmap_map alloc cr4 (some cr3) vma pma prot pagesize_4k m

    abbrev descent : Run (Machine S × Option ℕ)
    descent = descend alloc start pmap_pml1 true 3 (target cr3) m

    base-descent : vma_level_base alloc cr4 (some cr3) start pmap_pml1 true m ≡ descent
    unfolding vma_level_base pmap_toplevel
    base-descent = rw (four, bit_and-target cr3) refl

    call-full : (m' : Machine S) → descent ≡ done (m', none) → call ≡ done (m', err minus_one)
    unfolding mu_pmap_map map_page is_ps_valid mem_pstab
    call-full m' e = rw (align_down_page vma bounded, base-descent, e) refl

    call-leaf :
        (m' : Machine S) (leaf : ℕ)
        → descent ≡ done (m', some leaf)
        → call ≡ done (record m' { memory = poke m'.memory (leaf + 8 * index start 0) entry }, ok 0)
    unfolding mu_pmap_map map_page is_ps_valid mem_pstab
    call-leaf m' leaf e =
        rw
          (
            align_down_page vma bounded,
            base-descent,
            e,
            align_down_page vma bounded,
            vma_level_index-index start 0 (omega arith),
          )
          refl

    abbrev Walked : Type 0
    Walked = Descent.Descended alloc start a m sh 3 (target cr3) descent

    failed : (d : Walked) → d.result ≡ none → Mapped cr3 vma entry m sh call
    failed d e = record {
      machine = d.machine;
      code = err minus_one;
      out = call-full d.machine (d.out ∙ ap (λ r. done (d.machine, r)) e);
      shape = d.shape;
      space = record {
        tree = d.extends.tree;
        root = d.extends.levels (target cr3) 3 space.root;
        ready = d.ready;
        owned = d.owned;
      };
      codes = inr refl;
      mapped = λ c. cc;
      spares = d.spares;
      others = λ v h. d.extends.walks (index v) (index-lt v) 3 (target cr3) space.root;
    }

    module _ (page : pma % 4096 ≡ 0) (fits : pma < 2 ^ 52) where
      there : present entry ≡ true
      there = (prot_to_pte-Grants pma prot page fits).there

      succeeded : (d : Walked) (leaf : ℕ) → d.result ≡ some leaf → Mapped cr3 vma entry m sh call
      succeeded d leaf e =
          let (level, way) = d.found leaf e in
          let tree = d.extends.tree in
          let small = index-lt start 0 in
          let top = d.extends.levels (target cr3) 3 space.root in
          record {
            machine = record d.machine {
              memory = poke d.machine.memory (leaf + 8 * index start 0) entry;
            };
            code = ok 0;
            out = call-leaf d.machine leaf (d.out ∙ ap (λ r. done (d.machine, r)) e);
            shape = d.shape;
            space = record {
              tree =
                  Leaf.written-IsTree d.machine.memory d.shape leaf (index start 0) entry tree level
                    small;
              root = top;
              ready = d.ready;
              owned = d.owned;
            };
            codes = inl refl;
            mapped = λ c v same.
                let ways : index v ≡ index start =
                  fun_ext λ n. index-page v start n (same ∙ omega arith) in
                subst
                  (λ w.
                    walk (poke d.machine.memory (leaf + 8 * index start 0) entry) w 3 (target cr3)
                    ≡ some entry)
                  (sym ways)
                  (Leaf.walk-written_self d.machine.memory d.shape leaf (index start 0) entry tree
                    level small (index start) (index-lt start) 3 (target cr3) top way refl there);
            spares = λ f page_f used no_table.
                let kept = d.spares f page_f used no_table in
                let other : f ≢ leaf = λ same.
                  let level_f = kept.no_table in absurd (omega (arith, ap d.shape.level same)) in
                let aligned = tree.aligned leaf 0 level in
                record {
                  used = kept.used;
                  no_table = kept.no_table;
                  words = λ j h.
                      let not_slot : leaf + 8 * index start 0 ≢ f + j =
                        λ e. absurd (other (omega arith)) in
                      Leaf.written-other d.machine.memory d.shape leaf (index start 0) entry tree
                        level small (f + j) not_slot
                      ∙ kept.words j h;
                };
            others = λ v differs.
                Leaf.walk-written_other d.machine.memory d.shape leaf (index start 0) entry tree
                  level small (index v) (index-lt v) 3 (target cr3) top
                  (λ other_way last.
                    let (root_same, above) =
                      leaf_of_unique d.machine.memory d.shape (index v) (index start) tree
                        (index-lt v) (index-lt start) 3 (target cr3) (target cr3) top top other_way
                        way in
                    differs refl (
                      page_of-index v start last (above 0 (omega arith)) (above 1 (omega arith))
                        (above 2 (omega arith))
                      ∙ omega arith))
                ∙ d.extends.walks (index v) (index-lt v) 3 (target cr3) space.root;
          }

      -- The call, on both outcomes of the descent.
      pub mu_pmap_map-Mapped : Mapped cr3 vma entry m sh call
      mu_pmap_map-Mapped =
          let d =
            Descent.descend_lem alloc start a 3 (target cr3) m sh (omega arith) space.tree
              space.root space.ready space.owned in
          elim (Option-cases d.result) [ inl e ↦ failed d e | inr (leaf, e) ↦ succeeded d leaf e ]

      -- In an address space of four levels, while the bytes in which the allocator keeps its bitmap lie
      -- in frames that are in use and no tables, `mu_pmap_map` of an ordinary page always returns, 0 or
      -- -1, and leaves the address space well-formed: its tables a tree without large pages, each of
      -- them in use. On 0 every address of the page is translated by the new entry; every other page of
      -- the lower 48 bits, and on -1 this one too, has the translation it had. The bytes of the bitmap
      -- are not written, and their frames stay in use and no tables.
      pub mu_pmap_map_lem :
          (own bytes : ℕ)
          → IsReserved own bytes sh m.frames
          → (r : Mapped cr3 vma entry m sh call) × IsReserved own bytes r.shape r.machine.frames
            × ((b : ℕ) → own ≤ b → b < own + bytes → r.machine.memory b ≡ m.memory b)
      mu_pmap_map_lem own bytes reserved =
          let r = mu_pmap_map-Mapped in
          (
            r,
            IsReserved-Spares own bytes m r.machine sh r.shape r.spares reserved,
            memory-Spares own bytes m r.machine sh r.shape r.spares reserved,
          )
