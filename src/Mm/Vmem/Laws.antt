-- ===== src/Mm/Vmem/Laws.antt =====
-- A region is mapped page by page.
use open_modality.Base.{
  ℕ, zero, suc, ◌+◌, ◌*◌, ◌/◌, ◌%◌, ◌^◌, ◌<◌, ◌≤◌, ◌≡◌, ◌≢◌, ◌∙◌, ◌⊎◌, refl, sym, ap, bit_or, false,
  some, inl, inr, arith,
}
use mathlib.Core.Path.{subst}
use open_modality.Base.Run.{Run, done}
use open_modality.Base.Result.{minus_one, Result, ok, err}
use open_modality.Base.Words.{u64}
use open_modality.Base.Align.{align_down_page, align_up_page}
use open_modality.Mm.Allocator.{IsAllocator}
use open_modality.Mm.Vmem.{VmemRegion, map_pages, vmem_map_region}
use open_modality.Mu.Pmap.{cr4_la57, isset, prot_to_pte, pagesize_4k, Machine, mu_pmap_map}
use open_modality.Mu.Pmap.Extends.{Spares, Spares-trans}
use open_modality.Mu.Pmap.Map.{
  IsReserved, IsReserved-Spares, memory-Spares, page_of, IsSpace, Mapped, translate,
  mu_pmap_map-Mapped,
}
use open_modality.Mu.Pmap.Tree.{Shape}

module _ {S : Type 0} (alloc : S → Run (S × ℕ)) {Ready : S → Type 0} {InUse : S → ℕ → Type 0}
    (a : IsAllocator Ready InUse alloc) (cr4 cr3 prot : ℕ) where
  -- What mapping the `n` pages from `v` on to the frames from `p` on does: on success each page has
  -- its entry; every page outside the region, of the lower 48 bits, has the translation it had.
  pub record RegionMapped (n v p : ℕ) (m : Machine S) (before : Shape)
      (run : Run (Machine S × Result ℕ)) : Type 0 where
    pub machine : Machine S
    pub code : Result ℕ
    pub out : run ≡ done (machine, code)
    pub shape : Shape
    pub space : IsSpace alloc a cr3 shape machine
    pub codes : (code ≡ ok 0) ⊎ (code ≡ err minus_one)
    pub spares : Spares InUse m before machine shape
    pub mapped :
        code ≡ ok 0
        → (k w : ℕ) → k < n
        → w / 4096 ≡ v / 4096 + k
        → translate alloc a cr3 machine w ≡ some (bit_or (p + k * 4096) (prot_to_pte prot))
    pub others :
        (w : ℕ)
        → ((k : ℕ) → k < n → page_of w ≢ (v / 4096 + k) % 2 ^ 36)
        → translate alloc a cr3 machine w ≡ translate alloc a cr3 m w

  nothing_left :
      (v p : ℕ) (m : Machine S) (sh : Shape)
      → IsSpace alloc a cr3 sh m
      → RegionMapped 0 v p m sh (done (m, ok 0))
  nothing_left v p m sh space = record {
    machine = m;
    code = ok 0;
    out = refl;
    shape = sh;
    space = space;
    codes = inl refl;
    spares =
        λ f page used no_table. record { used = used; no_table = no_table; words = λ j h. refl };
    mapped = λ c k w h. absurd (omega arith);
    others = λ w h. refl;
  }

  failed_here :
      (n v p entry : ℕ) (m : Machine S) (sh : Shape) {run : Run (Machine S × Result ℕ)}
      (first : Mapped alloc a cr3 v entry m sh run)
      → first.code ≡ err minus_one
      → RegionMapped (suc n) v p m sh (done (first.machine, err minus_one))
  failed_here n v p entry m sh first failed = record {
    machine = first.machine;
    code = err minus_one;
    out = refl;
    shape = first.shape;
    space = first.space;
    codes = inr refl;
    spares = first.spares;
    mapped = λ c. cc;
    others = λ w h. first.others w (λ c. cc);
  }

  -- The first page, and then the others.
  and_then :
      (n v p : ℕ) (m : Machine S) (sh : Shape) {run rest : Run (Machine S × Result ℕ)}
      → n < 2 ^ 36
      → (first : Mapped alloc a cr3 v (bit_or p (prot_to_pte prot)) m sh run) → first.code ≡ ok 0
      → RegionMapped n (v + 4096) (p + 4096) first.machine first.shape rest
      → RegionMapped (suc n) v p m sh rest
  and_then n v p m sh few first worked r = record {
    machine = r.machine;
    code = r.code;
    out = r.out;
    shape = r.shape;
    space = r.space;
    codes = r.codes;
    spares =
        Spares-trans InUse m first.machine r.machine sh first.shape r.shape first.spares r.spares;
    mapped = λ c k w h page. pages c k w h page;
    others = λ w outside.
        r.others w (λ k h e. outside (suc k) (omega arith) (omega arith))
        ∙ first.others w (λ c e. outside 0 (omega arith) (omega arith));
  }
    where
      pages :
          r.code ≡ ok 0
          → (k w : ℕ) → k < suc n
          → w / 4096 ≡ v / 4096 + k
          → translate alloc a cr3 r.machine w ≡ some (bit_or (p + k * 4096) (prot_to_pte prot))
      pages c zero w h page =
          let plain : p + 0 * 4096 ≡ p = omega arith in
          r.others w (λ k below e. absurd (omega arith))
          ∙ first.mapped worked w (omega arith)
          ∙ ap (λ f. some (bit_or f (prot_to_pte prot))) (sym plain)
      pages c (suc k) w h page =
          let next : p + 4096 + k * 4096 ≡ p + suc k * 4096 = omega arith in
          r.mapped c k w (omega arith) (omega arith)
          ∙ ap (λ f. some (bit_or f (prot_to_pte prot))) next

  -- A round of the loop, on each outcome of its call.
  module _ (fuel vbase pbase length i : ℕ) (m : Machine S) where
    abbrev loop : ℕ → ℕ → Machine S → Run (Machine S × Result ℕ)
    loop f j m' = map_pages alloc f cr4 (some cr3) vbase pbase length prot j m'

    loop-end : length ≤ i → loop (suc fuel) i m ≡ done (m, ok 0)
    unfolding map_pages
    loop-end h = ground arith

    loop-failed :
        (m' : Machine S) (v p : ℕ)
        → i < length
        → u64 (vbase + i) ≡ v
        → u64 (pbase + i) ≡ p
        → mu_pmap_map alloc cr4 (some cr3) v p prot pagesize_4k m ≡ done (m', err minus_one)
        → loop (suc fuel) i m ≡ done (m', err minus_one)
    unfolding map_pages
    loop-failed m' v p h ev ep out = ground arith

    loop-next :
        (m' : Machine S) (v p : ℕ)
        → i < length
        → u64 (vbase + i) ≡ v
        → u64 (pbase + i) ≡ p
        → mu_pmap_map alloc cr4 (some cr3) v p prot pagesize_4k m ≡ done (m', ok 0)
        → loop (suc fuel) i m ≡ loop fuel (i + 4096) m'
    unfolding map_pages
    loop-next m' v p h ev ep out = ground arith

  module _ (four : isset cr4 cr4_la57 ≡ false) where
    map_pages_lem :
        (fuel n vbase pbase length i v p : ℕ) (m : Machine S) (sh : Shape)
        → n < fuel
        → vbase + i ≡ v
        → pbase + i ≡ p
        → length ≡ i + n * 4096
        → p % 4096 ≡ 0
        → v + n * 4096 < 2 ^ 64
        → p + n * 4096 ≤ 2 ^ 52
        → n ≤ 2 ^ 36
        → IsSpace alloc a cr3 sh m
        → RegionMapped n v p m sh (map_pages alloc fuel cr4 (some cr3) vbase pbase length prot i m)
    map_pages_lem zero n vbase pbase length i v p m sh enough ev ep el page fits_v fits_p few
          space =
        absurd (omega arith)
    map_pages_lem (suc fuel) zero vbase pbase length i v p m sh enough ev ep el page fits_v fits_p
          few space =
        subst (RegionMapped 0 v p m sh) (sym (loop-end fuel vbase pbase length i m (omega arith)))
          (nothing_left v p m sh space)
    map_pages_lem (suc fuel) (suc n) vbase pbase length i v p m sh enough ev ep el page fits_v
          fits_p few space =
        let first =
          mu_pmap_map-Mapped alloc a cr4 cr3 v p prot m sh four (omega arith) space page
            (omega arith) in
        let wrap_v : u64 (vbase + i) ≡ v = omega arith in
        let wrap_p : u64 (pbase + i) ≡ p = omega arith in
        elim first.codes [
          | inl worked ↦
              subst (RegionMapped (suc n) v p m sh)
                (sym (
                  loop-next fuel vbase pbase length i m first.machine v p (omega arith) wrap_v
                    wrap_p (first.out ∙ ap (λ c. done (first.machine, c)) worked)))
                (and_then n v p m sh (omega arith) first worked (
                  map_pages_lem fuel n vbase pbase length (i + 4096) (v + 4096) (p + 4096)
                    first.machine first.shape (omega arith) (omega arith) (omega arith)
                    (omega arith) (omega arith) (omega arith) (omega arith) (omega arith)
                    first.space))
          | inr failed ↦
              subst (RegionMapped (suc n) v p m sh)
                (sym (
                  loop-failed fuel vbase pbase length i m first.machine v p (omega arith) wrap_v
                    wrap_p (first.out ∙ ap (λ c. done (first.machine, c)) failed)))
                (failed_here n v p _ m sh first failed)
        ]

    -- The pages that a length takes.
    abbrev pages_of : ℕ → ℕ
    pages_of length = (length + 4095) / 4096

    -- The whole region.
    pub vmem_map_region-RegionMapped :
        (fuel : ℕ) (region : VmemRegion) (m : Machine S) (sh : Shape)
        → pages_of region.length < fuel
        → region.vma + region.length + 4096 < 2 ^ 64
        → region.pma + region.length + 4096 < 2 ^ 52
        → pages_of region.length ≤ 2 ^ 36
        → IsSpace alloc a cr3 sh m
        → RegionMapped
            (pages_of region.length)
            (region.vma / 4096 * 4096)
            (region.pma / 4096 * 4096)
            m
            sh
            (vmem_map_region alloc fuel cr4 (some cr3) (some region) prot m)
    unfolding vmem_map_region
    vmem_map_region-RegionMapped fuel region m sh enough fits_v fits_p few space =
        rw
          (
            align_down_page region.vma (omega arith),
            align_down_page region.pma (omega arith),
            align_up_page region.length,
          )
          (map_pages_lem fuel (pages_of region.length) _ _ _ 0 (region.vma / 4096 * 4096)
            (region.pma / 4096 * 4096) m sh enough (omega arith) (omega arith) (omega arith)
            (omega arith) (omega arith) (omega arith) few space)

    -- In an address space of four levels, while the bytes in which the allocator keeps its bitmap lie in
    -- frames that are in use and no tables, a region below the limits of virtual and of physical
    -- addresses is mapped with one round more than it has pages: the call returns 0 or -1 and leaves
    -- the address space well-formed. On 0, each page from the one of `region.vma` on is translated by
    -- an entry for the frame as far behind the one of `region.pma`; whatever is returned, every page
    -- outside the region has the translation it had. The bytes of the bitmap are not written, and their
    -- frames stay in use and no tables.
    pub vmem_map_region_lem :
        (fuel : ℕ) (region : VmemRegion) (m : Machine S) (sh : Shape) (own bytes : ℕ)
        → pages_of region.length < fuel
        → region.vma + region.length + 4096 < 2 ^ 64
        → region.pma + region.length + 4096 < 2 ^ 52
        → pages_of region.length ≤ 2 ^ 36
        → IsSpace alloc a cr3 sh m
        → IsReserved alloc a own bytes sh m.frames
        → (r : RegionMapped
            (pages_of region.length)
            (region.vma / 4096 * 4096)
            (region.pma / 4096 * 4096)
            m
            sh
            (vmem_map_region alloc fuel cr4 (some cr3) (some region) prot m))
          × IsReserved alloc a own bytes r.shape r.machine.frames
          × ((b : ℕ) → own ≤ b → b < own + bytes → r.machine.memory b ≡ m.memory b)
    vmem_map_region_lem fuel region m sh own bytes enough fits_v fits_p few space reserved =
        let r = vmem_map_region-RegionMapped fuel region m sh enough fits_v fits_p few space in
        (
          r,
          IsReserved-Spares alloc a own bytes m r.machine sh r.shape r.spares reserved,
          memory-Spares alloc a own bytes m r.machine sh r.shape r.spares reserved,
        )
