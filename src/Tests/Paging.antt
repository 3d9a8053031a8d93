-- ===== src/Tests/Paging.antt =====
-- An empty address space whose top table is frame 2, over a frame allocator of eight frames.
use mathlib.Core.Path.{subst}
use native.Mathlib.Decide.{ℕ_discrete}
use open_modality.Base.{
  ℕ, zero, suc, ◌*◌, ◌/◌, ◌%◌, ◌^◌, ◌≤◌, ◌≡◌, refl, bit_or, true, none, some, [], ◌∷◌, arith, ◌+◌,
  ◌<◌, sym,
}
use open_modality.Base.Tests.{◌==◌, if◌then◌else◌}
use open_modality.Base.Words.{u16}
use open_modality.Base.Result.{ok}
use open_modality.Mm.Bitmap.{byte_test}
use open_modality.Mm.Bitmap.Bytes.{bit_at, IsBytes}
use open_modality.Mm.Pmem.{State}
use open_modality.Mm.Pmem.Allocator.{IsOneByOne, alloc_one, mm_pmem_alloc-IsAllocator}
use open_modality.Mm.Vmem.{vmem_map_region}
use open_modality.Mm.Vmem.Laws.{RegionMapped, vmem_map_region_lem}
use open_modality.Mu.Pmap.{
  prot_write, prot_exec, prot_user, isset, prot_to_pte, pmap_pml5, vma_level_index, pagesize_4k,
  Machine, mu_pmap_map, mu_pmap_init,
}
use open_modality.Mu.Pmap.Entries.{index, Grants, prot_to_pte-Grants}
use open_modality.Mu.Pmap.Init.{mu_pmap_init_lem, vma_level_index-pml5}
use open_modality.Mu.Pmap.Map.{IsSpace, IsReserved, Mapped, mu_pmap_map_lem}
use open_modality.Mu.Pmap.Tree.{target, walk, Shape, IsTree}

abbrev pub eight_frames : State
eight_frames = record {
  usable_top = 8 * 4096;
  mem_usable = 8 * 4096;
  bitmap_size = 1;
  bitmap_base = some 4096;
  bitmap = 7 ∷ [];
  last_bit = 0;
  bitmap_lock = 0;
  irq = true;
}

abbrev pub empty_space : Machine State
empty_space = record { memory = λ a. 0; frames = eight_frames }

abbrev pub top_only : Shape
top_only = record { level = λ f. if f == 8192 then 4 else 0; parent = λ f. 0; place = λ f. 0 }

one_byte-IsBytes : IsBytes (7 ∷ [])
one_byte-IsBytes zero = omega arith
one_byte-IsBytes (suc i) = omega arith

eight_frames-IsOneByOne : IsOneByOne eight_frames
unfolding byte_test
eight_frames-IsOneByOne = record {
  ready = record {
    top = omega arith;
    fits = omega arith;
    bytes = one_byte-IsBytes;
    unlocked = refl;
  };
  zero_used = refl;
  search = refl;
  physical = omega arith;
}

top_only-IsTree : IsTree (λ a. 0) top_only
top_only-IsTree = record {
  aligned = λ f n h. ground arith;
  entries = λ f n i h small there. cc;
  tables = λ f n i h small there. refl;
}

owned_top : (f k : ℕ) → top_only.level f ≡ suc k → bit_at (7 ∷ []) (f / 4096) ≡ true
unfolding byte_test
owned_top f k h = elim (ℕ_discrete f 8192) [ yes e ↦ rw e refl | no ne ↦ absurd (ground arith) ]

pub empty_space-IsSpace : IsSpace alloc_one mm_pmem_alloc-IsAllocator 8192 top_only empty_space
empty_space-IsSpace = record {
  tree = top_only-IsTree;
  root = refl;
  ready = eight_frames-IsOneByOne;
  owned = owned_top;
}

-- The bitmap is in frame 1.
pub bitmap-IsReserved : IsReserved alloc_one mm_pmem_alloc-IsAllocator 4096 1 top_only eight_frames
unfolding byte_test
bitmap-IsReserved f page low high =
    let here : f ≡ 4096 = omega arith in
    subst (λ g. (bit_at (7 ∷ []) (g / 4096) ≡ true) × (top_only.level g ≡ 0)) (sym here)
      (refl, refl)

mu_pmap_map_lem_example :
    (r : Mapped alloc_one mm_pmem_alloc-IsAllocator 8192 0x400123
      (bit_or 0x5000 (prot_to_pte 5))
      empty_space
      top_only
      (mu_pmap_map alloc_one 0 (some 8192) 0x400123 0x5000 5 pagesize_4k empty_space))
    × IsReserved alloc_one mm_pmem_alloc-IsAllocator 4096 1 r.shape r.machine.frames
    × ((b : ℕ) → 4096 ≤ b → b < 4096 + 1 → r.machine.memory b ≡ empty_space.memory b)
mu_pmap_map_lem_example =
    mu_pmap_map_lem alloc_one mm_pmem_alloc-IsAllocator 0 8192 0x400123 0x5000 5 empty_space
      top_only refl (omega arith) empty_space-IsSpace refl (omega arith) 4096 1 bitmap-IsReserved

vmem_map_region_lem_example :
    (r : RegionMapped alloc_one mm_pmem_alloc-IsAllocator 0 8192 5 2
      (0x400123 / 4096 * 4096)
      (0x5000 / 4096 * 4096)
      empty_space
      top_only
      (vmem_map_region alloc_one 3 0
        (some 8192)
        (some (record { vma = 0x400123; pma = 0x5000; length = 5000 }))
        5
        empty_space))
    × IsReserved alloc_one mm_pmem_alloc-IsAllocator 4096 1 r.shape r.machine.frames
    × ((b : ℕ) → 4096 ≤ b → b < 4096 + 1 → r.machine.memory b ≡ empty_space.memory b)
vmem_map_region_lem_example =
    vmem_map_region_lem alloc_one mm_pmem_alloc-IsAllocator 0 8192 5 refl 3
      (record { vma = 0x400123; pma = 0x5000; length = 5000 }) empty_space top_only 4096 1
      (omega arith) (omega arith) (omega arith) (omega arith) empty_space-IsSpace bitmap-IsReserved

-- A page that a user may write, and nobody execute.
prot_to_pte-Grants_example :
    Grants 0x5000
      (isset (u16 5) prot_write)
      (isset (u16 5) prot_exec)
      (isset (u16 5) prot_user)
      (bit_or 0x5000 (prot_to_pte 5))
prot_to_pte-Grants_example = prot_to_pte-Grants 0x5000 5 refl (omega arith)

mu_pmap_init_lem_example :
    ((mu_pmap_init 8192 (λ a. 0)).1 ≡ ok 8192)
    × (walk (mu_pmap_init 8192 (λ a. 0)).0 (index 0x400123) 3 (target 8192) ≡ (
        if 0x400123 / 2 ^ 47 % 2 == 0
        then none
        else walk (λ a. 0) (index 0x400123) 3 (target 8192)))
mu_pmap_init_lem_example = mu_pmap_init_lem 8192 (λ a. 0) top_only 0x400123 top_only-IsTree refl

vma_level_index-pml5_example :
    (512 ≤ vma_level_index (2 ^ 56) pmap_pml5 → 2 ^ 56 / 2 ^ 56 % 2 ≡ 1)
    × (2 ^ 56 / 2 ^ 56 % 2 ≡ 1 → 512 ≤ vma_level_index (2 ^ 56) pmap_pml5)
vma_level_index-pml5_example = vma_level_index-pml5 (2 ^ 56)
