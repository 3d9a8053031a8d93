-- ===== src/Mu/Pmap.antt =====
-- The page tables of sys/hive/arch/amd64/cpu/pmap.c, with sys/hive/inc/mu/pmap.h and
-- sys/hive/inc/arch/amd64/vas.h. The memory is a function from the physical address of a word of
-- eight bytes to its value: the kernel reaches it through PHYS_TO_VIRT, at a fixed distance. The
-- frame allocator is a parameter of the operations. `invlpg` drops what the processor has cached of
-- a page, and is left out: translations here are walks of the tables.
pub mod Extends
pub mod Grow
pub mod Descent
pub mod Entries
pub mod Init
pub mod Leaf
pub mod Map
pub mod Tree
use open_modality.Base.{
  ℕ, zero, suc, ◌+◌, ◌-◌, ◌*◌, ◌/◌, ◌%◌, ◌^◌, bit_and, bit_or, Bool, true, false, not, ◌&&◌, Option,
  none, some,
}
use open_modality.Base.Tests.{◌==◌, ltb, leb, if◌then◌else◌}
use open_modality.Base.Run.{Run, done, ◌>>=◌}
use open_modality.Base.Result.{minus_one, Result, ok, err}
use open_modality.Base.Words.{u16, not64, align_down}
use open_modality.Sdk.Memory.{poke}

abbrev pub pte_addr_mask : ℕ
pte_addr_mask = 0x000FFFFFFFFFF000

-- PTE_P, PTE_RW, PTE_US and PTE_NX.
abbrev pub pte_p : ℕ
pte_p = 2 ^ 0

abbrev pub pte_rw : ℕ
pte_rw = 2 ^ 1

abbrev pub pte_us : ℕ
pte_us = 2 ^ 2

abbrev pub pte_nx : ℕ
pte_nx = 2 ^ 63

abbrev pub cr4_la57 : ℕ
cr4_la57 = 2 ^ 12

-- PROT_READ, PROT_WRITE, PROT_EXEC and PROT_USER of sdk/inc/sys/mman.h.
abbrev pub prot_read : ℕ
prot_read = 0

abbrev pub prot_write : ℕ
prot_write = 2 ^ 0

abbrev pub prot_exec : ℕ
prot_exec = 2 ^ 1

abbrev pub prot_user : ℕ
prot_user = 2 ^ 2

-- ISSET(v, f), as a condition.
abbrev pub isset : ℕ → ℕ → Bool
isset v f = not (bit_and v f == 0)

-- `pmap_level_t`, which the code counts down: the numbers of the enumerators.
abbrev pub Level : Type 0
Level = ℕ

abbrev pub pmap_pml1 : Level
pmap_pml1 = 0

abbrev pub pmap_pml4 : Level
pmap_pml4 = 3

abbrev pub pmap_pml5 : Level
pmap_pml5 = 4

-- `pagesize_t`
pub data PageSize : Type 0 where
  pagesize_4k pagesize_2m pagesize_1g : PageSize

unfoldable pub mem_pstab : PageSize → ℕ
mem_pstab pagesize_4k = 4096
mem_pstab pagesize_2m = 1024 * 1024 * 2
mem_pstab pagesize_1g = 1024 * 1024 * 1024

unfoldable pub is_ps_valid : PageSize → Bool
is_ps_valid pagesize_4k = true
is_ps_valid _ = false

unfoldable pub pmap_toplevel : ℕ → Level
pmap_toplevel cr4 = if isset cr4 cr4_la57 then pmap_pml5 else pmap_pml4

-- The value read from CR3, and -1 where there is no place for it.
unfoldable pub mu_pmap_readvas : ℕ → (res_null : Bool) → Result ℕ
mu_pmap_readvas cr3 true = err minus_one
mu_pmap_readvas cr3 false = ok cr3

-- The value that CR3 has then.
unfoldable pub mu_pmap_writevas : Option ℕ → Result ℕ
mu_pmap_writevas none = err minus_one
mu_pmap_writevas (some cr3) = ok cr3

-- `prot` is an `int` that is passed as a `uint16_t`.
unfoldable pub prot_to_pte : ℕ → ℕ
prot_to_pte prot =
    let flags = bit_or pte_p pte_nx in
    let flags' = if isset (u16 prot) prot_write then bit_or flags pte_rw else flags in
    let flags'' = if isset (u16 prot) prot_exec then bit_and flags' (not64 pte_nx) else flags' in
    if isset (u16 prot) prot_user then bit_or flags'' pte_us else flags''

unfoldable pub vma_level_index : ℕ → Level → ℕ
vma_level_index vma zero = bit_and (vma / 2 ^ 12) 0x1FF
vma_level_index vma (suc zero) = bit_and (vma / 2 ^ 21) 0x1FF
vma_level_index vma (suc (suc zero)) = bit_and (vma / 2 ^ 30) 0x1FF
vma_level_index vma (suc (suc (suc zero))) = bit_and (vma / 2 ^ 39) 0x1FF
vma_level_index vma (suc (suc (suc (suc zero)))) = bit_and (vma / 2 ^ 47) 0x3FF
vma_level_index vma (suc (suc (suc (suc (suc n))))) = 2 ^ 64 - 1

-- `memset(PHYS_TO_VIRT(phys), 0, PAGESIZE)`, on words.
abbrev pub clear_page : (ℕ → ℕ) → ℕ → ℕ → ℕ
clear_page memory phys a = if leb phys a && ltb a (phys + 4096) then 0 else memory a

-- The memory by physical address, and the state of the frame allocator. That state includes a bitmap,
-- which the program keeps in the same memory: the two are apart only while the frames that hold the
-- bitmap are in use, as the theorems ask that rest on it.
pub record Machine {ℓ} (S : Type ℓ) : Type ℓ where
  pub memory : ℕ → ℕ
  pub frames : S

-- The parameter stands for `mm_pmem_alloc(1)`.
module _ {ℓ} {S : Type ℓ} (pmem_alloc : S → Run (S × ℕ)) where
  -- The loop of `vma_level_base`, from the structure at `cur_base`; a null result is `none`.
  unfoldable pub descend : ℕ → Level → Bool → Level → ℕ → Machine S → Run (Machine S × Option ℕ)
  descend vma lvl alloc zero cur_base m = done (m, some cur_base)
  descend vma lvl alloc (suc cur_lvl) cur_base m = elim (ltb lvl (suc cur_lvl)) [
    | false ↦ done (m, some cur_base)
    | true ↦
        let slot = cur_base + 8 * vma_level_index vma (suc cur_lvl) in
        let entry = m.memory slot in
        elim (isset entry pte_p) [
          | true ↦ descend vma lvl alloc cur_lvl (bit_and entry pte_addr_mask) m
          | false ↦ elim alloc [
            | false ↦ done (m, none)
            | true ↦ do
              (frames, phys) ← pmem_alloc m.frames
              elim (phys == 0) [
                | true ↦ done (record m { frames = frames }, none)
                | false ↦
                    let table = bit_or phys (bit_or (bit_or pte_p pte_rw) pte_us) in
                    descend vma lvl alloc cur_lvl phys (record {
                      memory = poke (clear_page m.memory phys) slot table;
                      frames = frames;
                    })
              ]
          ]
        ]
  ]

  -- `vas` is the CR3 of the address space, or null.
  unfoldable pub vma_level_base :
      ℕ → Option ℕ → ℕ → Level → Bool → Machine S → Run (Machine S × Option ℕ)
  vma_level_base cr4 none vma lvl alloc m = done (m, none)
  vma_level_base cr4 (some cr3) vma lvl alloc m =
      descend vma lvl alloc (pmap_toplevel cr4) (bit_and cr3 pte_addr_mask) m

  -- The loads and stores of `mu_pmap_map`, behind its checks.
  unfoldable pub map_page : ℕ → Option ℕ → ℕ → ℕ → ℕ → Machine S → Run (Machine S × Result ℕ)
  map_page cr4 vas vma pma prot m = do
    (m', pgtbl) ← vma_level_base cr4 vas vma pmap_pml1 true m
    elim pgtbl [
      | none ↦ done (m', err minus_one)
      | some base ↦
          let slot = base + 8 * vma_level_index vma pmap_pml1 in
          let entry = bit_or pma (prot_to_pte prot) in
          done (record m' { memory = poke m'.memory slot entry }, ok 0)
    ]

  unfoldable pub mu_pmap_map :
      ℕ → Option ℕ → ℕ → ℕ → ℕ → PageSize → Machine S → Run (Machine S × Result ℕ)
  mu_pmap_map cr4 none vma pma prot ps m = done (m, err minus_one)
  mu_pmap_map cr4 (some cr3) vma pma prot ps m = elim (is_ps_valid ps) [
    | false ↦ done (m, err minus_one)
    | true ↦ map_page cr4 (some cr3) (align_down vma (mem_pstab ps)) pma prot m
  ]

-- The loop of `mu_pmap_init` from entry `i` on.
unfoldable pub clear_entries : ℕ → ℕ → ℕ → (ℕ → ℕ) → ℕ → ℕ
clear_entries zero i toplevel memory = memory
clear_entries (suc rounds) i toplevel memory =
    clear_entries rounds (i + 1) toplevel (poke memory (toplevel + 8 * i) 0)

-- The memory after the lower half has been torn down, and CR3, which is written back.
unfoldable pub mu_pmap_init : ℕ → (ℕ → ℕ) → (ℕ → ℕ) × Result ℕ
mu_pmap_init cr3 memory = elim (mu_pmap_readvas cr3 false) [
  | err e ↦ (memory, err e)
  | ok vas ↦ (clear_entries 256 0 (bit_and vas pte_addr_mask) memory, mu_pmap_writevas (some vas))
]
