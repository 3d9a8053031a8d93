-- ===== src/Mm/Vmem.antt =====
-- Regions of virtual memory: sys/hive/mm/vmem.c and sys/hive/inc/mm/vmem.h. The loop has fuel; one
-- round more than there are pages is enough.
pub mod Laws
use open_modality.Base.{ℕ, zero, suc, ◌+◌, ◌%◌, ◌^◌, true, false, Option, none, some}
use open_modality.Base.Tests.{ltb}
use open_modality.Base.Run.{Run, done, out_of_fuel, ◌>>=◌}
use open_modality.Base.Result.{einval, Result, ok, err}
use open_modality.Base.Words.{u64, align_down, align_up}
use open_modality.Mm.Bitmap.{page_size}
use open_modality.Mu.Pmap.{pagesize_4k, Machine, mu_pmap_map}

-- `struct vmem_region`
pub record VmemRegion : Type 0 where
  pub vma : ℕ
  pub pma : ℕ
  pub length : ℕ

module _ {ℓ} {S : Type ℓ} (pmem_alloc : S → Run (S × ℕ)) where
  -- The loop from offset `i` on.
  unfoldable pub map_pages :
      ℕ → ℕ → Option ℕ → ℕ → ℕ → ℕ → ℕ → ℕ → Machine S → Run (Machine S × Result ℕ)
  map_pages zero cr4 vas vbase pbase length prot i m = out_of_fuel
  map_pages (suc fuel) cr4 vas vbase pbase length prot i m = elim (ltb i length) [
    | false ↦ done (m, ok 0)
    | true ↦ do
      (m', error) ←
          mu_pmap_map pmem_alloc cr4 vas (u64 (vbase + i)) (u64 (pbase + i)) prot pagesize_4k m
      elim error [
        | err e ↦ done (m', err e)
        | ok z ↦ map_pages fuel cr4 vas vbase pbase length prot (i + page_size) m'
      ]
  ]

  unfoldable pub vmem_map_region :
      ℕ → ℕ → Option ℕ → Option VmemRegion → ℕ → Machine S → Run (Machine S × Result ℕ)
  vmem_map_region fuel cr4 none region prot m = done (m, err einval)
  vmem_map_region fuel cr4 (some cr3) none prot m = done (m, err einval)
  vmem_map_region fuel cr4 (some cr3) (some region) prot m =
      map_pages fuel cr4 (some cr3) (align_down region.vma page_size)
        (align_down region.pma page_size) (align_up region.length page_size) prot 0 m
