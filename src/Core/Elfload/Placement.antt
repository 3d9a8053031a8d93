-- ===== src/Core/Elfload/Placement.antt =====
-- The steps of loading a segment.
use open_modality.Base.{
  ℕ, ◌+◌, ◌*◌, ◌/◌, ◌%◌, ◌^◌, ◌<◌, ◌≡◌, ◌≢◌, refl, ap, true, false, bit_and, some, arith,
}
use open_modality.Base.Align.{align_up_page}
use open_modality.Base.Bits.{bit_and_low}
use open_modality.Base.Ram.{Ram}
use open_modality.Base.Result.{minus_one, enomem, Result, ok, err}
use open_modality.Base.Run.{Run, done}
use open_modality.Base.Tests.{◌==◌}
use open_modality.Base.Words.{u64, align_up}
use open_modality.Acpi.Tables.{phys_to_virt}
use open_modality.Core.Bpt.{Hooks, bpt_kernel_base}
use open_modality.Core.Elfload.{
  Phdr, Loader, segment_prot, copy_segment, map_segment, place_segment, load_segment,
}
use open_modality.Mm.Vmem.{VmemRegion, vmem_map_region}
use open_modality.Mu.Pmap.{Machine}

-- The pages that a segment takes, from the one of its first address on.
abbrev pub segment_pages : Phdr → ℕ
segment_pages phdr = (phdr.p_memsz + phdr.p_vaddr % 4096 + 4095) / 4096

-- The length of the region.
abbrev pub region_length : Phdr → ℕ
region_length phdr = align_up (u64 (phdr.p_memsz + bit_and phdr.p_vaddr 4095)) 4096

pub region_length_lem :
    (phdr : Phdr)
    → phdr.p_vaddr + phdr.p_memsz + 12288 < 2 ^ 64
    → region_length phdr ≡ segment_pages phdr * 4096
region_length_lem phdr fits =
    let low = bit_and_low 12 phdr.p_vaddr in
    let up = align_up_page (u64 (phdr.p_memsz + bit_and phdr.p_vaddr 4095)) in
    let plain : u64 (phdr.p_memsz + bit_and phdr.p_vaddr 4095)
        ≡ phdr.p_memsz + phdr.p_vaddr % 4096 =
      omega arith in
    omega arith

abbrev pub with_frames : {S : Type 0} → Loader S → S → Loader S
with_frames l s = record l { machine = record l.machine { frames = s } }

abbrev pub region_at : Phdr → ℕ → VmemRegion
region_at phdr phys = record { vma = phdr.p_vaddr; pma = phys; length = region_length phdr }

module _ {S : Type 0} (mm_pmem_alloc : S → ℕ → Run (S × ℕ)) (hooks : Hooks)
    (map_fuel cr4 cr3 eh : ℕ) (phdr : Phdr) where
  -- The steps, on each outcome of what they call.
  pub place-refused :
      (l : Loader S) (s : S)
      → mm_pmem_alloc l.machine.frames (region_length phdr / 4096) ≡ done (s, 0)
      → place_segment mm_pmem_alloc hooks map_fuel cr4 cr3 eh phdr l
        ≡ done (with_frames l s, err enomem)
  unfolding place_segment
  place-refused l s e = rw e refl

  pub place-given :
      (l : Loader S) (s : S) (phys : ℕ)
      → mm_pmem_alloc l.machine.frames (region_length phdr / 4096) ≡ done (s, phys)
      → phys ≢ 0
      → place_segment mm_pmem_alloc hooks map_fuel cr4 cr3 eh phdr l
        ≡ map_segment mm_pmem_alloc hooks map_fuel cr4 cr3 eh
            (region_at phdr phys)
            phdr
            (with_frames l s)
  unfolding place_segment
  place-given l s phys e ne =
      let test : phys == 0 ≡ false = ground arith in
      rw e (
        ap
          (λ b. elim b as (λ x. Run (Loader S × Result ℕ)) [
            | true ↦ done (with_frames l s, err enomem)
            | false ↦
                map_segment mm_pmem_alloc hooks map_fuel cr4 cr3 eh (region_at phdr phys) phdr
                  (with_frames l s)
          ])
          test)

  abbrev pub mapping : ℕ → Machine S → Run (Machine S × Result ℕ)
  mapping phys m =
      vmem_map_region (λ s. mm_pmem_alloc s 1) map_fuel cr4 (some cr3) (some (region_at phdr phys))
        (segment_prot phdr.p_flags) m

  pub map-failed :
      (l : Loader S) (phys : ℕ) (m : Machine S)
      → mapping phys l.machine ≡ done (m, err minus_one)
      → map_segment mm_pmem_alloc hooks map_fuel cr4 cr3 eh (region_at phdr phys) phdr l
        ≡ done (record l { machine = m }, err minus_one)
  unfolding map_segment
  map-failed l phys m e = rw e refl

  pub map-copied :
      (l : Loader S) (phys base : ℕ) (m : Machine S) (ram : Ram)
      → mapping phys l.machine ≡ done (m, ok 0)
      → bpt_kernel_base hooks ≡ done base
      → copy_segment phdr.p_memsz 0 (u64 (phys + base)) (u64 (eh + phdr.p_offset)) l.ram ≡ done ram
      → map_segment mm_pmem_alloc hooks map_fuel cr4 cr3 eh (region_at phdr phys) phdr l
        ≡ done (record { machine = m; ram = ram }, ok 0)
  unfolding map_segment phys_to_virt
  map-copied l phys base m ram e here c = rw (e, here, c) refl

  pub load_segment-placed :
      (l : Loader S)
      → phdr.p_type ≡ 1
      → phdr.p_memsz ≢ 0
      → load_segment mm_pmem_alloc hooks map_fuel cr4 cr3 eh phdr l
        ≡ place_segment mm_pmem_alloc hooks map_fuel cr4 cr3 eh phdr l
  unfolding load_segment
  load_segment-placed l load some_bytes =
      let is_load : phdr.p_type == 1 ≡ true = ground arith in
      let not_empty : phdr.p_memsz == 0 ≡ false = ground arith in rw (is_load, not_empty) refl
