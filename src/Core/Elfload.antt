-- ===== src/Core/Elfload.antt =====
-- The loader of sys/hive/core/elfload.c, over the fields that it reads of the structures of
-- sdk/inc/sys/elf.h. The image and the frames it is copied to lie in one memory of bytes; the page
-- tables lie in the memory of words of `Mu.Pmap`, as no frame is given out both for a table and for
-- a segment. Parameters stand for `mm_pmem_alloc` and for the registers that the page tables use.
-- The loop has fuel, and each mapping too.
pub mod Copy
pub mod Image
pub mod Kernel
pub mod Loop
pub mod Pages
pub mod Placement
pub mod Raw
pub mod Round
pub mod Segment
pub mod Sequence
pub mod Verify
use open_modality.Base.{
  ℕ, zero, suc, ◌+◌, ◌-◌, ◌*◌, ◌/◌, ◌^◌, Bool, true, false, bit_and, bit_or, Option, none, some,
  List, [], ◌∷◌,
}
use open_modality.Base.Tests.{◌==◌, ltb, if◌then◌else◌}
use open_modality.Base.Ram.{Ram, read_byte, read_int, write_byte, bytes_at}
use open_modality.Base.Result.{einval, enomem, Result, ok, err}
use open_modality.Base.Run.{Run, done, fault, out_of_fuel, ◌>>=◌}
use open_modality.Base.Words.{u64, align_up}
use open_modality.Acpi.Tables.{phys_to_virt}
use open_modality.Core.Bpt.{Hooks}
use open_modality.Mm.Bitmap.{page_size}
use open_modality.Mm.Vmem.{VmemRegion, vmem_map_region}
use open_modality.Mu.Pmap.{Machine, isset, prot_read, prot_write, prot_exec, prot_user}
use open_modality.Sdk.Memory.{memcmp}

-- ELFMAG, and the fields of `Elf64_Ehdr` at `eh`.
abbrev pub elfmag : List ℕ
elfmag = 0x7F ∷ b'E' ∷ b'L' ∷ b'F' ∷ []

abbrev pub e_type : Ram → ℕ → Run ℕ
e_type ram eh = read_int 2 ram (eh + 16)

abbrev pub e_version : Ram → ℕ → Run ℕ
e_version ram eh = read_int 4 ram (eh + 20)

abbrev pub e_entry : Ram → ℕ → Run ℕ
e_entry ram eh = read_int 8 ram (eh + 24)

abbrev pub e_phoff : Ram → ℕ → Run ℕ
e_phoff ram eh = read_int 8 ram (eh + 32)

abbrev pub e_phentsize : Ram → ℕ → Run ℕ
e_phentsize ram eh = read_int 2 ram (eh + 54)

abbrev pub e_phnum : Ram → ℕ → Run ℕ
e_phnum ram eh = read_int 2 ram (eh + 56)

-- The fields of `Elf64_Phdr` that are used; a program header lies in memory as a whole.
pub record Phdr : Type 0 where
  pub p_type : ℕ
  pub p_flags : ℕ
  pub p_offset : ℕ
  pub p_vaddr : ℕ
  pub p_memsz : ℕ

abbrev pub read_phdr : Ram → ℕ → Run Phdr
read_phdr ram phdr = do
  p_type ← read_int 4 ram phdr
  p_flags ← read_int 4 ram (phdr + 4)
  p_offset ← read_int 8 ram (phdr + 8)
  p_vaddr ← read_int 8 ram (phdr + 16)
  p_memsz ← read_int 8 ram (phdr + 40)
  done (record {
    p_type = p_type;
    p_flags = p_flags;
    p_offset = p_offset;
    p_vaddr = p_vaddr;
    p_memsz = p_memsz;
  })

-- A null pointer is `none`.
unfoldable pub elf_verify : Ram → Option ℕ → Run Bool
elf_verify ram none = done false
elf_verify ram (some eh) = do
  d ← memcmp (bytes_at ram eh 4) elfmag 4
  elim (d.size == 0) [
    | false ↦ done false
    | true ↦ do
      type ← e_type ram eh
      elim (type == 2) [
        | false ↦ done false
        | true ↦ do version ← e_version ram eh; done (version == 1)
      ]
  ]

-- `memcpy(dest, src, n)` from byte `i` on.
unfoldable pub copy_segment : ℕ → ℕ → ℕ → ℕ → Ram → Run Ram
copy_segment zero i dest src ram = done ram
copy_segment (suc rounds) i dest src ram = do
  b ← read_byte ram (src + i)
  ram' ← write_byte ram (dest + i) b
  copy_segment rounds (i + 1) dest src ram'

unfoldable pub segment_prot : ℕ → ℕ
segment_prot p_flags =
    let prot = bit_or prot_read prot_user in
    let prot' = if isset p_flags (2 ^ 1) then bit_or prot prot_write else prot in
    if isset p_flags (2 ^ 0) then bit_or prot' prot_exec else prot'

-- PHDR_INDEX: the product is an `int`, and to overflow it is undefined.
unfoldable pub phdr_index : ℕ → ℕ → ℕ → Run ℕ
phdr_index phdr_base phentsize i =
    if ltb (phentsize * i) (2 ^ 31) then done (u64 (phdr_base + phentsize * i)) else fault

-- Page tables with the frame allocator, and the bytes.
pub record Loader {ℓ} (S : Type ℓ) : Type ℓ where
  pub machine : Machine S
  pub ram : Ram

module _ {ℓ} {S : Type ℓ} (mm_pmem_alloc : S → ℕ → Run (S × ℕ)) (hooks : Hooks) (map_fuel cr4 : ℕ)
    (vas : ℕ) where
  -- From the mapping on.
  unfoldable pub map_segment : ℕ → VmemRegion → Phdr → Loader S → Run (Loader S × Result ℕ)
  unfolding segment_prot
  map_segment eh region phdr l = do
    (m, error) ←
        vmem_map_region (λ s. mm_pmem_alloc s 1) map_fuel cr4 (some vas) (some region)
          (segment_prot phdr.p_flags) l.machine
    elim error [
      | err e ↦ done (record l { machine = m }, err e)
      | ok z ↦ do
        dest ← phys_to_virt hooks region.pma
        ram ← copy_segment phdr.p_memsz 0 dest (u64 (eh + phdr.p_offset)) l.ram
        done (record { machine = m; ram = ram }, ok 0)
    ]

  -- From the allocation of the frames on.
  unfoldable pub place_segment : ℕ → Phdr → Loader S → Run (Loader S × Result ℕ)
  unfolding map_segment
  place_segment eh phdr l =
      let length = align_up (u64 (phdr.p_memsz + bit_and phdr.p_vaddr (page_size - 1))) page_size in
      do
        (s, pma) ← mm_pmem_alloc l.machine.frames (length / page_size)
        elim (pma == 0) [
          | true ↦ done (record l { machine = record l.machine { frames = s } }, err enomem)
          | false ↦
              map_segment eh (record { vma = phdr.p_vaddr; pma = pma; length = length }) phdr
                (record l { machine = record l.machine { frames = s } })
        ]

  -- The body of the loop; on `ok` the loop goes on.
  unfoldable pub load_segment : ℕ → Phdr → Loader S → Run (Loader S × Result ℕ)
  unfolding place_segment
  load_segment eh phdr l =
      if phdr.p_type == 1
      then if phdr.p_memsz == 0 then done (l, ok 0) else place_segment eh phdr l
      else done (l, ok 0)

  -- One round of the loop.
  unfoldable pub load_round : ℕ → ℕ → ℕ → Loader S → Run (Loader S × Result ℕ)
  unfolding phdr_index load_segment
  load_round phdr_base i eh l = do
    phentsize ← e_phentsize l.ram eh
    at ← phdr_index phdr_base phentsize i
    phdr ← read_phdr l.ram at
    load_segment eh phdr l

  unfoldable pub load_loop : ℕ → ℕ → ℕ → ℕ → Loader S → Run (Loader S × Result ℕ)
  unfolding load_round
  load_loop zero phdr_base i eh l = out_of_fuel
  load_loop (suc fuel) phdr_base i eh l = do
    phnum ← e_phnum l.ram eh
    elim (ltb i phnum) [
      | false ↦ done (l, ok 0)
      | true ↦ do
        (l', error) ← load_round phdr_base i eh l
        elim error [ err e ↦ done (l', err e) | ok z ↦ load_loop fuel phdr_base (i + 1) eh l' ]
    ]

-- A null `vas` is `none`, and so is a null image; a result pointer is null or not.
module _ {ℓ} {S : Type ℓ} (mm_pmem_alloc : S → ℕ → Run (S × ℕ)) (hooks : Hooks)
    (fuel map_fuel cr4 : ℕ) where
  unfoldable pub elf_load : Option ℕ → Option ℕ → Bool → Loader S → Run (Loader S × Result ℕ)
  unfolding load_loop
  elf_load none eh res_null l = done (l, err einval)
  elf_load (some vas) none res_null l = done (l, err einval)
  elf_load (some vas) (some eh) true l = done (l, err einval)
  elf_load (some vas) (some eh) false l = do
    phoff ← e_phoff l.ram eh
    load_loop mm_pmem_alloc hooks map_fuel cr4 vas fuel (u64 (eh + phoff)) 0 eh l

  -- From the check of the image on. The loader, the entry point that was stored, if any, and what is
  -- returned; `false` is 0.
  unfoldable pub load_image : ℕ → ℕ → Loader S → Run (Loader S × Option ℕ × Result ℕ)
  unfolding elf_verify elf_load
  load_image vas eh l = do
    valid ← elf_verify l.ram (some eh)
    elim valid [
      | false ↦ done (l, none, ok 0)
      | true ↦ do
        (l', error) ← elf_load (some vas) (some eh) false l
        elim error [
          | err e ↦ done (l', none, err e)
          | ok z ↦ do entry ← e_entry l'.ram eh; done (l', some entry, ok 0)
        ]
    ]

  unfoldable pub elf_load_raw :
      Option ℕ → Option ℕ → Bool → Loader S → Run (Loader S × Option ℕ × Result ℕ)
  unfolding load_image
  elf_load_raw none image res_null l = done (l, none, err einval)
  elf_load_raw (some vas) none res_null l = done (l, none, err einval)
  elf_load_raw (some vas) (some image) true l = done (l, none, err einval)
  elf_load_raw (some vas) (some image) false l = load_image vas image l
