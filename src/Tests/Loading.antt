-- ===== src/Tests/Loading.antt =====
-- An executable file with one segment of five bytes, loaded to the address space of `Paging`.
use open_modality.Base.{ℕ, ◌+◌, ◌-◌, ◌^◌, ◌≡◌, refl, false, none, some, List, [], ◌∷◌, ◌++◌, arith}
use open_modality.Base.Bytes.{to_bytes}
use open_modality.Base.Lists.{get_or, replicate}
use open_modality.Base.Ram.{Ram}
use open_modality.Base.Result.{Result, ok}
use open_modality.Base.Run.{done}
use open_modality.Base.Tests.{◌==◌, if◌then◌else◌}
use open_modality.Core.Bpt.{Hooks}
use open_modality.Core.Elfload.{elfmag, Phdr, Loader, elf_load_raw}
use open_modality.Core.Elfload.Raw.{elf_load_raw_invalid}
use open_modality.Mm.Pmem.{State, mm_pmem_alloc}
use open_modality.Tests.Paging.{empty_space}

abbrev entry_point : ℕ
entry_point = 0x400000

abbrev image_bytes : List ℕ
image_bytes =
    elfmag
    ++ replicate 12 0
    ++ to_bytes 2 2
    ++ to_bytes 2 62
    ++ to_bytes 4 1
    ++ to_bytes 8 entry_point
    ++ to_bytes 8 64
    ++ to_bytes 8 0
    ++ to_bytes 4 0
    ++ to_bytes 2 64
    ++ to_bytes 2 56
    ++ to_bytes 2 1
    ++ replicate 6 0
    ++ to_bytes 4 1
    ++ to_bytes 4 5
    ++ to_bytes 8 120
    ++ to_bytes 8 entry_point
    ++ to_bytes 8 0
    ++ to_bytes 8 5
    ++ to_bytes 8 5
    ++ to_bytes 8 0
    ++ 0xEB ∷ 0xFE ∷ 0x90 ∷ 0x90 ∷ 0xC3 ∷ []

abbrev image_ram : Ram
image_ram a = some (get_or image_bytes (a - 2 ^ 30) 0)

abbrev segment : Phdr
segment = record { p_type = 1; p_flags = 5; p_offset = 120; p_vaddr = entry_point; p_memsz = 5 }

abbrev no_hooks : Hooks
no_hooks = record { get_vars = none; get_mementry = none; get_module = none }

abbrev loader : Loader State
loader = record { machine = empty_space; ram = image_ram }

-- The same file with another version.
abbrev stale : Loader State
stale = record {
  machine = loader.machine;
  ram = λ a. if a == 2 ^ 30 + 20 then some 2 else image_ram a;
}

elf_load_raw_invalid_example :
    elf_load_raw mm_pmem_alloc no_hooks 2 3 0 (some 8192) (some (2 ^ 30)) false stale
    ≡ done (stale, none, ok 0)
elf_load_raw_invalid_example =
    elf_load_raw_invalid mm_pmem_alloc no_hooks 2 3 0 8192 (2 ^ 30) stale 2 2 elfmag refl
      (refl, (refl, (refl, (refl, tt)))) refl refl (λ (m, t, v). absurd (omega arith))
