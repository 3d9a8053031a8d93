-- ===== src/Acpi/Tables.antt =====
-- The ACPI tables: sys/hive/acpi/acpi.c, with the layouts of sys/hive/inc/acpi/tables.h. The tables
-- lie in memory, and an `int` result is its bit pattern. What is only traced is left out; what is
-- read for it is not. The walk over the MADT has fuel.
pub mod Checksum
pub mod Init
pub mod Query
use open_modality.Base.{
  ℕ, zero, suc, ◌+◌, ◌-◌, ◌*◌, ◌/◌, ◌%◌, ◌^◌, Bool, true, false, Option, none, some, List, [], ◌∷◌,
}
use open_modality.Base.Tests.{◌==◌, ltb, leb, if◌then◌else◌}
use open_modality.Base.Ram.{Ram, read_byte, read_int, write_byte, bytes_at}
use open_modality.Base.Result.{ok, err}
use open_modality.Base.Run.{Run, done, out_of_fuel, ◌>>=◌, ◌>>◌, from_option}
use open_modality.Base.Words.{u8, u64, sub64}
use open_modality.Core.Bpt.{Hooks, bpt_get_vars, bpt_kernel_base}
use open_modality.Sdk.Memory.{memcmp}

-- `struct acpi_header`: the size, and where the length is.
abbrev pub acpi_header_size : ℕ
acpi_header_size = 36

abbrev pub header_length : Ram → ℕ → Run ℕ
header_length ram hdr = read_int 4 ram (hdr + 4)

-- `struct acpi_rsdp`
abbrev pub rsdp_oemid : ℕ → ℕ
rsdp_oemid rsdp = rsdp + 9

abbrev pub rsdp_revision : ℕ → ℕ
rsdp_revision rsdp = rsdp + 15

abbrev pub rsdp_rsdt_addr : Ram → ℕ → Run ℕ
rsdp_rsdt_addr ram rsdp = read_int 4 ram (rsdp + 16)

abbrev pub rsdp_xsdt_addr : Ram → ℕ → Run ℕ
rsdp_xsdt_addr ram rsdp = read_int 8 ram (rsdp + 24)

-- `struct acpi_root_sdt`: `tables[i]`
abbrev pub sdt_table : Ram → ℕ → ℕ → Run ℕ
sdt_table ram sdt i = read_int 4 ram (sdt + acpi_header_size + 4 * i)

-- `sizeof(struct acpi_madt)`
abbrev pub acpi_madt_size : ℕ
acpi_madt_size = acpi_header_size + 8

-- The static variables: of the file, and of `acpi_read_madt`.
pub record Acpi : Type 0 where
  pub rsdp : ℕ
  pub sdt : ℕ
  pub sdt_entries : ℕ
  pub madt : Option ℕ

-- PHYS_TO_VIRT
unfoldable pub phys_to_virt : Hooks → ℕ → Run ℕ
phys_to_virt hooks phys = do base ← bpt_kernel_base hooks; done (u64 (phys + base))

-- The loop of `acpi_checksum` from byte `i` on, with the rounds that are left.
unfoldable pub checksum_loop : ℕ → ℕ → ℕ → ℕ → Ram → Run ℕ
checksum_loop zero i csum hdr ram = done csum
checksum_loop (suc rounds) i csum hdr ram = do
  b ← read_byte ram (hdr + i)
  checksum_loop rounds (i + 1) (u8 (csum + b)) hdr ram

unfoldable pub acpi_checksum : Ram → ℕ → Run ℕ
acpi_checksum ram hdr = do
  length ← header_length ram hdr
  csum ← checksum_loop length 0 0 hdr ram
  done (if csum == 0 then 0 else 2 ^ 32 - 1)

-- The loop of `acpi_query` from entry `i` on.
unfoldable pub query_loop : ℕ → ℕ → ℕ → List ℕ → Hooks → Ram → Run (Option ℕ)
query_loop zero i sdt s hooks ram = done none
query_loop (suc rounds) i sdt s hooks ram = do
  table ← sdt_table ram sdt i
  hdr ← phys_to_virt hooks table
  d ← memcmp (bytes_at ram hdr 4) s 4
  elim (d.size == 0) [
    | true ↦ do valid ← acpi_checksum ram hdr; done (if valid == 0 then some hdr else none)
    | false ↦ query_loop rounds (i + 1) sdt s hooks ram
  ]

unfoldable pub acpi_query : Acpi → List ℕ → Hooks → Ram → Run (Option ℕ)
acpi_query acpi s hooks ram = query_loop acpi.sdt_entries 0 acpi.sdt s hooks ram

-- `acpi_print_rsdp`, which first corrects the revision and then reads six bytes of the OEM's name:
-- the memory afterwards.
unfoldable pub correct_revision : ℕ → Ram → Run Ram
correct_revision rsdp ram = do
  revision ← read_byte ram (rsdp_revision rsdp)
  if revision == 0 then write_byte ram (rsdp_revision rsdp) 1 else done ram

unfoldable pub read_oemid : Ram → ℕ → Run ℕ
read_oemid ram rsdp = read_int 6 ram (rsdp_oemid rsdp)

unfoldable pub acpi_print_rsdp : ℕ → Ram → Run Ram
acpi_print_rsdp rsdp ram = do
  ram' ← correct_revision rsdp ram
  oemid ← read_oemid ram' rsdp
  done ram'

-- The root table: where it lies, and how many entries its header gives it.
unfoldable pub root_sdt : Hooks → Ram → ℕ → ℕ → Run (ℕ × ℕ)
root_sdt hooks ram phys width = do
  sdt ← phys_to_virt hooks phys
  length ← header_length ram sdt
  done (sdt, sub64 length acpi_header_size / width)

-- From `acpi_print_rsdp` on.
unfoldable pub init_rsdp : Hooks → Ram → ℕ → Run (Ram × Acpi)
init_rsdp hooks ram rsdp = do
  ram' ← acpi_print_rsdp rsdp ram
  revision ← read_byte ram' (rsdp_revision rsdp)
  phys ← if leb 2 revision then rsdp_xsdt_addr ram' rsdp else rsdp_rsdt_addr ram' rsdp
  (sdt, entries) ← root_sdt hooks ram' phys (if leb 2 revision then 8 else 4)
  done (ram', record { rsdp = rsdp; sdt = sdt; sdt_entries = entries; madt = none })

-- `none` stands for a panic. The address of the MADT is not known before the first search.
unfoldable pub acpi_init : Hooks → Ram → Run (Option (Ram × Acpi))
acpi_init hooks ram = do
  vars ← bpt_get_vars hooks false
  elim vars [
    | err e ↦ done none
    | ok v ↦ elim (v.rsdp_base == 0) [
      | true ↦ done none
      | false ↦ do result ← init_rsdp hooks ram v.rsdp_base; done (some result)
    ]
  ]
