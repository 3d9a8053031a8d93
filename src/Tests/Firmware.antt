-- ===== src/Tests/Firmware.antt =====
-- The ACPI layer on small memories.
use mathlib.Core.Path.{◌≡◌, refl}
use open_modality.Base.{ℕ, suc, false, inl, Option, none, some, List, [], ◌∷◌, ◌++◌, arith}
use open_modality.Base.Lists.{get_elem?, replicate}
use open_modality.Base.Ram.{Ram}
use open_modality.Base.Result.{ok}
use open_modality.Base.Run.{Run, done}
use open_modality.Core.Bpt.{Vars, Hooks, bpt_get_vars, bpt_kernel_base}
use open_modality.Acpi.Tables.{Acpi, acpi_query, acpi_init}
use open_modality.Acpi.Tables.Checksum.{Table}
use open_modality.Acpi.Tables.Query.{Entry, Answer, acpi_query_lem}
use open_modality.Acpi.Tables.Init.{RootTable, Corrected, acpi_init_lem}
use open_modality.Acpi.Madt.{acpi_read_madt}
use open_modality.Acpi.Madt.Walk.{MadtEntry, Walked, acpi_read_madt_lem}

abbrev vars : Vars
vars = record { kernel_base = 0; rsdp_base = 1 }

abbrev hooks : Hooks
hooks = record {
  get_vars = some (λ res_null. done (ok vars));
  get_mementry = none;
  get_module = none;
}

hooks-vars : bpt_get_vars hooks false ≡ done (ok vars)
unfolding bpt_get_vars
hooks-vars = refl

hooks-base : bpt_kernel_base hooks ≡ done 0
unfolding bpt_kernel_base bpt_get_vars
hooks-base = refl

-- A root table at address 0 with one entry, and behind it a table of nine bytes that add up to 512.
abbrev root_image : List ℕ
root_image = replicate 36 0 ++ 40 ∷ 0 ∷ 0 ∷ 0 ∷ 65 ∷ 80 ∷ 73 ∷ 67 ∷ 9 ∷ 0 ∷ 0 ∷ 0 ∷ 218 ∷ []

abbrev root_ram : Ram
root_ram a = get_elem? root_image a

abbrev small_table : Table
small_table = record {
  signature = 65 ∷ 80 ∷ 73 ∷ 67 ∷ [];
  rest = 218 ∷ [];
  signature_size = refl;
  small = omega arith;
}

abbrev entry : Entry
entry = record { phys = 40; table = small_table; phys_small = omega arith }

abbrev acpi : Acpi
acpi = record { rsdp = 1; sdt = 0; sdt_entries = 1; madt = none }

acpi_query_lem_example :
    (r : Option ℕ) × (acpi_query acpi (65 ∷ 80 ∷ 73 ∷ 67 ∷ []) hooks root_ram ≡ done r)
    × Answer 0 (65 ∷ 80 ∷ 73 ∷ 67 ∷ []) (entry ∷ []) r
acpi_query_lem_example =
    acpi_query_lem acpi hooks root_ram 0 (65 ∷ 80 ∷ 73 ∷ 67 ∷ []) (entry ∷ []) hooks-base refl refl
      (refl, (refl, (refl, (refl, tt))))
      ((refl, (refl, (refl, (refl, (refl, (refl, (refl, (refl, (refl, tt))))))))), tt)

-- A MADT at address 0: an entry of type 1 and one of type 0.
abbrev madt_ram : Ram
madt_ram a =
    get_elem?
      ((0 ∷ 0 ∷ 0 ∷ 0 ∷ 50 ∷ 0 ∷ 0 ∷ 0 ∷ []) ++ (replicate 36 0 ++ 1 ∷ 3 ∷ 9 ∷ 0 ∷ 3 ∷ 7 ∷ [])) a

abbrev known : Acpi
known = record { rsdp = 1; sdt = 0; sdt_entries = 1; madt = some 0 }

abbrev first : MadtEntry
first = record { kind = 1; body = 9 ∷ []; short = omega arith }

abbrev second : MadtEntry
second = record { kind = 0; body = 7 ∷ []; short = omega arith }

-- A callback that counts its calls and fails.
abbrev count : ℕ → ℕ → ℕ → Run (ℕ × ℕ)
count s a arg = done (suc s, 4294967295)

acpi_read_madt_lem_example :
    (acpi' : Acpi) × (s' : ℕ) × (r : ℕ) × (acpi_read_madt 3 hooks madt_ram 1 (some count) 5 known 0
      ≡ done (some (acpi', s', r)))
    × (acpi'.madt ≡ some 0)
    × Walked count 1 5 44 0 (first ∷ second ∷ []) s' r
acpi_read_madt_lem_example =
    acpi_read_madt_lem 2 hooks madt_ram 1 count 5 known 0 0 first (second ∷ []) (inl refl)
      (λ s a. (suc s, 4294967295, refl)) (omega arith) refl
      (refl, (refl, (refl, (refl, (refl, (refl, tt)))))) refl

-- The pointer structure at address 1, of revision 0, and an RSDT with one entry at address 24.
abbrev init_ram : Ram
init_ram a =
    get_elem? (replicate 17 0 ++ 24 ∷ 0 ∷ 0 ∷ 0 ∷ 0 ∷ 0 ∷ 0 ∷ 0 ∷ 0 ∷ 0 ∷ 0 ∷ 40 ∷ 0 ∷ 0 ∷ 0 ∷ []) a

abbrev root : RootTable init_ram vars
root = record {
  revision = 0;
  oemid = replicate 6 0;
  phys = 24;
  size = 40;
  revision_held = refl;
  oemid_size = refl;
  oemid_held = (refl, (refl, (refl, (refl, (refl, (refl, tt))))));
  phys_small = omega arith;
  phys_held = (refl, (refl, (refl, (refl, tt))));
  size_large = omega arith;
  size_small = omega arith;
  size_held = (refl, (refl, (refl, (refl, tt))));
  apart = inl (omega arith);
}

acpi_init_lem_example :
    (ram' : Ram) × (acpi' : Acpi) × (acpi_init hooks init_ram ≡ done (some (ram', acpi')))
    × (acpi'.sdt ≡ 24)
    × (acpi'.sdt_entries ≡ 1)
    × Corrected init_ram 1 0 ram'
acpi_init_lem_example = acpi_init_lem hooks init_ram vars root hooks-vars (λ e. omega arith)
