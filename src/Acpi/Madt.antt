-- ===== src/Acpi/Madt.antt =====
-- The MADT: `acpi_read_madt` of sys/hive/acpi/acpi.c. The callback works on a state of its own, and its `int`
-- is a bit pattern; `retval` is `none` until the callback has set it. The walk has fuel: one round
-- more than the table has entries is enough.
pub mod Walk
use open_modality.Base.{
  ℕ, zero, suc, ◌+◌, ◌-◌, ◌*◌, ◌%◌, ◌^◌, ◌<◌, ◌≤◌, ◌≡◌, ◌≢◌, ◌∙◌, refl, sym, ap, Bool, true, false,
  Option, none, some, List, [], ◌∷◌, ◌++◌, arith,
}
use open_modality.Base.Tests.{◌==◌, ltb, if◌then◌else◌}
use open_modality.Base.Lists.{length}
use open_modality.Base.Ram.{Ram, read_byte, Holds, Holds-append-left, Holds-append-right}
use open_modality.Base.Run.{Run, done, out_of_fuel, ◌>>=◌, from_option}
use open_modality.Core.Bpt.{Hooks}
use open_modality.Acpi.Tables.{Acpi, acpi_madt_size, header_length, acpi_query}

-- A negative `int`.
abbrev pub is_error : ℕ → Bool
is_error r = if ltb r (2 ^ 31) then false else true

-- "APIC"
abbrev pub sig_apic : List ℕ
sig_apic = b'A' ∷ b'P' ∷ b'I' ∷ b'C' ∷ 0 ∷ []

module _ {S : Type 0} (cb : S → ℕ → ℕ → Run (S × ℕ)) (type arg : ℕ) (ram : Ram) where
  -- `if (hdr->type == type) retval = cb(hdr, arg);`
  unfoldable pub visit : ℕ → Option ℕ → S → Run (S × Option ℕ)
  visit cur retval s = do
    entry_type ← read_byte ram cur
    elim (entry_type == type) [
      | true ↦ do (s', r) ← cb s cur arg; done (s', some r)
      | false ↦ done (s, retval)
    ]

  -- `while (cur < end)`
  unfoldable pub walk : ℕ → ℕ → ℕ → Option ℕ → S → Run (S × ℕ)
  walk zero cur end retval s = out_of_fuel
  walk (suc fuel) cur end retval s = elim (ltb cur end) [
    | false ↦ done (s, 2 ^ 32 - 1)
    | true ↦ do
      (s', retval') ← visit cur retval s
      r ← from_option retval'
      elim (is_error r) [
        | false ↦ done (s', r)
        | true ↦ do size ← read_byte ram (cur + 1); walk fuel (cur + size) end (some r) s'
      ]
  ]

  unfoldable pub walk_madt : ℕ → ℕ → S → Run (S × ℕ)
  walk_madt fuel madt s = do
    length ← header_length ram madt
    walk fuel (madt + acpi_madt_size) (madt + length) none s

-- `none` as a callback is the null pointer, and `none` as a result the panic.
unfoldable pub acpi_read_madt :
    {S : Type 0}
    → ℕ
    → Hooks
    → Ram
    → ℕ
    → Option (S → ℕ → ℕ → Run (S × ℕ))
    → ℕ
    → Acpi
    → S
    → Run (Option (Acpi × S × ℕ))
acpi_read_madt fuel hooks ram type none arg acpi s = done (some (acpi, s, 2 ^ 32 - 22))
acpi_read_madt fuel hooks ram type (some cb) arg acpi s = do
  found ← elim acpi.madt [
    | some known ↦ done (some known)
    | none ↦ acpi_query acpi sig_apic hooks ram
  ]
  elim found [
    | none ↦ done none
    | some madt ↦ do
      (s', r) ← walk_madt cb type arg ram fuel madt s
      done (
          some (
            record {
              rsdp = acpi.rsdp;
              sdt = acpi.sdt;
              sdt_entries = acpi.sdt_entries;
              madt = some madt;
            },
            s',
            r,
          ))
  ]
