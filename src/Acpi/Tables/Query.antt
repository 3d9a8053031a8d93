-- ===== src/Acpi/Tables/Query.antt =====
-- The search for a table.
use mathlib.Core.Path.{subst}
use open_modality.Base.{
  ℕ, suc, ◌+◌, ◌*◌, ◌%◌, ◌^◌, ◌<◌, ◌≡◌, ◌≢◌, ◌↔◌, ◌∙◌, refl, sym, ap, Option, none, some, List, [],
  ◌∷◌, ◌++◌, arith,
}
use native.Mathlib.Decide.{ℕ_discrete}
use open_modality.Base.Tests.{◌==◌, if◌then◌else◌}
use open_modality.Base.Bytes.{to_bytes}
use open_modality.Base.Lists.{length, take, take-all}
use open_modality.Base.Ram.{
  Ram, bytes_at, Holds, bytes_at-Holds, read_int-Holds, Holds-append-left, Holds-append-right,
}
use open_modality.Base.Run.{done}
use open_modality.Base.Words.{u64}
use open_modality.Core.Bpt.{Hooks, bpt_kernel_base}
use open_modality.Sdk.Memory.{Diff, memcmp}
use open_modality.Sdk.Memory.Laws.{memcmp_iff}
use open_modality.Acpi.Tables.{
  Acpi, acpi_header_size, sdt_table, phys_to_virt, acpi_checksum, query_loop, acpi_query,
}
use open_modality.Acpi.Tables.Checksum.{Table, table_bytes, sum, acpi_checksum_lem}

-- A table that the root table names by its physical address.
pub record Entry : Type 0 where
  pub phys : ℕ
  pub table : Table
  pub phys_small : phys < 2 ^ 32

abbrev pub virt : ℕ → Entry → ℕ
virt base e = u64 (e.phys + base)

-- The addresses in the root table, four bytes each.
abbrev pub slots : List Entry → List ℕ
slots [] = []
slots (e ∷ es) = to_bytes 4 e.phys ++ slots es

-- Every table is in memory, at its place behind the base of the direct map.
abbrev pub Mapped : Ram → ℕ → List Entry → Type 0
Mapped ram base [] = Unit
Mapped ram base (e ∷ es) = Holds ram (virt base e) (table_bytes e.table) × Mapped ram base es

-- What a search for a signature means: the first table that has it decides, and counts only if its
-- bytes add up to zero.
pub data Answer (base : ℕ) (s : List ℕ) : List Entry → Option ℕ → Type 0 where
  absent : Answer base s [] none
  valid :
      (e : Entry) (es : List Entry)
      → e.table.signature ≡ s
      → sum (table_bytes e.table) % 256 ≡ 0
      → Answer base s (e ∷ es) (some (virt base e))
  corrupt :
      (e : Entry) (es : List Entry)
      → e.table.signature ≡ s
      → sum (table_bytes e.table) % 256 ≢ 0
      → Answer base s (e ∷ es) none
  other :
      (e : Entry) (es : List Entry) (r : Option ℕ)
      → e.table.signature ≢ s
      → Answer base s es r
      → Answer base s (e ∷ es) r

module _ (hooks : Hooks) (ram : Ram) (base sdt : ℕ) (s : List ℕ)
    (known : bpt_kernel_base hooks ≡ done base) (four : length s ≡ 4) where
  compare_signature :
      (e : Entry)
      → Holds ram (virt base e) (table_bytes e.table)
      → (d : Diff) × (memcmp (bytes_at ram (virt base e) 4) s 4 ≡ done d)
        × ((d.size ≡ 0) ↔ (e.table.signature ≡ s))
  compare_signature e held =
      let sign = e.table.signature in
      let size = e.table.signature_size in
      let prefix = Holds-append-left ram (virt base e) sign _ held in
      let all : take 4 sign ≡ sign = ap (λ n. take n sign) (sym size) ∙ take-all sign in
      let all_s : take 4 s ≡ s = ap (λ n. take n s) (sym four) ∙ take-all s in
      let read : bytes_at ram (virt base e) 4 ≡ sign =
        bytes_at-Holds ram 4 (virt base e) sign (omega arith) prefix ∙ all in
      let (d, run, (same, differ)) = memcmp_iff sign s 4 (omega arith) (omega arith) in
      (
        d,
        ap (λ l. memcmp l s 4) read ∙ run,
        ((λ z. sym all ∙ same z ∙ all_s), (λ q. differ (all ∙ q ∙ sym all_s))),
      )

  module _ (rounds i : ℕ) (e : Entry) (d : Diff) (slot : sdt_table ram sdt i ≡ done e.phys)
      (compared : memcmp (bytes_at ram (virt base e) 4) s 4 ≡ done d) where
    round-found :
        (v : ℕ)
        → d.size ≡ 0
        → acpi_checksum ram (virt base e) ≡ done v
        → query_loop (suc rounds) i sdt s hooks ram
          ≡ done (if v == 0 then some (virt base e) else none)
    unfolding query_loop phys_to_virt
    round-found v same summed = rw (slot, known, compared) (ground arith)

    round-other :
        d.size ≢ 0
        → query_loop (suc rounds) i sdt s hooks ram ≡ query_loop rounds (i + 1) sdt s hooks ram
    unfolding query_loop phys_to_virt
    round-other differs = rw (slot, known, compared) (ground arith)

  stop : (i : ℕ) → query_loop 0 i sdt s hooks ram ≡ done none
  unfolding query_loop
  stop i = refl

  search :
      (es : List Entry) (i : ℕ)
      → Holds ram (sdt + acpi_header_size + 4 * i) (slots es)
      → Mapped ram base es
      → (r : Option ℕ) × (query_loop (length es) i sdt s hooks ram ≡ done r) × Answer base s es r
  search [] i held mapped = (none, stop i, absent)
  search (e ∷ es) i held (here, mapped) =
      let small = e.phys_small in
      let a = sdt + acpi_header_size + 4 * i in
      let slot =
        read_int-Holds ram 4 e.phys a (omega arith)
          (Holds-append-left ram a (to_bytes 4 e.phys) (slots es) held) in
      let behind =
        Holds-append-right ram a (sdt + acpi_header_size + 4 * (i + 1)) (to_bytes 4 e.phys)
          (slots es) (omega arith) held in
      let (d, compared, (same, differ)) = compare_signature e here in
      let summed = acpi_checksum_lem e.table ram (virt base e) here in
      elim (ℕ_discrete d.size 0) [
        | no nz ↦
            let (r, run, answer) = search es (i + 1) behind mapped in
            (
              r,
              round-other (length es) i e d slot compared nz ∙ run,
              other e es r (λ q. nz (differ q)) answer,
            )
        | yes z ↦
            let run = round-found (length es) i e d slot compared _ z summed in
            elim (ℕ_discrete (sum (table_bytes e.table) % 256) 0) [
              | yes good ↦
                  (some (virt base e), run ∙ ap done (ground arith), valid e es (same z) good)
              | no bad ↦ (none, run ∙ ap done (ground arith), corrupt e es (same z) bad)
            ]
      ]

-- Where an RSDT, a root table of four-byte entries, is in memory with the tables it names, the search
-- for a signature ends, and its result is the first table with that signature if the bytes of it add up
-- to zero modulo 256, and null if they do not or no table has it.
pub acpi_query_lem :
    (acpi : Acpi) (hooks : Hooks) (ram : Ram) (base : ℕ) (s : List ℕ) (es : List Entry)
    → bpt_kernel_base hooks ≡ done base
    → length s ≡ 4
    → acpi.sdt_entries ≡ length es
    → Holds ram (acpi.sdt + acpi_header_size) (slots es)
    → Mapped ram base es
    → (r : Option ℕ) × (acpi_query acpi s hooks ram ≡ done r) × Answer base s es r
unfolding acpi_query
acpi_query_lem acpi hooks ram base s es known four count held mapped =
    let first : acpi.sdt + acpi_header_size ≡ acpi.sdt + acpi_header_size + 4 * 0 = omega arith in
    let (r, run, answer) =
      search hooks ram base acpi.sdt s known four es 0
        (subst (λ a. Holds ram a (slots es)) first held) mapped in
    (r, ap (λ n. query_loop n 0 acpi.sdt s hooks ram) count ∙ run, answer)
