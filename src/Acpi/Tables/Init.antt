-- ===== src/Acpi/Tables/Init.antt =====
-- The start of the ACPI layer: which root table is taken.
use native.Mathlib.Decide.{ℕ_discrete}
use open_modality.Base.{
  ℕ, ◌+◌, ◌-◌, ◌*◌, ◌/◌, ◌^◌, ◌<◌, ◌≤◌, ◌≡◌, ◌≢◌, ◌⊎◌, inl, inr, ◌∙◌, refl, sym, ap, Bool, true,
  false, none, some, List, [], ◌∷◌, arith,
}
use open_modality.Base.Tests.{◌==◌, leb, if◌then◌else◌}
use open_modality.Base.Bytes.{to_bytes}
use open_modality.Base.Lists.{length}
use open_modality.Base.Ram.{Ram, read_int, Holds, read_int-Holds}
use open_modality.Base.Result.{ok}
use open_modality.Base.Run.{done}
use open_modality.Base.Words.{u64, sub64}
use open_modality.Core.Bpt.{Vars, Hooks, bpt_get_vars, bpt_kernel_base}
use open_modality.Acpi.Tables.{
  Acpi, acpi_header_size, rsdp_revision, rsdp_oemid, rsdp_xsdt_addr, rsdp_rsdt_addr,
  correct_revision, read_oemid, acpi_print_rsdp, phys_to_virt, root_sdt, init_rsdp, acpi_init,
}

-- The memory after the revision is corrected, and the revision itself.
abbrev pub corrected : ℕ → ℕ
corrected revision = if revision == 0 then 1 else revision

abbrev poked : Ram → ℕ → ℕ → Ram
poked ram a v b = if b == a then some v else ram b

Holds-poked :
    (ram : Ram) (p v a : ℕ) (bs : List ℕ)
    → (p < a) ⊎ (a + length bs ≤ p)
    → Holds ram a bs
    → Holds (poked ram p v) a bs
Holds-poked ram p v a [] apart held = tt
Holds-poked ram p v a (b ∷ bs) apart (here, held) =
    let further : (p < a + 1) ⊎ (a + 1 + length bs ≤ p) = elim apart [
      | inl below ↦ inl (omega arith)
      | inr above ↦ inr (omega arith)
    ] in
    (ground arith, Holds-poked ram p v (a + 1) bs further held)

read_int-total :
    (ram : Ram) (a : ℕ) (bs : List ℕ)
    → Holds ram a bs
    → (w : ℕ) × read_int (length bs) ram a ≡ done w
read_int-total ram a [] held = (0, refl)
read_int-total ram a (b ∷ bs) (here, held) =
    let (w, run) = read_int-total ram (a + 1) bs held in (b + 256 * w, rw (here, run) refl)

-- The memory that `acpi_init` leaves differs in the revision at most, and that is no longer zero.
pub record Corrected (ram : Ram) (rsdp revision : ℕ) (ram' : Ram) : Type 0 where
  pub revised : ram' (rsdp_revision rsdp) ≡ some (corrected revision)
  pub same : (a : ℕ) → a ≢ rsdp_revision rsdp → ram' a ≡ ram a
  pub keeps :
      (a : ℕ) (bs : List ℕ)
      → (rsdp_revision rsdp < a) ⊎ (a + length bs ≤ rsdp_revision rsdp)
      → Holds ram a bs
      → Holds ram' a bs

correct_revision-zero :
    (ram : Ram) (rsdp : ℕ)
    → ram (rsdp_revision rsdp) ≡ some 0
    → correct_revision rsdp ram ≡ done (poked ram (rsdp_revision rsdp) 1)
unfolding correct_revision
correct_revision-zero ram rsdp held = ground arith

correct_revision-nonzero :
    (ram : Ram) (rsdp revision : ℕ)
    → ram (rsdp_revision rsdp) ≡ some revision
    → revision ≢ 0
    → correct_revision rsdp ram ≡ done ram
unfolding correct_revision
correct_revision-nonzero ram rsdp revision held differs = ground arith

module _ (ram : Ram) (rsdp : ℕ) (oemid : List ℕ) (six : length oemid ≡ 6) where
  read_oemid-total : Holds ram (rsdp_oemid rsdp) oemid → (w : ℕ) × read_oemid ram rsdp ≡ done w
  unfolding read_oemid
  read_oemid-total held =
      let (w, run) = read_int-total ram (rsdp_oemid rsdp) oemid held in
      (w, ap (λ n. read_int n ram (rsdp_oemid rsdp)) (sym six) ∙ run)

  printed :
      (ram' : Ram) (w : ℕ)
      → correct_revision rsdp ram ≡ done ram'
      → read_oemid ram' rsdp ≡ done w
      → acpi_print_rsdp rsdp ram ≡ done ram'
  unfolding acpi_print_rsdp
  printed ram' w run read = rw (run, read) refl

acpi_print_rsdp-Corrected :
    (ram : Ram) (rsdp revision : ℕ) (oemid : List ℕ)
    → ram (rsdp_revision rsdp) ≡ some revision
    → length oemid ≡ 6
    → Holds ram (rsdp_oemid rsdp) oemid
    → (ram' : Ram) × (acpi_print_rsdp rsdp ram ≡ done ram') × Corrected ram rsdp revision ram'
acpi_print_rsdp-Corrected ram rsdp revision oemid held six named = elim (ℕ_discrete revision 0) [
  | no differs ↦
      let (w, read) = read_oemid-total ram rsdp oemid six named in
      (
        ram,
        printed ram rsdp oemid six ram w (correct_revision-nonzero ram rsdp revision held differs)
            read,
        record {
          revised = held ∙ ap some (ground arith);
          same = λ a ne. refl;
          keeps = λ a bs apart held. held;
        },
      )
  | yes z ↦
      let a = rsdp_revision rsdp in
      let (w, read) =
        read_oemid-total (poked ram a 1) rsdp oemid six
          (Holds-poked ram a 1 (rsdp_oemid rsdp) oemid (inr (omega arith)) named) in
      (
        poked ram a 1,
        printed ram rsdp oemid six (poked ram a 1) w
            (correct_revision-zero ram rsdp (held ∙ ap some z)) read,
        record {
          revised = ground arith;
          same = λ b ne. ground arith;
          keeps = λ b bs apart held. Holds-poked ram a 1 b bs apart held;
        },
      )
]

-- The field of the root table's address, and the width of its entries.
abbrev pub is_xsdt : ℕ → Bool
is_xsdt revision = leb 2 revision

abbrev pub root_offset : Bool → ℕ
root_offset xsdt = if xsdt then 24 else 16

abbrev pub root_width : Bool → ℕ
root_width xsdt = if xsdt then 8 else 4

root_sdt-Holds :
    (hooks : Hooks) (ram : Ram) (base phys width size : ℕ)
    → bpt_kernel_base hooks ≡ done base
    → Holds ram (u64 (phys + base) + 4) (to_bytes 4 size)
    → acpi_header_size ≤ size
    → size < 2 ^ 32
    → root_sdt hooks ram phys width ≡ done (u64 (phys + base), (size - acpi_header_size) / width)
unfolding root_sdt phys_to_virt
root_sdt-Holds hooks ram base phys width size known held large small =
    let read = read_int-Holds ram 4 size (u64 (phys + base) + 4) (omega arith) held in
    let entries : sub64 size acpi_header_size ≡ size - acpi_header_size = omega arith in
    rw (known, read, entries) refl

root_addr-Holds :
    (ram' : Ram) (rsdp : ℕ) (xsdt : Bool) (phys : ℕ)
    → phys < 256 ^ root_width xsdt
    → Holds ram' (rsdp + root_offset xsdt) (to_bytes (root_width xsdt) phys)
    → (if xsdt then rsdp_xsdt_addr ram' rsdp else rsdp_rsdt_addr ram' rsdp) ≡ done phys
root_addr-Holds ram' rsdp true phys small held = read_int-Holds ram' 8 phys (rsdp + 24) small held
root_addr-Holds ram' rsdp false phys small held = read_int-Holds ram' 4 phys (rsdp + 16) small held

module _ (hooks : Hooks) (ram ram' : Ram) (rsdp revision phys sdt entries : ℕ)
    (print : acpi_print_rsdp rsdp ram ≡ done ram')
    (revised : ram' (rsdp_revision rsdp) ≡ some revision)
    (addressed : (if leb 2 revision then rsdp_xsdt_addr ram' rsdp else rsdp_rsdt_addr ram' rsdp)
      ≡ done phys)
    (rooted : root_sdt hooks ram' phys (if leb 2 revision then 8 else 4)
      ≡ done (sdt, entries)) where
  abbrev state : Acpi
  state = record { rsdp = rsdp; sdt = sdt; sdt_entries = entries; madt = none }

  init_rsdp-run : init_rsdp hooks ram rsdp ≡ done (ram', state)
  unfolding init_rsdp
  init_rsdp-run = rw (print, revised, addressed, rooted) refl

  acpi_init-run :
      (vars : Vars)
      → bpt_get_vars hooks false ≡ done (ok vars)
      → vars.rsdp_base ≡ rsdp
      → rsdp ≢ 0
      → acpi_init hooks ram ≡ done (some (ram', state))
  unfolding acpi_init
  acpi_init-run vars got same nz =
      let run = init_rsdp-run in
      let test : (rsdp == 0) ≡ false = ground arith in rw (got, same) (ground arith)

kernel_base-vars :
    (hooks : Hooks) (vars : Vars)
    → bpt_get_vars hooks false ≡ done (ok vars)
    → bpt_kernel_base hooks ≡ done vars.kernel_base
unfolding bpt_kernel_base
kernel_base-vars hooks vars got = rw got refl

-- What memory holds of the pointer structure that the boot protocol hands over, and of the root table
-- it names, which does not cover the revision.
pub record RootTable (ram : Ram) (vars : Vars) : Type 0 where
  pub revision : ℕ
  pub oemid : List ℕ
  pub phys : ℕ
  pub size : ℕ
  pub revision_held : ram (rsdp_revision vars.rsdp_base) ≡ some revision
  pub oemid_size : length oemid ≡ 6
  pub oemid_held : Holds ram (rsdp_oemid vars.rsdp_base) oemid
  pub phys_small : phys < 256 ^ root_width (is_xsdt revision)
  pub phys_held :
      Holds ram
        (vars.rsdp_base + root_offset (is_xsdt revision))
        (to_bytes (root_width (is_xsdt revision)) phys)
  pub size_large : acpi_header_size ≤ size
  pub size_small : size < 2 ^ 32
  pub size_held : Holds ram (u64 (phys + vars.kernel_base) + 4) (to_bytes 4 size)
  pub apart :
      (rsdp_revision vars.rsdp_base < u64 (phys + vars.kernel_base) + 4)
      ⊎ (u64 (phys + vars.kernel_base) + 8 ≤ rsdp_revision vars.rsdp_base)

corrected_kind : (revision : ℕ) → is_xsdt (corrected revision) ≡ is_xsdt revision
corrected_kind revision = ground arith

after_revision : (rsdp : ℕ) (xsdt : Bool) → rsdp_revision rsdp < rsdp + root_offset xsdt
after_revision rsdp true = omega arith
after_revision rsdp false = omega arith

-- With the boot protocol's variables and a root table in memory, `acpi_init` takes the XSDT from
-- revision 2 on and the RSDT before, counts as many entries of eight or of four bytes as the table's
-- length leaves behind the header, and changes nothing in memory but a revision of zero, to one.
pub acpi_init_lem :
    (hooks : Hooks) (ram : Ram) (vars : Vars) (root : RootTable ram vars)
    → bpt_get_vars hooks false ≡ done (ok vars)
    → vars.rsdp_base ≢ 0
    → (ram' : Ram) × (acpi : Acpi) × (acpi_init hooks ram ≡ done (some (ram', acpi)))
      × (acpi.sdt ≡ u64 (root.phys + vars.kernel_base))
      × (acpi.sdt_entries ≡ (root.size - acpi_header_size) / root_width (is_xsdt root.revision))
      × Corrected ram vars.rsdp_base root.revision ram'
acpi_init_lem hooks ram vars root got nz =
    let rsdp = vars.rsdp_base in
    let base = vars.kernel_base in
    let revision = root.revision in
    let kind = corrected_kind revision in
    let width = root_width (is_xsdt revision) in
    let (ram', print, fixed) =
      acpi_print_rsdp-Corrected ram rsdp revision root.oemid root.revision_held root.oemid_size
        root.oemid_held in
    let phys_held =
      fixed.keeps (rsdp + root_offset (is_xsdt revision)) (to_bytes width root.phys)
        (inl (after_revision rsdp (is_xsdt revision))) root.phys_held in
    let untouched : (rsdp_revision rsdp < u64 (root.phys + base) + 4)
        ⊎ (u64 (root.phys + base) + 4 + length (to_bytes 4 root.size) ≤ rsdp_revision rsdp) =
      elim root.apart [ inl below ↦ inl below | inr above ↦ inr (omega arith) ] in
    let size_held =
      fixed.keeps (u64 (root.phys + base) + 4) (to_bytes 4 root.size) untouched root.size_held in
    let addressed =
      ap (λ b. if b then rsdp_xsdt_addr ram' rsdp else rsdp_rsdt_addr ram' rsdp) kind
      ∙ root_addr-Holds ram' rsdp (is_xsdt revision) root.phys root.phys_small phys_held in
    let rooted =
      ap (λ b. root_sdt hooks ram' root.phys (if b then 8 else 4)) kind
      ∙ root_sdt-Holds hooks ram' base root.phys width root.size (kernel_base-vars hooks vars got)
          size_held root.size_large root.size_small in
    (
      ram',
      _,
      acpi_init-run hooks ram ram' rsdp (corrected revision) root.phys _ _ print fixed.revised
          addressed rooted vars got refl nz,
      refl,
      refl,
      fixed,
    )
