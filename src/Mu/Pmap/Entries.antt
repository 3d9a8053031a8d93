-- ===== src/Mu/Pmap/Entries.antt =====
-- The bit operations on entries and addresses, as arithmetic.
use open_modality.Base.{
  ℕ, zero, suc, ◌+◌, ◌-◌, ◌/◌, ◌%◌, ◌^◌, ◌<◌, ◌≡◌, ◌∙◌, refl, sym, ap, bit_and, bit_or, Bool, true,
  false, arith,
}
use mathlib.Core.Path.{subst}
use open_modality.Base.Tests.{◌==◌, if◌then◌else◌}
use open_modality.Base.Bits.{bit_and_high, bit_and_low}
use open_modality.Base.Bits.Or.{bit_or_parts, bit_or-zero, bit_or-zero_left}
use open_modality.Base.Words.{u16, not64}
use open_modality.Mu.Pmap.{
  pte_addr_mask, pte_p, pte_rw, pte_us, pte_nx, isset, vma_level_index, prot_to_pte, prot_write,
  prot_exec, prot_user,
}
use open_modality.Mu.Pmap.Tree.{present, target}

pub isset-present : (entry : ℕ) → isset entry pte_p ≡ present entry
isset-present entry = ground (arith, bit_and_low 1 entry)

pub bit_and-target : (entry : ℕ) → bit_and entry pte_addr_mask ≡ target entry
bit_and-target entry = ground (
  arith,
  bit_and_high 12 (entry / 4096) (entry % 4096) (2 ^ 40 - 1),
  bit_and_low 40 (entry / 4096),
)

-- A page's address with flags in its low bits.
pub bit_or_low : (a flags : ℕ) → a % 4096 ≡ 0 → flags < 4096 → bit_or a flags ≡ a + flags
bit_or_low a flags page low =
    ground
      (arith, bit_or_parts 12 (a / 4096) 0 0 flags, bit_or-zero (a / 4096), bit_or-zero_left flags)

-- And with the bit 63 as well.
pub bit_or_nx :
    (a flags : ℕ)
    → a % 4096 ≡ 0
    → a < 2 ^ 52
    → flags < 4096
    → bit_or a (pte_nx + flags) ≡ a + (pte_nx + flags)
bit_or_nx a flags page fits low = ground (
  arith,
  bit_or_parts 12 (a / 4096) (2 ^ 51) 0 flags,
  bit_or_parts 51 0 1 (a / 4096) 0,
  bit_or-zero (a / 4096),
  bit_or-zero_left flags,
  bit_or-zero_left 1,
)

-- The place that an address takes in a table of each level below the fifth.
abbrev pub index : ℕ → ℕ → ℕ
index vma zero = vma / 4096 % 512
index vma (suc n) = index (vma / 512) n

pub index-lt : (vma n : ℕ) → index vma n < 512
index-lt vma zero = omega arith
index-lt vma (suc n) = index-lt (vma / 512) n

pub vma_level_index-index : (vma n : ℕ) → n < 4 → vma_level_index vma n ≡ index vma n
unfolding vma_level_index
vma_level_index-index vma zero h = ground (arith, bit_and_low 9 (vma / 2 ^ 12))
vma_level_index-index vma (suc zero) h = ground (arith, bit_and_low 9 (vma / 2 ^ 21))
vma_level_index-index vma (suc (suc zero)) h = ground (arith, bit_and_low 9 (vma / 2 ^ 30))
vma_level_index-index vma (suc (suc (suc zero))) h = ground (arith, bit_and_low 9 (vma / 2 ^ 39))
vma_level_index-index vma (suc (suc (suc (suc n)))) h = absurd (omega arith)

-- What the processor reads off an entry.
abbrev pub writable : ℕ → Bool
writable entry = entry / 2 % 2 == 1

abbrev pub user : ℕ → Bool
user entry = entry / 4 % 2 == 1

abbrev pub executable : ℕ → Bool
executable entry = entry / 2 ^ 63 % 2 == 0

-- The flags for what is allowed.
abbrev flags_for : Bool → Bool → Bool → ℕ
flags_for w x u = (if x then 0 else pte_nx) + (1 + (if w then 2 else 0) + (if u then 4 else 0))

prot_to_pte-flags_for :
    (prot : ℕ)
    → prot_to_pte prot
      ≡ flags_for
          (isset (u16 prot) prot_write)
          (isset (u16 prot) prot_exec)
          (isset (u16 prot) prot_user)
unfolding prot_to_pte
prot_to_pte-flags_for prot =
    pick (isset (u16 prot) prot_write) (isset (u16 prot) prot_exec) (isset (u16 prot) prot_user)
  where
    pick :
        (w x u : Bool)
        → (let flags = bit_or pte_p pte_nx in
            let flags' = if w then bit_or flags pte_rw else flags in
            let flags'' = if x then bit_and flags' (not64 pte_nx) else flags' in
            if u then bit_or flags'' pte_us else flags'')
          ≡ flags_for w x u
    pick true true true = refl
    pick true true false = refl
    pick true false true = refl
    pick true false false = refl
    pick false true true = refl
    pick false true false = refl
    pick false false true = refl
    pick false false false = refl

-- An entry that the processor reads as this page with these rights.
pub record Grants (pma : ℕ) (w x u : Bool) (entry : ℕ) : Type 0 where
  pub there : present entry ≡ true
  pub page : target entry ≡ pma
  pub write : writable entry ≡ w
  pub exec : executable entry ≡ x
  pub by_user : user entry ≡ u

Grants-flags_for :
    (pma : ℕ) (w x u : Bool)
    → pma % 4096 ≡ 0
    → pma < 2 ^ 52
    → Grants pma w x u (bit_or pma (flags_for w x u))
Grants-flags_for pma w true u page fits =
    let low = 1 + (if w then 2 else 0) + (if u then 4 else 0) in
    let plain : low ≡ 0 + low = omega arith in
    let sum : bit_or pma (0 + low) ≡ pma + low =
      ap (bit_or pma) (sym plain) ∙ bit_or_low pma low page (ground arith) in
    subst (Grants pma w true u) (sym sum) (record {
      there = ground arith;
      page = ground arith;
      write = ground arith;
      exec = ground arith;
      by_user = ground arith;
    })
Grants-flags_for pma w false u page fits =
    let low = 1 + (if w then 2 else 0) + (if u then 4 else 0) in
    subst (Grants pma w false u) (sym (bit_or_nx pma low page fits (ground arith))) (record {
      there = ground arith;
      page = ground arith;
      write = ground arith;
      exec = ground arith;
      by_user = ground arith;
    })

-- The entry that `mu_pmap_map` writes for a page of the first 2 ^ 52 bytes is read by the processor
-- as that page, present, and with exactly the rights to write, to execute and to access as a user
-- that the bits of `prot` ask for.
pub prot_to_pte-Grants :
    (pma prot : ℕ)
    → pma % 4096 ≡ 0
    → pma < 2 ^ 52
    → Grants pma
        (isset (u16 prot) prot_write)
        (isset (u16 prot) prot_exec)
        (isset (u16 prot) prot_user)
        (bit_or pma (prot_to_pte prot))
prot_to_pte-Grants pma prot page fits =
    subst
      (λ f.
        Grants pma (isset (u16 prot) prot_write) (isset (u16 prot) prot_exec)
          (isset (u16 prot) prot_user) (bit_or pma f))
      (sym (prot_to_pte-flags_for prot)) (Grants-flags_for pma _ _ _ page fits)
