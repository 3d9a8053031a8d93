-- ===== src/Mu/Pmap/Init.antt =====
-- `mu_pmap_init` tears down the lower half of the address space; and the index of the fifth level.
use open_modality.Base.{
  ℕ, zero, suc, ◌+◌, ◌*◌, ◌/◌, ◌%◌, ◌^◌, ◌<◌, ◌≤◌, ◌≡◌, ◌≢◌, ◌∙◌, refl, sym, ap, none, some, inl,
  inr, arith,
}
use native.Mathlib.Decide.{ℕ_discrete}
use open_modality.Base.Tests.{◌==◌, if◌then◌else◌, Bool-cases}
use open_modality.Base.Bits.{bit_and_low}
use open_modality.Base.Result.{ok}
use open_modality.Mu.Pmap.{
  pmap_pml5, vma_level_index, clear_entries, mu_pmap_readvas, mu_pmap_writevas, mu_pmap_init,
}
use open_modality.Mu.Pmap.Entries.{bit_and-target, index, index-lt}
use open_modality.Mu.Pmap.Tree.{
  present, below, target, follow, follow-absent, walk, Shape, IsTree, slot_injective,
}

clear_entries-other :
    (rounds i top : ℕ) (memory : ℕ → ℕ) (a : ℕ)
    → ((j : ℕ) → i ≤ j → j < i + rounds → top + 8 * j ≢ a)
    → clear_entries rounds i top memory a ≡ memory a
unfolding clear_entries
clear_entries-other zero i top memory a out = refl
clear_entries-other (suc rounds) i top memory a out =
    let not_first : top + 8 * i ≢ a = out i (omega arith) (omega arith) in
    clear_entries-other rounds (i + 1) top _ a (λ j p q. out j (omega arith) (omega arith))
    ∙ ground arith

clear_entries-slot :
    (rounds i top : ℕ) (memory : ℕ → ℕ) (j : ℕ)
    → i ≤ j
    → j < i + rounds
    → clear_entries rounds i top memory (top + 8 * j) ≡ 0
unfolding clear_entries
clear_entries-slot zero i top memory j p q = absurd (omega arith)
clear_entries-slot (suc rounds) i top memory j p q = elim (ℕ_discrete i j) [
  | yes e ↦
      clear_entries-other rounds (i + 1) top _ (top + 8 * j) (λ k r t same. absurd (omega arith))
      ∙ ground arith
  | no ne ↦ clear_entries-slot rounds (i + 1) top _ j (ground arith) (omega arith)
]

module _ (memory : ℕ → ℕ) (sh : Shape) (top : ℕ) (tree : IsTree memory sh)
    (root : sh.level top ≡ 4) where
  abbrev torn : ℕ → ℕ
  torn = clear_entries 256 0 top memory

  top_aligned : top % 4096 ≡ 0
  top_aligned = tree.aligned top 3 root

  -- A word of a table other than the top one, or of the upper half of that, is as before.
  torn-kept :
      (f k j : ℕ)
      → sh.level f ≡ suc k
      → j < 512
      → (f ≡ top → 256 ≤ j)
      → torn (f + 8 * j) ≡ memory (f + 8 * j)
  torn-kept f k j lf hj upper = clear_entries-other 256 0 top memory (f + 8 * j) λ i p q e.
      let same = slot_injective top f i j top_aligned (tree.aligned f k lf) (omega arith) hj e in
      let high = upper (sym (same.0)) in absurd (omega (arith, same.1))

  module _ (way : ℕ → ℕ) (in_table : (k : ℕ) → way k < 512) where
    -- Below the top nothing has changed.
    walk-torn_below :
        (k f : ℕ) → k < 3 → sh.level f ≡ suc k → walk torn way k f ≡ walk memory way k f
    walk-torn_below zero f h lf =
        ap (λ w. follow w (some w)) (torn-kept f 0 (way 0) lf (in_table 0) (not_top f 0 h lf))
      where
        not_top : (f k : ℕ) → k < 3 → sh.level f ≡ suc k → f ≡ top → 256 ≤ way 0
        not_top f k h lf e =
            let levels : suc k ≡ 4 = sym lf ∙ ap sh.level e ∙ root in absurd (omega arith)
    walk-torn_below (suc k) f h lf =
        ap (λ w. follow w (below k w (walk torn way k (target w))))
          (torn-kept f (suc k) (way (suc k)) lf (in_table (suc k)) not_top)
        ∙ elim (Bool-cases (present (memory (f + 8 * way (suc k))))) [
          | inl on ↦
              let child = tree.entries f k (way (suc k)) lf (in_table (suc k)) on in
              ap
                (λ r.
                  follow (memory (f + 8 * way (suc k))) (below k (memory (f + 8 * way (suc k))) r))
                (walk-torn_below k _ (omega arith) child.level)
          | inr off ↦ follow-absent _ _ off ∙ sym (follow-absent _ _ off)
        ]
      where
        not_top : f ≡ top → 256 ≤ way (suc k)
        not_top e =
            let levels : suc (suc k) ≡ 4 = sym lf ∙ ap sh.level e ∙ root in absurd (omega arith)

    walk-torn_lower : way 3 < 256 → walk torn way 3 top ≡ none
    walk-torn_lower low =
        ap (λ w. follow w (below 2 w (walk torn way 2 (target w))))
          (clear_entries-slot 256 0 top memory (way 3) (omega arith) (omega arith))

    walk-torn_upper : 256 ≤ way 3 → walk torn way 3 top ≡ walk memory way 3 top
    walk-torn_upper high =
        ap (λ w. follow w (below 2 w (walk torn way 2 (target w))))
          (torn-kept top 3 (way 3) root (in_table 3) (λ e. high))
        ∙ elim (Bool-cases (present (memory (top + 8 * way 3)))) [
          | inl on ↦
              let child = tree.entries top 2 (way 3) root (in_table 3) on in
              ap (λ r. follow (memory (top + 8 * way 3)) (below 2 (memory (top + 8 * way 3)) r))
                (walk-torn_below 2 _ (omega arith) child.level)
          | inr off ↦ follow-absent _ _ off ∙ sym (follow-absent _ _ off)
        ]

-- After `mu_pmap_init`, in an address space whose tables are a tree of four levels, CR3 is as before,
-- no address of the lower half (bit 47 clear) is translated, and every address of the upper half is
-- translated as before.
pub mu_pmap_init_lem :
    (cr3 : ℕ) (memory : ℕ → ℕ) (sh : Shape) (v : ℕ)
    → IsTree memory sh
    → sh.level (target cr3) ≡ 4
    → ((mu_pmap_init cr3 memory).1 ≡ ok cr3)
      × (walk (mu_pmap_init cr3 memory).0 (index v) 3 (target cr3)
          ≡ (if v / 2 ^ 47 % 2 == 0 then none else walk memory (index v) 3 (target cr3)))
unfolding mu_pmap_init mu_pmap_readvas mu_pmap_writevas
mu_pmap_init_lem cr3 memory sh v tree root =
    let same = bit_and-target cr3 in
    let half : index v 3 / 256 ≡ v / 2 ^ 47 % 2 = omega arith in
    (
      refl,
      elim (ℕ_discrete (v / 2 ^ 47 % 2) 0) [
        | yes low ↦
            ap (λ t. walk (clear_entries 256 0 t memory) (index v) 3 (target cr3)) same
            ∙ walk-torn_lower memory sh (target cr3) tree root (index v) (index-lt v) (omega arith)
            ∙ ground arith
        | no high ↦
            ap (λ t. walk (clear_entries 256 0 t memory) (index v) 3 (target cr3)) same
            ∙ walk-torn_upper memory sh (target cr3) tree root (index v) (index-lt v) (omega arith)
            ∙ ground arith
      ],
    )

-- With five levels the index of the top table is taken from bit 47 and has ten bits: it runs past the
-- 512 entries of the table exactly for the addresses with bit 56 set.
pub vma_level_index-pml5 :
    (vma : ℕ)
    → (512 ≤ vma_level_index vma pmap_pml5 → vma / 2 ^ 56 % 2 ≡ 1)
      × (vma / 2 ^ 56 % 2 ≡ 1 → 512 ≤ vma_level_index vma pmap_pml5)
unfolding vma_level_index
vma_level_index-pml5 vma =
    let ten = bit_and_low 10 (vma / 2 ^ 47) in (λ h. omega arith, λ h. omega arith)
