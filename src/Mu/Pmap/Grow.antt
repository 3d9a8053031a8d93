-- ===== src/Mu/Pmap/Grow.antt =====
-- A fresh, cleared table is hung into an empty entry: the tables stay a tree, and no translation
-- changes.
use mathlib.Core.Path.{subst}
use native.Mathlib.Decide.{ℕ_discrete}
use open_modality.Base.{
  ℕ, zero, suc, ◌+◌, ◌*◌, ◌%◌, ◌^◌, ◌<◌, ◌≡◌, ◌≢◌, ◌∙◌, sym, ap, true, false, none, some, inl, inr,
  arith,
}
use open_modality.Base.Tests.{◌==◌, if◌then◌else◌, Bool-cases}
use open_modality.Sdk.Memory.{poke}
use open_modality.Mu.Pmap.{clear_page}
use open_modality.Mu.Pmap.Tree.{
  present, large, below, below-table, target, follow, follow-present, follow-absent, walk, Shape,
  IsChild, IsTree, slot_injective,
}

-- The shape with a new table of level `n` at `phys`, in the place `i` of `base`.
abbrev pub shape_with : Shape → ℕ → ℕ → ℕ → ℕ → Shape
shape_with sh base n i phys = record {
  level = λ f. if f == phys then suc n else sh.level f;
  parent = λ f. if f == phys then base else sh.parent f;
  place = λ f. if f == phys then i else sh.place f;
}

module _ (memory : ℕ → ℕ) (sh : Shape) (base n i phys : ℕ) (tree : IsTree memory sh)
    (here : sh.level base ≡ suc (suc n)) (small : i < 512)
    (empty : present (memory (base + 8 * i)) ≡ false) (fresh : sh.level phys ≡ 0)
    (page : phys % 4096 ≡ 0) (fits : phys < 2 ^ 52) where
  abbrev pub grown : ℕ → ℕ
  grown = poke (clear_page memory phys) (base + 8 * i) (phys + 7)

  abbrev pub grown_shape : Shape
  grown_shape = shape_with sh base n i phys

  base_aligned : base % 4096 ≡ 0
  base_aligned = tree.aligned base (suc n) here

  apart : (f k : ℕ) → sh.level f ≡ suc k → f ≢ phys
  apart f k lf e = ground (arith, ap sh.level e)

  grown-slot : grown (base + 8 * i) ≡ phys + 7
  grown-slot = ground arith

  grown-fresh : (j : ℕ) → j < 512 → grown (phys + 8 * j) ≡ 0
  grown-fresh j hj =
      let other : base ≢ phys = apart base (suc n) here in
      let not_slot : base + 8 * i ≢ phys + 8 * j =
        λ e. other (slot_injective base phys i j base_aligned page small hj e).0 in
      ground arith

  -- Every other word of a table is as before.
  grown-other :
      (f k j : ℕ)
      → sh.level f ≡ suc k
      → j < 512
      → base + 8 * i ≢ f + 8 * j
      → grown (f + 8 * j) ≡ memory (f + 8 * j)
  grown-other f k j lf hj not_slot =
      let other : f ≢ phys = apart f k lf in let af = tree.aligned f k lf in ground arith

  -- No word of another frame changes.
  pub grown-elsewhere :
      (f j : ℕ) → f % 4096 ≡ 0 → f ≢ phys → f ≢ base → j < 4096 → grown (f + j) ≡ memory (f + j)
  grown-elsewhere f j af not_fresh not_base hj = let aligned = base_aligned in ground arith

  target-slot : target (phys + 7) ≡ phys
  target-slot = omega arith

  large-slot : large (phys + 7) ≡ false
  large-slot = ground arith

  present-slot : present (phys + 7) ≡ true
  present-slot = ground arith

  pub grown_level-old : (f k : ℕ) → sh.level f ≡ suc k → grown_shape.level f ≡ suc k
  grown_level-old f k lf = let other : f ≢ phys = apart f k lf in ground arith

  IsChild-grown : (f k j c : ℕ) → IsChild sh f k j c → IsChild grown_shape f k j c
  IsChild-grown f k j c child =
      let other : c ≢ phys = apart c k child.level in
      let level = child.level in
      let parent = child.parent in
      let place = child.place in
      record { level = ground arith; parent = ground arith; place = ground arith }

  IsChild-fresh : IsChild grown_shape base n i phys
  IsChild-fresh = record { level = ground arith; parent = ground arith; place = ground arith }

  -- The entries of the tables there were.
  entries-old :
      (f k j : ℕ)
      → sh.level f ≡ suc (suc k)
      → j < 512
      → present (grown (f + 8 * j)) ≡ true
      → IsChild grown_shape f k j (target (grown (f + 8 * j)))
  entries-old f k j lf hj there = elim (ℕ_discrete (base + 8 * i) (f + 8 * j)) [
    | yes slot ↦
        let same =
          slot_injective base f i j base_aligned (tree.aligned f (suc k) lf) small hj slot in
        let level : suc (suc n) ≡ suc (suc k) = sym here ∙ ap sh.level (same.0) ∙ lf in
        let depth : n ≡ k = omega arith in
        let word : target (grown (f + 8 * j)) ≡ phys =
          ap target (ap grown (sym slot) ∙ grown-slot) ∙ target-slot in
        subst (λ c. IsChild grown_shape f k j c) (sym word)
          (subst (λ g. IsChild grown_shape g k j phys) (same.0)
            (subst (λ m. IsChild grown_shape base m j phys) depth
              (subst (λ m. IsChild grown_shape base n m phys) (same.1) IsChild-fresh)))
    | no other ↦
        let word = grown-other f (suc k) j lf hj other in
        let before : present (memory (f + 8 * j)) ≡ true =
          subst (λ w. present w ≡ true) word there in
        subst (λ w. IsChild grown_shape f k j (target w)) (sym word)
          (IsChild-grown f k j _ (tree.entries f k j lf hj before))
  ]

  tables-old :
      (f k j : ℕ)
      → sh.level f ≡ suc (suc k)
      → j < 512
      → present (grown (f + 8 * j)) ≡ true
      → large (grown (f + 8 * j)) ≡ false
  tables-old f k j lf hj there = elim (ℕ_discrete (base + 8 * i) (f + 8 * j)) [
    | yes slot ↦ ap large (ap grown (sym slot) ∙ grown-slot) ∙ large-slot
    | no other ↦
        let word = grown-other f (suc k) j lf hj other in
        ap large word ∙ tree.tables f k j lf hj (subst (λ w. present w ≡ true) word there)
  ]

  pub grown-IsTree : IsTree grown grown_shape
  grown-IsTree = record {
    aligned = λ f k lf. elim (ℕ_discrete f phys) [
      | yes e ↦ rw e page
      | no ne ↦ tree.aligned f k (ground arith)
    ];
    entries = λ f k j lf hj there. elim (ℕ_discrete f phys) [
      | yes e ↦
          let zero_word : grown (f + 8 * j) ≡ 0 =
            ap (λ g. grown (g + 8 * j)) e ∙ grown-fresh j hj in
          let gone : present 0 ≡ true = subst (λ w. present w ≡ true) zero_word there in cc
      | no ne ↦ entries-old f k j (ground arith) hj there
    ];
    tables = λ f k j lf hj there. elim (ℕ_discrete f phys) [
      | yes e ↦ ap large (ap (λ g. grown (g + 8 * j)) e ∙ grown-fresh j hj)
      | no ne ↦ tables-old f k j (ground arith) hj there
    ];
  }

  module _ (index : ℕ → ℕ) (in_table : (k : ℕ) → index k < 512) where
    walk-fresh : (k : ℕ) → walk grown index k phys ≡ none
    walk-fresh zero = let word = grown-fresh (index 0) (in_table 0) in ground arith
    walk-fresh (suc k) = let word = grown-fresh (index (suc k)) (in_table (suc k)) in ground arith

    pub walk-grown : (k f : ℕ) → sh.level f ≡ suc k → walk grown index k f ≡ walk memory index k f
    walk-grown zero f lf =
        let not_slot : base + 8 * i ≢ f + 8 * index 0 = λ e.
          let same =
            slot_injective base f i (index 0) base_aligned (tree.aligned f 0 lf) small (in_table 0)
              e in
          let levels : suc (suc n) ≡ 1 = sym here ∙ ap sh.level (same.0) ∙ lf in
          absurd (omega arith) in
        let word = grown-other f 0 (index 0) lf (in_table 0) not_slot in
        ap (λ w. follow w (some w)) word
    walk-grown (suc k) f lf = elim (ℕ_discrete (base + 8 * i) (f + 8 * index (suc k))) [
      | yes slot ↦
          let word : grown (f + 8 * index (suc k)) ≡ phys + 7 = ap grown (sym slot) ∙ grown-slot in
          let before : present (memory (f + 8 * index (suc k))) ≡ false =
            subst (λ a. present (memory a) ≡ false) slot empty in
          ap (λ w. follow w (below k w (walk grown index k (target w)))) word
          ∙ follow-present (phys + 7) _ present-slot
          ∙ below-table k (phys + 7) _ large-slot
          ∙ ap (walk grown index k) target-slot
          ∙ walk-fresh k
          ∙ sym (follow-absent _ _ before)
      | no other ↦
          let word = grown-other f (suc k) (index (suc k)) lf (in_table (suc k)) other in
          elim (Bool-cases (present (memory (f + 8 * index (suc k))))) [
            | inl there ↦
                let child = tree.entries f k (index (suc k)) lf (in_table (suc k)) there in
                ap (λ w. follow w (below k w (walk grown index k (target w)))) word
                ∙ ap
                    (λ r.
                      follow (memory (f + 8 * index (suc k)))
                        (below k (memory (f + 8 * index (suc k))) r))
                    (walk-grown k _ child.level)
            | inr gone ↦
                ap (λ w. follow w (below k w (walk grown index k (target w)))) word
                ∙ follow-absent _ _ gone
                ∙ sym (follow-absent _ _ gone)
          ]
    ]

  -- An entry that was present is no place for the new table.
  pub kept-grown :
      (f k j : ℕ)
      → sh.level f ≡ suc (suc k)
      → j < 512
      → present (memory (f + 8 * j)) ≡ true
      → grown (f + 8 * j) ≡ memory (f + 8 * j)
  kept-grown f k j lf hj there = grown-other f (suc k) j lf hj λ slot.
      let gone : present (memory (f + 8 * j)) ≡ false =
        subst (λ a. present (memory a) ≡ false) slot empty in
      cc

  pub grown_entry : (target (grown (base + 8 * i)) ≡ phys) × (present (grown (base + 8 * i)) ≡ true)
  grown_entry = (ap target grown-slot ∙ target-slot, ap present grown-slot ∙ present-slot)

  pub grown_level-fresh : grown_shape.level phys ≡ suc n
  grown_level-fresh = ground arith
