-- ===== src/Mu/Pmap/Leaf.antt =====
-- A page's entry is written: the tables stay a tree, the page is translated by the new entry, and
-- every other way keeps its translation.
use open_modality.Base.{
  ℕ, zero, suc, ◌+◌, ◌*◌, ◌<◌, ◌≡◌, ◌≢◌, ◌∙◌, sym, ap, true, some, inl, inr, arith,
}
use mathlib.Core.Path.{subst}
use open_modality.Base.Tests.{Bool-cases}
use open_modality.Sdk.Memory.{poke}
use open_modality.Mu.Pmap.Tree.{
  present, large, below, below-table, target, follow, follow-present, follow-absent, walk, leaf_of,
  Shape, IsChild, IsTree, slot_injective,
}

module _ (memory : ℕ → ℕ) (sh : Shape) (leaf i v : ℕ) (tree : IsTree memory sh)
    (here : sh.level leaf ≡ 1) (small : i < 512) where
  abbrev pub written : ℕ → ℕ
  written = poke memory (leaf + 8 * i) v

  written-slot : written (leaf + 8 * i) ≡ v
  written-slot = ground arith

  pub written-other : (a : ℕ) → leaf + 8 * i ≢ a → written a ≡ memory a
  written-other a h = ground arith

  -- A table that is no leaf does not hold the word.
  elsewhere : (f k j : ℕ) → sh.level f ≡ suc (suc k) → j < 512 → leaf + 8 * i ≢ f + 8 * j
  elsewhere f k j lf hj e =
      let same =
        slot_injective leaf f i j (tree.aligned leaf 0 here) (tree.aligned f (suc k) lf) small hj
          e in
      let levels : 1 ≡ suc (suc k) = sym here ∙ ap sh.level (same.0) ∙ lf in absurd (omega arith)

  pub written-IsTree : IsTree written sh
  written-IsTree = record {
    aligned = tree.aligned;
    entries = λ f k j lf hj there.
        let word = written-other (f + 8 * j) (elsewhere f k j lf hj) in
        subst (λ w. IsChild sh f k j (target w)) (sym word)
          (tree.entries f k j lf hj (subst (λ w. present w ≡ true) word there));
    tables = λ f k j lf hj there.
        let word = written-other (f + 8 * j) (elsewhere f k j lf hj) in
        ap large word ∙ tree.tables f k j lf hj (subst (λ w. present w ≡ true) word there);
  }

  module _ (index : ℕ → ℕ) (in_table : (k : ℕ) → index k < 512) where
    pub walk-written_self :
        (k f : ℕ)
        → sh.level f ≡ suc k
        → leaf_of memory index k f ≡ some leaf
        → index 0 ≡ i
        → present v ≡ true
        → walk written index k f ≡ some v
    walk-written_self zero f lf way e there =
        let same : f ≡ leaf = cc in
        let word : written (f + 8 * index 0) ≡ v =
          ap (λ j. written (f + 8 * j)) e ∙ ap (λ g. written (g + 8 * i)) same ∙ written-slot in
        ap (λ w. follow w (some w)) word ∙ follow-present v (some v) there
    walk-written_self (suc k) f lf way e there =
        let word =
          written-other (f + 8 * index (suc k))
            (elsewhere f k (index (suc k)) lf (in_table (suc k))) in
        elim (Bool-cases (present (memory (f + 8 * index (suc k))))) [
          | inl on ↦
              let child = tree.entries f k (index (suc k)) lf (in_table (suc k)) on in
              ap (λ w. follow w (below k w (walk written index k (target w)))) word
              ∙ follow-present _ _ on
              ∙ below-table k _ _ (tree.tables f k (index (suc k)) lf (in_table (suc k)) on)
              ∙ walk-written_self k _ child.level (sym (follow-present _ _ on) ∙ way) e there
          | inr off ↦
              let no_way =
                sym (
                  follow-absent _ (leaf_of memory index k (target (memory (f + 8 * index (suc k)))))
                    off)
                ∙ way in
              cc
        ]

    pub walk-written_other :
        (k f : ℕ)
        → sh.level f ≡ suc k
        → (leaf_of memory index k f ≡ some leaf → index 0 ≢ i)
        → walk written index k f ≡ walk memory index k f
    walk-written_other zero f lf differs =
        let not_slot : leaf + 8 * i ≢ f + 8 * index 0 = λ e.
          let same =
            slot_injective leaf f i (index 0) (tree.aligned leaf 0 here) (tree.aligned f 0 lf) small
              (in_table 0) e in
          absurd (differs (ap some (sym (same.0))) (sym (same.1))) in
        ap (λ w. follow w (some w)) (written-other (f + 8 * index 0) not_slot)
    walk-written_other (suc k) f lf differs =
        let word =
          written-other (f + 8 * index (suc k))
            (elsewhere f k (index (suc k)) lf (in_table (suc k))) in
        ap (λ w. follow w (below k w (walk written index k (target w)))) word
        ∙ elim (Bool-cases (present (memory (f + 8 * index (suc k))))) [
          | inl on ↦
              let child = tree.entries f k (index (suc k)) lf (in_table (suc k)) on in
              ap
                (λ r.
                  follow (memory (f + 8 * index (suc k)))
                    (below k (memory (f + 8 * index (suc k))) r))
                (walk-written_other k _ child.level (λ way. differs (follow-present _ _ on ∙ way)))
          | inr off ↦ follow-absent _ _ off ∙ sym (follow-absent _ _ off)
        ]
