-- ===== src/Mu/Pmap/Extends.antt =====
-- How page tables may change: new tables come in, and no entry that was present and no translation
-- changes.
use open_modality.Base.{ℕ, suc, ◌+◌, ◌*◌, ◌%◌, ◌<◌, ◌≡◌, ◌∙◌, refl, ap, true}
use open_modality.Mu.Pmap.{Machine}
use open_modality.Mu.Pmap.Tree.{present, walk, Shape, IsTree}

-- The tables of the second memory are those of the first and perhaps more.
pub record Extends (memory : ℕ → ℕ) (sh : Shape) (memory' : ℕ → ℕ) (sh' : Shape) : Type 0 where
  pub tree : IsTree memory' sh'
  pub levels : (f k : ℕ) → sh.level f ≡ suc k → sh'.level f ≡ suc k
  pub walks :
      (way : ℕ → ℕ)
      → ((k : ℕ) → way k < 512)
      → (k f : ℕ) → sh.level f ≡ suc k
      → walk memory' way k f ≡ walk memory way k f
  pub kept :
      (f k j : ℕ)
      → sh.level f ≡ suc (suc k)
      → j < 512
      → present (memory (f + 8 * j)) ≡ true
      → memory' (f + 8 * j) ≡ memory (f + 8 * j)

pub Extends-refl : (memory : ℕ → ℕ) (sh : Shape) → IsTree memory sh → Extends memory sh memory sh
Extends-refl memory sh tree = record {
  tree = tree;
  levels = λ f k e. e;
  walks = λ way small k f e. refl;
  kept = λ f k j e small there. refl;
}

pub Extends-trans :
    {m1 m2 m3 : ℕ → ℕ} {s1 s2 s3 : Shape}
    → Extends m1 s1 m2 s2
    → Extends m2 s2 m3 s3
    → Extends m1 s1 m3 s3
Extends-trans p q = record {
  tree = q.tree;
  levels = λ f k e. q.levels f k (p.levels f k e);
  walks = λ way small k f e. q.walks way small k f (p.levels f k e) ∙ p.walks way small k f e;
  kept = λ f k j e small there.
      let same = p.kept f k j e small there in
      q.kept f k j (p.levels f (suc k) e) small (ap present same ∙ there) ∙ same;
}

-- A frame in use that is no table stays so, and its words stay as they are.
pub record Spared {S : Type 0} (InUse : S → ℕ → Type 0) (m m' : Machine S) (sh' : Shape) (f : ℕ)
    : Type 0 where
  pub used : InUse m'.frames f
  pub no_table : sh'.level f ≡ 0
  pub words : (j : ℕ) → j < 4096 → m'.memory (f + j) ≡ m.memory (f + j)

abbrev pub Spares : {S : Type 0} → (S → ℕ → Type 0) → Machine S → Shape → Machine S → Shape → Type 0
Spares InUse m sh m' sh' =
    (f : ℕ) → f % 4096 ≡ 0 → InUse m.frames f → sh.level f ≡ 0 → Spared InUse m m' sh' f

pub Spares-trans :
    {S : Type 0} (InUse : S → ℕ → Type 0) (m1 m2 m3 : Machine S) (s1 s2 s3 : Shape)
    → Spares InUse m1 s1 m2 s2
    → Spares InUse m2 s2 m3 s3
    → Spares InUse m1 s1 m3 s3
Spares-trans InUse m1 m2 m3 s1 s2 s3 p q f page used no_table =
    let first = p f page used no_table in
    let second = q f page first.used first.no_table in
    record {
      used = second.used;
      no_table = second.no_table;
      words = λ j h. second.words j h ∙ first.words j h;
    }
