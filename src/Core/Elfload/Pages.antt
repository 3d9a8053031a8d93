-- ===== src/Core/Elfload/Pages.antt =====
-- The pages of the segments once all are loaded.
use open_modality.Base.{
  ℕ, ◌+◌, ◌*◌, ◌/◌, ◌%◌, ◌^◌, ◌<◌, ◌≡◌, ◌≢◌, ◌∙◌, inl, inr, refl, bit_or, some, List, [], ◌∷◌,
  arith,
}
use open_modality.Base.Lists.{All}
use open_modality.Base.Result.{Result, ok}
use open_modality.Base.Run.{Run}
use open_modality.Core.Bpt.{Hooks}
use open_modality.Core.Elfload.{Phdr, Loader, segment_prot}
use open_modality.Core.Elfload.Sequence.{Loads, finished, skipped, loaded, stopped}
use open_modality.Core.Elfload.Placement.{segment_pages}
use open_modality.Mm.Allocator.{IsAllocator}
use open_modality.Mu.Pmap.{prot_to_pte}
use open_modality.Mu.Pmap.Map.{page_of, translate}

-- A program header that there is something to load for.
abbrev pub IsLoadable : Phdr → Type 0
IsLoadable p = (p.p_type ≡ 1) × (p.p_memsz ≢ 0)

-- The number of a segment's page, among those of the lower 48 bits.
abbrev pub page_at : Phdr → ℕ → ℕ
page_at p k = (p.p_vaddr / 4096 + k) % 2 ^ 36

-- No two segments share a page.
abbrev pub AreApart : List Phdr → Type 0
AreApart [] = Unit
AreApart (p ∷ ps) =
    All
      (λ q.
        IsLoadable p
        → IsLoadable q
        → (j k : ℕ) → j < segment_pages p
        → k < segment_pages q
        → page_at p j ≢ page_at q k)
      ps
    × AreApart ps

module _ {S : Type 0} (mm_pmem_alloc : S → ℕ → Run (S × ℕ)) {Ready : S → Type 0}
    {InUse : S → ℕ → Type 0} (a : IsAllocator Ready InUse (λ s. mm_pmem_alloc s 1)) (hooks : Hooks)
    (map_fuel cr4 cr3 eh base : ℕ) where
  abbrev Loading : List Phdr → Loader S → Loader S → Result ℕ → Type 0
  Loading = Loads mm_pmem_alloc a hooks map_fuel cr4 cr3 eh base

  -- Each page of the segment has an entry for its frame, with the rights of the segment.
  abbrev pub InPlace : Loader S → Phdr → Type 0
  InPlace l p =
      (frame : ℕ) × ((k w : ℕ)
        → k < segment_pages p
        → w / 4096 ≡ p.p_vaddr / 4096 + k
        → translate (λ s. mm_pmem_alloc s 1) a cr3 l.machine w
          ≡ some (bit_or (frame + k * 4096) (prot_to_pte (segment_prot p.p_flags))))

  -- Pages outside the segments keep their translations.
  Loads-others :
      (w : ℕ) {ps : List Phdr} {l l' : Loader S} {c : Result ℕ}
      → Loading ps l l' c
      → All (λ p. IsLoadable p → (k : ℕ) → k < segment_pages p → page_of w ≢ page_at p k) ps
      → translate (λ s. mm_pmem_alloc s 1) a cr3 l'.machine w
        ≡ translate (λ s. mm_pmem_alloc s 1) a cr3 l.machine w
  Loads-others w finished away = refl
  Loads-others w (skipped skip rest) (here, away) = Loads-others w rest away
  Loads-others w (loaded frame load some_bytes r worked rest) (here, away) =
      Loads-others w rest away ∙ r.other_pages w (here (load, some_bytes))
  Loads-others w (stopped frame load some_bytes r failed) (here, away) =
      r.other_pages w (here (load, some_bytes))

  away_from :
      (p : Phdr) (j w : ℕ) (ps : List Phdr)
      → IsLoadable p
      → j < segment_pages p
      → page_of w ≡ page_at p j
      → All
          (λ q.
            IsLoadable p
            → IsLoadable q
            → (i k : ℕ) → i < segment_pages p
            → k < segment_pages q
            → page_at p i ≢ page_at q k)
          ps
      → All (λ q. IsLoadable q → (k : ℕ) → k < segment_pages q → page_of w ≢ page_at q k) ps
  away_from p j w [] load below page apart = tt
  away_from p j w (q ∷ ps) load below page (first, apart) = (
    (λ loadable k h e. first load loadable j k below h (omega arith)),
    away_from p j w ps load below page apart,
  )

  -- Where no two segments share a page, all are in place in the end.
  pub Loads-InPlace :
      {ps : List Phdr} {l l' : Loader S} {c : Result ℕ}
      → Loading ps l l' c
      → c ≡ ok 0
      → AreApart ps
      → All (λ p. IsLoadable p → InPlace l' p) ps
  Loads-InPlace finished worked apart = tt
  Loads-InPlace (skipped skip rest) worked (here, apart) = (
    (λ (load, some_bytes). elim skip [
      | inl other ↦ absurd (other load)
      | inr empty ↦ absurd (some_bytes empty)
    ]),
    Loads-InPlace rest worked apart,
  )
  Loads-InPlace {ps = p ∷ ps} (loaded frame load some_bytes r done_well rest) worked (here, apart) =
      (
        (λ loadable. (
          frame,
          λ k w h page.
              Loads-others w rest (away_from p k w ps (load, some_bytes) h (omega arith) here)
              ∙ r.mapped done_well k w h page,
        )),
        Loads-InPlace rest worked apart,
      )
  Loads-InPlace (stopped frame load some_bytes r failed) worked apart = cc
