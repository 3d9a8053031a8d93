-- ===== src/Mm/Pmem/ShortRuns.antt =====
-- Requests of several frames for which `pmem_alloc` hands out frames that it must not: the count of
-- frames found is not reset when a run ends, and a run that reaches the top of memory is returned
-- however short it is.
use open_modality.Base.{
  ℕ, suc, ◌+◌, ◌-◌, ◌*◌, ◌^◌, ◌≤◌, ◌<◌, ◌≡◌, ◌∙◌, refl, true, false, none, some, arith,
}
use open_modality.Base.Lists.{length}
use open_modality.Base.Run.{done}
use open_modality.Mm.Bitmap.Bytes.{bit_at}
use open_modality.Mm.Pmem.{State, scan, mm_pmem_alloc}
use open_modality.Mm.Pmem.Alloc.{frames, IsReady, IsUpdated, mm_pmem_alloc-found}
use open_modality.Mm.Pmem.Frames.{
  AllMarked, scan-skip, scan-free_start, scan-short, scan-run_start, scan-partial_start,
}

module _ (s : State) (r : IsReady s) (f : ℕ) (pos_f : 0 < f) (from : s.last_bit ≤ f)
    (used : AllMarked s.bitmap true s.last_bit f) where
  scan-carried :
      (k need : ℕ)
      → f + suc k + 1 + suc need ≤ frames s
      → AllMarked s.bitmap false f (f + suc k)
      → bit_at s.bitmap (f + suc k) ≡ true
      → AllMarked s.bitmap false (f + suc k + 1) (f + suc k + 1 + suc need)
      → scan s.bitmap (suc k + suc need) (frames s - s.last_bit) s.last_bit none 0
        ≡ done (some (f + suc k + 1))
  scan-carried k need below free gap free' =
      let count = suc k + suc need in
      let rounds = frames s - (f + suc k + 1) in
      scan-skip s.bitmap count (f - s.last_bit) (suc (k + suc rounds)) (frames s - s.last_bit)
        s.last_bit f 0 (omega arith) (omega arith) (omega (arith, r.fits)) used
      ∙ scan-free_start s.bitmap count (k + suc rounds) f 0 (omega (arith, r.fits))
          (free f (omega arith) (omega arith))
      ∙ scan-short s.bitmap count (suc k) rounds (suc (k + suc rounds)) f (f + suc k) f 0
          (omega arith) refl (omega (arith, r.fits)) (omega arith) (omega (arith, r.top)) free gap
      ∙ scan-run_start s.bitmap count rounds (f + suc k + 1) (0 + suc k) need
          (omega (arith, r.fits)) (omega arith) (omega arith) (omega (arith, r.top)) free'

  -- A free run of `suc k` frames, a frame in use, a free run of `suc need` frames and a frame in use:
  -- a request of `suc k + suc need` frames is served at the second run, which is too short for it.
  -- The frame in use behind that run is among the frames handed out.
  pub mm_pmem_alloc_carried :
      (k need : ℕ)
      → f + suc k + 1 + (suc k + suc need) ≤ frames s
      → AllMarked s.bitmap false f (f + suc k)
      → bit_at s.bitmap (f + suc k) ≡ true
      → AllMarked s.bitmap false (f + suc k + 1) (f + suc k + 1 + suc need)
      → bit_at s.bitmap (f + suc k + 1 + suc need) ≡ true
      → (t : State) × (x : ℕ) × (mm_pmem_alloc s (suc k + suc need)
          ≡ done (t, (f + suc k + 1) * 4096))
        × (f + suc k + 1 ≤ x)
        × (x < f + suc k + 1 + (suc k + suc need))
        × (bit_at s.bitmap x ≡ true)
  mm_pmem_alloc_carried k need below free gap free' busy =
      let (t, run, up) =
        mm_pmem_alloc-found s (f + suc k + 1) (suc k + suc need) r (omega arith)
          (omega (arith, r.top)) (omega (arith, r.fits))
          (scan-carried k need (omega arith) free gap free') in
      (t, f + suc k + 1 + suc need, run, omega arith, omega arith, busy)

  -- If all frames from `f` to the top are free but they are fewer than the request, and the bitmap has
  -- bits for the whole request, the request is served at `f` all the same, and marks all its frames:
  -- those past the top too.
  pub mm_pmem_alloc_past_top :
      (count : ℕ)
      → f < frames s
      → frames s < f + count
      → f + count ≤ 8 * length s.bitmap
      → f + count < 2 ^ 52
      → AllMarked s.bitmap false f (frames s)
      → (t : State) × (mm_pmem_alloc s count ≡ done (t, f * 4096))
        × IsUpdated f (f + count) true s t
  mm_pmem_alloc_past_top count below past inside small free =
      let found =
        scan-skip s.bitmap count (f - s.last_bit) (frames s - f) (frames s - s.last_bit) s.last_bit
          f 0 (omega arith) (omega arith) (omega (arith, r.fits)) used
        ∙ scan-partial_start s.bitmap count (frames s - f) f (omega (arith, r.fits)) (omega arith)
            (omega arith) (omega arith) (λ k p q. free k p (omega arith)) in
      let (t, run, up) = mm_pmem_alloc-found s f count r pos_f small inside found in (t, run, up)
