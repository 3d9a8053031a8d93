-- ===== src/Mm/Pmem/Frames.antt =====
-- The search of `pmem_alloc` over a bitmap: when it finds a run, when it finds nothing, and where
-- the run that it returns is too short.
use open_modality.Base.{
  ℕ, zero, suc, ◌+◌, ◌*◌, ◌^◌, ◌≤◌, ◌<◌, ◌≡◌, ◌⊎◌, inl, inr, ◌∙◌, refl, Bool, true, false, Option,
  none, some, List, arith,
}
use open_modality.Base.Tests.{leb, Bool-cases}
use open_modality.Base.Lists.{length}
use open_modality.Base.Run.{done}
use open_modality.Base.Words.{u64}
use open_modality.Mm.Bitmap.Bytes.{bit_at, test_bit-bit_at}
use open_modality.Mm.Pmem.{scan}

-- The frames from `i` on and below `j` all have the mark `b`.
abbrev pub AllMarked : List ℕ → Bool → ℕ → ℕ → Type 0
AllMarked bitmap b i j = (k : ℕ) → i ≤ k → k < j → bit_at bitmap k ≡ b

module _ (bitmap : List ℕ) (count : ℕ) where
  pub scan-used :
      (rounds i : ℕ) (start : Option ℕ) (found : ℕ)
      → i < 8 * length bitmap
      → bit_at bitmap i ≡ true
      → scan bitmap count (suc rounds) i start found ≡ scan bitmap count rounds (i + 1) none found
  unfolding scan
  scan-used rounds i start found h used = rw (test_bit-bit_at bitmap i h, used)

  scan-free_on :
      (rounds i s : ℕ) (found : ℕ)
      → i < 8 * length bitmap
      → bit_at bitmap i ≡ false
      → found + 1 < count
      → count < 2 ^ 64
      → scan bitmap count (suc rounds) i (some s) found
        ≡ scan bitmap count rounds (i + 1) (some s) (found + 1)
  unfolding scan
  scan-free_on rounds i s found h free more small = ground (arith, test_bit-bit_at bitmap i h)

  scan-free_end :
      (rounds i s : ℕ) (found : ℕ)
      → i < 8 * length bitmap
      → bit_at bitmap i ≡ false
      → found + 1 ≡ count
      → count < 2 ^ 64
      → scan bitmap count (suc rounds) i (some s) found ≡ done (some s)
  unfolding scan
  scan-free_end rounds i s found h free last small = ground (arith, test_bit-bit_at bitmap i h)

  -- At a free frame it is the same to start a run there as to have started one there.
  pub scan-free_start :
      (rounds i found : ℕ)
      → i < 8 * length bitmap
      → bit_at bitmap i ≡ false
      → scan bitmap count (suc rounds) i none found
        ≡ scan bitmap count (suc rounds) i (some i) found
  unfolding scan
  scan-free_start rounds i found h free = rw (test_bit-bit_at bitmap i h, free)

  -- Inside a free run that is long enough for the rest of the request.
  pub scan-run :
      (rounds i s found need : ℕ)
      → i + rounds ≤ 8 * length bitmap
      → found + suc need ≡ count
      → suc need ≤ rounds
      → count < 2 ^ 64
      → AllMarked bitmap false i (i + suc need)
      → scan bitmap count rounds i (some s) found ≡ done (some s)
  scan-run zero i s found need fits e enough small free = absurd (omega arith)
  scan-run (suc rounds) i s found zero fits e enough small free =
      scan-free_end rounds i s found (omega arith) (free i (omega arith) (omega arith))
        (omega arith) small
  scan-run (suc rounds) i s found (suc need) fits e enough small free =
      scan-free_on rounds i s found (omega arith) (free i (omega arith) (omega arith)) (omega arith)
        small
      ∙ scan-run rounds (i + 1) s (found + 1) need (omega arith) (omega arith) (omega arith) small
          (λ k p q. free k (omega arith) (omega arith))

  -- The same where the run starts here.
  pub scan-run_start :
      (rounds i found need : ℕ)
      → i + rounds ≤ 8 * length bitmap
      → found + suc need ≡ count
      → suc need ≤ rounds
      → count < 2 ^ 64
      → AllMarked bitmap false i (i + suc need)
      → scan bitmap count rounds i none found ≡ done (some i)
  scan-run_start zero i found need fits e enough small free = absurd (omega arith)
  scan-run_start (suc rounds) i found need fits e enough small free =
      scan-free_start rounds i found (omega arith) (free i (omega arith) (omega arith))
      ∙ scan-run (suc rounds) i i found need fits e enough small free

  pub scan-all_used :
      (rounds i found : ℕ)
      → ((k : ℕ) → i ≤ k → k < i + rounds → k < 8 * length bitmap)
      → AllMarked bitmap true i (i + rounds)
      → scan bitmap count rounds i none found ≡ done none
  scan-all_used zero i found fits used = unfold scan in refl
  scan-all_used (suc rounds) i found fits used =
      scan-used rounds i none found (fits i (omega arith) (omega arith))
        (used i (omega arith) (omega arith))
      ∙ scan-all_used rounds (i + 1) found (λ k p q. fits k (omega arith) (omega arith))
          (λ k p q. used k (omega arith) (omega arith))

  -- Frames in use are skipped; the count of frames found stays as it was.
  pub scan-skip :
      (skip rounds total i j found : ℕ)
      → total ≡ skip + rounds
      → j ≡ i + skip
      → j + rounds ≤ 8 * length bitmap
      → AllMarked bitmap true i j
      → scan bitmap count total i none found ≡ scan bitmap count rounds j none found
  scan-skip zero rounds total i j found e f fits used =
      let e' : total ≡ rounds = omega arith in let f' : j ≡ i = omega arith in rw (e', f')
  scan-skip (suc skip) rounds total i j found e f fits used =
      let e' : total ≡ suc (skip + rounds) = omega arith in
      rw e' (
        scan-used (skip + rounds) i none found (omega arith) (used i (omega arith) (omega arith))
        ∙ scan-skip skip rounds (skip + rounds) (i + 1) j found refl (omega arith) fits
            (λ k p q. used k (omega arith) q))

  -- A run that is too short for the request: the search goes on behind the used frame that ends it,
  -- with the frames of the run still counted.
  pub scan-short :
      (len rounds total i j s found : ℕ)
      → total ≡ len + suc rounds
      → j ≡ i + len
      → j + suc rounds ≤ 8 * length bitmap
      → found + len < count
      → count < 2 ^ 64
      → AllMarked bitmap false i j
      → bit_at bitmap j ≡ true
      → scan bitmap count total i (some s) found
        ≡ scan bitmap count rounds (j + 1) none (found + len)
  scan-short zero rounds total i j s found e f fits less small free used =
      let e' : total ≡ suc rounds = omega arith in
      let f' : i ≡ j = omega arith in
      let g : found + 0 ≡ found = omega arith in
      rw (e', f', g) (scan-used rounds j (some s) found (omega arith) used)
  scan-short (suc len) rounds total i j s found e f fits less small free used =
      let e' : total ≡ suc (len + suc rounds) = omega arith in
      let g : found + suc len ≡ found + 1 + len = omega arith in
      rw (e', g)
        (scan-free_on (len + suc rounds) i s found (omega arith)
            (free i (omega arith) (omega arith)) (omega arith) small
          ∙ scan-short len rounds (len + suc rounds) (i + 1) j s (found + 1) refl (omega arith) fits
              (omega arith) small (λ k p q. free k (omega arith) q) used)

  -- A run that reaches the end of memory is returned however short it is.
  scan-partial :
      (rounds i s found : ℕ)
      → i + rounds ≤ 8 * length bitmap
      → found + rounds < count
      → count < 2 ^ 64
      → AllMarked bitmap false i (i + rounds)
      → scan bitmap count rounds i (some s) found ≡ done (some s)
  scan-partial zero i s found fits less small free = unfold scan in refl
  scan-partial (suc rounds) i s found fits less small free =
      scan-free_on rounds i s found (omega arith) (free i (omega arith) (omega arith)) (omega arith)
        small
      ∙ scan-partial rounds (i + 1) s (found + 1) (omega arith) (omega arith) small
          (λ k p q. free k (omega arith) (omega arith))

  pub scan-partial_start :
      (rounds i : ℕ)
      → i + rounds ≤ 8 * length bitmap
      → 0 < rounds
      → rounds < count
      → count < 2 ^ 64
      → AllMarked bitmap false i (i + rounds)
      → scan bitmap count rounds i none 0 ≡ done (some i)
  scan-partial_start zero i fits pos less small free = absurd (omega arith)
  scan-partial_start (suc rounds) i fits pos less small free =
      scan-free_start rounds i 0 (omega arith) (free i (omega arith) (omega arith))
      ∙ scan-partial (suc rounds) i i 0 fits (omega arith) small free

  -- What `r` may be when the search starts at `i` with `start`: the old start or a free frame.
  abbrev pub Starts : ℕ → ℕ → Option ℕ → Option ℕ → Type 0
  Starts rounds i start r =
      (s : ℕ)
      → r ≡ some s
      → (start ≡ some s) ⊎ ((i ≤ s) × (s < i + rounds) × (bit_at bitmap s ≡ false))

  scan-free_step :
      (rounds i s found : ℕ)
      → i < 8 * length bitmap
      → bit_at bitmap i ≡ false
      → (scan bitmap count (suc rounds) i (some s) found ≡ done (some s))
        ⊎ (scan bitmap count (suc rounds) i (some s) found
            ≡ scan bitmap count rounds (i + 1) (some s) (u64 (found + 1)))
  unfolding scan
  scan-free_step rounds i s found h free = elim (Bool-cases (leb count (u64 (found + 1)))) [
    | inl enough ↦ inl (ground (arith, test_bit-bit_at bitmap i h))
    | inr more ↦ inr (ground (arith, test_bit-bit_at bitmap i h))
  ]

  -- Whatever run the search returns, its first frame lies in the searched range and is free.
  pub scan_sound :
      (rounds i : ℕ) (start : Option ℕ) (found : ℕ)
      → i + rounds ≤ 8 * length bitmap
      → (r : Option ℕ) × (scan bitmap count rounds i start found ≡ done r) × Starts rounds i start r
  scan_sound zero i start found fits = (start, unfold scan in refl, λ s e. inl e)
  scan_sound (suc rounds) i start found fits = elim (Bool-cases (bit_at bitmap i)) [
    | inl used ↦
        let (r, run, first) = scan_sound rounds (i + 1) none found (omega arith) in
        (
          r,
          scan-used rounds i start found (omega arith) used ∙ run,
          λ s e. elim (first s e) [ inl bad ↦ cc | inr h ↦ inr (omega arith, omega arith, h.2) ],
        )
    | inr free ↦
        let (s, begun, from) = begin start in
        let (r, run, first) = scan_sound rounds (i + 1) (some s) (u64 (found + 1)) (omega arith) in
        elim (scan-free_step rounds i s found (omega arith) free) [
          | inl ended ↦ (some s, begun free ∙ ended, λ t e. from t e free)
          | inr on ↦ (
            r,
            begun free ∙ on ∙ run,
            λ t e. elim (first t e) [
              | inl old ↦ from t old free
              | inr h ↦ inr (omega arith, omega arith, h.2)
            ],
          )
        ]
  ]
    where
      begin :
          (o : Option ℕ)
          → (s : ℕ) × (bit_at bitmap i ≡ false
              → scan bitmap count (suc rounds) i o found
                ≡ scan bitmap count (suc rounds) i (some s) found)
            × ((t : ℕ)
                → some s ≡ some t
                → bit_at bitmap i ≡ false
                → (o ≡ some t) ⊎ ((i ≤ t) × (t < i + suc rounds) × (bit_at bitmap t ≡ false)))
      begin none = (
        i,
        scan-free_start rounds i found (omega arith),
        λ t e free. let same : i ≡ t = cc in inr (omega arith, omega arith, rw (← same) free),
      )
      begin (some s) = (s, (λ free. refl), λ t e free. inl e)
