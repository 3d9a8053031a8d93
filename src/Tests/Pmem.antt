-- ===== src/Tests/Pmem.antt =====
-- Frame allocators and memory maps of a few pages, and the theorems about them at these.
use open_modality.Base.{
  ℕ, zero, suc, ◌+◌, ◌*◌, ◌/◌, ◌≤◌, ◌<◌, ◌≡◌, refl, Bool, true, false, ◌&&◌, not, some, List, [],
  ◌∷◌, arith,
}
use native.Mathlib.Decide.{ℕ_discrete}
use mathlib.Core.Path.{subst}
use open_modality.Base.Run.{done}
use open_modality.Mm.Bitmap.{byte_test, bitmap_set_range}
use open_modality.Mm.Bitmap.Bytes.{bit_at, IsBytes}
use open_modality.Mm.Bitmap.Range.{IsMarked, bitmap_set_range-IsMarked}
use open_modality.Mm.Pmem.{State, mm_pmem_alloc, mm_pmem_free}
use open_modality.Mm.Pmem.Alloc.{IsReady, IsUpdated, mm_pmem_alloc_first_run, mm_pmem_alloc_full}
use open_modality.Mm.Pmem.Frames.{AllMarked}
use open_modality.Mm.Pmem.ShortRuns.{mm_pmem_alloc_carried, mm_pmem_alloc_past_top}
use open_modality.Mm.Pmem.Single.{mm_pmem_alloc_one, mm_pmem_free-mm_pmem_alloc}

-- An allocator with two bytes of bitmap and a top of `top` frames.
abbrev allocator : ℕ → ℕ → ℕ → State
allocator top low high = record {
  usable_top = top * 4096;
  mem_usable = top * 4096;
  bitmap_size = 2;
  bitmap_base = some 0;
  bitmap = low ∷ high ∷ [];
  last_bit = 0;
  bitmap_lock = 0;
  irq = true;
}

two-IsBytes : (low high : ℕ) → low < 256 → high < 256 → IsBytes (low ∷ high ∷ [])
two-IsBytes low high p q zero = p
two-IsBytes low high p q (suc zero) = q
two-IsBytes low high p q (suc (suc i)) = omega arith

-- Frames 1 to 3 and 5 to 15 are free.
abbrev some_free : State
some_free = allocator 16 0x11 0

some_free-IsReady : IsReady some_free
some_free-IsReady = record {
  top = omega arith;
  fits = omega arith;
  bytes = two-IsBytes 0x11 0 (omega arith) (omega arith);
  unlocked = refl;
}

same_mark : Bool → Bool → Bool
same_mark true b = b
same_mark false b = not b

same_mark_eq : (b c : Bool) → same_mark b c ≡ true → c ≡ b
unfolding same_mark
same_mark_eq true c h = h
same_mark_eq false true h = ground arith
same_mark_eq false false h = refl

-- A check of `n` frames from `i` on.
marked_from : List ℕ → Bool → ℕ → ℕ → Bool
marked_from a b zero i = true
marked_from a b (suc n) i = same_mark b (bit_at a i) && marked_from a b n (i + 1)

marked_from-AllMarked :
    (a : List ℕ) (b : Bool) (n i j : ℕ) → i + n ≡ j → marked_from a b n i ≡ true → AllMarked a b i j
unfolding marked_from
marked_from-AllMarked a b zero i j e h k p q = absurd (omega arith)
marked_from-AllMarked a b (suc n) i j e h k p q = elim (ℕ_discrete i k) [
  | yes same ↦ subst (λ x. bit_at a x ≡ b) same (same_mark_eq b (bit_at a i) (ground arith))
  | no ne ↦ marked_from-AllMarked a b n (i + 1) j (omega arith) (ground arith) k (omega arith) q
]

mm_pmem_alloc_first_run_example :
    (t : State) × (mm_pmem_alloc some_free 3 ≡ done (t, 1 * 4096))
    × IsUpdated 1 (1 + 3) true some_free t
unfolding marked_from same_mark byte_test
mm_pmem_alloc_first_run_example =
    mm_pmem_alloc_first_run some_free 1 3 some_free-IsReady (omega arith) (omega arith)
      (omega arith) (omega arith) (marked_from-AllMarked (0x11 ∷ 0 ∷ []) true 1 0 1 refl refl)
      (marked_from-AllMarked (0x11 ∷ 0 ∷ []) false 3 1 4 refl refl)

mm_pmem_alloc_one_example :
    (f : ℕ) × (t : State) × (mm_pmem_alloc some_free 1 ≡ done (t, f * 4096))
    × (0 < f)
    × (f ≤ 5)
    × (bit_at some_free.bitmap f ≡ false)
    × IsUpdated f (f + 1) true some_free t
unfolding byte_test
mm_pmem_alloc_one_example =
    mm_pmem_alloc_one some_free 5 some_free-IsReady refl (omega arith) (omega arith) refl

mm_pmem_free-mm_pmem_alloc_example :
    (t : State) × (u : State) × (mm_pmem_alloc some_free 3 ≡ done (t, 1 * 4096))
    × (mm_pmem_free t (1 * 4096) 3 ≡ done u)
    × ((j : ℕ) → bit_at u.bitmap j ≡ bit_at some_free.bitmap j)
unfolding marked_from same_mark byte_test
mm_pmem_free-mm_pmem_alloc_example =
    mm_pmem_free-mm_pmem_alloc some_free 1 3 some_free-IsReady (omega arith) (omega arith)
      (omega arith) (omega arith) (marked_from-AllMarked (0x11 ∷ 0 ∷ []) true 1 0 1 refl refl)
      (marked_from-AllMarked (0x11 ∷ 0 ∷ []) false 3 1 4 refl refl)

-- Every frame is in use.
abbrev full : State
full = allocator 16 0xFF 0xFF

full-IsReady : IsReady full
full-IsReady = record {
  top = omega arith;
  fits = omega arith;
  bytes = two-IsBytes 0xFF 0xFF (omega arith) (omega arith);
  unlocked = refl;
}

mm_pmem_alloc_full_example :
    mm_pmem_alloc full 2 ≡ done (record full { last_bit = 0; bitmap_lock = 0 }, 0)
unfolding marked_from same_mark byte_test
mm_pmem_alloc_full_example =
    mm_pmem_alloc_full full 2 full-IsReady
      (marked_from-AllMarked (0xFF ∷ 0xFF ∷ []) true 16 0 16 refl refl)

-- Frame 1 is free, frame 2 in use, frame 3 free and frame 4 in use: a request of two frames gets
-- frames 3 and 4.
abbrev holes : State
holes = allocator 16 0xF5 0xFF

holes-IsReady : IsReady holes
holes-IsReady = record {
  top = omega arith;
  fits = omega arith;
  bytes = two-IsBytes 0xF5 0xFF (omega arith) (omega arith);
  unlocked = refl;
}

mm_pmem_alloc_carried_example :
    (t : State) × (x : ℕ) × (mm_pmem_alloc holes 2 ≡ done (t, 3 * 4096))
    × (3 ≤ x)
    × (x < 5)
    × (bit_at holes.bitmap x ≡ true)
unfolding marked_from same_mark byte_test
mm_pmem_alloc_carried_example =
    mm_pmem_alloc_carried holes holes-IsReady 1 (omega arith) (omega arith)
      (marked_from-AllMarked (0xF5 ∷ 0xFF ∷ []) true 1 0 1 refl refl) 0 0 (omega arith)
      (marked_from-AllMarked (0xF5 ∷ 0xFF ∷ []) false 1 1 2 refl refl) refl
      (marked_from-AllMarked (0xF5 ∷ 0xFF ∷ []) false 1 3 4 refl refl) refl

-- Frames 0 to 9 are in use, and 10 and 11 are the last below the top.
abbrev near_top : State
near_top = allocator 12 0xFF 0x03

near_top-IsReady : IsReady near_top
near_top-IsReady = record {
  top = omega arith;
  fits = omega arith;
  bytes = two-IsBytes 0xFF 0x03 (omega arith) (omega arith);
  unlocked = refl;
}

mm_pmem_alloc_past_top_example :
    (t : State) × (mm_pmem_alloc near_top 4 ≡ done (t, 10 * 4096))
    × IsUpdated 10 (10 + 4) true near_top t
unfolding marked_from same_mark byte_test
mm_pmem_alloc_past_top_example =
    mm_pmem_alloc_past_top near_top near_top-IsReady 10 (omega arith) (omega arith)
      (marked_from-AllMarked (0xFF ∷ 0x03 ∷ []) true 10 0 10 refl refl) 4 (omega arith)
      (omega arith) (omega arith) (omega arith)
      (marked_from-AllMarked (0xFF ∷ 0x03 ∷ []) false 2 10 12 refl refl)

bitmap_set_range-IsMarked_example :
    IsMarked
      ((4097 + 4095) / 4096)
      ((16384 + 4095) / 4096)
      true
      (0 ∷ 0 ∷ [])
      (bitmap_set_range (0 ∷ 0 ∷ []) 4097 16384 true)
bitmap_set_range-IsMarked_example =
    bitmap_set_range-IsMarked (0 ∷ 0 ∷ []) 4097 16384 true (omega arith) (omega arith) (omega arith)
      (two-IsBytes 0 0 (omega arith) (omega arith))
