-- ===== src/Mm/Pmem/Alloc.antt =====
-- `mm_pmem_alloc` and `mm_pmem_free` on a set-up allocator: which frames they mark, that the lock is
-- given back, and when a request fails.
use open_modality.Base.{
  ℕ, zero, suc, ◌+◌, ◌-◌, ◌*◌, ◌/◌, ◌^◌, ◌≤◌, ◌<◌, ◌≡◌, ◌∙◌, refl, Bool, true, false, none, some,
  List, arith,
}
use open_modality.Base.Tests.{◌==◌, if◌then◌else◌}
use open_modality.Base.Lists.{length}
use open_modality.Base.Run.{Run, done}
use open_modality.Base.Words.{u64}
use open_modality.Core.Spinlock.{spinlock_acquire, spinlock_release}
use open_modality.Mm.Bitmap.{bitmap_set_range}
use open_modality.Mm.Bitmap.Bytes.{bit_at, IsBytes}
use open_modality.Mm.Bitmap.Range.{within, IsMarked, bitmap_set_range-IsMarked}
use open_modality.Mm.Pmem.{State, scan, pmem_alloc, lock, mm_pmem_alloc, mm_pmem_free}
use open_modality.Mm.Pmem.Frames.{AllMarked, scan-all_used, scan-run_start, scan-skip}

-- The frames that the allocator looks at.
abbrev pub frames : State → ℕ
frames s = s.usable_top / 4096

-- A set-up allocator whose lock is free: every frame below the top has its bit in the bitmap.
pub record IsReady (s : State) : Type 0 where
  pub top : s.usable_top < 2 ^ 64
  pub fits : s.usable_top / 4096 ≤ 8 * length s.bitmap
  pub bytes : IsBytes s.bitmap
  pub unlocked : s.bitmap_lock ≡ 0

-- `t` is `s` with the frames from `first` on and below `last` marked `alloc`, and no other change
-- to the bits, to the limits or to the start of the search.
pub record IsUpdated (first last : ℕ) (alloc : Bool) (s t : State) : Type 0 where
  pub ready : IsReady t
  pub same_top : t.usable_top ≡ s.usable_top
  pub same_search : t.last_bit ≡ s.last_bit
  pub bits :
      (j : ℕ) → bit_at t.bitmap j ≡ (if within first last j then alloc else bit_at s.bitmap j)

acquire_free : (irq : Bool) → spinlock_acquire 1 (some 0) true irq ≡ done (some 1, irq)
unfolding spinlock_acquire
acquire_free true = refl
acquire_free false = refl

pub lock-free : (s : State) → s.bitmap_lock ≡ 0 → lock s ≡ done (record s { bitmap_lock = 1 })
unfolding lock
lock-free s h = rw (h, acquire_free s.irq)

-- The marked range of a run of frames that have bits.
pub mark_frames :
    (s : State) (f count : ℕ) (alloc : Bool)
    → IsBytes s.bitmap
    → f + count < 2 ^ 52
    → f + count ≤ 8 * length s.bitmap
    → IsMarked f
        (f + count)
        alloc
        s.bitmap
        (bitmap_set_range s.bitmap (f * 4096) ((f + count) * 4096) alloc)
mark_frames s f count alloc bytes small inside =
    let first : (f * 4096 + 4095) / 4096 ≡ f = omega arith in
    let last : ((f + count) * 4096 + 4095) / 4096 ≡ f + count = omega arith in
    rw (first, last) at
      (bitmap_set_range-IsMarked s.bitmap (f * 4096) ((f + count) * 4096) alloc (omega arith)
        (omega arith) (omega arith) bytes)

pmem_alloc-found :
    (s : State) (f count : ℕ)
    (m : IsMarked f
      (f + count)
      true
      s.bitmap
      (bitmap_set_range s.bitmap (f * 4096) ((f + count) * 4096) true))
    → f + count < 2 ^ 52
    → scan s.bitmap count (frames s - s.last_bit) s.last_bit none 0 ≡ done (some f)
    → pmem_alloc s count ≡ done (record s { bitmap = m.out }, f * 4096)
unfolding pmem_alloc
pmem_alloc-found s f count m small found =
    let start : u64 (f * 4096) ≡ f * 4096 = omega arith in
    let end : u64 (f * 4096 + count * 4096) ≡ (f + count) * 4096 = omega arith in
    rw (found, start, end, m.returns)

-- The state after frames were marked with the lock held, and the lock given back.
after : State → List ℕ → State
after s bitmap = record s { bitmap = bitmap; bitmap_lock = 0 }

after-IsUpdated :
    (s : State) (first last : ℕ) (alloc : Bool) {run : Run (List ℕ)}
    → IsReady s
    → (m : IsMarked first last alloc s.bitmap run) → IsUpdated first last alloc s (after s m.out)
unfolding after
after-IsUpdated s first last alloc r m = record {
  ready = record {
    top = r.top;
    fits = omega (arith, m.same_length, r.fits);
    bytes = m.bytes;
    unlocked = refl;
  };
  same_top = refl;
  same_search = refl;
  bits = m.bits;
}

-- The search from the state's last bit finds the run.
scan-first_run :
    (s : State) (f count : ℕ)
    → IsReady s
    → 0 < count
    → s.last_bit ≤ f
    → f + count ≤ frames s
    → AllMarked s.bitmap true s.last_bit f
    → AllMarked s.bitmap false f (f + count)
    → scan s.bitmap count (frames s - s.last_bit) s.last_bit none 0 ≡ done (some f)
scan-first_run s f (suc need) r pos from below used free =
    scan-skip s.bitmap (suc need) (f - s.last_bit) (frames s - f) (frames s - s.last_bit) s.last_bit
      f 0 (omega arith) (omega arith) (omega (arith, r.fits)) used
    ∙ scan-run_start s.bitmap (suc need) (frames s - f) f 0 need (omega (arith, r.fits))
        (omega arith) (omega arith) (omega (arith, r.top)) free
scan-first_run s f zero r pos from below used free = absurd (omega arith)

-- Where the search returns frame `f`, not frame 0, the request is served there: whether or not all
-- the frames that are marked were free.
pub mm_pmem_alloc-found :
    (s : State) (f count : ℕ)
    → IsReady s
    → 0 < f
    → f + count < 2 ^ 52
    → f + count ≤ 8 * length s.bitmap
    → scan s.bitmap count (frames s - s.last_bit) s.last_bit none 0 ≡ done (some f)
    → (t : State) × (mm_pmem_alloc s count ≡ done (t, f * 4096)) × IsUpdated f (f + count) true s t
unfolding mm_pmem_alloc after spinlock_release
mm_pmem_alloc-found s f count r pos small inside found =
    let m = mark_frames s f count true r.bytes small inside in
    let s1 : State = record s { bitmap_lock = 1 } in
    let nonzero : (f * 4096 == 0) ≡ false = ground arith in
    (
      after s m.out,
      rw (lock-free s r.unlocked, pmem_alloc-found s1 f count m small found, nonzero),
      after-IsUpdated s f (f + count) true r m,
    )

-- If the first run of free frames at or behind the search's start does not begin at frame 0 and is
-- long enough for the request, `mm_pmem_alloc` returns its address, marks exactly the requested
-- frames, all of which were free, changes no other bit, and gives the lock back.
pub mm_pmem_alloc_first_run :
    (s : State) (f count : ℕ)
    → IsReady s
    → 0 < count
    → 0 < f
    → s.last_bit ≤ f
    → f + count ≤ frames s
    → AllMarked s.bitmap true s.last_bit f
    → AllMarked s.bitmap false f (f + count)
    → (t : State) × (mm_pmem_alloc s count ≡ done (t, f * 4096)) × IsUpdated f (f + count) true s t
mm_pmem_alloc_first_run s f count r pos pos_f from below used free =
    mm_pmem_alloc-found s f count r pos_f (omega (arith, r.top)) (omega (arith, r.fits))
      (scan-first_run s f count r pos from below used free)

pmem_alloc-none :
    (s : State) (count : ℕ)
    → s.usable_top / 4096 ≤ 8 * length s.bitmap
    → AllMarked s.bitmap true s.last_bit (frames s)
    → pmem_alloc s count ≡ done (s, 0)
unfolding pmem_alloc
pmem_alloc-none s count fits used = rw (
    scan-all_used s.bitmap count (frames s - s.last_bit) s.last_bit 0 (λ k p q. omega arith)
      (λ k p q. used k p (omega arith)))

-- With every frame below the top in use `mm_pmem_alloc` returns 0 for every request, whatever the
-- search position; it then starts over from frame 0, and leaves the bitmap alone and the lock free.
pub mm_pmem_alloc_full :
    (s : State) (count : ℕ)
    → IsReady s
    → AllMarked s.bitmap true 0 (frames s)
    → mm_pmem_alloc s count ≡ done (record s { last_bit = 0; bitmap_lock = 0 }, 0)
unfolding mm_pmem_alloc spinlock_release
mm_pmem_alloc_full s count r used =
    let s1 : State = record s { bitmap_lock = 1 } in
    let s2 : State = record s { last_bit = 0; bitmap_lock = 1 } in
    rw (
      lock-free s r.unlocked,
      pmem_alloc-none s1 count r.fits (λ k p q. used k (omega arith) q),
      pmem_alloc-none s2 count r.fits used,
    )

-- `mm_pmem_free` of whole frames below the top gives back exactly these frames and the lock.
pub mm_pmem_free_lem :
    (s : State) (f count : ℕ)
    → IsReady s
    → f + count ≤ frames s
    → (t : State) × (mm_pmem_free s (f * 4096) count ≡ done t) × IsUpdated f (f + count) false s t
unfolding mm_pmem_free after spinlock_release
mm_pmem_free_lem s f count r below =
    let m = mark_frames s f count false r.bytes (omega (arith, r.top)) (omega (arith, r.fits)) in
    let end : u64 (f * 4096 + count * 4096) ≡ (f + count) * 4096 = omega (arith, r.top) in
    (
      after s m.out,
      rw (lock-free s r.unlocked, end, m.returns),
      after-IsUpdated s f (f + count) false r m,
    )
