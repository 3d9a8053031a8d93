-- ===== src/Mm/Pmem.antt =====
-- The physical frame allocator of sys/hive/mm/pmem.c: its static variables as the record `State`,
-- and its operations, which return the new state. The loops over the memory map have no bound in
-- the source and run on fuel here; `Mm.Pmem.Probe` shows that one round more than there are entries
-- is enough. The trace output is left out.
pub mod Alloc
pub mod Allocator
pub mod Frames
pub mod Init
pub mod Probe
pub mod ShortRuns
pub mod Single
use open_modality.Base.{
  ℕ, zero, suc, ◌+◌, ◌-◌, ◌*◌, ◌/◌, ◌%◌, ◌^◌, Bool, true, false, Option, none, some, List, [], ◌∷◌,
}
use open_modality.Base.Tests.{◌==◌, ltb, leb, if◌then◌else◌}
use open_modality.Base.Result.{Result, ok, err}
use open_modality.Base.Run.{Run, done, out_of_fuel, ◌>>=◌}
use open_modality.Base.Words.{u64, align_up}
use open_modality.Core.Bpt
use open_modality.Core.Bpt.{MemType, MemEntry, Hooks}
use open_modality.Core.Spinlock.{spinlock_acquire, spinlock_release}
use open_modality.Mm.Bitmap.{page_size, test_bit, bitmap_set_range}
use open_modality.Sdk.Memory.{memset}

-- `bitmap_base` is the physical address behind the pointer `bitmap`, `none` while it is null, and
-- `bitmap` the bytes that lie there. `irq` is the interrupt flag of the processor.
pub record State : Type 0 where
  pub usable_top : ℕ
  pub mem_usable : ℕ
  pub bitmap_size : ℕ
  pub bitmap_base : Option ℕ
  pub bitmap : List ℕ
  pub last_bit : ℕ
  pub bitmap_lock : ℕ
  pub irq : Bool

unfoldable pub is_usable : MemType → Bool
is_usable MemType.usable = true
is_usable _ = false

-- The body of the loop of `pmem_probe`.
unfoldable pub count_entry : MemEntry → State → State
count_entry entry s =
    let top = u64 (entry.base + entry.length) in
    if is_usable entry.type
    then record s {
      mem_usable = u64 (s.mem_usable + entry.length);
      usable_top = if ltb s.usable_top top then top else s.usable_top;
    }
    else s

unfoldable pub probe_loop : ℕ → Hooks → ℕ → State → Run State
probe_loop zero hooks i s = out_of_fuel
probe_loop (suc fuel) hooks i s = do
  r ← Bpt.bpt_get_mementry hooks i false
  elim r [ err e ↦ done s | ok entry ↦ probe_loop fuel hooks (i + 1) (count_entry entry s) ]

-- One bit for each usable page, in whole bytes.
unfoldable pub bitmap_bytes : ℕ → ℕ
bitmap_bytes mem_usable = align_up (mem_usable / page_size) 8 / 8

unfoldable pub pmem_probe : ℕ → Hooks → State → Run State
pmem_probe fuel hooks s = do
  s' ← probe_loop fuel hooks 0 s
  done (record s' { bitmap_size = bitmap_bytes s'.mem_usable })

unfoldable pub fill_loop : ℕ → Hooks → ℕ → List ℕ → Run (List ℕ)
fill_loop zero hooks i bitmap = out_of_fuel
fill_loop (suc fuel) hooks i bitmap = do
  r ← Bpt.bpt_get_mementry hooks i false
  elim r [
    | err e ↦ done bitmap
    | ok entry ↦ do
      bitmap' ←
          if is_usable entry.type
          then bitmap_set_range bitmap entry.base (u64 (entry.base + entry.length)) false
          else done bitmap
      fill_loop fuel hooks (i + 1) bitmap'
  ]

unfoldable pub pmem_fill_bitmap : ℕ → Hooks → State → Run State
pmem_fill_bitmap fuel hooks s = do
  bitmap ← memset s.bitmap 0xFF s.bitmap_size
  bitmap' ← fill_loop fuel hooks 0 bitmap
  done (record s { bitmap = bitmap' })

-- The base of the first usable entry that is long enough.
unfoldable pub place_loop : ℕ → Hooks → ℕ → ℕ → Run (Option ℕ)
place_loop zero hooks size i = out_of_fuel
place_loop (suc fuel) hooks size i = do
  r ← Bpt.bpt_get_mementry hooks i false
  elim r [
    | err e ↦ done none
    | ok entry ↦ elim (is_usable entry.type) [
      | false ↦ place_loop fuel hooks size (i + 1)
      | true ↦ elim (ltb entry.length size) [
        | true ↦ place_loop fuel hooks size (i + 1)
        | false ↦ done (some entry.base)
      ]
    ]
  ]

-- The `n` bytes that the memory holds from `p` on.
unfoldable pub bytes_from : ℕ → ℕ → (ℕ → ℕ) → List ℕ
bytes_from zero p memory = []
bytes_from (suc n) p memory = memory p ∷ bytes_from n (p + 1) memory

-- `memory` is what the physical memory holds before.
unfoldable pub pmem_alloc_bitmap : ℕ → Hooks → (ℕ → ℕ) → State → Run State
pmem_alloc_bitmap fuel hooks memory s = do
  place ← place_loop fuel hooks s.bitmap_size 0
  pmem_fill_bitmap fuel hooks (elim place [
    | none ↦ s
    | some base ↦ record s {
      bitmap_base = some base;
      bitmap = bytes_from s.bitmap_size base memory;
    }
  ])

unfoldable pub mm_pmem_init : ℕ → Hooks → (ℕ → ℕ) → State → Run State
mm_pmem_init fuel hooks memory s = do
  s' ← pmem_probe fuel hooks s
  pmem_alloc_bitmap fuel hooks memory s'

-- The search of `pmem_alloc` with the rounds that are left: `start_idx` is `none` for -1.
unfoldable pub scan : List ℕ → ℕ → ℕ → ℕ → Option ℕ → ℕ → Run (Option ℕ)
scan bitmap count zero i start_idx frames_found = done start_idx
scan bitmap count (suc rounds) i start_idx frames_found = do
  used ← test_bit bitmap i
  let start_idx' : Option ℕ = elim start_idx [ none ↦ some i | some s ↦ some s ]
  let frames_found' = u64 (frames_found + 1)
  elim used [
    | true ↦ scan bitmap count rounds (i + 1) none frames_found
    | false ↦ elim (leb count frames_found') [
      | true ↦ done start_idx'
      | false ↦ scan bitmap count rounds (i + 1) start_idx' frames_found'
    ]
  ]

unfoldable pub pmem_alloc : State → ℕ → Run (State × ℕ)
pmem_alloc s count = do
  let max_bit = s.usable_top / page_size
  start_idx ← scan s.bitmap count (max_bit - s.last_bit) s.last_bit none 0
  elim start_idx [
    | none ↦ done (s, 0)
    | some idx ↦ do
      let start = u64 (idx * page_size)
      let end = u64 (start + count * page_size)
      bitmap ← bitmap_set_range s.bitmap start end true
      done (record s { bitmap = bitmap }, start)
  ]

-- The lock is not null, so its word is there after `spinlock_acquire`; one round of spinning is
-- enough, as no other processor could release the lock.
unfoldable pub lock : State → Run State
lock s = do
  (word, irq) ← spinlock_acquire 1 (some s.bitmap_lock) true s.irq
  done (record s { bitmap_lock = elim word [ none ↦ s.bitmap_lock | some w ↦ w ]; irq = irq })

unfoldable pub unlock : State → State
unlock s = record s { bitmap_lock = spinlock_release s.bitmap_lock }

unfoldable pub mm_pmem_alloc : State → ℕ → Run (State × ℕ)
unfolding lock unlock
mm_pmem_alloc s count = do
  s1 ← lock s
  (s2, phys) ← pmem_alloc s1 count
  (s3, phys') ← if phys == 0 then pmem_alloc (record s2 { last_bit = 0 }) count else done (s2, phys)
  done (unlock s3, phys')

unfoldable pub mm_pmem_free : State → ℕ → ℕ → Run State
unfolding lock unlock
mm_pmem_free s base count = do
  s1 ← lock s
  let range_end = u64 (base + count * page_size)
  bitmap ← bitmap_set_range s1.bitmap base range_end false
  done (unlock (record s1 { bitmap = bitmap }))
