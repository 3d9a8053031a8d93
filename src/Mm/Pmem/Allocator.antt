-- ===== src/Mm/Pmem/Allocator.antt =====
-- `mm_pmem_alloc(1)` is an allocator in the sense of `Mm.Allocator`.
use open_modality.Base.{ℕ, ◌*◌, ◌/◌, ◌^◌, ◌≤◌, ◌<◌, ◌≡◌, ◌∙◌, refl, true, false, inl, inr, arith}
use open_modality.Base.Run.{Run}
use open_modality.Mm.Allocator.{Taken, IsAllocator}
use open_modality.Mm.Bitmap.Bytes.{bit_at}
use open_modality.Mm.Pmem.{State, mm_pmem_alloc}
use open_modality.Mm.Pmem.Alloc.{frames, IsReady, mm_pmem_alloc_full}
use open_modality.Mm.Pmem.Single.{first_free, mm_pmem_alloc_one}

-- The allocator is set up, below the 52 bits of a physical address, with frame 0 in use.
pub record IsOneByOne (s : State) : Type 0 where
  pub ready : IsReady s
  pub zero_used : bit_at s.bitmap 0 ≡ true
  pub search : s.last_bit ≡ 0
  pub physical : s.usable_top ≤ 2 ^ 52

abbrev pub FrameInUse : State → ℕ → Type 0
FrameInUse s a = bit_at s.bitmap (a / 4096) ≡ true

abbrev pub alloc_one : State → Run (State × ℕ)
alloc_one s = mm_pmem_alloc s 1

take_free :
    (s : State) (f : ℕ)
    → IsOneByOne s
    → f < frames s
    → bit_at s.bitmap f ≡ false
    → Taken IsOneByOne FrameInUse s (alloc_one s)
take_free s g r below free =
    let (f, t, run, pos, upto, was_free, up) =
      mm_pmem_alloc_one s g r.ready r.zero_used (omega (arith, r.search)) below free in
    let number : f * 4096 / 4096 ≡ f = omega arith in
    record {
      state = t;
      phys = f * 4096;
      out = run;
      ready = record {
        ready = up.ready;
        zero_used = ground (arith, up.bits 0, r.zero_used);
        search = up.same_search ∙ r.search;
        physical = omega (arith, up.same_top, r.physical);
      };
      keeps = λ a used. ground (arith, up.bits (a / 4096));
      fresh = λ nz. (
        (λ used. ground arith),
        ground (arith, up.bits f),
        omega arith,
        omega (arith, r.physical),
      );
    }

-- While there is a free frame below the top, one is handed out, and 0 when there is none.
pub mm_pmem_alloc-IsAllocator : IsAllocator IsOneByOne FrameInUse alloc_one
mm_pmem_alloc-IsAllocator = record {
  take = λ s r. elim (first_free s.bitmap (frames s) 0) [
    | inl all ↦ record {
      state = record s { last_bit = 0; bitmap_lock = 0 };
      phys = 0;
      out = mm_pmem_alloc_full s 1 r.ready (λ k p q. all k p (omega arith));
      ready = record {
        ready = record {
          top = r.ready.top;
          fits = r.ready.fits;
          bytes = r.ready.bytes;
          unlocked = refl;
        };
        zero_used = r.zero_used;
        search = refl;
        physical = r.physical;
      };
      keeps = λ a used. used;
      fresh = λ nz. absurd (nz refl);
    }
    | inr (f, p, q, before, free) ↦ take_free s f r (omega arith) free
  ];
}
