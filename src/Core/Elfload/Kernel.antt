-- ===== src/Core/Elfload/Kernel.antt =====
-- `elf_load_raw` over the frame allocator of sys/hive/mm/pmem.c, for segments of one page each.
use open_modality.Base.{
  ℕ, ◌+◌, ◌*◌, ◌/◌, ◌%◌, ◌^◌, ◌<◌, ◌≤◌, ◌≡◌, ◌≢◌, ◌⊎◌, ◌∙◌, inl, inr, refl, ap, true, false, arith,
}
use open_modality.Base.Ram.{Ram}
use open_modality.Base.Result.{Result}
use open_modality.Base.Run.{Run, done, fault, out_of_fuel}
use open_modality.Base.Words.{u64}
use open_modality.Core.Elfload.Copy.{IsThere}
use open_modality.Mm.Allocator.{IsAllocator}
use open_modality.Mm.Bitmap.Bytes.{bit_at}
use open_modality.Mm.Pmem.{State, mm_pmem_alloc}
use open_modality.Mm.Pmem.Alloc.{frames, mm_pmem_alloc_full}
use open_modality.Mm.Pmem.Allocator.{IsOneByOne, FrameInUse}
use open_modality.Mm.Pmem.Single.{first_free, mm_pmem_alloc_one}

-- A state of the allocator that is reached from another by handing out frames.
pub record IsFrom (before s : State) : Type 0 where
  pub one : IsOneByOne s
  pub used : (j : ℕ) → bit_at before.bitmap j ≡ true → bit_at s.bitmap j ≡ true
  pub same_top : s.usable_top ≡ before.usable_top

-- One frame is taken: it was free, also before, and lies below the top.
record IsTaken (before s t : State) (phys : ℕ) : Type 0 where
  out : mm_pmem_alloc s 1 ≡ done (t, phys)
  from : IsFrom before t
  keeps : (j : ℕ) → bit_at s.bitmap j ≡ true → bit_at t.bitmap j ≡ true
  aligned : phys % 4096 ≡ 0
  free : phys ≢ 0 → bit_at s.bitmap (phys / 4096) ≡ false
  taken : phys ≢ 0 → bit_at t.bitmap (phys / 4096) ≡ true
  below : phys ≢ 0 → phys / 4096 < frames before

take_one : (before s : State) → IsFrom before s → (t : State) × (phys : ℕ) × IsTaken before s t phys
take_one before s r = elim (first_free s.bitmap (frames s) 0) [
  | inl all ↦ (
    record s { last_bit = 0; bitmap_lock = 0 },
    0,
    record {
      out = mm_pmem_alloc_full s 1 r.one.ready (λ k p q. all k p (omega arith));
      from = record {
        one = record {
          ready = record {
            top = r.one.ready.top;
            fits = r.one.ready.fits;
            bytes = r.one.ready.bytes;
            unlocked = refl;
          };
          zero_used = r.one.zero_used;
          search = refl;
          physical = r.one.physical;
        };
        used = r.used;
        same_top = r.same_top;
      };
      keeps = λ j h. h;
      aligned = refl;
      free = λ ne. absurd (ne refl);
      taken = λ ne. absurd (ne refl);
      below = λ ne. absurd (ne refl);
    },
  )
  | inr (g, p, q, upto, free_g) ↦
      let (f, t, run, pos, le, was_free, up) =
        mm_pmem_alloc_one s g r.one.ready r.one.zero_used (omega (arith, r.one.search))
          (omega arith) free_g in
      let number : f * 4096 / 4096 ≡ f = omega arith in
      (
        t,
        f * 4096,
        record {
          out = run;
          from = record {
            one = record {
              ready = up.ready;
              zero_used = ground (arith, up.bits 0, r.one.zero_used);
              search = up.same_search ∙ r.one.search;
              physical = omega (arith, up.same_top, r.one.physical);
            };
            used = λ j h. let was = r.used j h in ground (arith, up.bits j);
            same_top = up.same_top ∙ r.same_top;
          };
          keeps = λ j h. ground (arith, up.bits j);
          aligned = omega arith;
          free = λ ne. ap (bit_at s.bitmap) number ∙ was_free;
          taken = λ ne. ground (arith, up.bits f);
          below = λ ne. let top = r.same_top in omega (arith, ap (λ b. b / 4096) top);
        },
      )
]

-- The frames that may be handed out are in memory, apart from the image.
abbrev pub Reachable : ℕ → ℕ → ℕ → Ram → State → Type 0
Reachable base eh size ram s =
    (f : ℕ)
    → f < frames s
    → bit_at s.bitmap f ≡ false
    → IsThere ram (u64 (f * 4096 + base)) 4096
      × ((eh + size ≤ u64 (f * 4096 + base)) ⊎ (u64 (f * 4096 + base) + 4096 ≤ eh))

module _ (before : State) (low : before.usable_top + 8192 ≤ 2 ^ 52) where
  below_limit : (phys : ℕ) → phys % 4096 ≡ 0 → phys / 4096 < frames before → phys + 8192 < 2 ^ 52
  below_limit phys page h = omega arith

  pub from-IsAllocator : IsAllocator (IsFrom before) FrameInUse (λ s. mm_pmem_alloc s 1)
  from-IsAllocator = record {
    take = λ s r.
        let (t, phys, k) = take_one before s r in
        record {
          state = t;
          phys = phys;
          out = k.out;
          ready = k.from;
          keeps = λ f h. k.keeps (f / 4096) h;
          fresh = λ ne. (
            (λ used. let free = k.free ne in cc),
            k.taken ne,
            k.aligned,
            (let limit = below_limit phys k.aligned (k.below ne) in omega arith),
          );
        };
  }

  address : Run (State × ℕ) → ℕ
  address (done (s, phys)) = phys
  address fault = 0
  address out_of_fuel = 0
