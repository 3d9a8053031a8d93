-- ===== src/Mm/Pmem/Init.antt =====
-- `mm_pmem_init`: what `pmem_probe` counts, where the bitmap is put, and which frames are free after.
pub mod BitmapFrame
pub mod Fault
use open_modality.Base.{
  ℕ, zero, suc, ◌+◌, ◌-◌, ◌*◌, ◌/◌, ◌%◌, ◌^◌, ◌≤◌, ◌<◌, ◌≡◌, ◌⊎◌, inl, inr, ◌∙◌, refl, ap, Bool,
  true, false, not, ◌&&◌, Option, none, some, List, [], ◌∷◌, ◌++◌, append-nil, arith,
}
use open_modality.Base.Tests.{◌==◌, ltb, leb, if◌then◌else◌, Bool-cases}
use open_modality.Base.Lists.{length, All, replicate, drop, length-replicate}
use open_modality.Base.Run.{Run, done, ◌>>=◌}
use open_modality.Base.Words.{u64}
use open_modality.Base.Align.{align_up_eight}
use open_modality.Core.Bpt.{MemEntry, Hooks}
use open_modality.Core.Bpt.Laws.{Serves}
use open_modality.Mm.Bitmap.{page_size}
use open_modality.Mm.Bitmap.Bytes.{bit_at, IsBytes}
use open_modality.Mm.Bitmap.Full.{get_or-full_bound, bit_at-full}
use open_modality.Mm.Pmem.{
  State, is_usable, count_entry, probe_loop, pmem_probe, pmem_fill_bitmap, fill_loop, place_loop,
  bytes_from, pmem_alloc_bitmap, mm_pmem_init, bitmap_bytes,
}
use open_modality.Mm.Pmem.Alloc.{IsReady}
use open_modality.Mm.Pmem.Probe.{
  count_all, probe_loop-count_all, read-behind, Serves-next, length-next, end_frame, usable_frame,
  InRange, Covered, IsFilled, fill_loop-IsFilled,
}
use open_modality.Sdk.Memory.{memset}
use open_modality.Sdk.Memory.Laws.{memset_lem}

-- The bytes of usable memory.
unfoldable pub total : List MemEntry → ℕ
total [] = 0
total (e ∷ es) = (if is_usable e.type then e.length else 0) + total es

-- The base of the first usable entry of at least `size` bytes.
unfoldable pub first_place : ℕ → List MemEntry → Option ℕ
first_place size [] = none
first_place size (e ∷ es) =
    if is_usable e.type && leb size e.length then some e.base else first_place size es

-- All fields that the probe leaves alone.
record IsCounted (es : List MemEntry) (s t : State) : Type 0 where
  mem_usable : t.mem_usable ≡ s.mem_usable + total es
  bound :
      (b : ℕ)
      → s.usable_top ≤ b
      → All (λ e. is_usable e.type ≡ true → e.base + e.length ≤ b) es
      → t.usable_top ≤ b
  grows : s.usable_top ≤ t.usable_top
  covers : All (λ e. is_usable e.type ≡ true → e.base + e.length ≤ t.usable_top) es
  lock : t.bitmap_lock ≡ s.bitmap_lock
  irq : t.irq ≡ s.irq
  last_bit : t.last_bit ≡ s.last_bit

module _ (e : MemEntry) (s : State) (le : e.base + e.length ≤ 2 ^ 64 - 4096) where
  count_entry-mem_usable :
      s.mem_usable + (if is_usable e.type then e.length else 0) < 2 ^ 64
      → (count_entry e s).mem_usable ≡ s.mem_usable + (if is_usable e.type then e.length else 0)
  unfolding count_entry
  count_entry-mem_usable h = ground arith

  count_entry-bound :
      (b : ℕ)
      → s.usable_top ≤ b
      → (is_usable e.type ≡ true → e.base + e.length ≤ b)
      → (count_entry e s).usable_top ≤ b
  unfolding count_entry
  count_entry-bound b p q = elim (Bool-cases (is_usable e.type)) [
    | inr skip ↦ rw skip p
    | inl hit ↦ rw hit (ground (arith, q hit))
  ]

  count_entry-grows : s.usable_top ≤ (count_entry e s).usable_top
  unfolding count_entry
  count_entry-grows = elim (Bool-cases (is_usable e.type)) [
    | inr skip ↦ rw skip (omega arith)
    | inl hit ↦ rw hit (ground arith)
  ]

  count_entry-covers : is_usable e.type ≡ true → e.base + e.length ≤ (count_entry e s).usable_top
  unfolding count_entry
  count_entry-covers hit = rw hit (ground arith)

  count_entry-same :
      ((count_entry e s).bitmap_lock ≡ s.bitmap_lock)
      × ((count_entry e s).irq ≡ s.irq)
      × ((count_entry e s).last_bit ≡ s.last_bit)
  unfolding count_entry
  count_entry-same = ground arith

count_all-IsCounted :
    (es : List MemEntry) (s : State)
    → InRange es
    → s.mem_usable + total es < 2 ^ 64
    → IsCounted es s (count_all es s)
unfolding count_all total
count_all-IsCounted [] s in_range h = record {
  mem_usable = omega arith;
  bound = λ b p q. p;
  grows = omega arith;
  covers = tt;
  lock = refl;
  irq = refl;
  last_bit = refl;
}
count_all-IsCounted (e ∷ es) s (le, in_range) h =
    let one = count_entry-mem_usable e s le (omega arith) in
    let rest = count_all-IsCounted es (count_entry e s) in_range (omega arith) in
    let same = count_entry-same e s le in
    record {
      mem_usable = omega (arith, rest.mem_usable);
      bound = λ b p q. rest.bound b (count_entry-bound e s le b p q.0) q.1;
      grows = let here = count_entry-grows e s le in omega (arith, rest.grows);
      covers = (
        (λ hit. let here = count_entry-covers e s le hit in omega (arith, rest.grows)),
        rest.covers,
      );
      lock = rest.lock ∙ same.0;
      irq = rest.irq ∙ same.1;
      last_bit = rest.last_bit ∙ same.2;
    }

module _ (hooks : Hooks) (size : ℕ) where
  pub place_loop-first_place :
      (fuel : ℕ) (pre rest : List MemEntry)
      → Serves hooks (pre ++ rest)
      → length rest < fuel
      → place_loop fuel hooks size (length pre) ≡ done (first_place size rest)
  unfolding place_loop first_place
  place_loop-first_place zero pre rest serves h = absurd (omega arith)
  place_loop-first_place (suc fuel) pre [] serves h = rw (read-behind hooks pre [] serves)
  place_loop-first_place (suc fuel) pre (e ∷ rest) serves h =
      let next : place_loop fuel hooks size (length pre + 1) ≡ done (first_place size rest) =
        rw (length-next hooks pre e) (
          place_loop-first_place fuel (pre ++ e ∷ []) rest (Serves-next hooks pre e rest serves)
            (omega arith)) in
      rw (read-behind hooks pre (e ∷ rest) serves) (ground (arith, next))

drop-length : (n : ℕ) (s : List ℕ) → length s ≡ n → drop n s ≡ []
drop-length zero [] e = refl
drop-length zero (x ∷ s) e = absurd (omega arith)
drop-length (suc n) [] e = absurd (omega arith)
drop-length (suc n) (x ∷ s) e = drop-length n s (omega arith)

pub memset-full : (s : List ℕ) (n : ℕ) → length s ≡ n → memset s 0xFF n ≡ done (replicate n 0xFF)
memset-full s n e =
    ground (arith, memset_lem s 0xFF n, drop-length n s e, append-nil {A = ℕ} (replicate n 0xFF))

pub length-bytes_from : (n p : ℕ) (memory : ℕ → ℕ) → length (bytes_from n p memory) ≡ n
unfolding bytes_from
length-bytes_from zero p memory = refl
length-bytes_from (suc n) p memory = ap suc (length-bytes_from n (p + 1) memory)

pub bitmap_bytes_lem : (m : ℕ) → m < 2 ^ 64 → bitmap_bytes m ≡ (m / 4096 + 7) / 8
unfolding bitmap_bytes
bitmap_bytes_lem m h = omega (arith, align_up_eight (m / 4096))

-- The state that `mm_pmem_init` starts from: the counters are zero and the lock is free.
pub record IsStart (s : State) : Type 0 where
  pub no_top : s.usable_top ≡ 0
  pub no_memory : s.mem_usable ≡ 0
  pub unlocked : s.bitmap_lock ≡ 0

-- After the probe: the amount of memory, a top within any bound on the entries, the bitmap's size.
pub record IsProbed (es : List MemEntry) (run : Run State) : Type 0 where
  pub out : State
  pub returns : run ≡ done out
  pub bound :
      (b : ℕ) → All (λ e. is_usable e.type ≡ true → e.base + e.length ≤ b) es → out.usable_top ≤ b
  pub covers : All (λ e. is_usable e.type ≡ true → e.base + e.length ≤ out.usable_top) es
  pub size : out.bitmap_size ≡ bitmap_bytes (total es)
  pub unlocked : out.bitmap_lock ≡ 0

pub pmem_probe-IsProbed :
    (hooks : Hooks) (es : List MemEntry) (fuel : ℕ) (s : State)
    → Serves hooks es
    → length es < fuel
    → IsStart s
    → InRange es
    → total es < 2 ^ 64
    → IsProbed es (pmem_probe fuel hooks s)
unfolding pmem_probe
pmem_probe-IsProbed hooks es fuel s serves h start in_range small =
    let counted = count_all-IsCounted es s in_range (omega (arith, start.no_memory)) in
    let sum : (count_all es s).mem_usable ≡ total es =
      omega (arith, counted.mem_usable, start.no_memory) in
    record {
      out = record (count_all es s) { bitmap_size = bitmap_bytes (count_all es s).mem_usable };
      returns = rw (probe_loop-count_all hooks fuel [] es s serves h);
      bound = λ b ends. counted.bound b (omega (arith, start.no_top)) ends;
      covers = counted.covers;
      size = ap bitmap_bytes sum;
      unlocked = counted.lock ∙ start.unlocked;
    }

-- What `mm_pmem_init` makes of a memory map.
pub record IsInit (es : List MemEntry) (base : ℕ) (t : State) : Type 0 where
  pub ready : IsReady t
  pub covers : All (λ e. is_usable e.type ≡ true → e.base + e.length ≤ t.usable_top) es
  pub least :
      (b : ℕ) → All (λ e. is_usable e.type ≡ true → e.base + e.length ≤ b) es → t.usable_top ≤ b
  pub place : t.bitmap_base ≡ some base
  pub size : length t.bitmap ≡ (total es / 4096 + 7) / 8
  pub free : (j : ℕ) → j < 8 * length t.bitmap → bit_at t.bitmap j ≡ not (usable_frame es j)

end_frame_below :
    (size : ℕ) (es : List MemEntry)
    → Covered size es
    → All (λ e. is_usable e.type ≡ true → e.base + e.length ≤ 8 * size * 4096) es
end_frame_below size [] c = tt
end_frame_below size (e ∷ es) (c, cs) = ((λ u. omega (arith, c u)), end_frame_below size es cs)

end_frame_le :
    (es : List MemEntry)
    → InRange es
    → All (λ e. is_usable e.type ≡ true → e.base + e.length ≤ 2 ^ 64 - 4096) es
end_frame_le [] c = tt
end_frame_le (e ∷ es) (c, cs) = ((λ u. c), end_frame_le es cs)

module _ (hooks : Hooks) (es : List MemEntry) (fuel : ℕ) (serves : Serves hooks es)
    (enough : length es < fuel) (in_range : InRange es) where
  -- The bitmap placed and filled.
  fill :
      (size : ℕ)
      → Covered size es
      → IsFilled es (replicate size 0xFF) (fill_loop fuel hooks 0 (replicate size 0xFF))
  fill size covered =
      let len : length {A = ℕ} (replicate size 0xFF) ≡ size = length-replicate size 0xFF in
      fill_loop-IsFilled hooks fuel [] es (replicate size 0xFF) serves enough in_range
        (rw len covered) (get_or-full_bound size)

  pmem_alloc_bitmap-fill :
      (memory : ℕ → ℕ) (q : State) (base : ℕ) (covered : Covered q.bitmap_size es)
      → first_place q.bitmap_size es ≡ some base
      → pmem_alloc_bitmap fuel hooks memory q
        ≡ done (record q { bitmap_base = some base; bitmap = (fill q.bitmap_size covered).out })
  unfolding pmem_alloc_bitmap pmem_fill_bitmap
  pmem_alloc_bitmap-fill memory q base covered place =
      let n = q.bitmap_size in
      rw (
        place_loop-first_place hooks n fuel [] es serves enough,
        place,
        memset-full (bytes_from n base memory) n (length-bytes_from n base memory),
        (fill n covered).returns,
      )

-- For a memory map whose usable frames all have a bit in a bitmap of one bit for each usable page,
-- and that has a usable entry which can hold this bitmap, `mm_pmem_init` returns when given one
-- round of fuel more than there are entries. Then the allocator is set up with its lock free, its top
-- is the end of the usable entry that ends highest, the bitmap lies in the first entry that can hold
-- it, and the frames marked free are exactly those that lie in usable entries.
pub mm_pmem_init_lem :
    (hooks : Hooks) (es : List MemEntry) (fuel : ℕ) (memory : ℕ → ℕ) (s : State) (base : ℕ)
    → Serves hooks es
    → length es < fuel
    → IsStart s
    → InRange es
    → total es < 2 ^ 64
    → Covered ((total es / 4096 + 7) / 8) es
    → first_place ((total es / 4096 + 7) / 8) es ≡ some base
    → (t : State) × (mm_pmem_init fuel hooks memory s ≡ done t) × IsInit es base t
unfolding mm_pmem_init
mm_pmem_init_lem hooks es fuel memory s base serves h start in_range small covered place =
    let p = pmem_probe-IsProbed hooks es fuel s serves h start in_range small in
    let n = p.out.bitmap_size in
    let size : n ≡ (total es / 4096 + 7) / 8 = p.size ∙ bitmap_bytes_lem (total es) small in
    let cov : Covered n es = rw size covered in
    let filled = fill hooks es fuel serves h in_range n cov in
    let len : length {A = ℕ} (replicate n 0xFF) ≡ n = length-replicate n 0xFF in
    (
      record p.out { bitmap_base = some base; bitmap = filled.out },
      rw (
        p.returns,
        pmem_alloc_bitmap-fill hooks es fuel serves h in_range memory p.out base cov
            (rw size place),
      ),
      record {
        ready = record {
          top = omega (arith, p.bound (2 ^ 64 - 4096) (end_frame_le es in_range));
          fits =
              omega
                (arith, p.bound (8 * n * 4096) (end_frame_below n es cov), filled.same_length, len);
          bytes = filled.bytes;
          unlocked = p.unlocked;
        };
        covers = p.covers;
        least = p.bound;
        place = refl;
        size = filled.same_length ∙ len ∙ size;
        free = λ j below. ground (arith, filled.bits j, bit_at-full n j, filled.same_length, len);
      },
    )
