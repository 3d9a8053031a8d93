-- ===== src/Mm/Pmem/Init/Fault.antt =====
-- Memory maps with holes: `pmem_probe` sizes the bitmap by the amount of usable memory, while
-- `pmem_fill_bitmap` indexes it by frame number.
use open_modality.Base.{
  ℕ, zero, suc, ◌+◌, ◌*◌, ◌/◌, ◌^◌, ◌<◌, ◌≡◌, ◌∙◌, inl, inr, Bool, true, false, ◌&&◌, ◌||◌, some,
  List, [], ◌∷◌, ◌++◌, arith,
}
use native.Mathlib.Decide.{dec_lt}
use open_modality.Base.Tests.{ltb, Bool-cases}
use open_modality.Base.Lists.{All, length, length-replicate, replicate}
use open_modality.Base.Run.{fault}
use open_modality.Base.Words.{u64}
use open_modality.Core.Bpt.{MemEntry, Hooks}
use open_modality.Core.Bpt.Laws.{Serves}
use open_modality.Mm.Bitmap.Bytes.{IsBytes}
use open_modality.Mm.Bitmap.Full.{get_or-full_bound}
use open_modality.Mm.Bitmap.Range.{bitmap_set_range-IsMarked, bitmap_set_range-fault}
use open_modality.Mm.Pmem.{
  State, is_usable, fill_loop, bytes_from, pmem_alloc_bitmap, pmem_fill_bitmap, mm_pmem_init,
}
use open_modality.Mm.Pmem.Init.{
  total, first_place, IsStart, pmem_probe-IsProbed, place_loop-first_place, memset-full,
  length-bytes_from, bitmap_bytes_lem,
}
use open_modality.Mm.Pmem.Probe.{
  read-behind, Serves-next, length-next, first_frame, end_frame, InRange,
}

-- Every usable entry holds a frame.
abbrev pub HoldFrames : List MemEntry → Type 0
HoldFrames = All (λ e. is_usable e.type ≡ true → first_frame e < end_frame e)

-- Some usable entry ends behind the last frame that a bitmap of `size` bytes has a bit for.
unfoldable pub reaches_past : ℕ → List MemEntry → Bool
reaches_past size [] = false
reaches_past size (e ∷ es) =
    (is_usable e.type && ltb (8 * size) (end_frame e)) || reaches_past size es

module _ (hooks : Hooks) where
  fill_loop-fault :
      (fuel : ℕ) (pre rest : List MemEntry) (a : List ℕ)
      → Serves hooks (pre ++ rest)
      → length rest < fuel
      → InRange rest
      → HoldFrames rest
      → IsBytes a
      → reaches_past (length a) rest ≡ true
      → fill_loop fuel hooks (length pre) a ≡ fault
  unfolding fill_loop reaches_past
  fill_loop-fault zero pre rest a serves h in_range hold bytes past = absurd (omega arith)
  fill_loop-fault (suc fuel) pre [] a serves h in_range hold bytes past = cc
  fill_loop-fault (suc fuel) pre (e ∷ rest) a serves h (le, in_range) (some_frame, hold) bytes
        past =
      let serves' = Serves-next hooks pre e rest serves in
      let whole : u64 (e.base + e.length) ≡ e.base + e.length = omega arith in
      rw (read-behind hooks pre (e ∷ rest) serves, length-next hooks pre e)
        (elim (Bool-cases (is_usable e.type)) [
          | inr skip ↦ rw skip (
              fill_loop-fault fuel (pre ++ e ∷ []) rest a serves' (omega arith) in_range hold bytes
                (ground arith))
          | inl hit ↦ elim (dec_lt (8 * length a) (end_frame e)) [
            | yes out ↦ rw (
              hit,
              whole,
              bitmap_set_range-fault a e.base (e.base + e.length) false (omega arith) le
                  (some_frame hit) out,
            )
            | no inside ↦
                let m =
                  bitmap_set_range-IsMarked a e.base (e.base + e.length) false (omega arith) le
                    (omega arith) bytes in
                rw (hit, whole, m.returns)
                  (fill_loop-fault fuel (pre ++ e ∷ []) rest m.out serves' (omega arith) in_range
                    hold m.bytes (rw m.same_length (ground arith)))
          ]
        ])

-- For a memory map in which some usable entry reaches past the frames that one bit for each usable
-- page accounts for, as every map with a large enough hole has one, `mm_pmem_init` accesses the
-- bitmap out of its bounds.
pub mm_pmem_init_hole :
    (hooks : Hooks) (es : List MemEntry) (fuel : ℕ) (memory : ℕ → ℕ) (s : State) (base : ℕ)
    → Serves hooks es
    → length es < fuel
    → IsStart s
    → InRange es
    → HoldFrames es
    → total es < 2 ^ 64
    → first_place ((total es / 4096 + 7) / 8) es ≡ some base
    → reaches_past ((total es / 4096 + 7) / 8) es ≡ true
    → mm_pmem_init fuel hooks memory s ≡ fault
unfolding mm_pmem_init pmem_alloc_bitmap pmem_fill_bitmap
mm_pmem_init_hole hooks es fuel memory s base serves h start in_range hold small place past =
    let p = pmem_probe-IsProbed hooks es fuel s serves h start in_range small in
    let n = p.out.bitmap_size in
    let size : n ≡ (total es / 4096 + 7) / 8 = p.size ∙ bitmap_bytes_lem (total es) small in
    let len : length {A = ℕ} (replicate n 0xFF) ≡ n = length-replicate n 0xFF in
    let place' : first_place n es ≡ some base = rw size place in
    let past' : reaches_past (length {A = ℕ} (replicate n 0xFF)) es ≡ true = rw (len, size) past in
    rw (
      p.returns,
      place_loop-first_place hooks n fuel [] es serves h,
      place',
      memset-full (bytes_from n base memory) n (length-bytes_from n base memory),
      fill_loop-fault hooks fuel [] es (replicate n 0xFF) serves h in_range hold
          (get_or-full_bound n) past',
    )
