-- ===== src/Mm/Bitmap/Range.antt =====
-- `bitmap_set_range` as an update of the set of allocated frames.
use open_modality.Base.{
  ℕ, zero, suc, ◌+◌, ◌-◌, ◌*◌, ◌/◌, ◌^◌, ◌≤◌, ◌<◌, ◌≡◌, refl, Bool, true, false, ◌&&◌, List, arith,
  ◌∙◌,
}
use open_modality.Base.Tests.{ltb, leb, if◌then◌else◌}
use native.Mathlib.Decide.{dec_lt}
use open_modality.Base.Lists.{length, get_elem?-none}
use open_modality.Base.Run.{Run, done, fault}
use open_modality.Base.Align.{align_up_page}
use open_modality.Base.Words.{align_up}
use open_modality.Mm.Bitmap.{page_size, set_bit, clr_bit, set_range_loop, bitmap_set_range}
use open_modality.Mm.Bitmap.Bytes.{
  bit_at, IsBytes, marked, marked_run, length-marked, marked-IsBytes, bit_at-marked,
}

-- Frame `j` is one of the frames from `first` on and below `last`.
abbrev pub within : ℕ → ℕ → ℕ → Bool
within first last j = leb first j && ltb j last

-- `run` ended, and left the bits of the frames in the range at `alloc` and all others alone.
pub record IsMarked (first last : ℕ) (alloc : Bool) (a : List ℕ) (run : Run (List ℕ)) : Type 0 where
  pub out : List ℕ
  pub returns : run ≡ done out
  pub same_length : length out ≡ length a
  pub bytes : IsBytes out
  pub bits : (j : ℕ) → bit_at out j ≡ (if within first last j then alloc else bit_at a j)

loop_step :
    (rounds f : ℕ) (alloc : Bool) (a : List ℕ)
    → f < 8 * length a
    → set_range_loop (suc rounds) (f * 4096) alloc a
      ≡ set_range_loop rounds (suc f * 4096) alloc (marked alloc a f)
unfolding set_range_loop
loop_step rounds f alloc a h =
    let frame : f * 4096 / page_size ≡ f = omega arith in
    let next : f * 4096 + page_size ≡ suc f * 4096 = omega arith in
    rw (frame, next, marked_run alloc a f h)

set_range_loop-IsMarked :
    (rounds f last : ℕ) (alloc : Bool) (a : List ℕ)
    → rounds ≡ last - f
    → last ≤ 8 * length a
    → IsBytes a
    → IsMarked f last alloc a (set_range_loop rounds (f * 4096) alloc a)
set_range_loop-IsMarked zero f last alloc a e h bytes = record {
  out = a;
  returns = unfold set_range_loop in refl;
  same_length = refl;
  bytes = bytes;
  bits = λ j. ground arith;
}
set_range_loop-IsMarked (suc rounds) f last alloc a e h bytes =
    let inside : f < 8 * length a = omega arith in
    let rest =
      set_range_loop-IsMarked rounds (suc f) last alloc (marked alloc a f) (omega arith)
        (rw length-marked h) (marked-IsBytes alloc a f inside bytes) in
    record {
      out = rest.out;
      returns = loop_step rounds f alloc a inside ∙ rest.returns;
      same_length = rest.same_length ∙ length-marked alloc a f;
      bytes = rest.bytes;
      bits = λ j. ground (arith, rest.bits j, bit_at-marked alloc a f inside bytes j);
    }

-- The frames of the byte range [start, end) after both ends are rounded up to a page: when all of
-- them have a bit in the bitmap, `bitmap_set_range` reads and writes inside the bitmap, gives
-- exactly these frames the mark `alloc`, and leaves every other bit alone.
pub bitmap_set_range-IsMarked :
    (a : List ℕ) (start end : ℕ) (alloc : Bool)
    → start ≤ 2 ^ 64 - 4096
    → end ≤ 2 ^ 64 - 4096
    → (end + 4095) / 4096 ≤ 8 * length a
    → IsBytes a
    → IsMarked
        ((start + 4095) / 4096)
        ((end + 4095) / 4096)
        alloc
        a
        (bitmap_set_range a start end alloc)
unfolding bitmap_set_range
bitmap_set_range-IsMarked a start end alloc hs he fits bytes =
    let first : align_up start 4096 ≡ (start + 4095) / 4096 * 4096 =
      omega (arith, align_up_page start) in
    let last : align_up end 4096 ≡ (end + 4095) / 4096 * 4096 = omega (arith, align_up_page end) in
    rw (first, last)
      (set_range_loop-IsMarked _ ((start + 4095) / 4096) ((end + 4095) / 4096) alloc a (omega arith)
        fits bytes)

mark_outside :
    (alloc : Bool) (a : List ℕ) (b : ℕ)
    → 8 * length a ≤ b
    → (if alloc then set_bit a b else clr_bit a b) ≡ fault
unfolding set_bit clr_bit
mark_outside true a b h = rw (get_elem?-none a (b / 8) (omega arith))
mark_outside false a b h = rw (get_elem?-none a (b / 8) (omega arith))

set_range_loop-fault :
    (rounds f last : ℕ) (alloc : Bool) (a : List ℕ)
    → rounds ≡ last - f
    → f < last
    → 8 * length a < last
    → set_range_loop rounds (f * 4096) alloc a ≡ fault
set_range_loop-fault zero f last alloc a e h past = absurd (omega arith)
set_range_loop-fault (suc rounds) f last alloc a e h past = elim (dec_lt f (8 * length a)) [
  | yes inside ↦ elim (dec_lt (suc f) last) [
    | yes more ↦
        loop_step rounds f alloc a inside
        ∙ set_range_loop-fault rounds (suc f) last alloc (marked alloc a f) (omega arith) more
            (rw length-marked past)
    | no stop ↦ absurd (omega arith)
  ]
  | no outside ↦ first_fault (omega arith)
]
  where
    first_fault : 8 * length a ≤ f → set_range_loop (suc rounds) (f * 4096) alloc a ≡ fault
    first_fault le =
        let frame : f * 4096 / page_size ≡ f = omega arith in
        unfold set_range_loop in rw (frame, mark_outside alloc a f le)

-- A range of at least one frame that ends past the bitmap makes `bitmap_set_range` fault.
pub bitmap_set_range-fault :
    (a : List ℕ) (start end : ℕ) (alloc : Bool)
    → start ≤ 2 ^ 64 - 4096
    → end ≤ 2 ^ 64 - 4096
    → (start + 4095) / 4096 < (end + 4095) / 4096
    → 8 * length a < (end + 4095) / 4096
    → bitmap_set_range a start end alloc ≡ fault
unfolding bitmap_set_range
bitmap_set_range-fault a start end alloc hs he some_frame past =
    let first : align_up start 4096 ≡ (start + 4095) / 4096 * 4096 =
      omega (arith, align_up_page start) in
    let last : align_up end 4096 ≡ (end + 4095) / 4096 * 4096 = omega (arith, align_up_page end) in
    rw (first, last)
      (set_range_loop-fault _ ((start + 4095) / 4096) ((end + 4095) / 4096) alloc a (omega arith)
        some_frame past)
