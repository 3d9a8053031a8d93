-- ===== src/Mm/Pmem/Init/BitmapFrame.antt =====
-- Where `mm_pmem_init` puts the bitmap, and that it leaves those frames free.
use open_modality.Base.{
  ℕ, ◌+◌, ◌*◌, ◌/◌, ◌%◌, ◌^◌, ◌≤◌, ◌<◌, ◌≡◌, ◌∙◌, ap, true, false, not, some, List, [], ◌∷◌, inl,
  inr, arith,
}
use open_modality.Base.Lists.{length}
use open_modality.Base.Run.{done}
use open_modality.Base.Tests.{leb, Bool-cases}
use open_modality.Core.Bpt.{MemEntry, Hooks}
use open_modality.Core.Bpt.Laws.{Serves}
use open_modality.Mm.Bitmap.Bytes.{bit_at}
use open_modality.Mm.Bitmap.Range.{within}
use open_modality.Mm.Pmem.{State, is_usable, mm_pmem_init}
use open_modality.Mm.Pmem.Init.{total, first_place, IsStart, mm_pmem_init_lem}
use open_modality.Mm.Pmem.Probe.{first_frame, end_frame, usable_frame, InRange, Covered}

within-frame :
    (e : MemEntry) (b : ℕ)
    → e.base % 4096 ≡ 0
    → e.base ≤ b
    → b < e.base + e.length
    → within (first_frame e) (end_frame e) (b / 4096) ≡ true
within-frame e b page low high =
    let from : first_frame e ≤ b / 4096 = omega arith in
    let to : b / 4096 < end_frame e = omega arith in ground arith

-- The bytes of the first entry with enough room lie in usable frames.
first_place-usable_frame :
    (size place : ℕ) (es : List MemEntry) (base b : ℕ)
    → first_place place es ≡ some base
    → Covered size es
    → base % 4096 ≡ 0
    → base ≤ b
    → b < base + place
    → (usable_frame es (b / 4096) ≡ true) × (b / 4096 < 8 * size)
unfolding first_place usable_frame
first_place-usable_frame size place [] base b found covered page low high = cc
first_place-usable_frame size place (e ∷ es) base b found (cov, covered) page low high =
    elim (Bool-cases (is_usable e.type)) [
      | inr skip ↦
          let behind : first_place place es ≡ some base = ground arith in
          let (usable, inside) =
            first_place-usable_frame size place es base b behind covered page low high in
          (ground arith, inside)
      | inl hit ↦ elim (Bool-cases (leb place e.length)) [
        | inl room ↦
            let at : some e.base ≡ some base = ground arith in
            let same : e.base ≡ base = cc in
            let long : place ≤ e.length = ground arith in
            let inside = within-frame e b (omega arith) (omega arith) (omega arith) in
            let last = cov hit in (ground arith, omega arith)
        | inr small ↦
            let behind : first_place place es ≡ some base = ground arith in
            let (usable, inside) =
              first_place-usable_frame size place es base b behind covered page low high in
            (ground arith, inside)
      ]
    ]

-- Where the map is as `mm_pmem_init_lem` asks and the entry that takes the bitmap begins with a page,
-- every frame that holds a byte of the bitmap is marked free afterwards.
pub mm_pmem_init-bitmap_free :
    (hooks : Hooks) (es : List MemEntry) (fuel : ℕ) (memory : ℕ → ℕ) (s : State) (base b : ℕ)
    → Serves hooks es
    → length es < fuel
    → IsStart s
    → InRange es
    → total es < 2 ^ 64
    → Covered ((total es / 4096 + 7) / 8) es
    → first_place ((total es / 4096 + 7) / 8) es ≡ some base
    → base % 4096 ≡ 0
    → base ≤ b
    → b < base + (total es / 4096 + 7) / 8
    → (t : State) × (mm_pmem_init fuel hooks memory s ≡ done t)
      × (t.bitmap_base ≡ some base)
      × (length t.bitmap ≡ (total es / 4096 + 7) / 8)
      × (bit_at t.bitmap (b / 4096) ≡ false)
mm_pmem_init-bitmap_free hooks es fuel memory s base b serves h start in_range small covered place
      page low high =
    let (t, run, init) =
      mm_pmem_init_lem hooks es fuel memory s base serves h start in_range small covered place in
    let (usable, inside) =
      first_place-usable_frame ((total es / 4096 + 7) / 8) ((total es / 4096 + 7) / 8) es base b
        place covered page low high in
    let size = init.size in
    (t, run, init.place, size, init.free (b / 4096) (omega arith) ∙ ap not usable)
