-- ===== src/Core/Elfload/Sequence.antt =====
-- What loading an image means: its segments in order.
use open_modality.Base.{ℕ, ◌+◌, ◌*◌, ◌^◌, ◌<◌, ◌≤◌, ◌≡◌, ◌≢◌, ◌⊎◌, List, [], ◌∷◌}
use open_modality.Base.Ram.{Ram}
use open_modality.Base.Result.{Errno, Result, ok, err}
use open_modality.Base.Run.{Run, done}
use open_modality.Base.Words.{u64}
use open_modality.Core.Bpt.{Hooks}
use open_modality.Core.Elfload.{Phdr, Loader}
use open_modality.Core.Elfload.Copy.{IsThere}
use open_modality.Core.Elfload.Placement.{segment_pages}
use open_modality.Core.Elfload.Segment.{FramesTaken, SegmentLoaded}
use open_modality.Mm.Allocator.{IsAllocator}

-- What the loader asks of the frame allocator for as many frames as its segments take: the frames are
-- in memory and lie apart from the image.
pub record IsFrameSource {S : Type 0} (Count : ℕ → Type 0) (Ready : S → Type 0)
    (InUse : S → ℕ → Type 0) (alloc : S → ℕ → Run (S × ℕ)) (base eh size : ℕ) (ram : Ram)
    : Type 0 where
  pub take :
      (s : S) (count : ℕ) → Count count → Ready s → FramesTaken Ready InUse s count (alloc s count)
  pub there :
      (s t : S) (count phys : ℕ)
      → Count count
      → Ready s
      → alloc s count ≡ done (t, phys)
      → phys ≢ 0
      → IsThere ram (u64 (phys + base)) (count * 4096)
  pub apart :
      (s t : S) (count phys : ℕ)
      → Count count
      → Ready s
      → alloc s count ≡ done (t, phys)
      → phys ≢ 0
      → (eh + size ≤ u64 (phys + base)) ⊎ (u64 (phys + base) + count * 4096 ≤ eh)

-- A segment inside the image, below the limits of virtual addresses and of the fuel.
pub record IsSegment (Count : ℕ → Type 0) (map_fuel size : ℕ) (p : Phdr) : Type 0 where
  pub fits : p.p_vaddr + p.p_memsz + 12288 < 2 ^ 64
  pub enough : segment_pages p < map_fuel
  pub counted : Count (segment_pages p)
  pub few : segment_pages p ≤ 2 ^ 36
  pub inside : p.p_offset + p.p_memsz ≤ size

module _ {S : Type 0} (mm_pmem_alloc : S → ℕ → Run (S × ℕ)) {Ready : S → Type 0}
    {InUse : S → ℕ → Type 0} (a : IsAllocator Ready InUse (λ s. mm_pmem_alloc s 1)) (hooks : Hooks)
    (map_fuel cr4 cr3 eh base : ℕ) where
  abbrev pub Loaded : Phdr → ℕ → Loader S → Run (Loader S × Result ℕ) → Type 0
  Loaded p frame l run =
      SegmentLoaded mm_pmem_alloc a hooks map_fuel cr4 cr3 eh p frame (u64 (frame + base)) l run

  -- The segments are loaded one after the other, up to the first that fails; what is not to be loaded
  -- and what is empty is skipped.
  pub data Loads : List Phdr → Loader S → Loader S → Result ℕ → Type 0 where
    finished : {l : Loader S} → Loads [] l l (ok 0)
    skipped :
        {p : Phdr} {ps : List Phdr} {l l' : Loader S} {c : Result ℕ}
        → (p.p_type ≢ 1) ⊎ (p.p_memsz ≡ 0)
        → Loads ps l l' c
        → Loads (p ∷ ps) l l' c
    loaded :
        {p : Phdr} {ps : List Phdr} {l l' : Loader S} {c : Result ℕ} (frame : ℕ)
        {run : Run (Loader S × Result ℕ)}
        → p.p_type ≡ 1
        → p.p_memsz ≢ 0
        → (r : Loaded p frame l run) → r.code ≡ ok 0
        → Loads ps r.loader l' c
        → Loads (p ∷ ps) l l' c
    stopped :
        {p : Phdr} {ps : List Phdr} {l : Loader S} {e : Errno} (frame : ℕ)
        {run : Run (Loader S × Result ℕ)}
        → p.p_type ≡ 1
        → p.p_memsz ≢ 0
        → (r : Loaded p frame l run) → r.code ≡ err e
        → Loads (p ∷ ps) l r.loader (err e)
