-- ===== src/Core/Elfload/Raw.antt =====
-- The whole of `elf_load_raw`, on images that it takes and on others.
use open_modality.Base.{
  ℕ, ◌+◌, ◌^◌, ◌<◌, ◌≤◌, ◌≡◌, ◌⊎◌, ◌∙◌, inl, inr, refl, sym, ap, Bool, true, false, Option, some,
  none, List, arith,
}
use open_modality.Base.Lists.{length, All}
use open_modality.Base.Ram.{Ram, Holds}
use open_modality.Base.Result.{Errno, Result, ok, err}
use open_modality.Base.Run.{Run, done, ◌>>=◌}
use open_modality.Base.Tests.{Bool-cases}
use open_modality.Base.Words.{u64}
use open_modality.Core.Bpt.{Hooks, bpt_kernel_base}
use open_modality.Core.Elfload.{
  elfmag, e_type, e_version, e_entry, e_phoff, e_phentsize, e_phnum, Phdr, elf_verify, Loader,
  load_loop, elf_load, load_image, elf_load_raw,
}
use open_modality.Core.Elfload.Copy.{IsThere}
use open_modality.Core.Elfload.Image.{Keeps, Keeps-refl, HeadersFrom, read_int-Keeps}
use open_modality.Core.Elfload.Loop.{load_loop_lem}
use open_modality.Core.Elfload.Sequence.{IsFrameSource, IsSegment, Loads}
use open_modality.Mm.Allocator.{IsAllocator}
use open_modality.Mu.Pmap.{cr4_la57, isset}
use open_modality.Mu.Pmap.Map.{IsSpace}
use open_modality.Mu.Pmap.Tree.{Shape}
use open_modality.Core.Elfload.Pages.{IsLoadable, AreApart, InPlace, Loads-InPlace}
use open_modality.Core.Elfload.Verify.{elf_verify_lem}

-- An executable file in `size` bytes of memory, with its entry point and its program headers.
pub record IsImage (eh size : ℕ) (ram : Ram) (entry : ℕ) (ps : List Phdr) : Type 0 where
  pub whole : IsThere ram eh size
  pub room : 64 ≤ size
  pub magic : Holds ram eh elfmag
  pub executable : e_type ram eh ≡ done 2
  pub current : e_version ram eh ≡ done 1
  pub entry_point : e_entry ram eh ≡ done entry
  pub phoff : ℕ
  pub entsize : ℕ
  pub table : e_phoff ram eh ≡ done phoff
  pub width : e_phentsize ram eh ≡ done entsize
  pub count : e_phnum ram eh ≡ done (length ps)
  pub headers : HeadersFrom eh size ram (u64 (eh + phoff)) entsize 0 ps

-- What the result pointer gets.
abbrev pub stored : ℕ → Result ℕ → Option ℕ
stored entry code = elim code [ ok z ↦ some entry | err e ↦ none ]

module _ {S : Type 0} (mm_pmem_alloc : S → ℕ → Run (S × ℕ)) (hooks : Hooks)
    (fuel map_fuel cr4 vas eh : ℕ) (l : Loader S) where
  abbrev raw : Run (Loader S × Option ℕ × Result ℕ)
  raw = elf_load_raw mm_pmem_alloc hooks fuel map_fuel cr4 (some vas) (some eh) false l

  abbrev after_load : Loader S × Result ℕ → Run (Loader S × Option ℕ × Result ℕ)
  after_load (l', error) = elim error [
    | err e ↦ done (l', none, err e)
    | ok z ↦ do entry ← e_entry l'.ram eh; done (l', some entry, ok 0)
  ]

  abbrev after_verify : Bool → Run (Loader S × Option ℕ × Result ℕ)
  after_verify valid = elim valid [
    | false ↦ done (l, none, ok 0)
    | true ↦
        elf_load mm_pmem_alloc hooks fuel map_fuel cr4 (some vas) (some eh) false l >>= after_load
  ]

  raw_verified : (valid : Bool) → elf_verify l.ram (some eh) ≡ done valid → raw ≡ after_verify valid
  unfolding elf_load_raw load_image
  raw_verified valid e = ap (λ r. r >>= after_verify) e

  -- An image whose first four bytes are not the magic, whose type is not executable or whose version
  -- is not the current one is not loaded, no entry point is stored and nothing changes; what is
  -- returned is 0, as for an image that was loaded.
  pub elf_load_raw_invalid :
      (type version : ℕ) (magic : List ℕ)
      → length magic ≡ 4
      → Holds l.ram eh magic
      → e_type l.ram eh ≡ done type
      → e_version l.ram eh ≡ done version
      → ¬ ((magic ≡ elfmag) × (type ≡ 2) × (version ≡ 1))
      → raw ≡ done (l, none, ok 0)
  elf_load_raw_invalid type version magic size held is_type is_version bad =
      let (valid, run, (means, back)) =
        elf_verify_lem l.ram eh type version magic size held is_type is_version in
      elim (Bool-cases valid) [
        | inl yes_valid ↦ absurd (bad (means yes_valid))
        | inr not_valid ↦ raw_verified valid run ∙ ap after_verify not_valid
      ]

  module _ {Ready : S → Type 0} {InUse : S → ℕ → Type 0}
      (a : IsAllocator Ready InUse (λ s. mm_pmem_alloc s 1)) (base size entry : ℕ)
      (ps : List Phdr) where
    -- From the end of the loop on.
    after_loop :
        (image : IsImage eh size l.ram entry ps) (l' : Loader S) (code : Result ℕ)
        → (code ≡ ok 0) ⊎ (e : Errno) × (code ≡ err e)
        → (code ≡ ok 0 → Keeps eh size l.ram l'.ram)
        → after_load (l', code) ≡ done (l', stored entry code, code)
    after_loop image l' code codes keeps = elim codes [
      | inl worked ↦
          let room = image.room in
          let read : e_entry l'.ram eh ≡ done entry =
            read_int-Keeps eh size 8 (eh + 24) l.ram l'.ram (keeps worked) (omega arith)
              (omega arith)
            ∙ image.entry_point in
          ap (λ c. after_load (l', c)) worked
          ∙ ap (λ r. r >>= λ e. done (l', some e, ok 0)) read
          ∙ ap (λ c. done (l', stored entry c, c)) (sym worked)
      | inr (e, failed) ↦
          ap (λ c. after_load (l', c)) failed ∙ ap (λ c. done (l', stored entry c, c)) (sym failed)
    ]

    load_found :
        (phoff : ℕ)
        → e_phoff l.ram eh ≡ done phoff
        → elf_load mm_pmem_alloc hooks fuel map_fuel cr4 (some vas) (some eh) false l
          ≡ load_loop mm_pmem_alloc hooks map_fuel cr4 vas fuel (u64 (eh + phoff)) 0 eh l
    unfolding elf_load
    load_found phoff e =
        ap
          (λ r.
            r >>= λ o. load_loop mm_pmem_alloc hooks map_fuel cr4 vas fuel (u64 (eh + o)) 0 eh l)
          e

    -- Loading ends, whatever allocator serves the segments.
    pub elf_load_raw-Loads :
        (sh : Shape)
        → isset cr4 cr4_la57 ≡ false
        → bpt_kernel_base hooks ≡ done base
        → eh + size < 2 ^ 64
        → IsImage eh size l.ram entry ps
        → {Count : ℕ → Type 0} → IsFrameSource Count Ready InUse mm_pmem_alloc base eh size l.ram
        → All (λ p. p.p_type ≡ 1 → IsSegment Count map_fuel size p) ps
        → length ps < fuel
        → IsSpace (λ s. mm_pmem_alloc s 1) a vas sh l.machine
        → AreApart ps
        → (l' : Loader S) × (code : Result ℕ) × (raw ≡ done (l', stored entry code, code))
          × Loads mm_pmem_alloc a hooks map_fuel cr4 vas eh base ps l l' code
          × (code ≡ ok 0
              → All
                  (λ p. IsLoadable p → InPlace mm_pmem_alloc a hooks map_fuel cr4 vas eh base l' p)
                  ps)
    elf_load_raw-Loads sh four kernel small image source segments enough space apart =
        let (valid, run, (means, back)) =
          elf_verify_lem l.ram eh 2 1 elfmag refl image.magic image.executable image.current in
        let verified = run ∙ ap done (back (refl, refl, refl)) in
        let r =
          load_loop_lem mm_pmem_alloc a hooks map_fuel cr4 vas eh base four kernel size l.ram small
            image.whole source (u64 (eh + image.phoff)) image.entsize (length ps) image.room
            image.count image.width ps fuel 0 l sh enough (omega arith) image.headers segments
            (Keeps-refl eh size l.ram) space in
        (
          r.loader,
          r.code,
          raw_verified true verified
              ∙ ap (λ x. x >>= after_load) (load_found image.phoff image.table ∙ r.out)
              ∙ after_loop image r.loader r.code r.codes r.keeps,
          r.loads,
          λ worked.
              Loads-InPlace mm_pmem_alloc a hooks map_fuel cr4 vas eh base r.loads worked apart,
        )
