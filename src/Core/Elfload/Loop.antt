-- ===== src/Core/Elfload/Loop.antt =====
-- The loop over the program headers.
use mathlib.Core.Path.{subst}
use native.Mathlib.Decide.{ℕ_discrete}
use open_modality.Base.{
  ℕ, zero, suc, ◌+◌, ◌*◌, ◌^◌, ◌<◌, ◌≤◌, ◌≡◌, ◌≢◌, ◌⊎◌, ◌∙◌, inl, inr, refl, sym, ap, true, false,
  List, [], ◌∷◌, arith,
}
use open_modality.Base.Lists.{length, All}
use open_modality.Base.Ram.{Ram}
use open_modality.Base.Result.{Errno, minus_one, enomem, Result, ok, err}
use open_modality.Base.Run.{Run, done}
use open_modality.Base.Tests.{◌==◌}
use open_modality.Base.Words.{u64}
use open_modality.Core.Bpt.{Hooks, bpt_kernel_base}
use open_modality.Core.Elfload.{Phdr, Loader, e_phnum, e_phentsize, load_segment, load_loop}
use open_modality.Core.Elfload.Copy.{IsThere}
use open_modality.Core.Elfload.Image.{
  Keeps, Copied-Keeps, HeadersFrom, read_int-Keeps, read_phdr-Keeps,
}
use open_modality.Core.Elfload.Placement.{segment_pages}
use open_modality.Core.Elfload.Segment.{FramesTaken, load_segment_lem}
use open_modality.Mm.Allocator.{IsAllocator}
use open_modality.Mu.Pmap.{cr4_la57, isset}
use open_modality.Mu.Pmap.Map.{IsSpace}
use open_modality.Mu.Pmap.Tree.{Shape}
use open_modality.Core.Elfload.Sequence.{
  IsFrameSource, IsSegment, Loaded, Loads, finished, skipped, loaded, stopped,
}
use open_modality.Core.Elfload.Round.{loop-end, loop-next, loop-stop, round_lem}

module _ {S : Type 0} (mm_pmem_alloc : S → ℕ → Run (S × ℕ)) {Ready : S → Type 0}
    {InUse : S → ℕ → Type 0} (a : IsAllocator Ready InUse (λ s. mm_pmem_alloc s 1)) (hooks : Hooks)
    (map_fuel cr4 cr3 eh base : ℕ) where
  abbrev SegmentRun : Phdr → ℕ → Loader S → Run (Loader S × Result ℕ) → Type 0
  SegmentRun = Loaded mm_pmem_alloc a hooks map_fuel cr4 cr3 eh base

  abbrev Steps : List Phdr → Loader S → Loader S → Result ℕ → Type 0
  Steps = Loads mm_pmem_alloc a hooks map_fuel cr4 cr3 eh base

  module _ (four : isset cr4 cr4_la57 ≡ false) (kernel : bpt_kernel_base hooks ≡ done base)
      (size : ℕ) (ram : Ram) (small : eh + size < 2 ^ 64) (whole : IsThere ram eh size)
      {Count : ℕ → Type 0}
      (source : IsFrameSource Count Ready InUse mm_pmem_alloc base eh size ram) where
    -- One segment to load.
    module _ (p : Phdr) (load : p.p_type ≡ 1) (some_bytes : p.p_memsz ≢ 0)
        (segment : IsSegment Count map_fuel size p) (l : Loader S) (kept : Keeps eh size ram l.ram)
        (sh : Shape) (space : IsSpace (λ s. mm_pmem_alloc s 1) a cr3 sh l.machine) where
      abbrev taken :
          FramesTaken Ready InUse l.machine.frames
            (segment_pages p)
            (mm_pmem_alloc l.machine.frames (segment_pages p))
      taken = source.take l.machine.frames (segment_pages p) segment.counted space.ready

      abbrev target : ℕ
      target = u64 (FramesTaken.phys taken + base)

      from_image : IsThere l.ram (u64 (eh + p.p_offset)) p.p_memsz
      from_image k h =
          let inside = segment.inside in
          let (x, e) = whole (p.p_offset + k) (omega arith) in
          let at : u64 (eh + p.p_offset) + k ≡ eh + (p.p_offset + k) = omega arith in
          let (y, is) = kept.there (eh + (p.p_offset + k)) x e in (y, ap l.ram at ∙ is)

      to_frames : FramesTaken.phys taken ≢ 0 → IsThere l.ram target p.p_memsz
      to_frames ne k h =
          let (x, e) =
            source.there l.machine.frames (FramesTaken.state taken) (segment_pages p)
              (FramesTaken.phys taken) segment.counted space.ready (FramesTaken.out taken) ne k
              (omega arith) in
          kept.there (target + k) x e

      frames_apart : FramesTaken.phys taken ≢ 0 → (eh + size ≤ target) ⊎ (target + p.p_memsz ≤ eh)
      frames_apart ne =
          elim (source.apart l.machine.frames (FramesTaken.state taken) (segment_pages p)
            (FramesTaken.phys taken) segment.counted space.ready (FramesTaken.out taken) ne) [
              | inl before ↦ inl before
              | inr behind ↦ inr (omega arith)
            ]

      segment-Loaded :
          SegmentRun p
            (FramesTaken.phys taken)
            l
            (load_segment mm_pmem_alloc hooks map_fuel cr4 cr3 eh p l)
      segment-Loaded =
          let inside = segment.inside in
          load_segment_lem mm_pmem_alloc a hooks map_fuel cr4 cr3 eh p base sh l four kernel load
            some_bytes segment.fits segment.enough segment.few space taken from_image to_frames
            (λ ne. elim (frames_apart ne) [
              | inl before ↦ inl (omega arith)
              | inr behind ↦ inr (omega arith)
            ])

      Loaded-Keeps :
          {run : Run (Loader S × Result ℕ)} (r : SegmentRun p (FramesTaken.phys taken) l run)
          → r.code ≡ ok 0
          → Keeps eh size ram r.loader.ram
      Loaded-Keeps r worked =
          let given : FramesTaken.phys taken ≢ 0 = λ z. let failed = r.refused z in cc in
          Copied-Keeps eh size p.p_memsz target (u64 (eh + p.p_offset)) ram l.ram r.loader.ram kept
            (r.copied worked) r.other_bytes from_image (frames_apart given)

    -- What the loop does from some program header on.
    pub record LoopRun (ps : List Phdr) (l : Loader S) (run : Run (Loader S × Result ℕ))
        : Type 0 where
      pub loader : Loader S
      pub code : Result ℕ
      pub out : run ≡ done (loader, code)
      pub loads : Steps ps l loader code
      pub codes : (code ≡ ok 0) ⊎ (e : Errno) × (code ≡ err e)
      pub keeps : code ≡ ok 0 → Keeps eh size ram loader.ram

    to_load : (p : Phdr) → ((p.p_type ≢ 1) ⊎ (p.p_memsz ≡ 0)) ⊎ ((p.p_type ≡ 1) × (p.p_memsz ≢ 0))
    to_load p = elim (ℕ_discrete p.p_type 1) [
      | no other ↦ inl (inl other)
      | yes load ↦ elim (ℕ_discrete p.p_memsz 0) [
        | yes empty ↦ inl (inr empty)
        | no some_bytes ↦ inr (load, some_bytes)
      ]
    ]

    failure :
        (code : Result ℕ)
        → (code ≡ err minus_one) ⊎ (code ≡ err enomem)
        → (e : Errno) × (code ≡ err e)
    failure code failed = elim failed [
      | inl one ↦ (minus_one, one)
      | inr none_left ↦ (enomem, none_left)
    ]

    load_segment-skipped :
        (p : Phdr) (l : Loader S)
        → (p.p_type ≢ 1) ⊎ (p.p_memsz ≡ 0)
        → load_segment mm_pmem_alloc hooks map_fuel cr4 cr3 eh p l ≡ done (l, ok 0)
    unfolding load_segment
    load_segment-skipped p l skip = elim skip [
      | inl other ↦ let test : p.p_type == 1 ≡ false = ground arith in rw test refl
      | inr empty ↦ let test : p.p_memsz == 0 ≡ true = ground arith in ground arith
    ]

    run_skipped :
        (p : Phdr) (ps : List Phdr) (l : Loader S) {run : Run (Loader S × Result ℕ)}
        → (p.p_type ≢ 1) ⊎ (p.p_memsz ≡ 0)
        → LoopRun ps l run
        → LoopRun (p ∷ ps) l run
    run_skipped p ps l skip r = record {
      loader = r.loader;
      code = r.code;
      out = r.out;
      loads = skipped skip r.loads;
      codes = r.codes;
      keeps = r.keeps;
    }

    run-Loaded :
        (p : Phdr) (ps : List Phdr) (l : Loader S) (frame : ℕ)
        {run rest : Run (Loader S × Result ℕ)}
        → p.p_type ≡ 1
        → p.p_memsz ≢ 0
        → (first : SegmentRun p frame l run) → first.code ≡ ok 0
        → LoopRun ps first.loader rest
        → LoopRun (p ∷ ps) l rest
    run-Loaded p ps l frame load some_bytes first worked r = record {
      loader = r.loader;
      code = r.code;
      out = r.out;
      loads = loaded frame load some_bytes first worked r.loads;
      codes = r.codes;
      keeps = r.keeps;
    }

    run_stopped :
        (p : Phdr) (ps : List Phdr) (l : Loader S) (frame : ℕ) (e : Errno)
        {run : Run (Loader S × Result ℕ)}
        → p.p_type ≡ 1
        → p.p_memsz ≢ 0
        → (first : SegmentRun p frame l run) → first.code ≡ err e
        → LoopRun (p ∷ ps) l (done (first.loader, err e))
    run_stopped p ps l frame e load some_bytes first failed = record {
      loader = first.loader;
      code = err e;
      out = refl;
      loads = stopped frame load some_bytes first failed;
      codes = inr (e, refl);
      keeps = λ c. cc;
    }

    module _ (at entsize phnum : ℕ) (room : 64 ≤ size) (entries : e_phnum ram eh ≡ done phnum)
        (width : e_phentsize ram eh ≡ done entsize) where
      pub load_loop_lem :
          (ps : List Phdr) (fuel i : ℕ) (l : Loader S) (sh : Shape)
          → length ps < fuel
          → i + length ps ≡ phnum
          → HeadersFrom eh size ram at entsize i ps
          → All (λ p. p.p_type ≡ 1 → IsSegment Count map_fuel size p) ps
          → Keeps eh size ram l.ram
          → IsSpace (λ s. mm_pmem_alloc s 1) a cr3 sh l.machine
          → LoopRun ps l (load_loop mm_pmem_alloc hooks map_fuel cr4 cr3 fuel at i eh l)
      load_loop_lem ps zero i l sh enough all headers segments kept space = absurd (omega arith)
      load_loop_lem [] (suc fuel) i l sh enough all headers segments kept space =
          let count : e_phnum l.ram eh ≡ done phnum =
            read_int-Keeps eh size 2 (eh + 56) ram l.ram kept (omega arith) (omega arith)
            ∙ entries in
          subst (LoopRun [] l)
            (sym (
              loop-end mm_pmem_alloc hooks map_fuel cr4 cr3 eh fuel at i phnum l count
                (omega arith)))
            (record {
              loader = l;
              code = ok 0;
              out = refl;
              loads = finished;
              codes = inl refl;
              keeps = λ c. kept;
            })
      load_loop_lem (p ∷ ps) (suc fuel) i l sh enough all (index, header, headers)
            (segment, segments) kept space =
          let count : e_phnum l.ram eh ≡ done phnum =
            read_int-Keeps eh size 2 (eh + 56) ram l.ram kept (omega arith) (omega arith)
            ∙ entries in
          let wide : e_phentsize l.ram eh ≡ done entsize =
            read_int-Keeps eh size 2 (eh + 54) ram l.ram kept (omega arith) (omega arith) ∙ width in
          let held = read_phdr-Keeps eh size (u64 (at + entsize * i)) ram l.ram p kept header in
          let once =
            round_lem mm_pmem_alloc hooks map_fuel cr4 cr3 eh fuel at i phnum l count entsize p wide
              index held in
          elim (to_load p) [
            | inl skip ↦
                subst (LoopRun (p ∷ ps) l)
                  (sym (
                    loop-next mm_pmem_alloc hooks map_fuel cr4 cr3 eh fuel at i phnum l count l
                      (omega arith) (once ∙ load_segment-skipped p l skip)))
                  (run_skipped p ps l skip (
                    load_loop_lem ps fuel (i + 1) l sh (omega arith) (omega arith) headers segments
                      kept space))
            | inr (load, some_bytes) ↦
                let r = segment-Loaded p load some_bytes (segment load) l kept sh space in
                elim r.codes [
                  | inl worked ↦
                      subst (LoopRun (p ∷ ps) l)
                        (sym (
                          loop-next mm_pmem_alloc hooks map_fuel cr4 cr3 eh fuel at i phnum l count
                            r.loader (omega arith)
                            (once ∙ r.out ∙ ap (λ c. done (r.loader, c)) worked)))
                        (run-Loaded p ps l _ load some_bytes r worked (
                          load_loop_lem ps fuel (i + 1) r.loader r.shape (omega arith) (omega arith)
                            headers segments
                            (Loaded-Keeps p load some_bytes (segment load) l kept sh space r worked)
                            r.space))
                  | inr failed ↦
                      let (e, is) = failure r.code failed in
                      subst (LoopRun (p ∷ ps) l)
                        (sym (
                          loop-stop mm_pmem_alloc hooks map_fuel cr4 cr3 eh fuel at i phnum l count
                            r.loader e (omega arith)
                            (once ∙ r.out ∙ ap (λ c. done (r.loader, c)) is)))
                        (run_stopped p ps l _ e load some_bytes r is)
                ]
          ]
