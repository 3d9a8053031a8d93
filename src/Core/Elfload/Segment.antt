-- ===== src/Core/Elfload/Segment.antt =====
-- What loading one segment does to the address space and to memory.
use mathlib.Core.Path.{subst}
use native.Mathlib.Decide.{ℕ_discrete}
use open_modality.Base.{
  ℕ, suc, ◌+◌, ◌-◌, ◌*◌, ◌/◌, ◌%◌, ◌^◌, ◌<◌, ◌≤◌, ◌≡◌, ◌≢◌, ◌⊎◌, ◌∙◌, inl, inr, refl, sym, ap,
  false, bit_or, some, arith,
}
use open_modality.Base.Result.{minus_one, enomem, Result, ok, err}
use open_modality.Base.Run.{Run, done}
use open_modality.Base.Words.{u64}
use open_modality.Core.Bpt.{Hooks, bpt_kernel_base}
use open_modality.Core.Elfload.{Phdr, Loader, segment_prot, copy_segment, load_segment}
use open_modality.Core.Elfload.Placement.{
  segment_pages, region_length, region_length_lem, with_frames, region_at, place-refused,
  place-given, mapping, map-failed, map-copied, load_segment-placed,
}
use open_modality.Core.Elfload.Copy.{IsThere, Copied, copy_segment-Copied}
use open_modality.Mm.Allocator.{IsAllocator}
use open_modality.Mm.Vmem.Laws.{RegionMapped, vmem_map_region-RegionMapped}
use open_modality.Mu.Pmap.{cr4_la57, isset, prot_to_pte}
use open_modality.Mu.Pmap.Map.{page_of, IsSpace, translate}
use open_modality.Mu.Pmap.Tree.{Shape}

-- One call of the allocator for several frames: it gives 0, or the address of the first.
pub record FramesTaken {S : Type 0} (Ready : S → Type 0) (InUse : S → ℕ → Type 0) (s : S)
    (count : ℕ) (run : Run (S × ℕ)) : Type 0 where
  pub state : S
  pub phys : ℕ
  pub out : run ≡ done (state, phys)
  pub ready : Ready state
  pub keeps : (f : ℕ) → InUse s f → InUse state f
  pub fresh :
      phys ≢ 0 → (k : ℕ) → k < count → ¬ InUse s (phys + k * 4096) × InUse state (phys + k * 4096)
  pub aligned : phys % 4096 ≡ 0
  pub low : phys ≢ 0 → phys + count * 4096 + 4096 < 2 ^ 52

module _ {S : Type 0} (mm_pmem_alloc : S → ℕ → Run (S × ℕ)) {Ready : S → Type 0}
    {InUse : S → ℕ → Type 0} (a : IsAllocator Ready InUse (λ s. mm_pmem_alloc s 1)) (hooks : Hooks)
    (map_fuel cr4 cr3 eh : ℕ) (phdr : Phdr) where
  abbrev alloc_one : S → Run (S × ℕ)
  alloc_one s = mm_pmem_alloc s 1

  -- What loading a segment to the frames from `frame` on, which the kernel reaches at `dest`, does.
  pub record SegmentLoaded (frame dest : ℕ) (l : Loader S) (run : Run (Loader S × Result ℕ))
      : Type 0 where
    pub loader : Loader S
    pub code : Result ℕ
    pub out : run ≡ done (loader, code)
    pub shape : Shape
    pub space : IsSpace alloc_one a cr3 shape loader.machine
    pub codes : (code ≡ ok 0) ⊎ (code ≡ err minus_one) ⊎ (code ≡ err enomem)
    pub refused : (frame ≡ 0) → code ≡ err enomem
    pub mapped :
        code ≡ ok 0
        → (k w : ℕ) → k < segment_pages phdr
        → w / 4096 ≡ phdr.p_vaddr / 4096 + k
        → translate alloc_one a cr3 loader.machine w
          ≡ some (bit_or (frame + k * 4096) (prot_to_pte (segment_prot phdr.p_flags)))
    pub copied :
        code ≡ ok 0
        → (k : ℕ) → k < phdr.p_memsz
        → loader.ram (dest + k) ≡ l.ram (u64 (eh + phdr.p_offset) + k)
    pub no_tables :
        code ≡ ok 0 → (k : ℕ) → k < segment_pages phdr → shape.level (frame + k * 4096) ≡ 0
    pub other_pages :
        (w : ℕ)
        → ((k : ℕ) → k < segment_pages phdr → page_of w ≢ (phdr.p_vaddr / 4096 + k) % 2 ^ 36)
        → translate alloc_one a cr3 loader.machine w ≡ translate alloc_one a cr3 l.machine w
    pub other_bytes : (b : ℕ) → (b < dest) ⊎ (dest + phdr.p_memsz ≤ b) → loader.ram b ≡ l.ram b

  -- A frame that is not in use is no table.
  no_level :
      (sh : Shape) (l : Loader S)
      → IsSpace alloc_one a cr3 sh l.machine
      → (f : ℕ) → ¬ InUse l.machine.frames f
      → sh.level f ≡ 0
  no_level sh l space f unused = elim (ℕ_discrete (sh.level f) 0) [
    | yes z ↦ z
    | no ne ↦
        let above : sh.level f ≡ suc (sh.level f - 1) = omega arith in
        absurd (unused (space.owned f (sh.level f - 1) above))
  ]

  -- The address space is as well-formed after the call of the allocator.
  IsSpace-with_frames :
      (sh : Shape) (l : Loader S) {run : Run (S × ℕ)} {count : ℕ}
      (t : FramesTaken Ready InUse l.machine.frames count run)
      → IsSpace alloc_one a cr3 sh l.machine
      → IsSpace alloc_one a cr3 sh (with_frames l t.state).machine
  IsSpace-with_frames sh l t space = record {
    tree = space.tree;
    root = space.root;
    ready = t.ready;
    owned = λ f k e. t.keeps f (space.owned f k e);
  }

  module _ (base : ℕ) (l : Loader S) (phys : ℕ) (s : S) where
    abbrev dest : ℕ
    dest = u64 (phys + base)

    segment_refused :
        (sh : Shape)
        → phys ≡ 0
        → IsSpace alloc_one a cr3 sh (with_frames l s).machine
        → SegmentLoaded phys dest l (done (with_frames l s, err enomem))
    segment_refused sh none_given space = record {
      loader = with_frames l s;
      code = err enomem;
      out = refl;
      shape = sh;
      space = space;
      codes = inr (inr refl);
      refused = λ z. refl;
      mapped = λ c. cc;
      copied = λ c. cc;
      no_tables = λ c. cc;
      other_pages = λ w h. refl;
      other_bytes = λ b h. refl;
    }

    module _ (given : phys ≢ 0) (sh : Shape)
        (fresh : (k : ℕ)
          → k < segment_pages phdr
          → InUse s (phys + k * 4096) × (sh.level (phys + k * 4096) ≡ 0))
        (r : RegionMapped alloc_one a cr4 cr3
          (segment_prot phdr.p_flags)
          (segment_pages phdr)
          (phdr.p_vaddr / 4096 * 4096)
          (phys / 4096 * 4096)
          (with_frames l s).machine
          sh
          (mapping mm_pmem_alloc hooks map_fuel cr4 cr3 eh phdr phys (with_frames l s).machine))
        (aligned : phys % 4096 ≡ 0) where
      segment_unmapped :
          SegmentLoaded phys dest l (done (record l { machine = r.machine }, err minus_one))
      segment_unmapped = record {
        loader = record l { machine = r.machine };
        code = err minus_one;
        out = refl;
        shape = r.shape;
        space = r.space;
        codes = inr (inl refl);
        refused = λ z. absurd (given z);
        mapped = λ c. cc;
        copied = λ c. cc;
        no_tables = λ c. cc;
        other_pages = λ w h. r.others w (λ k less e. h k less (omega arith));
        other_bytes = λ b h. refl;
      }

      segment_loaded :
          r.code ≡ ok 0
          → (c : Copied phdr.p_memsz dest
              (u64 (eh + phdr.p_offset))
              l.ram
              (copy_segment phdr.p_memsz 0 dest (u64 (eh + phdr.p_offset)) l.ram))
          → SegmentLoaded phys dest l (done (record { machine = r.machine; ram = c.after }, ok 0))
      segment_loaded worked c = record {
        loader = record { machine = r.machine; ram = c.after };
        code = ok 0;
        out = refl;
        shape = r.shape;
        space = r.space;
        codes = inl refl;
        refused = λ z. absurd (given z);
        mapped = λ e k w less page.
            let frame : phys / 4096 * 4096 ≡ phys = omega arith in
            r.mapped worked k w less (omega arith)
            ∙ ap (λ f. some (bit_or (f + k * 4096) (prot_to_pte (segment_prot phdr.p_flags))))
                frame;
        copied = λ e k less. c.copies k less;
        no_tables = λ e k less.
            let (used, table) = fresh k less in
            (r.spares (phys + k * 4096) (omega arith) used table).no_table;
        other_pages = λ w h. r.others w (λ k less e. h k less (omega arith));
        other_bytes = λ b h. c.others b h;
      }

  -- Loading a segment that is not empty, for which the allocator gives frames that lie in memory and
  -- apart from the segment's bytes in the image, ends as `SegmentLoaded` says, whether the allocator
  -- and the mapping succeed or not.
  pub load_segment_lem :
      (base : ℕ) (sh : Shape) (l : Loader S)
      → isset cr4 cr4_la57 ≡ false
      → bpt_kernel_base hooks ≡ done base
      → phdr.p_type ≡ 1
      → phdr.p_memsz ≢ 0
      → phdr.p_vaddr + phdr.p_memsz + 12288 < 2 ^ 64
      → segment_pages phdr < map_fuel
      → segment_pages phdr ≤ 2 ^ 36
      → IsSpace alloc_one a cr3 sh l.machine
      → (t : FramesTaken Ready InUse l.machine.frames
          (segment_pages phdr)
          (mm_pmem_alloc l.machine.frames (segment_pages phdr)))
      → IsThere l.ram (u64 (eh + phdr.p_offset)) phdr.p_memsz
      → (t.phys ≢ 0 → IsThere l.ram (u64 (t.phys + base)) phdr.p_memsz)
      → (t.phys ≢ 0
          → (u64 (eh + phdr.p_offset) + phdr.p_memsz ≤ u64 (t.phys + base))
            ⊎ (u64 (t.phys + base) + phdr.p_memsz ≤ u64 (eh + phdr.p_offset)))
      → SegmentLoaded t.phys
          (u64 (t.phys + base))
          l
          (load_segment mm_pmem_alloc hooks map_fuel cr4 cr3 eh phdr l)
  load_segment_lem base sh l four kernel load some_bytes fits enough few space t from to apart =
      let size = region_length_lem phdr fits in
      let count : region_length phdr / 4096 ≡ segment_pages phdr = omega arith in
      let called = ap (mm_pmem_alloc l.machine.frames) count ∙ t.out in
      let l1 = with_frames l t.state in
      let space1 = IsSpace-with_frames sh l t space in
      let frames_fresh : t.phys ≢ 0
          → (k : ℕ) → k < segment_pages phdr
          → InUse t.state (t.phys + k * 4096) × (sh.level (t.phys + k * 4096) ≡ 0) =
        λ given k less.
          let (unused, used) = t.fresh given k less in
          (used, no_level sh l space (t.phys + k * 4096) unused) in
      let placed =
        load_segment-placed mm_pmem_alloc hooks map_fuel cr4 cr3 eh phdr l load some_bytes in
      elim (ℕ_discrete t.phys 0) [
        | yes z ↦
            let run =
              placed
              ∙ place-refused mm_pmem_alloc hooks map_fuel cr4 cr3 eh phdr l t.state
                  (called ∙ ap (λ p. done (t.state, p)) z) in
            subst (SegmentLoaded t.phys (u64 (t.phys + base)) l) (sym run)
              (segment_refused base l t.phys t.state sh z space1)
        | no ne ↦
            let pages : (region_length phdr + 4095) / 4096 ≡ segment_pages phdr = omega arith in
            let mapped =
              vmem_map_region-RegionMapped alloc_one a cr4 cr3 (segment_prot phdr.p_flags) four
                map_fuel (region_at phdr t.phys) l1.machine sh (omega arith) (omega arith)
                (omega (arith, t.low ne)) (omega arith) space1 in
            let r =
              subst
                (λ n.
                  RegionMapped alloc_one a cr4 cr3 (segment_prot phdr.p_flags) n
                    (phdr.p_vaddr / 4096 * 4096) (t.phys / 4096 * 4096) l1.machine sh
                    (mapping mm_pmem_alloc hooks map_fuel cr4 cr3 eh phdr t.phys l1.machine))
                pages mapped in
            let given =
              placed
              ∙ place-given mm_pmem_alloc hooks map_fuel cr4 cr3 eh phdr l t.state t.phys called
                  ne in
            elim r.codes [
              | inl worked ↦
                  let c =
                    copy_segment-Copied phdr.p_memsz 0 (u64 (t.phys + base))
                      (u64 (eh + phdr.p_offset)) (u64 (t.phys + base)) (u64 (eh + phdr.p_offset))
                      l.ram (omega arith) (omega arith) from (to ne) (apart ne) in
                  let run =
                    given
                    ∙ map-copied mm_pmem_alloc hooks map_fuel cr4 cr3 eh phdr l1 t.phys base
                        r.machine c.after (r.out ∙ ap (λ e. done (r.machine, e)) worked) kernel
                        c.out in
                  subst (SegmentLoaded t.phys (u64 (t.phys + base)) l) (sym run) (
                    segment_loaded base l t.phys t.state ne sh (frames_fresh ne) r t.aligned worked
                      c)
              | inr failed ↦
                  let run =
                    given
                    ∙ map-failed mm_pmem_alloc hooks map_fuel cr4 cr3 eh phdr l1 t.phys r.machine
                        (r.out ∙ ap (λ e. done (r.machine, e)) failed) in
                  subst (SegmentLoaded t.phys (u64 (t.phys + base)) l) (sym run)
                    (segment_unmapped base l t.phys t.state ne sh (frames_fresh ne) r t.aligned)
            ]
      ]
