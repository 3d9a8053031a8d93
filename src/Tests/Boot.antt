-- ===== src/Tests/Boot.antt =====
-- Memory maps served through the hooks of Limine, and `mm_pmem_init` on them.
use open_modality.Base.{◌^◌, ◌≡◌, refl, true, false, none, List, [], ◌∷◌, arith, some}
use open_modality.Base.Run.{done, fault}
use open_modality.Base.Result.{ok}
use open_modality.Core.Bpt.{MemType, MemEntry, Hooks, Responses, bpt_init, sig_limine}
use open_modality.Core.Bpt.Laws.{Serves, bpt_init-Serves}
use open_modality.Mm.Pmem.{State, is_usable, mm_pmem_init}
use open_modality.Mm.Pmem.Init.{total, first_place, IsInit, mm_pmem_init_lem}
use open_modality.Mm.Bitmap.Bytes.{bit_at}
use open_modality.Base.Lists.{length}
use open_modality.Mm.Pmem.Init.BitmapFrame.{mm_pmem_init-bitmap_free}
use open_modality.Mm.Pmem.Init.Fault.{reaches_past, mm_pmem_init_hole}

abbrev unset : Hooks
unset = record { get_vars = none; get_mementry = none; get_module = none }

abbrev responses : List MemEntry → Responses
responses es = record { hhdm_offset = 2 ^ 63; rsdp_address = 0xE0000; memmap = es; modules = [] }

bpt_init-Serves_example :
    (h : Hooks) × (bpt_init sig_limine (responses []) unset ≡ done (ok h)) × Serves h []
bpt_init-Serves_example = bpt_init-Serves (responses []) unset

hooks_for : List MemEntry → Hooks
hooks_for es = (bpt_init-Serves (responses es) unset).0

hooks_for-Serves : (es : List MemEntry) → Serves (hooks_for es) es
unfolding hooks_for
hooks_for-Serves es = (bpt_init-Serves (responses es) unset).2

-- Sixteen usable pages from address 0 on, and a reserved one behind them.
abbrev whole_map : List MemEntry
whole_map =
    record { base = 0; length = 0x10000; type = MemType.usable }
    ∷ record { base = 0x10000; length = 0x1000; type = MemType.reserved }
    ∷ []

-- Eight usable pages, and eight more at one MiB.
abbrev holed_map : List MemEntry
holed_map =
    record { base = 0; length = 0x8000; type = MemType.usable }
    ∷ record { base = 0x100000; length = 0x8000; type = MemType.usable }
    ∷ []

abbrev start : State
start = record {
  usable_top = 0;
  mem_usable = 0;
  bitmap_size = 0;
  bitmap_base = none;
  bitmap = [];
  last_bit = 0;
  bitmap_lock = 0;
  irq = true;
}

mm_pmem_init_lem_example :
    (t : State) × (mm_pmem_init 3 (hooks_for whole_map) (λ p. 0) start ≡ done t)
    × IsInit whole_map 0 t
unfolding total first_place is_usable
mm_pmem_init_lem_example =
    mm_pmem_init_lem (hooks_for whole_map) whole_map 3 (λ p. 0) start 0 (hooks_for-Serves whole_map)
      (omega arith) (record { no_top = refl; no_memory = refl; unlocked = refl }) (omega arith)
      (omega arith) (λ u. omega arith, (λ u. cc, tt)) refl

mm_pmem_init_hole_example : mm_pmem_init 3 (hooks_for holed_map) (λ p. 0) start ≡ fault
unfolding total first_place is_usable reaches_past
mm_pmem_init_hole_example =
    mm_pmem_init_hole (hooks_for holed_map) holed_map 3 (λ p. 0) start 0
      (hooks_for-Serves holed_map) (omega arith)
      (record { no_top = refl; no_memory = refl; unlocked = refl }) (omega arith) (omega arith)
      (omega arith) refl refl

-- Fifteen usable pages from page 1 on: the bitmap is put in page 1.
abbrev low_map : List MemEntry
low_map = record { base = 0x1000; length = 0xF000; type = MemType.usable } ∷ []

mm_pmem_init-bitmap_free_example :
    (t : State) × (mm_pmem_init 2 (hooks_for low_map) (λ p. 0) start ≡ done t)
    × (t.bitmap_base ≡ some 0x1000)
    × (length t.bitmap ≡ 2)
    × (bit_at t.bitmap 1 ≡ false)
unfolding total first_place is_usable
mm_pmem_init-bitmap_free_example =
    mm_pmem_init-bitmap_free (hooks_for low_map) low_map 2 (λ p. 0) start 0x1000 0x1001
      (hooks_for-Serves low_map) (omega arith)
      (record { no_top = refl; no_memory = refl; unlocked = refl }) (omega arith, tt) (omega arith)
      (λ u. omega arith, tt) refl refl (omega arith) (omega arith)
