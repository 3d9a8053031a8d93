-- ===== src/Mm/Bitmap.antt =====
-- The byte bitmap of sys/hive/mm/pmem.c and the macros SETBIT, CLRBIT and TESTBIT of
-- sdk/inc/sys/param.h. The bitmap is the list of its bytes; a bit past its end is a fault.
pub mod Bytes
pub mod Full
pub mod Range
use open_modality.Base.{
  ℕ, zero, suc, ◌+◌, ◌-◌, ◌*◌, ◌/◌, ◌%◌, Bool, true, false, not, List, bit_and, bit_or,
}
use open_modality.Base.Tests.{◌==◌, if◌then◌else◌}
use open_modality.Base.Lists.{get_elem?, set}
use open_modality.Base.Run.{Run, done, ◌>>=◌, from_option}
use open_modality.Base.Words.{u8, not64, bit, align_up}

-- PAGESIZE of sys/hive/inc/mm/memvar.h
abbrev pub page_size : ℕ
page_size = 4096

-- What one byte of the bitmap becomes, and what is read of it.
unfoldable pub byte_set : ℕ → ℕ → ℕ
unfolding bit
byte_set x k = u8 (bit_or x (bit k))

unfoldable pub byte_clr : ℕ → ℕ → ℕ
unfolding bit
byte_clr x k = u8 (bit_and x (not64 (bit k)))

unfoldable pub byte_test : ℕ → ℕ → Bool
unfolding bit
byte_test x k = not (bit_and x (bit k) == 0)

unfoldable pub set_bit : List ℕ → ℕ → Run (List ℕ)
set_bit a b = do x ← from_option (get_elem? a (b / 8)); done (set a (b / 8) (byte_set x (b % 8)))

unfoldable pub clr_bit : List ℕ → ℕ → Run (List ℕ)
clr_bit a b = do x ← from_option (get_elem? a (b / 8)); done (set a (b / 8) (byte_clr x (b % 8)))

unfoldable pub test_bit : List ℕ → ℕ → Run Bool
test_bit a b = do x ← from_option (get_elem? a (b / 8)); done (byte_test x (b % 8))

-- `for (p = start; p < end; p += PAGESIZE)` with the rounds that are left. Both ends are multiples
-- of the page size, so there are (end - start) / PAGESIZE rounds and `p` stops at `end`, below 2 ^ 64.
unfoldable pub set_range_loop : ℕ → ℕ → Bool → List ℕ → Run (List ℕ)
set_range_loop zero p alloc bitmap = done bitmap
set_range_loop (suc rounds) p alloc bitmap = do
  bitmap' ← if alloc then set_bit bitmap (p / page_size) else clr_bit bitmap (p / page_size)
  set_range_loop rounds (p + page_size) alloc bitmap'

unfoldable pub bitmap_set_range : List ℕ → ℕ → ℕ → Bool → Run (List ℕ)
unfolding set_range_loop
bitmap_set_range bitmap start end alloc =
    let first = align_up start page_size in
    let last = align_up end page_size in
    set_range_loop ((last - first) / page_size) first alloc bitmap
