-- ===== src/Sdk/Memory.antt =====
-- `memset`, `memcpy` and `memcmp` of sdk/string/memset.c, memcpy.c and memcmp.c. An object is the
-- list of its bytes, and an access past its end is a fault. The objects given to `memcpy` are
-- apart; `copy_bytes` is its loop where both lie in one memory and may overlap.
pub mod Laws
pub mod Overlap
use open_modality.Base.{
  ℕ, zero, suc, ◌+◌, ◌-◌, ◌%◌, ◌^◌, Bool, true, false, Option, none, some, List, [], ◌∷◌,
}
use open_modality.Base.Tests.{◌==◌, ltb, if◌then◌else◌}
use open_modality.Base.Lists.{length, get_elem?, set}
use open_modality.Base.Run.{Run, done, fault, ◌>>=◌, ◌>>◌, from_option}
use open_modality.Base.Words.{u8, u64, sub64}

-- `s[i]`
unfoldable pub load : List ℕ → ℕ → Run ℕ
load s i = from_option (get_elem? s i)

-- `s[i] = v`
unfoldable pub store : List ℕ → ℕ → ℕ → Run (List ℕ)
store s i v = if ltb i (length s) then done (set s i v) else fault

-- Each loop runs `i` upwards with the rounds that are left; `n` fits an object, so `i` cannot wrap.
unfoldable pub memset_loop : ℕ → ℕ → ℕ → List ℕ → Run (List ℕ)
memset_loop zero i c s = done s
memset_loop (suc rounds) i c s = do s' ← store s i (u8 c); memset_loop rounds (i + 1) c s'

unfoldable pub memset : List ℕ → ℕ → ℕ → Run (List ℕ)
unfolding memset_loop
memset s c n = memset_loop n 0 c s

unfoldable pub memcpy_loop : ℕ → ℕ → List ℕ → List ℕ → Run (List ℕ)
memcpy_loop zero i dest src = done dest
memcpy_loop (suc rounds) i dest src = do
  b ← load src i
  dest' ← store dest i b
  memcpy_loop rounds (i + 1) dest' src

-- A null pointer is `none`; `memcpy` then returns null and copies nothing.
unfoldable pub memcpy : Option (List ℕ) → Option (List ℕ) → ℕ → Run (Option (List ℕ))
unfolding memcpy_loop
memcpy none src n = done none
memcpy (some dest) none n = done none
memcpy (some dest) (some src) n = do dest' ← memcpy_loop n 0 dest src; done (some dest')

-- The difference of two bytes as an `int`, and whether it is negative.
pub record Diff : Type 0 where
  pub negative : Bool
  pub size : ℕ

abbrev pub diff : ℕ → ℕ → Diff
diff a b =
    if ltb a b
    then record { negative = true; size = b - a }
    else record { negative = false; size = a - b }

abbrev pub no_diff : Diff
no_diff = record { negative = false; size = 0 }

-- The pointers of `memcmp` go up through both objects together.
unfoldable pub memcmp : List ℕ → List ℕ → ℕ → Run Diff
memcmp p1 p2 zero = done no_diff
memcmp [] p2 (suc n) = fault
memcmp (a ∷ p1) [] (suc n) = fault
memcmp (a ∷ p1) (b ∷ p2) (suc n) = if a == b then memcmp p1 p2 n else done (diff a b)

-- `memcpy` within one memory: byte by byte, upwards.
abbrev pub Memory : Type 0
Memory = ℕ → ℕ

abbrev pub poke : Memory → ℕ → ℕ → Memory
poke m p v q = if p == q then v else m q

unfoldable pub copy_bytes : ℕ → ℕ → ℕ → ℕ → Memory → Memory
copy_bytes zero i dest src m = m
copy_bytes (suc rounds) i dest src m =
    copy_bytes rounds (i + 1) dest src (poke m (dest + i) (m (src + i)))
