-- ===== src/Core/Timer.antt =====
-- The registration of the timers in the object store: sys/hive/core/timer.c,
-- sys/hive/arch/amd64/io/timer.c and sys/hive/arch/amd64/tsc.c. A panic is `none`.
use open_modality.Base.{ℕ, ◌*◌, ◌^◌, bit_or, Bool, true, false, Option, none, some, List, [], ◌∷◌}
use open_modality.Base.Lists.{set}
use open_modality.Base.Result.{ok, err}
use open_modality.Base.Run.{Run, done, ◌>>=◌}
use open_modality.Ob.Heap.{KType, KData, Store, knode_at}
use open_modality.Ob.Store.{ob_knode_new, ob_dir_new, ob_dir_append}
use open_modality.Ob.Path.{ob_knode_resolve}

-- "clkdev", "/clkdev" and "tsc"
abbrev pub clkdev : List ℕ
clkdev = b'c' ∷ b'l' ∷ b'k' ∷ b'd' ∷ b'e' ∷ b'v' ∷ 0 ∷ []

abbrev pub clkdev_path : List ℕ
clkdev_path = b'/' ∷ clkdev

abbrev pub tsc : List ℕ
tsc = b't' ∷ b's' ∷ b'c' ∷ 0 ∷ []

-- `tsc_knp->data = &tsc_hooks`
unfoldable pub set_hooks : Store → ℕ → Run Store
set_hooks s p = do
  knp ← knode_at s p
  done (record s {
    knodes = set s.knodes p (some (record knp { knode_data = KData.to_timer_hooks }));
  })

-- The store and the pointer `tsc_knp` afterwards.
unfoldable pub tsc_init : (ℕ → Bool) → Store → Option ℕ → Run (Option (Store × ℕ))
tsc_init pool s none = done none
tsc_init pool s (some clkdev_root) = do
  (s1, made) ← ob_knode_new pool s (some tsc) KType.k_clkdev false
  elim made [
    | err e ↦ done none
    | ok tsc_knp ↦ do
      s2 ← set_hooks s1 tsc_knp
      (s3, added) ← ob_dir_append s2 (some tsc_knp) (some clkdev_root)
      done (elim added [ err e ↦ none | ok z ↦ some (s3, tsc_knp) ])
  ]

-- The path has one component, which two rounds resolve.
unfoldable pub mu_timer_init : (ℕ → Bool) → Store → Run (Option (Store × ℕ))
mu_timer_init pool s = do
  r ← ob_knode_resolve 2 s (some clkdev_path) false
  elim r [ err e ↦ done none | ok tmr_dir ↦ tsc_init pool s tmr_dir ]

unfoldable pub timer_init : (ℕ → Bool) → Store → Run (Option (Store × ℕ))
timer_init pool s = do
  (s1, made) ← ob_dir_new pool s (some clkdev) false
  elim made [
    | err e ↦ done none
    | ok tmr_dir ↦ do
      (s2, added) ← ob_dir_append s1 (some tmr_dir) none
      elim added [ err e ↦ done none | ok z ↦ mu_timer_init pool s2 ]
  ]

-- `((uint64_t)hi << 32) | lo` of two words of 32 bits; for a null timer, zero. What the counter
-- holds is a parameter.
unfoldable pub tsc_get_count : (timer_null : Bool) → ℕ → ℕ → ℕ
tsc_get_count timer_null hi lo = elim timer_null [ true ↦ 0 | false ↦ bit_or (hi * 2 ^ 32) lo ]
