-- ===== src/Os/Pool.antt =====
-- The pool allocator, sys/hive/os/pool.c. The functions of the TLSF allocator are parameters; its
-- context is a state, and `none` while the pointer to it is null. One round of spinning is enough on
-- one processor.
pub mod Calls
use open_modality.Base.{ℕ, ◌/◌, Bool, true, false, Option, none, some}
use open_modality.Base.Tests.{◌==◌}
use open_modality.Base.Run.{Run, done, ◌>>=◌}
use open_modality.Acpi.Tables.{phys_to_virt}
use open_modality.Core.Bpt.{Hooks}
use open_modality.Core.Spinlock.{spinlock_acquire, spinlock_release}
use open_modality.Mm.Bitmap.{page_size}

abbrev pub poolsize_bytes : ℕ
poolsize_bytes = 0x2000000

abbrev pub poolsize_pages : ℕ
poolsize_pages = poolsize_bytes / page_size

-- The static variables, and the interrupt flag of the processor.
pub record Pool {ℓ} (T : Type ℓ) : Type ℓ where
  pub is_init : Bool
  pub pool_virt_base : ℕ
  pub pool_pma : ℕ
  pub spin_lock : ℕ
  pub tlsf_ctx : Option T
  pub irq : Bool

module _ {ℓ} {T : Type ℓ} where
  -- `spinlock_acquire(&lock, true)` and `spinlock_release(&lock)`
  unfoldable pub take_lock : Pool T → Run (Pool T)
  take_lock s = do
    (word, irq) ← spinlock_acquire 1 (some s.spin_lock) true s.irq
    done (record s { spin_lock = elim word [ none ↦ s.spin_lock | some w ↦ w ]; irq = irq })

  unfoldable pub give_lock : Pool T → Pool T
  give_lock s = record s { spin_lock = spinlock_release s.spin_lock }

  unfoldable pub os_pool_free : (Option T → ℕ → Run (Option T)) → Pool T → ℕ → Run (Pool T)
  os_pool_free tlsf_free s pool = do
    s1 ← take_lock s
    ctx ← tlsf_free s1.tlsf_ctx pool
    done (give_lock (record s1 { tlsf_ctx = ctx }))

  unfoldable pub os_pool_allocate :
      (Option T → ℕ → Run (Option T × ℕ)) → Pool T → ℕ → Run (Pool T × ℕ)
  os_pool_allocate tlsf_malloc s length = do
    s1 ← take_lock s
    (ctx, tmp) ← tlsf_malloc s1.tlsf_ctx length
    done (give_lock (record s1 { tlsf_ctx = ctx }), tmp)

  -- `none` stands for the panic. The frame allocator works on a state of its own.
  unfoldable pub os_pool_init :
      {P : Type ℓ}
      → (P → ℕ → Run (P × ℕ))
      → (ℕ → ℕ → Run (Option T))
      → Hooks
      → P
      → Pool T
      → Run (P × Option (Pool T))
  os_pool_init mm_pmem_alloc tlsf_create_with_pool hooks pmem s = elim s.is_init [
    | true ↦ done (pmem, some s)
    | false ↦ do
      (pmem', pma) ← mm_pmem_alloc pmem poolsize_pages
      elim (pma == 0) [
        | true ↦ done (pmem', none)
        | false ↦ do
          base ← phys_to_virt hooks pma
          ctx ← tlsf_create_with_pool base poolsize_bytes
          done (
            pmem',
            some (record s {
              is_init = true;
              pool_virt_base = base;
              pool_pma = pma;
              tlsf_ctx = ctx;
            }),
          )
      ]
  ]
