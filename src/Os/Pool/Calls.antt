-- ===== src/Os/Pool/Calls.antt =====
-- The pool allocator does what the allocator below it does, one call at a time.
use open_modality.Base.{ℕ, ◌+◌, ◌≡◌, refl, true, false, Option, none, some, List, [], ◌∷◌, arith}
use open_modality.Base.Tests.{◌==◌, if◌then◌else◌}
use open_modality.Base.Run.{Run, done, ◌>>=◌}
use open_modality.Base.Words.{u64}
use open_modality.Acpi.Tables.{phys_to_virt}
use open_modality.Core.Bpt.{Hooks, bpt_kernel_base}
use open_modality.Os.Pool.{
  Pool, poolsize_bytes, poolsize_pages, os_pool_free, os_pool_allocate, os_pool_init,
}

-- A request to an allocator: of so many bytes, or to free what is at an address.
pub data Call : Type 0 where
  allocate : ℕ → Call
  release : ℕ → Call

-- The address that an allocation gave, ahead of those of the calls behind it.
abbrev pub prepend {ℓ} : {A : Type ℓ} → ℕ → Run (A × List ℕ) → Run (A × List ℕ)
prepend p r = r >>= λ x. done (x.0, p ∷ x.1)

module _ {ℓ} {T : Type ℓ} (tlsf_malloc : Option T → ℕ → Run (Option T × ℕ))
    (tlsf_free : Option T → ℕ → Run (Option T)) where
  -- The calls one after the other, with the addresses that the allocations gave.
  abbrev pub pool_calls : List Call → Pool T → Run (Pool T × List ℕ)
  pool_calls [] s = done (s, [])
  pool_calls (allocate n ∷ cs) s = do
    (s', p) ← os_pool_allocate tlsf_malloc s n
    prepend p (pool_calls cs s')
  pool_calls (release a ∷ cs) s = do s' ← os_pool_free tlsf_free s a; pool_calls cs s'

  abbrev pub tlsf_calls : List Call → Option T → Run (Option T × List ℕ)
  tlsf_calls [] ctx = done (ctx, [])
  tlsf_calls (allocate n ∷ cs) ctx = do
    (ctx', p) ← tlsf_malloc ctx n
    prepend p (tlsf_calls cs ctx')
  tlsf_calls (release a ∷ cs) ctx = do ctx' ← tlsf_free ctx a; tlsf_calls cs ctx'

  -- The state after a call: the lock is free.
  abbrev pub unlocked : Pool T → Option T → Pool T
  unlocked s ctx = record s { spin_lock = 0; tlsf_ctx = ctx }

  abbrev pub answer : Pool T → Option T × ℕ → Run (Pool T × ℕ)
  answer s x = done (unlocked s x.0, x.1)

  -- A run of the lower allocator's calls, as a run of the pool's.
  abbrev pub lifted : Pool T → Run (Option T × List ℕ) → Run (Pool T × List ℕ)
  lifted s r = r >>= λ x. done (unlocked s x.0, x.1)

-- If the pool is not yet there, a frame allocator that gives it an address other than 0, and a TLSF
-- allocator that accepts it, `os_pool_init` hands over 32 MiB of memory at that address in the direct
-- map, and a second call changes nothing; if the address is 0, it panics.
os_pool_init_lem {ℓ} :
    {T P : Type ℓ} (mm_pmem_alloc : P → ℕ → Run (P × ℕ))
    (tlsf_create_with_pool : ℕ → ℕ → Run (Option T)) (hooks : Hooks) (pmem pmem' : P) (s : Pool T)
    (pma base : ℕ) (ctx : Option T)
    → s.is_init ≡ false
    → mm_pmem_alloc pmem poolsize_pages ≡ done (pmem', pma)
    → bpt_kernel_base hooks ≡ done base
    → tlsf_create_with_pool (u64 (pma + base)) poolsize_bytes ≡ done ctx
    → (s' : Pool T) × (os_pool_init mm_pmem_alloc tlsf_create_with_pool hooks pmem s
        ≡ done (pmem', if pma == 0 then none else some s'))
      × (s'.tlsf_ctx ≡ ctx)
      × (s'.spin_lock ≡ s.spin_lock)
      × ((pmem'' : P)
          → os_pool_init mm_pmem_alloc tlsf_create_with_pool hooks pmem'' s'
            ≡ done (pmem'', some s'))
unfolding os_pool_init phys_to_virt
os_pool_init_lem mm_pmem_alloc tlsf_create_with_pool hooks pmem pmem' s pma base ctx fresh given
      known created =
    let s' : Pool _ = record s {
      is_init = true;
      pool_virt_base = u64 (pma + base);
      pool_pma = pma;
      tlsf_ctx = ctx;
    } in
    (s', ground arith, refl, refl, λ pmem''. refl)
