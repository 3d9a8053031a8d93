-- ===== src/Core/Spinlock/Laws.antt =====
-- `spinlock_acquire` on one processor.
use open_modality.Base.{ℕ, zero, suc, ◌≡◌, ◌≢◌, refl, Bool, true, false, some, arith}
use open_modality.Base.Tests.{◌==◌, if◌then◌else◌}
use open_modality.Base.Run.{done, out_of_fuel}
use open_modality.Core.Spinlock.{mu_aswap, spin, mu_cpu_irqset, spinlock_acquire}

spin-taken : (fuel word : ℕ) → word ≢ 0 → spin fuel word ≡ out_of_fuel
unfolding spin mu_aswap
spin-taken zero word ne = refl
spin-taken (suc fuel) word ne = ground (arith, spin-taken fuel 1)

-- A free lock is taken in the first round, and a taken one is not had in any number of rounds. The
-- interrupt flag is as before the call when the lock has been taken, so an enabled processor holds
-- the lock with interrupts enabled, whatever `irqmut` says.
pub spinlock_acquire_lem :
    (fuel word : ℕ) (irqmut irq : Bool)
    → spinlock_acquire (suc fuel) (some word) irqmut irq
      ≡ (if word == 0 then done (some 1, irq) else out_of_fuel)
unfolding spinlock_acquire mu_cpu_irqset
spinlock_acquire_lem fuel zero true true = refl
spinlock_acquire_lem fuel zero true false = refl
spinlock_acquire_lem fuel zero false true = refl
spinlock_acquire_lem fuel zero false false = refl
spinlock_acquire_lem fuel (suc word) irqmut irq = ground (arith, spin-taken fuel 1 (omega arith))
