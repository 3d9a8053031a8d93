-- ===== src/Core/Spinlock.antt =====
-- The spinlock of sys/hive/core/spinlock.c on one processor: the lock word, which `mu_aswap`
-- (sys/hive/arch/amd64/core/aswap.S) swaps, and the processor's interrupt flag, which
-- `mu_cpu_irqset` clears and sets.
pub mod Laws
pub mod Smp
use open_modality.Base.{ℕ, zero, suc, Bool, true, false, not, ◌&&◌, Option, none, some}
use open_modality.Base.Tests.{◌==◌, if◌then◌else◌}
use open_modality.Base.Run.{Run, done, out_of_fuel, ◌>>=◌}

-- The old word, and the new one.
unfoldable pub mu_aswap : ℕ → ℕ → ℕ × ℕ
mu_aswap word v = (word, v)

-- `while (mu_aswap(lock, 1))`
unfoldable pub spin : ℕ → ℕ → Run ℕ
unfolding mu_aswap
spin zero word = out_of_fuel
spin (suc fuel) word =
    let (old, word') = mu_aswap word 1 in
    elim (old == 0) [ true ↦ done word' | false ↦ spin fuel word' ]

-- `mu_cpu_irqset(mask)` leaves interrupts enabled exactly if they are not masked.
unfoldable pub mu_cpu_irqset : Bool → Bool
mu_cpu_irqset mask = not mask

-- The lock word (`none` for a null pointer) and the interrupt flag afterwards.
unfoldable pub spinlock_acquire : ℕ → Option ℕ → Bool → Bool → Run (Option ℕ × Bool)
unfolding spin mu_cpu_irqset
spinlock_acquire fuel none irqmut irq = done (none, irq)
spinlock_acquire fuel (some word) irqmut irq =
    let mutate = irq && irqmut in
    let masked = if mutate then mu_cpu_irqset true else irq in
    do word' ← spin fuel word; done (some word', if mutate then mu_cpu_irqset false else masked)

unfoldable pub spinlock_release : ℕ → ℕ
unfolding mu_aswap
spinlock_release word = (mu_aswap word 0).1
