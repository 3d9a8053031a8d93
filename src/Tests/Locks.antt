-- ===== src/Tests/Locks.antt =====
-- The spinlock: one processor, and two that interleave.
use open_modality.Base.{refl}
use open_modality.Core.Spinlock.Smp.{
  outside, spinning, System, at, try, Reach, start, next, begin, swap, IsExclusive,
  Reach-IsExclusive,
}

abbrev idle : System
idle = record { word = 0; phase = λ cpu. outside }

abbrev waiting : System
waiting = record idle { phase = at idle.phase 0 spinning }

-- Processor 0 takes the lock, and processor 1 starts to wait for it.
abbrev taken : System
taken = try waiting 0

contended : Reach (record taken { phase = at taken.phase 1 spinning })
unfolding try
contended =
    next (next (next (start idle refl (λ cpu. refl)) (begin idle 0 refl)) (swap waiting 0 refl))
      (begin taken 1 refl)

Reach-IsExclusive_example : IsExclusive (record taken { phase = at taken.phase 1 spinning })
Reach-IsExclusive_example =
    Reach-IsExclusive (record taken { phase = at taken.phase 1 spinning }) contended
