-- ===== src/Core/Spinlock/Smp.antt =====
-- The spinlock of sys/hive/core/spinlock.c among many processors whose steps interleave: one step is
-- one `mu_aswap`, which is atomic, or the start of an attempt. A release is taken only by the
-- processor that holds the lock, as in mm_pmem_alloc and mm_pmem_free.
use open_modality.Base.{ℕ, ◌≡◌, refl, arith}
use open_modality.Base.Tests.{◌==◌, if◌then◌else◌}
use open_modality.Core.Spinlock.{mu_aswap, spinlock_release}

-- Where a processor is: in no call, in the loop of `spinlock_acquire`, or behind it.
pub data Phase : Type 0 where
  outside spinning holding : Phase

-- The lock word, and the phase of each processor.
pub record System : Type 0 where
  pub word : ℕ
  pub phase : ℕ → Phase

abbrev pub at : (ℕ → Phase) → ℕ → Phase → ℕ → Phase
at phases cpu new other = if other == cpu then new else phases other

-- One test of the loop: the swap, and whether the loop ends.
unfoldable pub try : System → ℕ → System
try s cpu =
    let (old, word') = mu_aswap s.word 1 in
    record { word = word'; phase = at s.phase cpu (if old == 0 then holding else spinning) }

unfoldable pub leave : System → ℕ → System
leave s cpu = record { word = spinlock_release s.word; phase = at s.phase cpu outside }

pub data Step : System → System → Type 0 where
  begin :
      (s : System) (cpu : ℕ)
      → s.phase cpu ≡ outside
      → Step s (record s { phase = at s.phase cpu spinning })
  swap : (s : System) (cpu : ℕ) → s.phase cpu ≡ spinning → Step s (try s cpu)
  release : (s : System) (cpu : ℕ) → s.phase cpu ≡ holding → Step s (leave s cpu)

-- From a free lock and processors outside, by any sequence of steps.
pub data Reach : System → Type 0 where
  start : (s : System) → s.word ≡ 0 → ((cpu : ℕ) → s.phase cpu ≡ outside) → Reach s
  next : {s s' : System} → Reach s → Step s s' → Reach s'

pub record IsExclusive (s : System) : Type 0 where
  pub taken : (cpu : ℕ) → s.phase cpu ≡ holding → s.word ≡ 1
  pub one : (i j : ℕ) → s.phase i ≡ holding → s.phase j ≡ holding → i ≡ j

Step-IsExclusive : {s s' : System} → Step s s' → IsExclusive s → IsExclusive s'
unfolding try leave mu_aswap spinlock_release
Step-IsExclusive (begin s cpu was) inv = record {
  taken = λ i h. ground (arith, inv.taken i);
  one = λ i j hi hj. ground (arith, inv.one i j);
}
Step-IsExclusive (swap s cpu was) inv = record {
  taken = λ i h. refl;
  one = λ i j hi hj. ground (arith, inv.taken i, inv.taken j, inv.one i j);
}
Step-IsExclusive (release s cpu was) inv = record {
  taken = λ i h. ground (arith, inv.one i cpu);
  one = λ i j hi hj. ground (arith, inv.one i j);
}

-- Whatever the order of the steps, from a free lock and processors outside: no two processors hold
-- the lock at once, and the word is 1 while one holds it.
pub Reach-IsExclusive : (s : System) → Reach s → IsExclusive s
Reach-IsExclusive s (start _ free none) = record {
  taken = λ cpu h. ground (arith, none cpu);
  one = λ i j hi hj. ground (arith, none i);
}
Reach-IsExclusive s (next {s = before} r step) = Step-IsExclusive step (Reach-IsExclusive before r)
