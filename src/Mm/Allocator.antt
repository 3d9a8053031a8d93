-- ===== src/Mm/Allocator.antt =====
-- What the clients of the frame allocator ask of it, one frame at a time.
use open_modality.Base.{ℕ, ◌%◌, ◌^◌, ◌<◌, ◌≡◌, ◌≢◌}
use open_modality.Base.Run.{Run, done}

-- One call of the allocator: it gives 0, or a frame that was not in use and is from then on.
pub record Taken {S : Type 0} (Ready : S → Type 0) (InUse : S → ℕ → Type 0) (s : S)
    (run : Run (S × ℕ)) : Type 0 where
  pub state : S
  pub phys : ℕ
  pub out : run ≡ done (state, phys)
  pub ready : Ready state
  pub keeps : (a : ℕ) → InUse s a → InUse state a
  pub fresh :
      phys ≢ 0 → (InUse s phys → phys ≡ 0) × InUse state phys × (phys % 4096 ≡ 0) × (phys < 2 ^ 52)

-- The interface: what states are in order, which frames are in use, and that every call is as above.
pub record IsAllocator {S : Type 0} (Ready : S → Type 0) (InUse : S → ℕ → Type 0)
    (alloc : S → Run (S × ℕ)) : Type 0 where
  pub take : (s : S) → Ready s → Taken Ready InUse s (alloc s)
