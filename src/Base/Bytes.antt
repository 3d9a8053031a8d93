-- ===== src/Base/Bytes.antt =====
-- Little-endian words as bytes.
use Prim.Native.Nat.{ℕ, zero, suc, ◌+◌, ◌*◌, ◌/◌, ◌%◌, ◌^◌, ◌<◌}
use mathlib.Core.Path.{◌≡◌, ap}
use mathlib.Core.List.{List, [], ◌∷◌, ◌++◌}
use native.Mathlib.Nat.{pow-suc}
use native.Mathlib.Omega.{arith}
use open_modality.Base.Run.{Run, done, fault, ◌>>=◌}

-- The `k` bytes of a word, the lowest first.
abbrev pub to_bytes : ℕ → ℕ → List ℕ
to_bytes zero w = []
to_bytes (suc k) w = w % 256 ∷ to_bytes k (w / 256)

-- The word that the first `k` bytes of an object hold.
abbrev pub read_word : ℕ → List ℕ → Run ℕ
read_word zero s = done 0
read_word (suc k) [] = fault
read_word (suc k) (b ∷ s) = do w ← read_word k s; done (b + 256 * w)

pub read_word-to_bytes :
    (k w : ℕ) (s : List ℕ) → w < 256 ^ k → read_word k (to_bytes k w ++ s) ≡ done w
read_word-to_bytes zero w s h = ap done (omega arith)
read_word-to_bytes (suc k) w s h =
    rw (read_word-to_bytes k (w / 256) s (omega (arith, pow-suc 256 k))) (ap done (omega arith))
