-- ===== src/Tests/Strings.antt =====
-- The memory and string functions of the C library at concrete objects.
use open_modality.Base.{
  ℕ, ◌+◌, ◌≤◌, ◌<◌, ◌≡◌, ◌↔◌, ◌⊎◌, inl, refl, some, List, [], ◌∷◌, ◌++◌, arith,
}
use open_modality.Base.Lists.{take, drop}
use open_modality.Base.Run.{done}
use open_modality.Sdk.Memory.{memcpy, Diff, copy_bytes}
use open_modality.Sdk.Memory.Laws.{memcpy_lem}
use open_modality.Sdk.Memory.Overlap.{copy_bytes_forward}
use open_modality.Sdk.Str.{strcmp, c_str}
use open_modality.Sdk.Str.Laws.{strcmp_iff}

-- "/sbin" with its terminator and a byte behind it.
abbrev path : List ℕ
path = b'/' ∷ b's' ∷ b'b' ∷ b'i' ∷ b'n' ∷ 0 ∷ 7 ∷ []

abbrev other : List ℕ
other = b'/' ∷ b's' ∷ b'b' ∷ b'o' ∷ 0 ∷ []

abbrev path_text : List ℕ
path_text = b'/' ∷ b's' ∷ b'b' ∷ b'i' ∷ b'n' ∷ []

abbrev other_text : List ℕ
other_text = b'/' ∷ b's' ∷ b'b' ∷ b'o' ∷ []

memcpy_lem_example : memcpy (some path) (some other) 2 ≡ done (some (take 2 other ++ drop 2 path))
memcpy_lem_example = memcpy_lem (some path) (some other) 2

copy_bytes_forward_example :
    ((j : ℕ) → j < 4 → copy_bytes 4 0 2 3 (λ q. q) (2 + j) ≡ 3 + j)
    × ((q : ℕ) → (q < 2) ⊎ (6 ≤ q) → copy_bytes 4 0 2 3 (λ q. q) q ≡ q)
copy_bytes_forward_example = copy_bytes_forward 4 2 3 (λ q. q) (inl (omega arith))

strcmp_iff_example :
    (d : Diff) × (strcmp path other ≡ done d) × ((d.size ≡ 0) ↔ (path_text ≡ other_text))
unfolding c_str
strcmp_iff_example = strcmp_iff path other refl refl
