-- ===== src/Sdk/Str.antt =====
-- `strlen` and `strcmp` of sdk/string/strlen.c and strcmp.c. A `char *` is the list of the bytes
-- from it to the end of its object; to read past that end is a fault.
pub mod Laws
use open_modality.Base.{ℕ, ◌+◌, ◌-◌, ◌%◌, ◌^◌, Bool, true, false, Option, none, some, List, [], ◌∷◌}
use open_modality.Base.Tests.{◌==◌, if◌then◌else◌}
use open_modality.Base.Run.{Run, done, fault}
use open_modality.Base.Words.{u64, sub64}
use open_modality.Sdk.Memory.{Diff, diff, no_diff}

-- `while (s[len++] != '\0'); return len - 1;`
unfoldable pub strlen_loop : ℕ → List ℕ → Run ℕ
strlen_loop len [] = fault
strlen_loop len (c ∷ s) =
    let len' = u64 (len + 1) in if c == 0 then done (sub64 len' 1) else strlen_loop len' s

unfoldable pub strlen : List ℕ → Run ℕ
unfolding strlen_loop
strlen s = strlen_loop 0 s

unfoldable pub strcmp : List ℕ → List ℕ → Run Diff
strcmp [] s2 = fault
strcmp (a ∷ s1) [] = fault
strcmp (a ∷ s1) (b ∷ s2) =
    if a == b then if a == 0 then done no_diff else strcmp s1 s2 else done (diff a b)

-- What a pointer stands for as a C string: the bytes before the first zero, if there is one.
unfoldable pub c_str : List ℕ → Option (List ℕ)
c_str [] = none
c_str (c ∷ s) = if c == 0 then some [] else elim (c_str s) [ none ↦ none | some t ↦ some (c ∷ t) ]
