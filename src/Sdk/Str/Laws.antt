-- ===== src/Sdk/Str/Laws.antt =====
-- `strlen` and `strcmp` read nothing past the terminator, and mean length and equality of strings.
use open_modality.Base.{
  ℕ, ◌+◌, ◌^◌, ◌<◌, ◌≡◌, ◌↔◌, ◌≢◌, ◌++◌, refl, ap, none, some, List, [], ◌∷◌, inl, inr, arith,
}
use native.Mathlib.Decide.{ℕ_discrete}
use open_modality.Base.Tests.{Option-cases}
use open_modality.Base.Lists.{length, All}
use open_modality.Base.Run.{done, fault}
use open_modality.Base.Words.{u64}
use open_modality.Sdk.Memory.{Diff, diff, no_diff}
use open_modality.Sdk.Str.{strlen_loop, strlen, strcmp, c_str}

-- The object is too short to hold a byte past the number range of `size_t`.
strlen_loop-length :
    (s t : List ℕ) (len : ℕ)
    → len + length s < 2 ^ 64
    → c_str s ≡ some t
    → strlen_loop len s ≡ done (len + length t)
unfolding strlen_loop c_str
strlen_loop-length [] t len h e = cc
strlen_loop-length (c ∷ s) t len h e = elim (ℕ_discrete c 0) [
  | yes z ↦ ground arith
  | no nz ↦ elim (Option-cases (c_str s)) [
    | inl absent ↦ ground arith
    | inr (u, found) ↦
        let rest : strlen_loop (u64 (len + 1)) s ≡ done (u64 (len + 1) + length u) =
          strlen_loop-length s u (u64 (len + 1)) (omega arith) found in
        ground arith
  ]
]

strlen_loop-fault : (s : List ℕ) (len : ℕ) → c_str s ≡ none → strlen_loop len s ≡ fault
unfolding strlen_loop c_str
strlen_loop-fault [] len e = refl
strlen_loop-fault (c ∷ s) len e =
    ground (arith, strlen_loop-fault s (u64 (len + 1)), Option-cases (c_str s))

-- Characters up to a terminator are a C string, whatever lies behind.
pub c_str-terminated : (t rest : List ℕ) → All (λ c. c ≢ 0) t → c_str (t ++ 0 ∷ rest) ≡ some t
unfolding c_str
c_str-terminated [] rest chars = refl
c_str-terminated (c ∷ t) rest (nz, chars) = ground (arith, c_str-terminated t rest chars)

-- `strlen` of a pointer is the length of the string that starts there; it faults exactly when no
-- zero byte follows in the object.
pub strlen_lem :
    (s : List ℕ)
    → length s < 2 ^ 64
    → strlen s ≡ elim (c_str s) [ none ↦ fault | some t ↦ done (length t) ]
unfolding strlen
strlen_lem s h = elim (Option-cases (c_str s)) [
  | inl e ↦ rw (e, strlen_loop-fault s 0 e) refl
  | inr (t, e) ↦ rw (e, strlen_loop-length s t 0 (omega arith) e) (ap done (omega arith))
]

-- On two C strings `strcmp` returns, and its result is zero exactly when the strings are equal.
pub strcmp_iff :
    (s1 s2 : List ℕ) {t1 t2 : List ℕ}
    → c_str s1 ≡ some t1
    → c_str s2 ≡ some t2
    → (d : Diff) × (strcmp s1 s2 ≡ done d) × ((d.size ≡ 0) ↔ (t1 ≡ t2))
unfolding strcmp c_str
strcmp_iff [] s2 e f = cc
strcmp_iff (a ∷ s1) [] e f = cc
strcmp_iff (a ∷ s1) (b ∷ s2) {t1} {t2} e f = elim (ℕ_discrete a b) [
  | no ne ↦ (diff a b, ground arith, ground arith)
  | yes eq ↦ elim (ℕ_discrete a 0) [
    | yes z ↦ (no_diff, ground arith, ground arith)
    | no nz ↦ elim (Option-cases (c_str s1)) [
      | inl absent ↦ ground arith
      | inr (u1, found1) ↦ elim (Option-cases (c_str s2)) [
        | inl absent ↦ ground arith
        | inr (u2, found2) ↦
            let (d, run, same) = strcmp_iff s1 s2 found1 found2 in (d, ground arith, ground arith)
      ]
    ]
  ]
]
