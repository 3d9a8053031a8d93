-- ===== src/Sdk/Memory/Laws.antt =====
-- `memset`, `memcpy` and `memcmp` on whole objects: the result for every length, faults included.
use open_modality.Base.{
  ℕ, zero, suc, ◌+◌, ◌≤◌, ◌≡◌, ◌↔◌, ◌∙◌, refl, ap, Bool, true, false, ◌&&◌, Option, none, some,
  List, [], ◌∷◌, ◌++◌, arith,
}
use native.Mathlib.Decide.{ℕ_discrete}
use open_modality.Base.Tests.{leb, if◌then◌else◌}
use open_modality.Base.Lists.{length, get_elem?, take, drop, replicate}
use open_modality.Base.Run.{Run, done, fault, out_of_fuel, ◌>>=◌, from_option}
use open_modality.Base.Words.{u8}
use open_modality.Sdk.Memory.{
  load, store, memset_loop, memset, memcpy_loop, memcpy, Diff, diff, no_diff, memcmp,
}

-- A run on the tail of an object, seen from the whole object.
abbrev behind : ℕ → Run (List ℕ) → Run (List ℕ)
behind x r = r >>= λ s. done (x ∷ s)

behind-bind :
    (x : ℕ) (r : Run (List ℕ)) (f g : List ℕ → Run (List ℕ))
    → ((t : List ℕ) → f (x ∷ t) ≡ behind x (g t))
    → (behind x r >>= f) ≡ behind x (r >>= g)
behind-bind x (done t) f g h = h t
behind-bind x fault f g h = refl
behind-bind x out_of_fuel f g h = refl

behind-load :
    (x : ℕ) (o : Option ℕ) (f g : ℕ → Run (List ℕ))
    → ((b : ℕ) → f b ≡ behind x (g b))
    → (from_option o >>= f) ≡ behind x (from_option o >>= g)
behind-load x none f g h = refl
behind-load x (some b) f g h = h b

behind-if :
    (x : ℕ) (b : Bool) (s t : List ℕ)
    → x ∷ s ≡ t
    → behind x (if b then done s else fault) ≡ (if b then done t else fault)
behind-if x true s t e = ap done e
behind-if x false s t e = refl

store-cons : (x : ℕ) (s : List ℕ) (i v : ℕ) → store (x ∷ s) (suc i) v ≡ behind x (store s i v)
unfolding store
store-cons x s i v = ground arith

store-nil : (i v : ℕ) → store [] i v ≡ fault
unfolding store
store-nil i v = ground arith

store-zero : (x : ℕ) (s : List ℕ) (v : ℕ) → store (x ∷ s) 0 v ≡ done (v ∷ s)
unfolding store
store-zero x s v = ground arith

memset_loop-cons :
    (rounds i j c x : ℕ) (s : List ℕ)
    → j ≡ suc i
    → memset_loop rounds j c (x ∷ s) ≡ behind x (memset_loop rounds i c s)
unfolding memset_loop
memset_loop-cons zero i j c x s e = refl
memset_loop-cons (suc rounds) i j c x s e =
    rw (e, store-cons x s i (u8 c))
      (behind-bind x (store s i (u8 c)) _ _
        λ t. memset_loop-cons rounds (i + 1) _ c x t (omega arith))

memset_loop-at_zero :
    (n c : ℕ) (s : List ℕ)
    → memset_loop n 0 c s
      ≡ (if leb n (length s) then done (replicate n (u8 c) ++ drop n s) else fault)
unfolding memset_loop
memset_loop-at_zero zero c s = ground arith
memset_loop-at_zero (suc n) c [] = rw store-nil (ground arith)
memset_loop-at_zero (suc n) c (x ∷ s) = rw (store-zero x s (u8 c)) (
    memset_loop-cons n 0 1 c (u8 c) s (omega arith)
    ∙ ap (behind (u8 c)) (memset_loop-at_zero n c s)
    ∙ behind-if (u8 c) (leb n (length s)) _ _ refl
    ∙ ground arith)

-- `memset` writes the low byte of `c` into the first `n` bytes and keeps the rest, and faults
-- exactly when the object has fewer than `n` bytes.
pub memset_lem :
    (s : List ℕ) (c n : ℕ)
    → memset s c n ≡ (if leb n (length s) then done (replicate n (u8 c) ++ drop n s) else fault)
unfolding memset
memset_lem s c n = memset_loop-at_zero n c s

memcpy_loop-cons :
    (rounds i j x y : ℕ) (dest src : List ℕ)
    → j ≡ suc i
    → memcpy_loop rounds j (x ∷ dest) (y ∷ src) ≡ behind x (memcpy_loop rounds i dest src)
unfolding memcpy_loop load
memcpy_loop-cons zero i j x y dest src e = refl
memcpy_loop-cons (suc rounds) i j x y dest src e = rw e (
    behind-load x (get_elem? src i) _ _ λ b. rw (store-cons x dest i b) (
      behind-bind x (store dest i b) _ _
        λ d. memcpy_loop-cons rounds (i + 1) _ x y d src (omega arith)))

memcpy_loop-at_zero :
    (n : ℕ) (dest src : List ℕ)
    → memcpy_loop n 0 dest src ≡ (
        if leb n (length dest) && leb n (length src)
        then done (take n src ++ drop n dest)
        else fault)
unfolding memcpy_loop load
memcpy_loop-at_zero zero dest src = ground arith
memcpy_loop-at_zero (suc n) dest [] = ground arith
memcpy_loop-at_zero (suc n) [] (y ∷ src) = rw store-nil (ground arith)
memcpy_loop-at_zero (suc n) (x ∷ dest) (y ∷ src) = rw (store-zero x dest y) (
    memcpy_loop-cons n 0 1 y y dest src (omega arith)
    ∙ ap (behind y) (memcpy_loop-at_zero n dest src)
    ∙ behind-if y (leb n (length dest) && leb n (length src)) _ _ refl
    ∙ ground arith)

-- `memcpy` to a separate object replaces its first `n` bytes by those of the source and keeps the
-- rest; it faults exactly when one of the two has fewer than `n` bytes, and a null pointer copies
-- nothing.
pub memcpy_lem :
    (dest src : Option (List ℕ)) (n : ℕ)
    → memcpy dest src n ≡ elim dest [
      | none ↦ done none
      | some d ↦ elim src [
        | none ↦ done none
        | some s ↦
            if leb n (length d) && leb n (length s)
            then done (some (take n s ++ drop n d))
            else fault
      ]
    ]
unfolding memcpy
memcpy_lem none src n = refl
memcpy_lem (some d) none n = refl
memcpy_lem (some d) (some s) n = rw (memcpy_loop-at_zero n d s) (ground arith)

-- On objects of at least `n` bytes `memcmp` returns, and its result is zero exactly when the first
-- `n` bytes agree.
pub memcmp_iff :
    (p1 p2 : List ℕ) (n : ℕ)
    → n ≤ length p1
    → n ≤ length p2
    → (d : Diff) × (memcmp p1 p2 n ≡ done d) × ((d.size ≡ 0) ↔ (take n p1 ≡ take n p2))
unfolding memcmp
memcmp_iff p1 p2 zero h k = (no_diff, refl, ((λ e. refl), (λ e. refl)))
memcmp_iff [] p2 (suc n) h k = absurd (omega arith)
memcmp_iff (a ∷ p1) [] (suc n) h k = absurd (omega arith)
memcmp_iff (a ∷ p1) (b ∷ p2) (suc n) h k = elim (ℕ_discrete a b) [
  | yes e ↦
      let (d, run, same) = memcmp_iff p1 p2 n (omega arith) (omega arith) in
      (d, ground arith, ground arith)
  | no ne ↦ (diff a b, ground arith, ground arith)
]
