-- ===== src/Sdk/Itoa/Reverse.antt =====
-- Loads and stores at a place in a buffer that is known as a list, and the loop that reverses a part
-- of the buffer.
use mathlib.Core.List.{reverse, reverse-cons, reverse-append}
use open_modality.Base.{
  ℕ, zero, suc, ◌+◌, ◌*◌, ◌^◌, ◌<◌, ◌≤◌, ◌≡◌, ◌∙◌, refl, sym, ap, true, some, List, [], ◌∷◌, ◌++◌,
  append_assoc, arith,
}
use open_modality.Base.Tests.{ltb}
use open_modality.Base.Lists.{length, get_elem?, set, length-append}
use open_modality.Base.Run.{done}
use open_modality.Base.Words.{sub64}
use open_modality.Sdk.Memory.{load, store}
use open_modality.Sdk.Itoa.{reverse_loop}

get_elem?-at :
    (pre : List ℕ) (x : ℕ) (post : List ℕ) → get_elem? (pre ++ x ∷ post) (length pre) ≡ some x
get_elem?-at [] x post = refl
get_elem?-at (y ∷ pre) x post = get_elem?-at pre x post

set-at :
    (pre : List ℕ) (x : ℕ) (post : List ℕ) (v : ℕ)
    → set (pre ++ x ∷ post) (length pre) v ≡ pre ++ v ∷ post
set-at [] x post v = refl
set-at (y ∷ pre) x post v = ap (λ t. y ∷ t) (set-at pre x post v)

module _ (pre : List ℕ) (x : ℕ) (post : List ℕ) (i : ℕ) (here : i ≡ length pre) where
  pub load-at : load (pre ++ x ∷ post) i ≡ done x
  unfolding load
  load-at = rw (here, get_elem?-at pre x post) refl

  pub store-at : (v : ℕ) → store (pre ++ x ∷ post) i v ≡ done (pre ++ v ∷ post)
  unfolding store
  store-at v =
      let inside : length pre < length (pre ++ x ∷ post) =
        omega (arith, length-append pre (x ∷ post)) in
      rw here (ground (arith, set-at pre x post v))

-- The same behind a first element `u` and a middle part.
module _ (a : List ℕ) (u : ℕ) (mid : List ℕ) (y : ℕ) (post : List ℕ) (i : ℕ)
    (here : i ≡ suc (length a + length mid)) where
  place : i ≡ length (a ++ u ∷ mid)
  place = here ∙ omega (arith, length-append a (u ∷ mid))

  load-far : load (a ++ u ∷ (mid ++ y ∷ post)) i ≡ done y
  load-far =
      ap (λ l. load l i) (sym (append_assoc a (u ∷ mid) (y ∷ post)))
      ∙ load-at (a ++ u ∷ mid) y post i place

  store-far : (v : ℕ) → store (a ++ u ∷ (mid ++ y ∷ post)) i v ≡ done (a ++ u ∷ (mid ++ v ∷ post))
  store-far v =
      ap (λ l. store l i v) (sym (append_assoc a (u ∷ mid) (y ∷ post)))
      ∙ store-at (a ++ u ∷ mid) y post i place v
      ∙ ap done (append_assoc a (u ∷ mid) (v ∷ post))

-- A list is empty, a single element, or has two ends.
data Ends : List ℕ → Type 0 where
  no_end : Ends []
  one_end : (x : ℕ) → Ends (x ∷ [])
  two_ends : (x : ℕ) (mid : List ℕ) (y : ℕ) → Ends (x ∷ (mid ++ y ∷ []))

ends : (xs : List ℕ) → Ends xs
ends [] = no_end
ends (x ∷ xs) = add x (ends xs)
  where
    add : (x : ℕ) {xs : List ℕ} → Ends xs → Ends (x ∷ xs)
    add x no_end = one_end x
    add x (one_end y) = two_ends x [] y
    add x (two_ends y mid z) = two_ends x (y ∷ mid) z

reverse-two_ends :
    (x : ℕ) (mid : List ℕ) (y : ℕ) → reverse (x ∷ (mid ++ y ∷ [])) ≡ y ∷ (reverse mid ++ x ∷ [])
reverse-two_ends x mid y = reverse-append (x ∷ mid) (y ∷ []) ∙ ap (λ t. y ∷ t) (reverse-cons x mid)

stop : (fuel j i : ℕ) (buf : List ℕ) → i ≤ j → reverse_loop (suc fuel) j i buf ≡ done buf
unfolding reverse_loop
stop fuel j i buf h = ground arith

swap :
    (fuel : ℕ) (a : List ℕ) (x : ℕ) (mid : List ℕ) (y : ℕ) (post : List ℕ) (j i : ℕ)
    → j ≡ length a
    → i ≡ suc (length a + length mid)
    → i < 2 ^ 64
    → reverse_loop (suc fuel) j i (a ++ x ∷ (mid ++ y ∷ post))
      ≡ reverse_loop fuel (j + 1) (length a + length mid) (a ++ y ∷ (mid ++ x ∷ post))
unfolding reverse_loop
swap fuel a x mid y post j i ej ei bound =
    let further : ltb j i ≡ true = ground arith in
    let back : sub64 i 1 ≡ length a + length mid = omega arith in
    let read_a = load-at a x (mid ++ y ∷ post) j ej in
    let read_b = load-far a x mid y post i ei in
    let write_a = store-at a x (mid ++ y ∷ post) j ej y in
    let write_b = store-far a y mid y post i ei x in ground arith

-- From the first to the last place of a part of the buffer, the loop reverses that part. Half a round
-- for each character is enough.
pub reverse_loop_lem :
    (fuel : ℕ) (a part post : List ℕ) (j i : ℕ)
    → length part ≤ 2 * fuel
    → j ≡ length a
    → i + 1 ≡ length a + length part
    → i < 2 ^ 64
    → reverse_loop (suc fuel) j i (a ++ (part ++ post)) ≡ done (a ++ (reverse part ++ post))
reverse_loop_lem fuel a part post j i enough ej ei bound =
    by_ends fuel a post j i (ends part) enough ej ei bound
  where
    by_ends :
        (fuel : ℕ) (a post : List ℕ) (j i : ℕ) {part : List ℕ}
        → Ends part
        → length part ≤ 2 * fuel
        → j ≡ length a
        → i + 1 ≡ length a + length part
        → i < 2 ^ 64
        → reverse_loop (suc fuel) j i (a ++ (part ++ post)) ≡ done (a ++ (reverse part ++ post))
    by_ends fuel a post j i no_end enough ej ei bound = stop fuel j i _ (omega arith)
    by_ends fuel a post j i (one_end x) enough ej ei bound = stop fuel j i _ (omega arith)
    by_ends zero a post j i (two_ends x mid y) enough ej ei bound = absurd (omega arith)
    by_ends (suc fuel) a post j i (two_ends x mid y) enough ej ei bound =
        let len = length-append mid (y ∷ []) in
        let len' = length-append a (y ∷ []) in
        ap (λ l. reverse_loop (suc (suc fuel)) j i (a ++ x ∷ l)) (append_assoc mid (y ∷ []) post)
        ∙ swap (suc fuel) a x mid y post j i ej (omega arith) bound
        ∙ ap (reverse_loop (suc fuel) (j + 1) (length a + length mid))
            (sym (append_assoc a (y ∷ []) (mid ++ x ∷ post)))
        ∙ by_ends fuel (a ++ y ∷ []) (x ∷ post) (j + 1) (length a + length mid) (ends mid)
            (omega arith) (omega arith) (omega arith) (omega arith)
        ∙ ap done (
            append_assoc a (y ∷ []) (reverse mid ++ x ∷ post)
            ∙ ap (λ l. a ++ y ∷ l) (sym (append_assoc (reverse mid) (x ∷ []) post))
            ∙ ap (λ l. a ++ (l ++ post)) (sym (reverse-two_ends x mid y)))
