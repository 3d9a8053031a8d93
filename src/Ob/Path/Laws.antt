-- ===== src/Ob/Path/Laws.antt =====
-- A path is resolved component by component.
use open_modality.Base.{
  ℕ, zero, suc, ◌+◌, Bool, true, false, ◌||◌, Option, none, some, List, [], ◌∷◌, ◌++◌,
}
use open_modality.Base.Tests.{◌==◌, leb}
use open_modality.Base.Lists.{length, get_elem?}
use open_modality.Base.Run.{Run, done, fault, out_of_fuel, ◌>>=◌}
use open_modality.Base.Result.{Result, ok, err}
use open_modality.Ob.Heap.{Store, knode_subdir_find}
use mathlib.Core.Path.{subst, sym}
use open_modality.Base.{◌≡◌, ◌∙◌, ◌<◌, refl, arith}
use open_modality.Base.Lists.{All, replicate}
use open_modality.Ob.Store.{ob_root_get}
use open_modality.Ob.Path.{skip_slashes, fill_component, resolve_loop, ob_knode_resolve}

-- A character of a component.
abbrev pub is_end : ℕ → Bool
is_end c = c == b'/' || c == 0

-- A component: not empty, with room for the terminator in the buffer.
pub record IsComponent (c : List ℕ) : Type 0 where
  pub chars : All (λ x. is_end x ≡ false) c
  pub not_empty : 0 < length c
  pub fits : length c < 128

-- One step: the root directory first, then the directory found last.
abbrev pub lookup : Store → Option ℕ → List ℕ → Run (Result ℕ)
lookup s none c = ob_root_get s (some (c ++ 0 ∷ [])) false
lookup s (some p) c = knode_subdir_find s (some p) (c ++ 0 ∷ [])

-- What follows a successful step.
abbrev pub on_ok : Run (Result ℕ) → (ℕ → Run (Result (Option ℕ))) → Run (Result (Option ℕ))
on_ok run f = run >>= λ r. elim r [ err e ↦ done (err e) | ok next ↦ f next ]

-- The components one after the other, up to the first that fails, and then `k`.
abbrev pub walk :
    Store
    → Option ℕ
    → List (List ℕ)
    → (Option ℕ → Run (Result (Option ℕ)))
    → Run (Result (Option ℕ))
walk s knp [] k = k knp
walk s knp (c ∷ cs) k = on_ok (lookup s knp c) λ next. walk s (some next) cs k

-- Components, each with a slash and further ones ahead of it, and what comes behind.
abbrev pub render : List (ℕ × List ℕ) → List ℕ → List ℕ
render [] end = end
render ((k, c) ∷ rest) end = b'/' ∷ (replicate k b'/' ++ (c ++ render rest end))

abbrev pub components : List (ℕ × List ℕ) → List (List ℕ)
components [] = []
components ((k, c) ∷ rest) = c ∷ components rest

on_ok-cong :
    (run : Run (Result ℕ)) (f g : ℕ → Run (Result (Option ℕ)))
    → ((next : ℕ) → f next ≡ g next)
    → on_ok run f ≡ on_ok run g
on_ok-cong fault f g h = refl
on_ok-cong out_of_fuel f g h = refl
on_ok-cong (done (err e)) f g h = refl
on_ok-cong (done (ok next)) f g h = h next

walk-cong :
    (s : Store) (knp : Option ℕ) (cs : List (List ℕ)) (f g : Option ℕ → Run (Result (Option ℕ)))
    → ((last : Option ℕ) → f last ≡ g last)
    → walk s knp cs f ≡ walk s knp cs g
walk-cong s knp [] f g h = h knp
walk-cong s knp (c ∷ cs) f g h =
    on_ok-cong (lookup s knp c) _ _ λ next. walk-cong s (some next) cs f g h

-- Behind a component stands a slash or the terminator.
render-head :
    (ps : List (ℕ × List ℕ)) (e : ℕ) (r : List ℕ)
    → is_end e ≡ true
    → (h : ℕ) × (t : List ℕ) × (render ps (e ∷ r) ≡ h ∷ t) × (is_end h ≡ true)
render-head [] e r stop = (e, r, refl, stop)
render-head ((k, c) ∷ ps) e r stop = (b'/', _, refl, refl)

skip_slashes-replicate :
    (k : ℕ) (rest : List ℕ) → skip_slashes (replicate k b'/' ++ rest) ≡ skip_slashes rest
unfolding skip_slashes
skip_slashes-replicate zero rest = refl
skip_slashes-replicate (suc k) rest = skip_slashes-replicate k rest

skip_slashes-char :
    (c : ℕ) (rest : List ℕ) → is_end c ≡ false → skip_slashes (c ∷ rest) ≡ done (c ∷ rest)
unfolding skip_slashes
skip_slashes-char c rest h = ground arith

fill_component-chars :
    (c : List ℕ) (i e : ℕ) (rest : List ℕ)
    → All (λ x. is_end x ≡ false) c
    → is_end e ≡ true
    → i + length c < 128
    → fill_component i (c ++ e ∷ rest) ≡ done (ok (c, e ∷ rest))
unfolding fill_component
fill_component-chars [] i e rest chars stop room = rw (fill_component, stop) refl
fill_component-chars (x ∷ c) i e rest (char, chars) stop room =
    let more : leb 127 i ≡ false = ground arith in
    rw (fill_component, char, more, fill_component-chars c (i + 1) e rest chars stop (omega arith))
      refl

-- The first character of a path with a component is no terminator.
first-char :
    (k : ℕ) (c rest : List ℕ)
    → IsComponent c
    → (x : ℕ) × (get_elem? (replicate k b'/' ++ (c ++ rest)) 0 ≡ some x) × ((x == 0) ≡ false)
first-char zero [] rest is_c = absurd (omega (arith, is_c.not_empty))
first-char zero (x ∷ c) rest is_c = let char = is_c.chars.0 in (x, refl, ground arith)
first-char (suc k) c rest is_c = (b'/', refl, refl)

skip-to_component :
    (k : ℕ) (c rest : List ℕ)
    → IsComponent c
    → skip_slashes (replicate k b'/' ++ (c ++ rest)) ≡ done (c ++ rest)
skip-to_component k [] rest is_c = absurd (omega (arith, is_c.not_empty))
skip-to_component k (x ∷ c) rest is_c =
    skip_slashes-replicate k (x ∷ (c ++ rest)) ∙ skip_slashes-char x (c ++ rest) (is_c.chars.0)

resolve_loop-parts :
    (fuel : ℕ) (s : Store) (p p' c rest : List ℕ) (x : ℕ) (knp : Option ℕ)
    → get_elem? p 0 ≡ some x
    → (x == 0) ≡ false
    → skip_slashes p ≡ done p'
    → fill_component 0 p' ≡ done (ok (c, rest))
    → resolve_loop (suc fuel) s p knp
      ≡ on_ok (lookup s knp c) (λ next. resolve_loop fuel s rest (some next))
unfolding resolve_loop
resolve_loop-parts fuel s [] p' c rest x knp first char skipped filled = cc
resolve_loop-parts fuel s (y ∷ p) p' c rest x none first char skipped filled = ground arith
resolve_loop-parts fuel s (y ∷ p) p' c rest x (some q) first char skipped filled = ground arith

resolve_loop-step :
    (fuel : ℕ) (s : Store) (k : ℕ) (c : List ℕ) (h : ℕ) (t : List ℕ) (knp : Option ℕ)
    → IsComponent c
    → is_end h ≡ true
    → resolve_loop (suc fuel) s (replicate k b'/' ++ (c ++ h ∷ t)) knp
      ≡ on_ok (lookup s knp c) (λ next. resolve_loop fuel s (h ∷ t) (some next))
resolve_loop-step fuel s k c h t knp is_c stop =
    let (x, first, char) = first-char k c (h ∷ t) is_c in
    resolve_loop-parts fuel s _ (c ++ h ∷ t) c (h ∷ t) x knp first char
      (skip-to_component k c (h ∷ t) is_c)
      (fill_component-chars c 0 h t is_c.chars stop (omega (arith, is_c.fits)))

-- A component with `k` slashes ahead of it, followed by what renders as a list.
resolve_loop-render_step :
    (fuel : ℕ) (s : Store) (k : ℕ) (c : List ℕ) (ps : List (ℕ × List ℕ)) (e : ℕ) (r : List ℕ)
    (knp : Option ℕ)
    → IsComponent c
    → is_end e ≡ true
    → resolve_loop (suc fuel) s (replicate k b'/' ++ (c ++ render ps (e ∷ r))) knp
      ≡ on_ok (lookup s knp c) (λ next. resolve_loop fuel s (render ps (e ∷ r)) (some next))
resolve_loop-render_step fuel s k c ps e r knp is_c stop =
    let (h, t, shape, stop') = render-head ps e r stop in
    subst
      (λ w.
        resolve_loop (suc fuel) s (replicate k b'/' ++ (c ++ w)) knp
        ≡ on_ok (lookup s knp c) (λ next. resolve_loop fuel s w (some next)))
      (sym shape) (resolve_loop-step fuel s k c h t knp is_c stop')

resolve_loop-render :
    (fuel : ℕ) (s : Store) (ps : List (ℕ × List ℕ)) (e : ℕ) (r : List ℕ) (knp : Option ℕ)
    → All IsComponent (components ps)
    → is_end e ≡ true
    → resolve_loop (length ps + fuel) s (render ps (e ∷ r)) knp
      ≡ walk s knp (components ps) (λ last. resolve_loop fuel s (e ∷ r) last)
resolve_loop-render fuel s [] e r knp are stop =
    let no_fuel : fuel ≡ 0 + fuel = omega arith in
    subst (λ n. resolve_loop n s (e ∷ r) knp ≡ resolve_loop fuel s (e ∷ r) knp) no_fuel refl
resolve_loop-render fuel s ((k, c) ∷ ps) e r knp (is_c, are) stop =
    let shift : suc (length ps + fuel) ≡ suc (length ps) + fuel = omega arith in
    subst
      (λ n.
        resolve_loop n s (render ((k, c) ∷ ps) (e ∷ r)) knp
        ≡ walk s knp (c ∷ components ps) (λ last. resolve_loop fuel s (e ∷ r) last))
      shift
      (resolve_loop-render_step (length ps + fuel) s (suc k) c ps e r knp is_c stop
        ∙ on_ok-cong (lookup s knp c) _ _
            λ next. resolve_loop-render fuel s ps e r (some next) are stop)

-- Slashes up to the terminator are an empty component.
resolve_loop-empty :
    (fuel : ℕ) (s : Store) (k : ℕ) (last : Option ℕ)
    → resolve_loop (suc (suc fuel)) s (b'/' ∷ (replicate k b'/' ++ 0 ∷ [])) last
      ≡ on_ok (lookup s last []) (λ next. done (ok (some next)))
unfolding resolve_loop fill_component skip_slashes
resolve_loop-empty fuel s k last =
    resolve_loop-parts (suc fuel) s (b'/' ∷ (replicate k b'/' ++ 0 ∷ [])) (0 ∷ []) [] (0 ∷ []) b'/'
      last refl refl (skip_slashes-replicate k (0 ∷ [])) refl

-- A path that is empty or of components, each with one slash or more ahead of it, is resolved with
-- one round for each component and one more: the result is that of the lookups one after the other,
-- the first in the root directory and each further one in the directory found last, up to the first
-- that fails.
pub ob_knode_resolve_lem :
    (s : Store) (ps : List (ℕ × List ℕ)) (fuel : ℕ)
    → All IsComponent (components ps)
    → ob_knode_resolve (length ps + suc fuel) s (some (render ps (0 ∷ []))) false
      ≡ walk s none (components ps) (λ last. done (ok last))
unfolding ob_knode_resolve resolve_loop
ob_knode_resolve_lem s ps fuel are = resolve_loop-render (suc fuel) s ps 0 [] none are refl

-- A slash behind the components, or a path of slashes alone, makes the resolution go on with a
-- lookup of the empty name, in the directory found last or in the root directory.
pub ob_knode_resolve_trailing :
    (s : Store) (ps : List (ℕ × List ℕ)) (k fuel : ℕ)
    → All IsComponent (components ps)
    → ob_knode_resolve
        (length ps + suc (suc fuel))
        s
        (some (render ps (b'/' ∷ (replicate k b'/' ++ 0 ∷ []))))
        false
      ≡ walk s none
          (components ps)
          (λ last. on_ok (lookup s last []) (λ next. done (ok (some next))))
unfolding ob_knode_resolve
ob_knode_resolve_trailing s ps k fuel are =
    resolve_loop-render (suc (suc fuel)) s ps b'/' (replicate k b'/' ++ 0 ∷ []) none are refl
    ∙ walk-cong s none (components ps) _ _ (resolve_loop-empty fuel s k)
