-- ===== src/Tests/Objects.antt =====
-- The object store, run on a root directory with a clock in it.
use open_modality.Base.{◌≡◌, refl, true, false, none, some, [], ◌∷◌, arith}
use open_modality.Base.Run.{done}
use open_modality.Base.Result.{ok}
use open_modality.Sdk.Str.{c_str}
use open_modality.Ob.Heap.{k_dir, k_clkdev, unset, to_dir, Store, knode_at, same_type}
use open_modality.Ob.Store.{slash, ob_root_get, ob_dir_append}
use open_modality.Ob.Store.Laws.{HasName, HasRoot, ob_root_get-ob_dir_append}
use open_modality.Ob.Path.{ob_knode_resolve}
use open_modality.Ob.Path.Laws.{
  IsComponent, lookup, walk, on_ok, ob_knode_resolve_lem, ob_knode_resolve_trailing,
}

-- The root, and a clock "tc" that is in no directory.
abbrev store : Store
store = record {
  is_init = true;
  root_dir = some 0;
  knodes =
      some (record { name = slash; type = k_dir; knode_data = to_dir 0; ref = 1 })
      ∷ some (record { name = b't' ∷ b'c' ∷ 0 ∷ []; type = k_clkdev; knode_data = unset; ref = 1 })
      ∷ [];
  dirs = record { list = []; entry_count = 0 } ∷ [];
  requests = 3;
}

store-HasRoot : HasRoot store
unfolding knode_at same_type
store-HasRoot = record {
  root = 0;
  knode = record { name = slash; type = k_dir; knode_data = to_dir 0; ref = 1 };
  address = 0;
  directory = record { list = []; entry_count = 0 };
  root_set = refl;
  at = refl;
  is_dir = refl;
  backed = refl;
  here = refl;
}

clock-HasName : HasName store 1 (b't' ∷ b'c' ∷ [])
unfolding knode_at c_str
clock-HasName = record {
  knode = record { name = b't' ∷ b'c' ∷ 0 ∷ []; type = k_clkdev; knode_data = unset; ref = 1 };
  at = refl;
  name = refl;
}

ob_root_get-ob_dir_append_example :
    (s' : Store) × (ob_dir_append store (some 1) none ≡ done (s', ok 0))
    × (ob_root_get s' (some (b't' ∷ b'c' ∷ 0 ∷ [])) false ≡ done (ok 1))
unfolding c_str store-HasRoot
ob_root_get-ob_dir_append_example =
    ob_root_get-ob_dir_append store store-HasRoot 1 (b't' ∷ b'c' ∷ 0 ∷ []) refl (λ e. cc)
      clock-HasName tt

tc-IsComponent : IsComponent (b't' ∷ b'c' ∷ [])
tc-IsComponent = record { chars = (refl, (refl, tt)); not_empty = omega arith; fits = omega arith }

-- "//tc"
ob_knode_resolve_lem_example :
    ob_knode_resolve 2 store (some (b'/' ∷ b'/' ∷ b't' ∷ b'c' ∷ 0 ∷ [])) false
    ≡ walk store none ((b't' ∷ b'c' ∷ []) ∷ []) (λ last. done (ok last))
ob_knode_resolve_lem_example =
    ob_knode_resolve_lem store ((1, b't' ∷ b'c' ∷ []) ∷ []) 0 (tc-IsComponent, tt)

-- "/"
ob_knode_resolve_trailing_example :
    ob_knode_resolve 2 store (some (b'/' ∷ 0 ∷ [])) false
    ≡ on_ok (lookup store none []) (λ next. done (ok (some next)))
ob_knode_resolve_trailing_example = ob_knode_resolve_trailing store [] 0 0 tt
