-- ===== src/Ob/Path.antt =====
-- `ob_knode_resolve` of sys/hive/ob/knode.c. A path is the bytes from its pointer on.
pub mod Laws
use open_modality.Base.{
  ℕ, zero, suc, ◌+◌, ◌-◌, ◌%◌, ◌^◌, Bool, true, false, ◌||◌, ◌&&◌, not, Option, none, some, List,
  [], ◌∷◌, ◌++◌,
}
use open_modality.Base.Tests.{◌==◌, leb, if◌then◌else◌}
use open_modality.Base.Lists.{length, get_elem?, set, take}
use open_modality.Base.Run.{Run, done, fault, out_of_fuel, ◌>>=◌, from_option}
use open_modality.Base.Result.{
  Result, ok, err, enoent, eio, enomem, enotdir, einval, enametoolong, enotsup,
}
use open_modality.Base.Words.{u64}
use open_modality.Sdk.Str.{strlen, strcmp}
use open_modality.Ob.Heap.{
  KType, k_none, k_dir, k_clkdev, KData, unset, null, to_dir, Knode, KnodeDir, Store, knode_at,
  dir_at, same_type, find_entry, found, knode_subdir_find,
}
use open_modality.Ob.Store.{ob_root_get}

-- `while (*p == '/' && *p != '\0') ++p;`
unfoldable pub skip_slashes : List ℕ → Run (List ℕ)
skip_slashes [] = fault
skip_slashes (c ∷ p) = if c == b'/' && not (c == 0) then skip_slashes p else done (c ∷ p)

-- `sizeof(pathbuf)`
abbrev pub pathbuf_len : ℕ
pathbuf_len = 128

-- The loop that fills the component buffer from `pathbuf_idx` on: the characters it adds, and the
-- pointer behind them, or -ENAMETOOLONG.
unfoldable pub fill_component : ℕ → List ℕ → Run (Result (List ℕ × List ℕ))
fill_component pathbuf_idx [] = fault
fill_component pathbuf_idx (c ∷ p) = elim (c == b'/' || c == 0) [
  | true ↦ done (ok ([], c ∷ p))
  | false ↦ elim (leb (pathbuf_len - 1) pathbuf_idx) [
    | true ↦ done (err enametoolong)
    | false ↦ do
      r ← fill_component (pathbuf_idx + 1) p
      done (elim r [ err e ↦ err e | ok parts ↦ ok (c ∷ parts.0, parts.1) ])
  ]
]

-- The loop over the components; `knp` is the knode found last.
unfoldable pub resolve_loop : ℕ → Store → List ℕ → Option ℕ → Run (Result (Option ℕ))
resolve_loop zero s p knp = out_of_fuel
resolve_loop (suc fuel) s p knp = do
  c ← from_option (get_elem? p 0)
  elim (c == 0) [
    | true ↦ done (ok knp)
    | false ↦ do
      p' ← skip_slashes p
      filled ← fill_component 0 p'
      elim filled [
        | err e ↦ done (err e)
        | ok parts ↦ do
          let pathbuf = parts.0 ++ 0 ∷ []
          r ← elim knp [
            | none ↦ ob_root_get s (some pathbuf) false
            | some dir_kn ↦ knode_subdir_find s (some dir_kn) pathbuf
          ]
          elim r [ err e ↦ done (err e) | ok next ↦ resolve_loop fuel s parts.1 (some next) ]
      ]
  ]

unfoldable pub ob_knode_resolve :
    ℕ → Store → Option (List ℕ) → (res_null : Bool) → Run (Result (Option ℕ))
ob_knode_resolve fuel s none res_null = done (err einval)
ob_knode_resolve fuel s (some path) true = done (err einval)
ob_knode_resolve fuel s (some path) false = resolve_loop fuel s path none
