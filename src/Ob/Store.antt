-- ===== src/Ob/Store.antt =====
-- Knodes, directories and the root: sys/hive/ob/dir.c and store.c, and `ob_knode_new` of knode.c.
-- Whether the pool allocator serves a request is a parameter, asked with the number of requests so
-- far; what it hands out is new.
pub mod Laws
use open_modality.Base.{
  ℕ, zero, suc, ◌+◌, ◌-◌, ◌%◌, ◌^◌, Bool, true, false, ◌||◌, ◌&&◌, not, Option, none, some, List,
  [], ◌∷◌, ◌++◌,
}
use open_modality.Base.Tests.{◌==◌, leb, if◌then◌else◌}
use open_modality.Base.Lists.{length, get_elem?, set, take}
use open_modality.Base.Run.{Run, done, fault, out_of_fuel, ◌>>=◌, from_option}
use open_modality.Base.Result.{
  Result, ok, err, enoent, eio, enomem, enotdir, einval, enametoolong, enotsup,
}
use open_modality.Base.Words.{u64}
use open_modality.Sdk.Str.{strlen, strcmp}
use open_modality.Ob.Heap.{
  KType, k_none, k_dir, k_clkdev, KData, unset, null, to_timer_hooks, to_dir, Knode, KnodeDir,
  Store, knode_at, dir_at, same_type, find_entry, found, knode_subdir_find,
}

abbrev pub knode_name_len : ℕ
knode_name_len = 32

-- `os_pool_allocate` for a knode whose fields are then set, but for `data`.
unfoldable pub alloc_knode : (ℕ → Bool) → Store → List ℕ → KType → Store × Option ℕ
alloc_knode pool s name type =
    let s' : Store = record s { requests = s.requests + 1 } in
    if pool s.requests
    then (
      record s' {
        knodes =
            s.knodes
            ++ some (record { name = name; type = type; knode_data = unset; ref = 1 }) ∷ [];
      },
      some (length s.knodes),
    )
    else (s', none)

unfoldable pub ob_knode_new :
    (ℕ → Bool) → Store → Option (List ℕ) → KType → (res_null : Bool) → Run (Store × Result ℕ)
ob_knode_new pool s none type res_null = done (s, err einval)
ob_knode_new pool s (some name) type true = done (s, err einval)
ob_knode_new pool s (some name) type false = do
  name_len ← strlen name
  let (s', p) = alloc_knode pool s (take name_len name ++ 0 ∷ []) type
  if leb (knode_name_len - 1) name_len
      then done (s, err enametoolong)
      else done (s', elim p [ none ↦ err enomem | some knp ↦ ok knp ])

-- `os_pool_allocate` for a directory, set as the `data` of the knode: empty, without entries.
unfoldable pub alloc_dir : (ℕ → Bool) → Store → ℕ → Knode → Store × Bool
alloc_dir pool s p knp =
    let s' : Store = record s { requests = s.requests + 1 } in
    if pool s.requests
    then (
      record s' {
        dirs = s.dirs ++ record { list = []; entry_count = 0 } ∷ [];
        knodes = set s.knodes p (some (record knp { knode_data = to_dir (length s.dirs) }));
      },
      true,
    )
    else (record s' { knodes = set s.knodes p none }, false)

unfoldable pub ob_dir_new :
    (ℕ → Bool) → Store → Option (List ℕ) → (res_null : Bool) → Run (Store × Result ℕ)
ob_dir_new pool s none res_null = done (s, err einval)
ob_dir_new pool s (some name) true = done (s, err einval)
ob_dir_new pool s (some name) false = do
  (s1, r) ← ob_knode_new pool s (some name) KType.k_dir false
  elim r [
    | err e ↦ done (s1, err e)
    | ok p ↦ do
      knp ← knode_at s1 p
      let (s2, served) = alloc_dir pool s1 p knp
      done (s2, if served then ok p else err enomem)
  ]

-- "/"
abbrev pub slash : List ℕ
slash = b'/' ∷ 0 ∷ []

-- The pointer to the root is followed ahead of every test of the name.
unfoldable pub ob_root_get : Store → Option (List ℕ) → (res_null : Bool) → Run (Result ℕ)
ob_root_get s none res_null = done (err einval)
ob_root_get s (some name) true = done (err einval)
ob_root_get s (some name) false = do
  root ← from_option s.root_dir
  knp ← knode_at s root
  d ← strcmp name slash
  elim (d.size == 0) [
    | true ↦ done (ok root)
    | false ↦ do
      directory ← dir_at s knp.knode_data
      r ← find_entry s directory.list name
      done (found r)
  ]

-- The rest of `ob_dir_append`, for a directory that is known.
unfoldable pub insert_tail : Store → ℕ → ℕ → Run (Store × Result ℕ)
insert_tail s p dir_kn = do
  knp ← knode_at s dir_kn
  elim (same_type knp.type k_dir) [
    | false ↦ done (s, err enotsup)
    | true ↦ elim knp.knode_data [
      | unset ↦ fault
      | null ↦ done (s, err eio)
      | to_timer_hooks ↦ fault
      | to_dir d ↦ do
        directory ← from_option (get_elem? s.dirs d)
        let longer : KnodeDir = record {
          list = directory.list ++ p ∷ [];
          entry_count = u64 (directory.entry_count + 1);
        }
        done (record s { dirs = set s.dirs d longer }, ok 0)
    ]
  ]

-- On success the result is `ok 0`, the zero that the code returns.
unfoldable pub ob_dir_append : Store → Option ℕ → Option ℕ → Run (Store × Result ℕ)
ob_dir_append s none dir_kn = done (s, err einval)
ob_dir_append s (some p) (some dir_kn) = insert_tail s p dir_kn
ob_dir_append s (some p) none = do
  r ← ob_root_get s (some slash) false
  elim r [ err e ↦ done (s, err e) | ok dir_kn ↦ insert_tail s p dir_kn ]

-- The loop of `ob_root_foreach`, with the value that `cb` returned last: it ends at the first value
-- that is not negative. `cb` is a parameter; its negative values are not told apart.
unfoldable pub foreach_loop : Store → KType → (ℕ → Option ℕ) → List ℕ → Option ℕ → Run (Option ℕ)
foreach_loop s type cb [] retval = done retval
foreach_loop s type cb (p ∷ ps) retval = do
  knp ← knode_at s p
  elim (same_type knp.type type) [
    | false ↦ foreach_loop s type cb ps retval
    | true ↦ elim (cb p) [ none ↦ foreach_loop s type cb ps none | some value ↦ done (some value) ]
  ]

-- The value returned, `none` for a negative one.
unfoldable pub ob_root_foreach : Store → KType → Option (ℕ → Option ℕ) → Run (Option ℕ)
ob_root_foreach s type none = done none
ob_root_foreach s type (some cb) = elim s.root_dir [
  | none ↦ done none
  | some root ↦ do
    knp ← knode_at s root
    directory ← dir_at s knp.knode_data
    foreach_loop s type cb directory.list (some 0)
]

-- `none` stands for the panic.
unfoldable pub ob_store_init : (ℕ → Bool) → Store → Run (Option Store)
ob_store_init pool s = elim s.is_init [
  | true ↦ done (some s)
  | false ↦ do
    (s', r) ← ob_dir_new pool (record s { is_init = true }) (some slash) false
    done (elim r [ err e ↦ none | ok p ↦ some (record s' { root_dir = some p }) ])
]
