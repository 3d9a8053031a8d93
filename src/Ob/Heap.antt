-- ===== src/Ob/Heap.antt =====
-- The objects of sys/hive/ob: inc/ob/knode.h and inc/ob/dir.h, and the search of a directory in
-- knode.c. The knodes and the directories lie in two heaps, and a pointer is an index into one of
-- them. A tail queue (sys/queue.h) is the sequence of its elements, which it is as long as no knode
-- is appended twice.
use open_modality.Base.{ℕ, Bool, true, false, Option, none, some, List, [], ◌∷◌}
use open_modality.Base.Tests.{◌==◌}
use open_modality.Base.Lists.{get_elem?}
use open_modality.Base.Run.{Run, done, fault, ◌>>=◌, from_option}
use open_modality.Base.Result.{Result, ok, err, enoent, enotdir, einval}
use open_modality.Sdk.Str.{strcmp}

-- `ktype_t`
pub data KType : Type 0 where
  k_none k_dir k_clkdev : KType

-- The field `data` of a knode, here `knode_data`: unset since the allocation, null, a directory, or
-- the hooks of a timer.
pub data KData : Type 0 where
  unset null to_timer_hooks : KData
  to_dir : ℕ → KData

-- `name` is the bytes up to the terminator.
pub record Knode : Type 0 where
  pub name : List ℕ
  pub type : KType
  pub knode_data : KData
  pub ref : ℕ

pub record KnodeDir : Type 0 where
  pub list : List ℕ
  pub entry_count : ℕ

-- The static variables of store.c and the heaps; a knode that was freed is `none`.
pub record Store : Type 0 where
  pub is_init : Bool
  pub root_dir : Option ℕ
  pub knodes : List (Option Knode)
  pub dirs : List KnodeDir
  pub requests : ℕ

-- The memory behind a pointer to a knode.
unfoldable pub knode_at : Store → ℕ → Run Knode
knode_at s p = do cell ← from_option (get_elem? s.knodes p); from_option cell

-- The directory behind `data`, which the code does not compare with null.
unfoldable pub dir_at : Store → KData → Run KnodeDir
dir_at s unset = fault
dir_at s null = fault
dir_at s to_timer_hooks = fault
dir_at s (to_dir d) = from_option (get_elem? s.dirs d)

-- `==` on `ktype_t`.
unfoldable pub same_type : KType → KType → Bool
same_type k_none k_none = true
same_type k_dir k_dir = true
same_type k_clkdev k_clkdev = true
same_type _ _ = false

-- The loops over the entries of a directory: the first with the name, the first characters being
-- compared ahead of the whole names.
unfoldable pub find_entry : Store → List ℕ → List ℕ → Run (Option ℕ)
find_entry s [] name = done none
find_entry s (p ∷ ps) name = do
  knp ← knode_at s p
  a ← from_option (get_elem? knp.name 0)
  b ← from_option (get_elem? name 0)
  elim (a == b) [
    | false ↦ find_entry s ps name
    | true ↦ do
      d ← strcmp knp.name name
      elim (d.size == 0) [ true ↦ done (some p) | false ↦ find_entry s ps name ]
  ]

abbrev pub found : Option ℕ → Result ℕ
found none = err enoent
found (some p) = ok p

-- The result pointer is never null here, nor is `name`.
unfoldable pub knode_subdir_find : Store → Option ℕ → List ℕ → Run (Result ℕ)
knode_subdir_find s none name = done (err einval)
knode_subdir_find s (some parent) name = do
  knp ← knode_at s parent
  elim (same_type knp.type k_dir) [
    | false ↦ done (err enotdir)
    | true ↦ do pardir ← dir_at s knp.knode_data; r ← find_entry s pardir.list name; done (found r)
  ]
