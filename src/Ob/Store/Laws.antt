-- ===== src/Ob/Store/Laws.antt =====
-- The search of a directory by name, and the root directory after an insertion.
use open_modality.Base.{
  ℕ, ◌+◌, ◌≡◌, ◌≢◌, ◌∙◌, refl, ap, true, false, Option, none, some, List, [], ◌∷◌, ◌++◌, arith,
}
use open_modality.Base.Tests.{◌==◌, Option-cases}
use open_modality.Base.Lists.{get_elem?, set, All, get_elem?-set_self}
use open_modality.Base.Run.{Run, done, ◌>>=◌, from_option}
use open_modality.Base.Result.{ok, err, enoent}
use open_modality.Base.Words.{u64}
use open_modality.Sdk.Str.{strcmp, c_str}
use open_modality.Sdk.Str.Laws.{strcmp_iff}
use open_modality.Ob.Heap.{
  k_dir, to_dir, Knode, KnodeDir, Store, knode_at, dir_at, same_type, find_entry, found,
}
use open_modality.Ob.Store.{slash, ob_root_get, insert_tail, ob_dir_append}

-- A pointer leads to a knode with this name.
pub record HasName (s : Store) (p : ℕ) (t : List ℕ) : Type 0 where
  pub knode : Knode
  pub at : knode_at s p ≡ done knode
  pub name : c_str knode.name ≡ some t

-- A pointer leads to a knode with another name.
pub record HasOtherName (s : Store) (t : List ℕ) (p : ℕ) : Type 0 where
  pub other : List ℕ
  pub named : HasName s p other
  pub differs : other ≢ t

-- The comparison with one entry of a directory.
abbrev choose : List ℕ → List ℕ → Run (Option ℕ) → Run (Option ℕ) → Run (Option ℕ)
choose entry_name name hit miss = do
  a ← from_option (get_elem? entry_name 0)
  b ← from_option (get_elem? name 0)
  elim (a == b) [
    | false ↦ miss
    | true ↦ do d ← strcmp entry_name name; elim (d.size == 0) [ true ↦ hit | false ↦ miss ]
  ]

c_str-first :
    (a b : ℕ) (s1 s2 : List ℕ) {t : List ℕ}
    → c_str (a ∷ s1) ≡ some t
    → c_str (b ∷ s2) ≡ some t
    → a ≡ b
unfolding c_str
c_str-first a b s1 s2 str str' = ground (arith, Option-cases (c_str s1), Option-cases (c_str s2))

choose-hit :
    (entry_name name : List ℕ) {t : List ℕ} (hit miss : Run (Option ℕ))
    → c_str entry_name ≡ some t
    → c_str name ≡ some t
    → choose entry_name name hit miss ≡ hit
choose-hit [] name hit miss str str' = unfold c_str in cc
choose-hit (a ∷ s1) [] hit miss str str' = unfold c_str in cc
choose-hit (a ∷ s1) (b ∷ s2) hit miss str str' =
    let (d, run, iff) = strcmp_iff (a ∷ s1) (b ∷ s2) str str' in
    let same = c_str-first a b s1 s2 str str' in
    let zero_size : d.size ≡ 0 = iff.1 refl in ground arith

-- The test of the first characters never overrules the comparison.
choose-miss :
    (entry_name name : List ℕ) {u t : List ℕ} (hit miss : Run (Option ℕ))
    → c_str entry_name ≡ some u
    → c_str name ≡ some t
    → u ≢ t
    → choose entry_name name hit miss ≡ miss
choose-miss [] name hit miss str str' differ = unfold c_str in cc
choose-miss (a ∷ s1) [] hit miss str str' differ = unfold c_str in cc
choose-miss (a ∷ s1) (b ∷ s2) hit miss str str' differ =
    let (d, run, iff) = strcmp_iff (a ∷ s1) (b ∷ s2) str str' in
    let some_size : d.size ≢ 0 = λ z. differ (iff.0 z) in ground arith

module _ (s : Store) (name : List ℕ) {t : List ℕ} (str : c_str name ≡ some t) where
  find_entry-hit :
      (p : ℕ) (ps : List ℕ) → HasName s p t → find_entry s (p ∷ ps) name ≡ done (some p)
  unfolding find_entry
  find_entry-hit p ps named = rw named.at (choose-hit named.knode.name name _ _ named.name str)

  find_entry-miss :
      (p : ℕ) (ps : List ℕ) → HasOtherName s t p → find_entry s (p ∷ ps) name ≡ find_entry s ps name
  unfolding find_entry
  find_entry-miss p ps other =
      rw other.named.at
        (choose-miss other.named.knode.name name _ _ other.named.name str other.differs)

  find_entry-behind :
      (ps : List ℕ) (q : ℕ) (rest : List ℕ)
      → All (HasOtherName s t) ps
      → HasName s q t
      → find_entry s (ps ++ q ∷ rest) name ≡ done (some q)
  find_entry-behind [] q rest others named = find_entry-hit q rest named
  find_entry-behind (p ∷ ps) q rest (other, others) named =
      find_entry-miss p (ps ++ q ∷ rest) other ∙ find_entry-behind ps q rest others named

  find_entry-absent : (ps : List ℕ) → All (HasOtherName s t) ps → find_entry s ps name ≡ done none
  unfolding find_entry
  find_entry-absent [] others = refl
  find_entry-absent (p ∷ ps) (other, others) =
      find_entry-miss p ps other ∙ find_entry-absent ps others

-- The store is set up: the root is a directory.
pub record HasRoot (s : Store) : Type 0 where
  pub root : ℕ
  pub knode : Knode
  pub address : ℕ
  pub directory : KnodeDir
  pub root_set : s.root_dir ≡ some root
  pub at : knode_at s root ≡ done knode
  pub is_dir : same_type knode.type k_dir ≡ true
  pub backed : knode.knode_data ≡ to_dir address
  pub here : get_elem? s.dirs address ≡ some directory

slash-c_str : c_str slash ≡ some (b'/' ∷ [])
unfolding c_str
slash-c_str = refl

-- The directory with one entry more.
abbrev longer : KnodeDir → ℕ → KnodeDir
longer directory q = record {
  list = directory.list ++ q ∷ [];
  entry_count = u64 (directory.entry_count + 1);
}

module _ (s : Store) (root : HasRoot s) where
  abbrev appended : ℕ → Store
  appended q = record s { dirs = set s.dirs root.address (longer root.directory q) }

  dir_at-root : dir_at s root.knode.knode_data ≡ done root.directory
  unfolding dir_at
  dir_at-root = rw (root.backed, root.here) refl

  root-slash : ob_root_get s (some slash) false ≡ done (ok root.root)
  unfolding ob_root_get strcmp
  root-slash = let set = root.root_set in let at = root.at in ground arith

  ob_dir_append-root : (q : ℕ) → ob_dir_append s (some q) none ≡ done (appended q, ok 0)
  unfolding ob_dir_append insert_tail
  ob_dir_append-root q =
      let at = root.at in
      let is_dir = root.is_dir in
      let backed = root.backed in let here = root.here in ground (arith, root-slash)

  -- A name other than "/" is looked up in the directory of the root.
  ob_root_get-find :
      (name : List ℕ) {t : List ℕ}
      → c_str name ≡ some t
      → t ≢ b'/' ∷ []
      → ob_root_get s (some name) false
        ≡ (find_entry s root.directory.list name >>= λ r. done (found r))
  unfolding ob_root_get
  ob_root_get-find name str ne =
      let (d, run, iff) = strcmp_iff name slash str slash-c_str in
      let nonzero : (d.size == 0) ≡ false =
        (let n : d.size ≢ 0 = λ z. ne (iff.0 z) in ground arith) in
      let set = root.root_set in let at = root.at in ground (arith, dir_at-root)

  HasRoot-appended : (q : ℕ) → HasRoot (appended q)
  unfolding knode_at
  HasRoot-appended q = record {
    root = root.root;
    knode = root.knode;
    address = root.address;
    directory = longer root.directory q;
    root_set = root.root_set;
    at = root.at;
    is_dir = root.is_dir;
    backed = root.backed;
    here = get_elem?-set_self s.dirs root.address (longer root.directory q) root.here;
  }

  HasName-appended : (q p : ℕ) (t : List ℕ) → HasName s p t → HasName (appended q) p t
  unfolding knode_at
  HasName-appended q p t named = record { knode = named.knode; at = named.at; name = named.name }

  others-appended :
      (q : ℕ) (t ps : List ℕ) → All (HasOtherName s t) ps → All (HasOtherName (appended q) t) ps
  others-appended q t [] others = tt
  others-appended q t (p ∷ ps) (other, others) = (
    record {
      other = other.other;
      named = HasName-appended q p other.other other.named;
      differs = other.differs;
    },
    others-appended q t ps others,
  )

-- In a store that is set up, a knode that is appended to the root by a null directory is from then
-- on what a lookup of its name in the root returns, if the name is not "/" and no knode in the root
-- had it already.
pub ob_root_get-ob_dir_append :
    (s : Store) (root : HasRoot s) (q : ℕ) (name : List ℕ) {t : List ℕ}
    → c_str name ≡ some t
    → t ≢ b'/' ∷ []
    → HasName s q t
    → All (HasOtherName s t) root.directory.list
    → (s' : Store) × (ob_dir_append s (some q) none ≡ done (s', ok 0))
      × (ob_root_get s' (some name) false ≡ done (ok q))
unfolding HasRoot-appended
ob_root_get-ob_dir_append s root q name {t} str not_root named others =
    let s' = appended s root q in
    let entries = root.directory.list in
    let search : find_entry s' (entries ++ q ∷ []) name ≡ done (some q) =
      find_entry-behind s' name str entries q [] (others-appended s root q t entries others)
        (HasName-appended s root q q t named) in
    (
      s',
      ob_dir_append-root s root q,
      ob_root_get-find s' (HasRoot-appended s root q) name str not_root
          ∙ ap (λ r. r >>= λ found_at. done (found found_at)) search,
    )

-- If every knode in the root has another name, and the name is not "/", the lookup returns -ENOENT.
ob_root_get_absent :
    (s : Store) (root : HasRoot s) (name : List ℕ) {t : List ℕ}
    → c_str name ≡ some t
    → t ≢ b'/' ∷ []
    → All (HasOtherName s t) root.directory.list
    → ob_root_get s (some name) false ≡ done (err enoent)
ob_root_get_absent s root name str not_root others =
    ob_root_get-find s root name str not_root
    ∙ ap (λ r. r >>= λ found_at. done (found found_at))
        (find_entry-absent s name str root.directory.list others)
