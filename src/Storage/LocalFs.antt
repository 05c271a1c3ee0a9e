-- ===== src/Storage/LocalFs.antt =====
-- The store on disk of internal/storage/storage.go, over the file system as a parameter. A path is
-- absolute: the list of its components, as filepath.Clean leaves them.
pub mod Place
pub mod Laws
use p2p_container_distributi.Prelude.{
  ℕ, zero, suc, Bool, true, false, List, [], ◌∷◌, ◌++◌, map, Option, none, some, Bytes, codes,
  length, take, ltb, bytes_eq, ◌==◌, if◌then◌else◌, keep, not, ◌||◌,
}
use p2p_container_distributi.Errors.{Error, not_found, not_exist, other, Result, ok, err}
use p2p_container_distributi.Text.{split_on, ends_with}
use p2p_container_distributi.Storage.{Backend}

abbrev pub FilePath : Type 0
FilePath = List Bytes

-- The path without its last component: filepath.Dir.
pub dir : FilePath → FilePath
dir [] = []
dir (c ∷ []) = []
dir (c ∷ d ∷ p) = c ∷ dir (d ∷ p)

-- The last component: filepath.Base.
pub base : FilePath → Bytes
base [] = b'/' ∷ []
base (c ∷ []) = c
base (c ∷ d ∷ p) = base (d ∷ p)

-- One step of filepath.Clean.
unfoldable pub push : FilePath → Bytes → FilePath
unfolding dir
push p c =
    if c == []
    then p
    else if c == codes "."
    then p
    else if c == codes ".."
    then dir p
    else p ++ c ∷ []

unfoldable pub push_all : FilePath → List Bytes → FilePath
unfolding push
push_all p [] = p
push_all p (c ∷ cs) = push_all (push p c) cs

-- filepath.Join(root, elems...)
unfoldable pub join : FilePath → List Bytes → FilePath
unfolding push_all
join p [] = p
join p (e ∷ es) = join (push_all p (split_on b'/' e)) es

-- p + suffix
unfoldable pub with_suffix : Bytes → FilePath → FilePath
with_suffix suffix [] = suffix ∷ []
with_suffix suffix (c ∷ []) = (c ++ suffix) ∷ []
with_suffix suffix (c ∷ d ∷ p) = c ∷ with_suffix suffix (d ∷ p)

-- `path`
unfoldable pub path : FilePath → Bytes → FilePath
path root chunk_id =
    if ltb (length chunk_id) 2
    then join root (codes "_short" ∷ chunk_id ∷ [])
    else join root (take 2 chunk_id ∷ chunk_id ∷ [])

-- The calls of Go's `os` and `filepath` packages on a file system with state `F`.
pub record FileSystem (F : Type 0) : Type 0 where
  pub mkdir_all : FilePath → F → Option Error × F
  pub write_file : FilePath → Bytes → F → Option Error × F
  pub rename : FilePath → FilePath → F → Option Error × F
  pub read_file : FilePath → F → Result Bytes
  pub stat : FilePath → F → Option Error
  pub remove : FilePath → F → Option Error × F
  -- The files below a path in the order of filepath.WalkDir, with directories left out.
  pub walk : FilePath → F → Result (List FilePath)

abbrev pub is_not_exist : Error → Bool
is_not_exist not_exist = true
is_not_exist _ = false

abbrev and_then : {F : Type 0} → Option Error × F → (F → Option Error × F) → Option Error × F
and_then (none, s) next = next s
and_then (some e, s) next = (some e, s)

module _ {F : Type 0} (fs : FileSystem F) (root : FilePath) where
  unfoldable new_local_fs : F → Option Error × F
  new_local_fs s = fs.mkdir_all root s

  unfoldable pub put : Bytes → Bytes → F → Option Error × F
  put chunk_id bs s =
      let p = path root chunk_id in
      let tmp = with_suffix (codes ".tmp") p in
      and_then (fs.mkdir_all (dir p) s)
        (λ s1. and_then (fs.write_file tmp bs s1) (λ s2. fs.rename tmp p s2))

  unfoldable pub get : Bytes → F → Result Bytes
  get chunk_id s = elim (fs.read_file (path root chunk_id) s) [
    | ok bs ↦ ok bs
    | err e ↦ if is_not_exist e then err not_found else err e
  ]

  pub has : Bytes → F → Bool
  has chunk_id s = elim (fs.stat (path root chunk_id) s) [ none ↦ true | some e ↦ false ]

  pub delete : Bytes → F → Option Error × F
  delete chunk_id s =
      let (e, s') = fs.remove (path root chunk_id) s in
      elim e [ none ↦ (none, s') | some e' ↦ if is_not_exist e' then (none, s') else (some e', s') ]

  -- Files whose extension is `.tmp` are left out.
  pub list : F → Result (List Bytes)
  list s = elim (fs.walk root s) [
    | err e ↦ err e
    | ok files ↦ ok (map base (keep (λ p. not (ends_with (codes ".tmp") (base p))) files))
  ]

  abbrev local_fs : Backend F
  local_fs = record { put = put; get = get; has = has; delete = delete; list = list }
