-- ===== src/Storage/LocalFs/Laws.antt =====
-- The store on disk of internal/storage/storage.go over a file system that does what the
-- documentation of Go's `os` package says of its calls.
use p2p_container_distributi.Prelude.{
  ◌≡◌, ◌≢◌, ◌≤◌, refl, sym, ap, ◌∙◌, subst, List, [], ◌∷◌, ◌++◌, arith, Bytes, codes, length, take,
  Option, none, some, All, if◌then◌else◌, inl, inr,
}
use p2p_container_distributi.Prelude.Members.{All-imp}
use p2p_container_distributi.Chunk.Hex.{IsHexDigit}
use p2p_container_distributi.Errors.{Error, not_found, not_exist, ok, err, Result-cases}
use p2p_container_distributi.Storage.LocalFs.{
  FilePath, FileSystem, path, with_suffix, dir, base, put, get, delete, and_then, is_not_exist,
}
use p2p_container_distributi.Storage.LocalFs.Place.{path_hex, base-path, base-append}

-- A file in a directory of the root, where the store keeps its files.
abbrev pub Inside : FilePath → FilePath → Type 0
Inside root p = (d : Bytes) × (c : Bytes) × (p ≡ root ++ d ∷ c ∷ [])

-- What a call that returns no error has done to the contents of files, by the documentation of
-- package `os`, below a root that only this store writes to, with plain files and directories, no
-- links, and different files for different names.
pub record FileLaws {F : Type 0} (fs : FileSystem F) (root : FilePath) : Type 0 where
  pub mkdir_keeps :
      (p q : FilePath) (d : Bytes) (s : F)
      → Inside root q
      → (fs.mkdir_all p s).0 ≡ none
      → fs.read_file q s ≡ ok d
      → fs.read_file q (fs.mkdir_all p s).1 ≡ ok d
  pub write_reads :
      (p : FilePath) (bs : Bytes) (s : F)
      → Inside root p
      → (fs.write_file p bs s).0 ≡ none
      → fs.read_file p (fs.write_file p bs s).1 ≡ ok bs
  pub write_keeps :
      (p q : FilePath) (bs d : Bytes) (s : F)
      → Inside root p
      → Inside root q
      → (fs.write_file p bs s).0 ≡ none
      → q ≢ p
      → fs.read_file q s ≡ ok d
      → fs.read_file q (fs.write_file p bs s).1 ≡ ok d
  pub rename_reads :
      (p q : FilePath) (bs : Bytes) (s : F)
      → Inside root p
      → Inside root q
      → (fs.rename p q s).0 ≡ none
      → fs.read_file p s ≡ ok bs
      → fs.read_file q (fs.rename p q s).1 ≡ ok bs
  -- where a file is renamed
  pub rename_keeps :
      (p q o : FilePath) (bs d : Bytes) (s : F)
      → Inside root p
      → Inside root q
      → Inside root o
      → (fs.rename p q s).0 ≡ none
      → fs.read_file p s ≡ ok bs
      → o ≢ p
      → o ≢ q
      → fs.read_file o s ≡ ok d
      → fs.read_file o (fs.rename p q s).1 ≡ ok d
  pub remove_reads :
      (p : FilePath) (s : F)
      → Inside root p
      → (fs.remove p s).0 ≡ none
      → fs.read_file p (fs.remove p s).1 ≡ err not_exist

-- A chunk's name: two or more lower-case hex digits.
abbrev pub IsName : Bytes → Type 0
IsName id = (2 ≤ length id) × All IsHexDigit id

with_suffix-append :
    (suffix : Bytes) (p : FilePath) (d c : Bytes)
    → with_suffix suffix (p ++ d ∷ c ∷ []) ≡ p ++ d ∷ (c ++ suffix) ∷ []
unfolding with_suffix
with_suffix-append suffix [] d c = refl
with_suffix-append suffix (a ∷ []) d c = refl
with_suffix-append suffix (a ∷ b ∷ p) d c = ap (◌∷◌ a) (with_suffix-append suffix (b ∷ p) d c)

hex_dotless : (id s : Bytes) → All IsHexDigit (id ++ b'.' ∷ s) → ⊥
hex_dotless [] s h = ground (arith, h.0)
hex_dotless (c ∷ id) s h = hex_dotless id s h.1

module _ (root : FilePath) where
  abbrev temporary : Bytes → FilePath
  temporary id = with_suffix (codes ".tmp") (path root id)

  path-Inside : (id : Bytes) → IsName id → Inside root (path root id)
  path-Inside id n = (take 2 id, id, path_hex root id n.0 n.1)

  temporary_place :
      (id : Bytes) → IsName id → temporary id ≡ root ++ take 2 id ∷ (id ++ codes ".tmp") ∷ []
  temporary_place id n =
      ap (with_suffix (codes ".tmp")) (path_hex root id n.0 n.1)
      ∙ with_suffix-append (codes ".tmp") root (take 2 id) id

  temporary-Inside : (id : Bytes) → IsName id → Inside root (temporary id)
  temporary-Inside id n = (take 2 id, id ++ codes ".tmp", temporary_place id n)

  path_apart : (id j : Bytes) → IsName id → IsName j → j ≢ id → path root j ≢ path root id
  path_apart id j n m ne e =
      ne (sym (base-path root j m.0 m.1) ∙ ap base e ∙ base-path root id n.0 n.1)

  -- No chunk is kept where another is written first.
  path_not_temporary : (id j : Bytes) → IsName id → IsName j → path root j ≢ temporary id
  path_not_temporary id j n m e =
      let name : j ≡ id ++ codes ".tmp" =
        sym (base-path root j m.0 m.1)
        ∙ ap base (e ∙ temporary_place id n)
        ∙ base-append root (take 2 id) (id ++ codes ".tmp") in
      hex_dotless id (codes "tmp") (subst (All IsHexDigit) name m.1)

module _ {F : Type 0} (fs : FileSystem F) (root : FilePath) (laws : FileLaws fs root) where
  -- A `Put` that returns no error went through its three calls.
  abbrev Through : Bytes → Bytes → F → F → Type 0
  Through id bs s s' =
      (s1 : F) × (s2 : F) × (fs.mkdir_all (dir (path root id)) s ≡ (none, s1))
      × (fs.write_file (temporary root id) bs s1 ≡ (none, s2))
      × (fs.rename (temporary root id) (path root id) s2 ≡ (none, s'))

  and_then_ok :
      (m : Option Error × F) (next : F → Option Error × F) (s' : F)
      → and_then m next ≡ (none, s')
      → (s1 : F) × (m ≡ (none, s1)) × (next s1 ≡ (none, s'))
  and_then_ok (none, s1) next s' h = (s1, refl, h)
  and_then_ok (some e, s1) next s' h = cc

  put-Through : (id bs : Bytes) (s s' : F) → put fs root id bs s ≡ (none, s') → Through id bs s s'
  unfolding put
  put-Through id bs s s' h =
      let (s1, made, rest) = and_then_ok (fs.mkdir_all (dir (path root id)) s) _ s' h in
      let (s2, wrote, moved) = and_then_ok (fs.write_file (temporary root id) bs s1) _ s' rest in
      (s1, s2, made, wrote, moved)

  get-read : (id d : Bytes) (s : F) → fs.read_file (path root id) s ≡ ok d → get fs root id s ≡ ok d
  unfolding get
  get-read id d s h = rw (h, get) refl

  -- `Get` makes up no content.
  read-get : (id d : Bytes) (s : F) → get fs root id s ≡ ok d → fs.read_file (path root id) s ≡ ok d
  unfolding get
  read-get id d s h = elim (Result-cases (fs.read_file (path root id) s)) [
    | inl (bs, found) ↦ found ∙ (rw (found, get) at h)
    | inr (e, failed) ↦ absurd (no_content e (rw (failed, get) at h))
  ]
    where
      no_content : (e : Error) → (if is_not_exist e then err not_found else err e) ≢ ok d
      no_content e k = ground (arith, k)

  -- What has been written before the rename.
  temporary_read :
      (id bs : Bytes) (s1 s2 : F)
      → IsName id
      → fs.write_file (temporary root id) bs s1 ≡ (none, s2)
      → fs.read_file (temporary root id) s2 ≡ ok bs
  temporary_read id bs s1 s2 n wrote =
      ap (λ r. fs.read_file (temporary root id) r.1) (sym wrote)
      ∙ laws.write_reads (temporary root id) bs s1 (temporary-Inside root id n)
          (ap (λ r. r.0) wrote)

  put_stored :
      (id bs : Bytes) (s s' : F)
      → IsName id
      → put fs root id bs s ≡ (none, s')
      → get fs root id s' ≡ ok bs
  put_stored id bs s s' n h =
      let (s1, s2, made, wrote, moved) = put-Through id bs s s' h in
      get-read id bs s' (
        ap (λ r. fs.read_file (path root id) r.1) (sym moved)
        ∙ laws.rename_reads (temporary root id) (path root id) bs s2 (temporary-Inside root id n)
            (path-Inside root id n) (ap (λ r. r.0) moved) (temporary_read id bs s1 s2 n wrote))

  put_kept :
      (id bs j d : Bytes) (s s' : F)
      → IsName id
      → put fs root id bs s ≡ (none, s')
      → IsName j
      → j ≢ id
      → get fs root j s ≡ ok d
      → get fs root j s' ≡ ok d
  put_kept id bs j d s s' n h m ne held =
      let (s1, s2, made, wrote, moved) = put-Through id bs s s' h in
      let q = path root j in
      let tmp = temporary root id in
      let away = path_not_temporary root id j n m in
      let in_q = path-Inside root j m in
      let in_tmp = temporary-Inside root id n in
      let after_mkdir : fs.read_file q s1 ≡ ok d =
        ap (λ r. fs.read_file q r.1) (sym made)
        ∙ laws.mkdir_keeps (dir (path root id)) q d s in_q (ap (λ r. r.0) made)
            (read-get j d s held) in
      let after_write : fs.read_file q s2 ≡ ok d =
        ap (λ r. fs.read_file q r.1) (sym wrote)
        ∙ laws.write_keeps tmp q bs d s1 in_tmp in_q (ap (λ r. r.0) wrote) away after_mkdir in
      get-read j d s' (
        ap (λ r. fs.read_file q r.1) (sym moved)
        ∙ laws.rename_keeps tmp (path root id) q bs d s2 in_tmp (path-Inside root id n) in_q
            (ap (λ r. r.0) moved) (temporary_read id bs s1 s2 n wrote) away
            (path_apart root id j n m ne) after_write)

  -- A chunk with another name, and the content that is stored for it.
  abbrev pub IsOther : Bytes → F → Bytes × Bytes → Type 0
  IsOther id s (j, d) = IsName j × (j ≢ id) × (get fs root j s ≡ ok d)

  -- On a file system that does what its calls report, for names of two or more lower-case hex
  -- digits: after a `Put` without error, which goes through a temporary file, `Get` of that name
  -- returns the bytes, and `Get` of any others that were stored returns what it returned before.
  pub get-put_files :
      (id bs : Bytes) (s s' : F) (others : List (Bytes × Bytes))
      → IsName id
      → put fs root id bs s ≡ (none, s')
      → All (IsOther id s) others
      → (get fs root id s' ≡ ok bs)
        × All (λ (o : Bytes × Bytes). get fs root o.0 s' ≡ ok o.1) others
  get-put_files id bs s s' others n h all = (
    put_stored id bs s s' n h,
    All-imp others all (λ o v. put_kept id bs o.0 o.1 s s' n h v.0 v.1 v.2),
  )

  -- After a `Delete` that found the file and returned no error, `Get` reports that it is missing.
  get-delete_self :
      (id : Bytes) (s : F)
      → IsName id
      → (fs.remove (path root id) s).0 ≡ none
      → get fs root id (delete fs root id s).1 ≡ err not_found
  unfolding get delete
  get-delete_self id s n h =
      let after : (delete fs root id s).1 ≡ (fs.remove (path root id) s).1 = rw (h, delete) in
      let read : fs.read_file (path root id) (delete fs root id s).1 ≡ err not_exist =
        ap (fs.read_file (path root id)) after
        ∙ laws.remove_reads (path root id) s (path-Inside root id n) h in
      rw (read, get) refl
