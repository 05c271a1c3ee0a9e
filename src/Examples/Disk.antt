-- ===== src/Examples/Disk.antt =====
-- A file system in memory that does what the store on disk of internal/storage/storage.go relies
-- on, and the theorems on that store.
use p2p_container_distributi.Prelude.{
  All, ◌∙◌, ◌≢◌, ◌≡◌, ◌↔◌, refl, Bool, true, false, ◌&&◌, List, [], ◌∷◌, arith, Bytes, bytes_eq,
  bytes_beq, ◌==◌, ==_iff, Eq, Option, none, some, Option-cases, inl, inr, codes,
}
use p2p_container_distributi.Errors.{Error, not_exist, Result, ok, err}
use p2p_container_distributi.GoMap
use p2p_container_distributi.GoMap.{keys, get-put, get-delete}
use p2p_container_distributi.Text.{split_on}
use p2p_container_distributi.Storage.LocalFs.{
  FilePath, FileSystem, path, with_suffix, join, push, push_all, put, get,
}
use p2p_container_distributi.Storage.LocalFs.Laws.{FileLaws, get-put_files}

path_beq : FilePath → FilePath → Bool
path_beq [] [] = true
path_beq [] (d ∷ q) = false
path_beq (c ∷ p) [] = false
path_beq (c ∷ p) (d ∷ q) = c == d && path_beq p q

path_beq_iff : (p q : FilePath) → (path_beq p q ≡ true) ↔ (p ≡ q)
unfolding path_beq
path_beq_iff [] [] = ground arith
path_beq_iff [] (d ∷ q) = ground arith
path_beq_iff (c ∷ p) [] = ground arith
path_beq_iff (c ∷ p) (d ∷ q) = ground (arith, path_beq_iff p q, ==_iff c d)

instance abbrev path_eq : Eq FilePath
path_eq = record { equal = path_beq; equal_iff = path_beq_iff }

abbrev Disk : Type 0
Disk = List (FilePath × Bytes)

read : FilePath → Disk → Result Bytes
read p s = elim (GoMap.get p s) [ none ↦ err not_exist | some bs ↦ ok bs ]

move : FilePath → FilePath → Disk → Option Error × Disk
move p q s = elim (GoMap.get p s) [
  | none ↦ (some not_exist, s)
  | some bs ↦ (none, GoMap.put q bs (GoMap.delete p s))
]

abbrev disk : FileSystem Disk
disk = record {
  mkdir_all = λ p s. (none, s);
  write_file = λ p bs s. (none, GoMap.put p bs s);
  rename = move;
  read_file = read;
  stat = λ p s. elim (GoMap.get p s) [ none ↦ some not_exist | some bs ↦ none ];
  remove = λ p s. (none, GoMap.delete p s);
  walk = λ p s. ok (keys s);
}

abbrev root : FilePath
root = codes "data" ∷ []

disk-FileLaws : FileLaws disk root
unfolding read move
disk-FileLaws = record {
  mkdir_keeps = λ p q d s i h found. found;
  write_reads = λ p bs s i h. ground (arith, get-put p p bs s, ==_iff p p);
  write_keeps = λ p q bs d s i k h ne found. ground (arith, get-put p q bs s, ==_iff p q);
  rename_reads = λ p q bs s i k h found. elim (Option-cases (GoMap.get p s)) [
    | inl gone ↦ cc (rw (gone, move) at h)
    | inr (cs, there) ↦
        let same : ok cs ≡ ok bs = rw (there, read) at found in
        let now : read q (GoMap.put q cs (GoMap.delete p s)) ≡ ok cs =
          ground (arith, get-put q q cs (GoMap.delete p s), ==_iff q q) in
        rw (there, move) (now ∙ same)
  ];
  rename_keeps = λ p q o bs d s i k l h found np nq kept. elim (Option-cases (GoMap.get p s)) [
    | inl gone ↦ cc (rw (gone, move) at h)
    | inr (cs, there) ↦
        rw (there, move)
          (ground
            (arith, get-put q o cs (GoMap.delete p s), get-delete p o s, ==_iff q o, ==_iff p o))
  ];
  remove_reads = λ p s i h. ground (arith, get-delete p p s, ==_iff p p);
}

abbrev first : Bytes
first = codes "ab12"

abbrev second : Bytes
second = codes "cd34"

abbrev before : Disk
before = (codes "data" ∷ codes "cd" ∷ second ∷ [], codes "old") ∷ []

abbrev after : Disk
after = (put disk root first (codes "new") before).1

written : put disk root first (codes "new") before ≡ (none, after)
unfolding put move read path_beq GoMap.get GoMap.put GoMap.delete bytes_beq path with_suffix join
    push push_all split_on
written = refl

still_old : get disk root second before ≡ ok (codes "old")
unfolding read path_beq GoMap.get bytes_beq path join push push_all split_on get
still_old = refl

apart : second ≢ first
unfolding bytes_beq
apart e = cc ((==_iff second first).1 e)

get-put_files_example :
    (get disk root first after ≡ ok (codes "new"))
    × All (λ (o : Bytes × Bytes). get disk root o.0 after ≡ ok o.1) ((second, codes "old") ∷ [])
get-put_files_example =
    get-put_files disk root disk-FileLaws first (codes "new") before after
      ((second, codes "old") ∷ []) (ground arith, ground arith) written
      (((ground arith, ground arith), apart, still_old), tt)
