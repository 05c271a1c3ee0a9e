-- ===== src/Examples/Files.antt =====
-- The theorems on internal/storage/storage.go, with a small file system in memory.
use p2p_container_distributi.Prelude.{
  ◌≡◌, ◌≢◌, arith, refl, List, [], ◌∷◌, ◌++◌, Bytes, bytes_eq, bytes_beq, none, codes, contains,
  if◌then◌else◌,
}
use p2p_container_distributi.GoMap
use p2p_container_distributi.Errors.{ok}
use p2p_container_distributi.Storage.{copy, copy_ids}
use p2p_container_distributi.Storage.Memory.{Memory, memory, list, get, put}
use p2p_container_distributi.Storage.Copies.{copy-copies}
use p2p_container_distributi.Examples.Requests.{memory-StoreLaws}
use p2p_container_distributi.Storage.LocalFs.{FilePath, path, dir}
use p2p_container_distributi.Storage.LocalFs.Place.{path_escapes}

abbrev root : FilePath
root = codes "var" ∷ codes "lib" ∷ codes "data" ∷ []

path_escapes_example :
    (path root (codes "../../" ++ codes "passwd") ≡ dir (dir (dir root)) ++ codes "passwd" ∷ [])
    × ((below : FilePath) → path root (codes "../../" ++ codes "passwd") ≢ root ++ below)
path_escapes_example = path_escapes root (codes "passwd") (ground arith) (omega arith)

abbrev source : Memory
source = (codes "a", codes "1") ∷ (codes "b", codes "2") ∷ []

abbrev target : Memory
target = (codes "b", codes "3") ∷ []

copy_ended : (copy memory memory source target).0 ≡ none
unfolding copy copy_ids list get put GoMap.get bytes_beq
copy_ended = refl

copy-copies_example :
    (ids : List Bytes) × (list source ≡ ok ids)
    × (get (codes "b") (copy memory memory source target).1
        ≡ (if contains ids (codes "b") then get (codes "b") source else get (codes "b") target))
copy-copies_example =
    copy-copies memory memory memory-StoreLaws source target (codes "b") copy_ended
