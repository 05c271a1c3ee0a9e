-- ===== src/Storage.antt =====
-- internal/storage/storage.go: the interface of a chunk store, and the copy between two stores.
pub mod Memory
pub mod LocalFs
pub mod S3
pub mod Copies
use p2p_container_distributi.Prelude.{◌≡◌, ◌≢◌, ◌⊎◌, Bool, List, [], ◌∷◌, Option, none, some, Bytes}
use p2p_container_distributi.Errors.{Error, Result, ok, err}

-- `Backend` over a store with state `S`. A method that writes returns its error, if any, and the
-- new state.
pub record Backend (S : Type 0) : Type 0 where
  pub put : Bytes → Bytes → S → Option Error × S
  pub get : Bytes → S → Result Bytes
  pub has : Bytes → S → Bool
  pub delete : Bytes → S → Option Error × S
  pub list : S → Result (List Bytes)

-- What the callers of a store rely on: a read finds what was written last under its name.
pub record StoreLaws {S : Type 0} (store : Backend S) : Type 0 where
  -- whether or not the write reported an error
  pub nothing_else :
      (id bs j d : Bytes) (s : S)
      → store.get j (store.put id bs s).1 ≡ ok d
      → ((j ≡ id) × (d ≡ bs)) ⊎ (store.get j s ≡ ok d)
  pub put_self :
      (id bs : Bytes) (s : S)
      → (store.put id bs s).0 ≡ none
      → store.get id (store.put id bs s).1 ≡ ok bs
  pub put_other :
      (id bs j : Bytes) (s : S)
      → (store.put id bs s).0 ≡ none
      → j ≢ id
      → store.get j (store.put id bs s).1 ≡ store.get j s

module _ {S T : Type 0} (dst : Backend S) (src : Backend T) where
  -- The loop of `Copy` over the ids that the source lists.
  unfoldable pub copy_ids : List Bytes → T → S → Option Error × S
  copy_ids [] t s = (none, s)
  copy_ids (id ∷ ids) t s = elim (src.get id t) [
    | err e ↦ (some e, s)
    | ok bs ↦ elim (dst.put id bs s).0 [
      | some e ↦ (some e, (dst.put id bs s).1)
      | none ↦ copy_ids ids t (dst.put id bs s).1
    ]
  ]

  unfoldable pub copy : T → S → Option Error × S
  unfolding copy_ids
  copy t s = elim (src.list t) [ err e ↦ (some e, s) | ok ids ↦ copy_ids ids t s ]
