-- ===== src/Storage/Memory.antt =====
-- The in-memory store of internal/storage/storage.go.
use p2p_container_distributi.Prelude.{
  ◌≡◌, refl, sym, ap, ◌∙◌, Bool, true, false, List, [], ◌∷◌, arith, Bytes, bytes_eq, ==_iff, ◌==◌,
  Option, none, some, contains, if◌then◌else◌, All,
}
use p2p_container_distributi.Errors.{Error, not_found, Result, ok, err}
use p2p_container_distributi.Prelude.Members.{All-of_contains}
use p2p_container_distributi.GoMap
use p2p_container_distributi.GoMap.{keys, get-put, get-delete, get_of_contains-keys}
use p2p_container_distributi.Storage.{Backend, copy_ids, copy}

abbrev pub Memory : Type 0
Memory = List (Bytes × Bytes)

unfoldable pub put : Bytes → Bytes → Memory → Option Error × Memory
put id bs m = (none, GoMap.put id bs m)

unfoldable pub get : Bytes → Memory → Result Bytes
get id m = elim (GoMap.get id m) [ none ↦ err not_found | some bs ↦ ok bs ]

unfoldable pub has : Bytes → Memory → Bool
has id m = elim (GoMap.get id m) [ none ↦ false | some bs ↦ true ]

unfoldable pub delete : Bytes → Memory → Option Error × Memory
delete id m = (none, GoMap.delete id m)

unfoldable pub list : Memory → Result (List Bytes)
list m = ok (keys m)

abbrev pub memory : Backend Memory
memory = record { put = put; get = get; has = has; delete = delete; list = list }

-- What a read finds after a write, at the same id and at any other.
pub get-put_memory :
    (id j bs : Bytes) (m : Memory) → get j (put id bs m).1 ≡ (if id == j then ok bs else get j m)
unfolding get put
get-put_memory id j bs m = ground (arith, get-put id j bs m)

get-delete_memory :
    (id j : Bytes) (m : Memory)
    → get j (delete id m).1 ≡ (if id == j then err not_found else get j m)
unfolding get delete
get-delete_memory id j m = ground (arith, get-delete id j m)

-- `Has` holds of exactly the ids that `List` returns.
pub has-keys : (id : Bytes) (m : Memory) → has id m ≡ contains (keys m) id
unfolding has GoMap.get
has-keys id [] = refl
has-keys id ((j, bs) ∷ m) = ground (arith, has-keys id m)

get_ok : (id : Bytes) (m : Memory) → contains (keys m) id ≡ true → (bs : Bytes) × (get id m ≡ ok bs)
unfolding get
get_ok id m c = let (bs, e) = get_of_contains-keys id m c in (bs, rw (e, get))

copy_ids_step :
    (id : Bytes) (ids : List Bytes) (bs : Bytes) (t s : Memory)
    → get id t ≡ ok bs
    → copy_ids memory memory (id ∷ ids) t s ≡ copy_ids memory memory ids t (put id bs s).1
unfolding copy_ids put
copy_ids_step id ids bs t s e = rw (e, copy_ids)

copy_ids-memory :
    (ids : List Bytes) (t s : Memory)
    → All (λ id. contains (keys t) id ≡ true) ids
    → ((copy_ids memory memory ids t s).0 ≡ none)
      × ((j : Bytes)
          → get j (copy_ids memory memory ids t s).1
            ≡ (if contains ids j then get j t else get j s))
copy_ids-memory [] t s h = unfold copy_ids in (refl, λ j. refl)
copy_ids-memory (id ∷ ids) t s h =
    let (bs, e) = get_ok id t h.0 in
    let (fine, reads) = copy_ids-memory ids t (put id bs s).1 h.1 in
    rw (copy_ids_step id ids bs t s e)
      (fine, λ j. reads j ∙ ground (arith, get-put_memory id j bs s, ==_iff id j, at_id j bs e))
  where
    at_id : (j : Bytes) (bs : Bytes) → get id t ≡ ok bs → id ≡ j → get j t ≡ ok bs
    at_id j bs e same = rw (← same) e

-- A copy into a store in memory from another succeeds, and leaves the destination with what the
-- source has, and with what it had itself where the source has nothing.
pub copy-memory :
    (t s : Memory)
    → ((copy memory memory t s).0 ≡ none)
      × ((j : Bytes) → get j (copy memory memory t s).1 ≡ (if has j t then get j t else get j s))
unfolding copy list
copy-memory t s =
    let (fine, reads) = copy_ids-memory (keys t) t s (All-of_contains _ (keys t) (λ id c. c)) in
    (fine, λ j. reads j ∙ ap (λ b. if b then get j t else get j s) (sym (has-keys j t)))
