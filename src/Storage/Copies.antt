-- ===== src/Storage/Copies.antt =====
-- `Copy` of internal/storage/storage.go between any two stores, of which the destination keeps what
-- it is given and nothing else.
use p2p_container_distributi.Prelude.{
  ◌≡◌, ◌≢◌, refl, sym, ap, ◌∙◌, subst, true, false, List, [], ◌∷◌, arith, Bytes, bytes_eq, ==_iff,
  contains, none, Option-cases, Bool-cases, inl, inr, ◌⊎◌, if◌then◌else◌,
}
use p2p_container_distributi.Errors.{ok, Result-cases}
use p2p_container_distributi.Storage.{Backend, StoreLaws, copy_ids, copy}

not_first : (id : Bytes) (ids : List Bytes) (j : Bytes) → contains (id ∷ ids) j ≡ false → j ≢ id
not_first id ids j c e = ground (arith, c, ==_iff id j, e)

module _ {S T : Type 0} (dst : Backend S) (src : Backend T) (laws : StoreLaws dst) (t : T) where
  -- The ids are at the destination as at the source, and all else is as before.
  abbrev Copied : List Bytes → S → S → Type 0
  Copied ids s s' =
      ((j : Bytes)
        → contains ids j ≡ true
        → (bs : Bytes) × (src.get j t ≡ ok bs) × (dst.get j s' ≡ ok bs))
      × ((j : Bytes) → contains ids j ≡ false → dst.get j s' ≡ dst.get j s)

  -- What is at the destination comes from the source, or was there before.
  abbrev NothingNew : S → S → Type 0
  NothingNew s s' =
      (j d : Bytes) → dst.get j s' ≡ ok d → (src.get j t ≡ ok d) ⊎ (dst.get j s ≡ ok d)

  step-Copied :
      (id : Bytes) (ids : List Bytes) (bs : Bytes) (s s' : S)
      → src.get id t ≡ ok bs
      → (dst.put id bs s).0 ≡ none
      → Copied ids (dst.put id bs s).1 s'
      → Copied (id ∷ ids) s s'
  step-Copied id ids bs s s' got fine (there, kept) = (
    λ j c. elim (Bool-cases (contains ids j)) [
      | inl later ↦ there j later
      | inr only ↦
          let e : id ≡ j = (==_iff id j).0 (ground (arith, c, only)) in
          (
            bs,
            subst (λ z. src.get z t ≡ ok bs) e got,
            kept j only
                ∙ subst (λ z. dst.get z (dst.put id bs s).1 ≡ ok bs) e (laws.put_self id bs s fine),
          )
    ],
    λ j c. kept j (ground (arith, c)) ∙ laws.put_other id bs j s fine (not_first id ids j c),
  )

  step-NothingNew :
      (id bs : Bytes) (s s' : S)
      → src.get id t ≡ ok bs
      → NothingNew (dst.put id bs s).1 s'
      → NothingNew s s'
  step-NothingNew id bs s s' got rest j d here = elim (rest j d here) [
    | inl copied ↦ inl copied
    | inr held ↦ elim (laws.nothing_else id bs j d s held) [
      | inl (same, new) ↦ inl (ap (λ z. src.get z t) same ∙ got ∙ ap ok (sym new))
      | inr old ↦ inr old
    ]
  ]

  copy_ids_lem :
      (ids : List Bytes) (s : S)
      → ((copy_ids dst src ids t s).0 ≡ none → Copied ids s (copy_ids dst src ids t s).1)
        × NothingNew s (copy_ids dst src ids t s).1
  unfolding copy_ids
  copy_ids_lem [] s = ((λ h. ((λ j c. cc c), (λ j c. refl))), (λ j d h. inr h))
  copy_ids_lem (id ∷ ids) s = elim (Result-cases (src.get id t)) [
    | inr (e, failed) ↦ rw (failed, copy_ids) ((λ h. cc h), (λ j d h. inr h))
    | inl (bs, got) ↦ elim (Option-cases (dst.put id bs s).0) [
      | inr (e, failed) ↦
          rw (got, copy_ids, failed)
            ((λ h. cc h), step-NothingNew id bs s (dst.put id bs s).1 got (λ j d h. inr h))
      | inl fine ↦
          let (done, clean) = copy_ids_lem ids (dst.put id bs s).1 in
          rw (got, copy_ids, fine)
            (
              (λ h. step-Copied id ids bs s _ got fine (done h)),
              step-NothingNew id bs s _ got clean,
            )
    ]
  ]

  get-Copied :
      (ids : List Bytes) (s s' : S) (j : Bytes)
      → Copied ids s s'
      → dst.get j s' ≡ (if contains ids j then src.get j t else dst.get j s)
  get-Copied ids s s' j (there, kept) = elim (Bool-cases (contains ids j)) [
    | inl listed ↦ (let (bs, at_src, at_dst) = there j listed in rw listed (at_dst ∙ sym at_src))
    | inr other ↦ rw other (kept j other)
  ]

  -- A copy that reports no error, into a store that keeps what it is given and nothing else, has
  -- listed the source; and at the destination each id of the list reads as at the source, and every
  -- other id as before.
  pub copy-copies :
      (s : S) (j : Bytes)
      → (copy dst src t s).0 ≡ none
      → (ids : List Bytes) × (src.list t ≡ ok ids)
        × (dst.get j (copy dst src t s).1 ≡ (if contains ids j then src.get j t else dst.get j s))
  unfolding copy
  copy-copies s j fine = elim (Result-cases (src.list t)) [
    | inr (e, failed) ↦ cc (rw (failed, copy) at fine)
    | inl (ids, listed) ↦ (
      ids,
      listed,
      rw (listed, copy) (get-Copied ids s _ j ((copy_ids_lem ids s).0 (rw (listed, copy) at fine))),
    )
  ]

  -- A copy into a store that keeps what it is given and nothing else, also one that breaks off,
  -- puts nothing there that is not at the source under the same id.
  copy_clean :
      (s : S) (j d : Bytes)
      → dst.get j (copy dst src t s).1 ≡ ok d
      → (src.get j t ≡ ok d) ⊎ (dst.get j s ≡ ok d)
  unfolding copy
  copy_clean s j d here = elim (Result-cases (src.list t)) [
    | inr (e, failed) ↦ inr (rw (failed, copy) at here)
    | inl (ids, listed) ↦ (copy_ids_lem ids s).1 j d (rw (listed, copy) at here)
  ]
