-- ===== src/Xdebug/Hash/Chains.antt =====
-- The three loops over a chain, as a lookup, an assignment and a removal without faults.
use saphire.Prelude.{
  ◌+◌, ◌≡◌, refl, inl, inr, false, Option, none, some, [], ◌∷◌, ◌++◌, arith, length, Bool-cases,
  Option-cases, if◌then◌else◌,
}
use saphire.Clib.{ok}
use saphire.Xdebug.Hash.{Key, Chain, chain_find, chain_update, chain_delete}
use saphire.Xdebug.Hash.Keys.{
  IsKey, key_eq, key_compare-key_eq, eq_of_key_eq, key_eq_refl, key_eq_symm,
}

module _ {V : Type 0} where
  unfoldable pub lookup : Key → Chain V → Option V
  lookup k [] = none
  lookup k ((j, v) ∷ c) = if key_eq k j then some v else lookup k c

  unfoldable pub assign : Key → V → Chain V → Chain V
  assign k p [] = []
  assign k p ((j, v) ∷ c) = if key_eq k j then (j, p) ∷ c else (j, v) ∷ assign k p c

  unfoldable pub remove : Key → Chain V → Chain V
  remove k [] = []
  remove k ((j, v) ∷ c) = if key_eq k j then c else (j, v) ∷ remove k c

  -- No key occurs twice.
  abbrev pub Once : Chain V → Type 0
  Once [] = Unit
  Once ((j, v) ∷ c) = (lookup j c ≡ none) × Once c

  -- The value found, with the chain that the loop leaves.
  abbrev pub with_chain : Option V → Chain V → Option (V × Chain V)
  with_chain none c = none
  with_chain (some v) c = some (v, c)

  pub chain_find-lookup : (k : Key) (c : Chain V) → IsKey k → chain_find k c ≡ ok (lookup k c)
  unfolding chain_find lookup
  chain_find-lookup k [] h = refl
  chain_find-lookup k ((j, v) ∷ c) h =
      rw (key_compare-key_eq k j h) (elim (Bool-cases (key_eq k j)) [
        | inl same ↦ rw same
        | inr other ↦ rw other (chain_find-lookup k c h)
      ])

  pub chain_update-assign :
      (k : Key) (p : V) (c : Chain V)
      → IsKey k
      → chain_update k p c ≡ ok (with_chain (lookup k c) (assign k p c))
  unfolding chain_update lookup assign
  chain_update-assign k p [] h = refl
  chain_update-assign k p ((j, v) ∷ c) h =
      rw (key_compare-key_eq k j h) (elim (Bool-cases (key_eq k j)) [
        | inl same ↦ rw same
        | inr other ↦
            rw (other, chain_update-assign k p c h)
              (elim (Option-cases (lookup k c)) [ inl e ↦ rw e | inr (old, e) ↦ rw e ])
      ])

  pub chain_delete-remove :
      (k : Key) (c : Chain V)
      → IsKey k
      → chain_delete k c ≡ ok (with_chain (lookup k c) (remove k c))
  unfolding chain_delete lookup remove
  chain_delete-remove k [] h = refl
  chain_delete-remove k ((j, v) ∷ c) h =
      rw (key_compare-key_eq k j h) (elim (Bool-cases (key_eq k j)) [
        | inl same ↦ rw same
        | inr other ↦
            rw (other, chain_delete-remove k c h)
              (elim (Option-cases (lookup k c)) [ inl e ↦ rw e | inr (old, e) ↦ rw e ])
      ])

  module _ (k : Key) where
    pub lookup-assign :
        (q : Key) (p old : V) (c : Chain V)
        → lookup k c ≡ some old
        → lookup q (assign k p c) ≡ (if key_eq q k then some p else lookup q c)
    unfolding lookup assign
    lookup-assign q p old [] h = cc
    lookup-assign q p old ((j, v) ∷ c) h = ground (
      arith,
      lookup-assign q p old c,
      eq_of_key_eq k j,
      eq_of_key_eq q k,
      eq_of_key_eq q j,
      key_eq_refl k,
    )

    pub lookup-snoc :
        (q : Key) (p : V) (c : Chain V)
        → lookup k c ≡ none
        → lookup q (c ++ (k, p) ∷ []) ≡ (if key_eq q k then some p else lookup q c)
    unfolding lookup
    lookup-snoc q p [] h = refl
    lookup-snoc q p ((j, v) ∷ c) h = ground (
      arith,
      lookup-snoc q p c,
      eq_of_key_eq k j,
      eq_of_key_eq q k,
      eq_of_key_eq q j,
      key_eq_refl k,
    )

    pub lookup-remove :
        (q : Key) (c : Chain V)
        → Once c
        → lookup q (remove k c) ≡ (if key_eq q k then none else lookup q c)
    unfolding lookup remove
    lookup-remove q [] h = ground arith
    lookup-remove q ((j, v) ∷ c) h = ground (
      arith,
      lookup-remove q c h.1,
      eq_of_key_eq k j,
      eq_of_key_eq q k,
      eq_of_key_eq q j,
      key_eq_refl k,
    )

    pub assign-Once :
        (p old : V) (c : Chain V) → lookup k c ≡ some old → Once c → Once (assign k p c)
    unfolding lookup assign
    assign-Once p old [] h once = tt
    assign-Once p old ((j, v) ∷ c) h once = elim (Bool-cases (key_eq k j)) [
      | inl same ↦ rw same once
      | inr other ↦
          let there : lookup k c ≡ some old = rw other at h in
          let apart : key_eq j k ≡ false = rw key_eq_symm other in
          rw other
            (rw (lookup-assign j p old c there, apart) once.0, assign-Once p old c there once.1)
    ]

    pub snoc-Once : (p : V) (c : Chain V) → lookup k c ≡ none → Once c → Once (c ++ (k, p) ∷ [])
    unfolding lookup
    snoc-Once p [] h once = (refl, tt)
    snoc-Once p ((j, v) ∷ c) h once = elim (Bool-cases (key_eq k j)) [
      | inl same ↦ let found : some v ≡ none = rw same at h in cc
      | inr other ↦
          let absent : lookup k c ≡ none = rw other at h in
          let apart : key_eq j k ≡ false = rw key_eq_symm other in
          (rw (lookup-snoc j p c absent, apart) once.0, snoc-Once p c absent once.1)
    ]

    pub remove-Once : (c : Chain V) → Once c → Once (remove k c)
    unfolding remove
    remove-Once [] once = tt
    remove-Once ((j, v) ∷ c) once = elim (Bool-cases (key_eq k j)) [
      | inl same ↦ rw same once.1
      | inr other ↦
          let apart : key_eq j k ≡ false = rw key_eq_symm other in
          rw other (rw (lookup-remove j c once.1, apart) once.0, remove-Once c once.1)
    ]

    pub length-assign : (p : V) (c : Chain V) → length (assign k p c) ≡ length c
    unfolding assign
    length-assign p [] = refl
    length-assign p ((j, v) ∷ c) = ground (arith, length-assign p c)

    pub length-remove :
        (old : V) (c : Chain V) → lookup k c ≡ some old → length (remove k c) + 1 ≡ length c
    unfolding remove lookup
    length-remove old [] h = cc
    length-remove old ((j, v) ∷ c) h = ground (arith, length-remove old c)
