-- ===== src/Xdebug/Hash/Table.antt =====
-- The operations of the table, as operations of the map that it stands for.
use saphire.Prelude.{
  ℕ, zero, suc, ◌+◌, ◌-◌, ◌%◌, ◌<◌, ◌≡◌, refl, sym, ap, subst, ◌∙◌, inl, inr, Bool, false, Option,
  none, some, List, [], ◌∷◌, ◌++◌, arith, length, length-append, length-replicate, get_elem?,
  replicate, get_or, Bool-cases, Option-cases, ◌==◌,
}
use saphire.Clib.{ok}
use saphire.Xdebug.Hash.{
  Key, Chain, XdebugHash, key_hash, hash_alloc, find_slot, chain_at, destroyed, hash_add_or_update,
  hash_extended_delete, hash_extended_find,
}
use saphire.Xdebug.Hash.Keys.{IsKey, key_eq, eq_of_key_eq}
use saphire.Xdebug.Hash.Chains.{
  lookup, assign, remove, Once, chain_find-lookup, chain_update-assign, chain_delete-remove,
  lookup-assign, lookup-snoc, lookup-remove, assign-Once, snoc-Once, remove-Once, length-assign,
  length-remove,
}
use saphire.Xdebug.Hash.Slots.{
  IsValid, slot_of, view, chain_of, Writes, stored, stored-Writes, total, length-le-total,
}

total-replicate : (V : Type 0) (n : ℕ) → total {V = V} (replicate n []) ≡ 0
unfolding total
total-replicate V zero = refl
total-replicate V (suc n) = omega (arith, total-replicate V n)

module _ {V : Type 0} where
  find_slot-ok : (h : XdebugHash V) (k : Key) → IsValid h → find_slot h k ≡ ok (slot_of h k)
  unfolding find_slot
  find_slot-ok h k v =
      let e : (h.slots == 0) ≡ false = ground (arith, v.some_slot) in rw (find_slot, e)

  chain_at-ok :
      (h : XdebugHash V) (i : ℕ) (c : Chain V) → get_elem? h.table i ≡ some c → chain_at h i ≡ ok c
  unfolding chain_at
  chain_at-ok h i c e = rw (e, chain_at)

  -- In a valid table a lookup of a key, a number or a text of a byte at least, does not fault, and finds what the table maps the key to.
  pub hash_extended_find-view :
      (h : XdebugHash V) (k : Key) → IsValid h → IsKey k → hash_extended_find h k ≡ ok (view h k)
  unfolding hash_extended_find
  hash_extended_find-view h k v key =
      let (c, e, seen) = chain_of h k v in
      rw (
        hash_extended_find,
        find_slot-ok h k v,
        chain_at-ok h (slot_of h k) c e,
        chain_find-lookup k c key,
        seen,
      )

  -- What is handed to the destructor when the value at a key is dropped.
  abbrev pub dropped : XdebugHash V → Option V → List V
  dropped h none = []
  dropped h (some old) = destroyed h old

  abbrev pub count : Option V → ℕ
  count none = 0
  count (some _) = 1

  -- A table is as it would be with nothing at a key where it has nothing.
  unchanged : (h : XdebugHash V) (k : Key) → IsValid h → view h k ≡ none → Writes h k none h
  unchanged h k v absent = record {
    valid = v;
    entries = λ q. elim (Bool-cases (key_eq q k)) [
      | inl same ↦ rw same (ap (view h) (eq_of_key_eq q k same) ∙ absent)
      | inr other ↦ rw other
    ];
    dtor = refl;
    slots = refl;
  }

  module _ (h : XdebugHash V) (k : Key) (v : IsValid h) (key : IsKey k) where
    -- In a valid table, for a key that is a number or a text of a byte at least,
    -- xdebug_hash_add_or_update returns 1; the table then is valid, maps the key to the new value and all other
    -- keys as before; exactly a replaced value is handed to the destructor, and the size grows by one
    -- exactly if the key was not there.
    pub hash_add_or_update-Writes :
        (p : V)
        → (h' : XdebugHash V) × (hash_add_or_update h k p ≡ ok (1, dropped h (view h k), h'))
          × Writes h k (some p) h'
          × (h'.size + count (view h k) ≡ h.size + 1)
    unfolding hash_add_or_update stored
    hash_add_or_update-Writes p =
        let (c, e, seen) = chain_of h k v in
        let once = v.once (slot_of h k) c e in
        elim (Option-cases (lookup k c)) [
          | inl absent ↦ (
            stored h v k c (c ++ (k, p) ∷ []) (h.size + 1) e (snoc-Once k p c absent once) (some p)
                (λ q. lookup-snoc k q p c absent) (omega (arith, length-append c ((k, p) ∷ []))),
            rw (
              hash_add_or_update,
              find_slot-ok h k v,
              chain_at-ok h (slot_of h k) c e,
              chain_update-assign k p c key,
              absent,
              seen,
              absent,
            ),
            stored-Writes h v k c (c ++ (k, p) ∷ []) (h.size + 1) e (snoc-Once k p c absent once)
                (some p) (λ q. lookup-snoc k q p c absent)
                (omega (arith, length-append c ((k, p) ∷ []))),
            rw (seen, absent) (omega arith),
          )
          | inr (old, there) ↦
              let d = assign k p c in
              let w =
                stored-Writes h v k c d h.size e (assign-Once k p old c there once) (some p)
                  (λ q. lookup-assign k q p old c there) (omega (arith, length-assign k p c)) in
              (
                stored h v k c d h.size e (assign-Once k p old c there once) (some p)
                    (λ q. lookup-assign k q p old c there) (omega (arith, length-assign k p c)),
                rw (
                  hash_add_or_update,
                  find_slot-ok h k v,
                  chain_at-ok h (slot_of h k) c e,
                  chain_update-assign k p c key,
                  there,
                  seen,
                  there,
                ),
                w,
                rw (seen, there),
              )
        ]

    -- In a valid table, for a key that is a number or a text of a byte at least,
    -- xdebug_hash_extended_delete returns 1 if the key was there, else 0; the table then is valid, maps the key to
    -- nothing and all other keys as before; exactly the removed value is handed to the destructor,
    -- and the size falls by one exactly if the key was there.
    pub hash_extended_delete-Writes :
        (h' : XdebugHash V) × (hash_extended_delete h k
          ≡ ok (count (view h k), dropped h (view h k), h'))
        × Writes h k none h'
        × (h'.size + count (view h k) ≡ h.size)
    unfolding hash_extended_delete stored
    hash_extended_delete-Writes =
        let (c, e, seen) = chain_of h k v in
        let once = v.once (slot_of h k) c e in
        elim (Option-cases (lookup k c)) [
          | inl absent ↦ (
            h,
            rw (
              hash_extended_delete,
              find_slot-ok h k v,
              chain_at-ok h (slot_of h k) c e,
              chain_delete-remove k c key,
              absent,
              seen,
              absent,
            ),
            unchanged h k v (seen ∙ absent),
            rw (seen, absent) (omega arith),
          )
          | inr (old, there) ↦
              let d = remove k c in
              let size : h.size - 1 + length c ≡ h.size + length d = omega (
                arith,
                v.counted,
                length-remove k old c there,
                length-le-total h.table (slot_of h k) c e,
              ) in
              let filled : 0 < h.size = omega (
                arith,
                v.counted,
                length-remove k old c there,
                length-le-total h.table (slot_of h k) c e,
              ) in
              (
                stored h v k c d (h.size - 1) e (remove-Once k c once) none
                    (λ q. lookup-remove k q c once) size,
                rw (
                  hash_extended_delete,
                  find_slot-ok h k v,
                  chain_at-ok h (slot_of h k) c e,
                  chain_delete-remove k c key,
                  there,
                  seen,
                  there,
                ),
                stored-Writes h v k c d (h.size - 1) e (remove-Once k c once) none
                    (λ q. lookup-remove k q c once) size,
                rw (seen, there) (omega arith),
              )
        ]

  get_or-replicate : (n i : ℕ) → get_or {A = Chain V} (replicate n []) i [] ≡ []
  get_or-replicate zero i = refl
  get_or-replicate (suc n) zero = refl
  get_or-replicate (suc n) (suc i) = get_or-replicate n i

  replicate-Once :
      (n i : ℕ) (c : Chain V) → get_elem? {A = Chain V} (replicate n []) i ≡ some c → Once c
  replicate-Once zero i c h = cc
  replicate-Once (suc n) zero c h = let e : [] ≡ c = cc in subst Once e tt
  replicate-Once (suc n) (suc i) c h = replicate-Once n i c h

  -- A new table with a slot at least is valid, maps every key to nothing and has the size 0.
  pub hash_alloc-empty :
      (slots : ℕ) (dtor : Bool)
      → 0 < slots
      → IsValid (hash_alloc {V = V} slots dtor)
        × ((q : Key) → view (hash_alloc {V = V} slots dtor) q ≡ none)
        × ((hash_alloc {V = V} slots dtor).size ≡ 0)
  unfolding hash_alloc view lookup
  hash_alloc-empty slots dtor pos = (
    record {
      some_slot = pos;
      chains = length-replicate slots [];
      once = replicate-Once slots;
      counted = sym (total-replicate V slots);
    },
    λ q. ap (lookup q) (get_or-replicate slots (key_hash q % slots)),
    refl,
  )
