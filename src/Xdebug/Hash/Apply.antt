-- ===== src/Xdebug/Hash/Apply.antt =====
-- What xdebug_hash_apply visits and what xdebug_hash_destroy hands to the destructor.
use saphire.Prelude.{
  ℕ, zero, suc, ◌+◌, ◌≡◌, refl, sym, ap, ◌∙◌, some, List, [], ◌∷◌, ◌++◌, map, arith, length,
  length-append, get_elem?, get_elem?-lt, drop, if◌then◌else◌,
}
use mathlib.Core.List.{reverse}
use saphire.Clib.{ok}
use saphire.Xdebug.Hash.{
  Key, Chain, XdebugHash, chain_at, elements_from, hash_apply, destroy_from, hash_destroy,
}
use saphire.Xdebug.Hash.Slots.{IsValid, total}

module _ {V : Type 0} where
  -- The chains one behind the other.
  unfoldable pub flat : List (Chain V) → List (Key × V)
  flat [] = []
  flat (c ∷ cs) = c ++ flat cs

  -- The values of the chains, each chain from its end.
  unfoldable pub flat_reverse : List (Chain V) → List V
  flat_reverse [] = []
  flat_reverse (c ∷ cs) = reverse (map (λ e. e.1) c) ++ flat_reverse cs

  length-flat : (cs : List (Chain V)) → length (flat cs) ≡ total cs
  unfolding flat total
  length-flat [] = refl
  length-flat (c ∷ cs) = omega (arith, length-append c (flat cs), length-flat cs)

  drop-get_elem? :
      (cs : List (Chain V)) (i : ℕ) (c : Chain V)
      → get_elem? cs i ≡ some c
      → drop i cs ≡ c ∷ drop (suc i) cs
  drop-get_elem? [] i c h = cc
  drop-get_elem? (b ∷ cs) zero c h = let e : b ≡ c = cc in ap (λ d. d ∷ cs) e
  drop-get_elem? (b ∷ cs) (suc i) c h = drop-get_elem? cs i c h

  drop-length : (cs : List (Chain V)) (i : ℕ) → i ≡ length cs → drop i cs ≡ []
  drop-length [] zero h = refl
  drop-length [] (suc i) h = refl
  drop-length (c ∷ cs) zero h = absurd (omega arith)
  drop-length (c ∷ cs) (suc i) h = drop-length cs i (omega arith)

  module _ (h : XdebugHash V) where
    elements_from-flat :
        (left i : ℕ)
        → i + left ≡ length h.table
        → elements_from h left i ≡ ok (flat (drop i h.table))
    unfolding elements_from chain_at flat
    elements_from-flat zero i e =
        ap (λ cs. ok (flat cs)) (sym (drop-length h.table i (omega arith)))
    elements_from-flat (suc left) i e =
        let (c, at) = get_elem?-lt h.table i (omega arith) in
        rw
          (
            elements_from,
            chain_at,
            at,
            elements_from-flat left (suc i) (omega arith),
            drop-get_elem? h.table i c at,
          )
          refl

    destroy_from-flat :
        (left i : ℕ)
        → i + left ≡ length h.table
        → destroy_from h left i ≡ ok (if h.dtor then flat_reverse (drop i h.table) else [])
    unfolding destroy_from chain_at flat_reverse
    destroy_from-flat zero i e = rw (drop-length h.table i (omega arith)) (ground arith)
    destroy_from-flat (suc left) i e =
        let (c, at) = get_elem?-lt h.table i (omega arith) in
        rw
          (
            destroy_from,
            chain_at,
            at,
            destroy_from-flat left (suc i) (omega arith),
            drop-get_elem? h.table i c at,
          )
          (ground arith)

  -- xdebug_hash_apply of a valid table does not fault and calls back for each element of each chain, in
  -- the order of the slots, as often as the size says; xdebug_hash_destroy does not fault and hands
  -- the same elements' values to the destructor, if there is one, each chain from its end.
  pub hash_apply-flat :
      (h : XdebugHash V)
      → IsValid h
      → (hash_apply h ≡ ok (flat h.table))
        × (length (flat h.table) ≡ h.size)
        × (hash_destroy h ≡ ok (if h.dtor then flat_reverse h.table else []))
  unfolding hash_apply hash_destroy
  hash_apply-flat h v = (
    rw (← v.chains) (elements_from-flat h (length h.table) 0 (omega arith)),
    length-flat h.table ∙ sym v.counted,
    rw (← v.chains) (destroy_from-flat h (length h.table) 0 (omega arith)),
  )
