-- ===== src/Xdebug/Hash/Slots.antt =====
-- A write to one slot of the table: what it means for the entries that the table stands for.
use saphire.Prelude.{
  ℕ, zero, suc, ◌+◌, ◌%◌, ◌<◌, ◌≤◌, ◌≡◌, refl, sym, ap, subst, ◌∙◌, inl, inr, Option, some, List,
  [], ◌∷◌, arith, length, get_elem?, get_elem?-lt, get_elem?-set, get_or, get_or-get_elem?, set,
  length-set, Bool-cases, ==_iff, ◌==◌, if◌then◌else◌,
}
use saphire.Xdebug.Hash.{Key, Chain, XdebugHash, key_hash}
use saphire.Xdebug.Hash.Keys.{key_eq, eq_of_key_eq}
use saphire.Xdebug.Hash.Chains.{lookup, Once}

module _ {V : Type 0} where
  -- The number of elements in the chains.
  unfoldable pub total : List (Chain V) → ℕ
  total [] = 0
  total (c ∷ cs) = length c + total cs

  total-set :
      (cs : List (Chain V)) (i : ℕ) (c d : Chain V)
      → get_elem? cs i ≡ some c
      → total (set cs i d) + length c ≡ total cs + length d
  unfolding total
  total-set [] i c d h = cc
  total-set (b ∷ cs) zero c d h = let e : b ≡ c = cc in rw e (omega arith)
  total-set (b ∷ cs) (suc i) c d h = omega (arith, total-set cs i c d h)

  pub length-le-total :
      (cs : List (Chain V)) (i : ℕ) (c : Chain V) → get_elem? cs i ≡ some c → length c ≤ total cs
  unfolding total
  length-le-total [] i c h = cc
  length-le-total (b ∷ cs) zero c h = let e : b ≡ c = cc in rw e (omega arith)
  length-le-total (b ∷ cs) (suc i) c h = omega (arith, length-le-total cs i c h)

  -- There is a slot and a chain for each, no key occurs twice in a chain, and the size counts.
  pub record IsValid (h : XdebugHash V) : Type 0 where
    pub some_slot : 0 < h.slots
    pub chains : length h.table ≡ h.slots
    pub once : (i : ℕ) (c : Chain V) → get_elem? h.table i ≡ some c → Once c
    pub counted : h.size ≡ total h.table

  abbrev pub slot_of : XdebugHash V → Key → ℕ
  slot_of h k = key_hash k % h.slots

  -- The map that the table stands for.
  unfoldable pub view : XdebugHash V → Key → Option V
  view h k = lookup k (get_or h.table (slot_of h k) [])

  pub chain_of :
      (h : XdebugHash V) (k : Key)
      → IsValid h
      → (c : Chain V) × (get_elem? h.table (slot_of h k) ≡ some c) × (view h k ≡ lookup k c)
  unfolding view
  chain_of h k v =
      let inside : slot_of h k < h.slots = omega (arith, v.some_slot) in
      let (c, e) = get_elem?-lt h.table (slot_of h k) (omega (arith, v.chains)) in
      (c, e, ap (lookup k) (get_or-get_elem? h.table (slot_of h k) [] c e))

  -- `h'` maps `k` to `o` and every other key to what `h` maps it to.
  pub record Writes (h : XdebugHash V) (k : Key) (o : Option V) (h' : XdebugHash V) : Type 0 where
    pub valid : IsValid h'
    pub entries : (q : Key) → view h' q ≡ (if key_eq q k then o else view h q)
    pub dtor : h'.dtor ≡ h.dtor
    pub slots : h'.slots ≡ h.slots

  module _ (h : XdebugHash V) (v : IsValid h) (k : Key) (c d : Chain V) (n : ℕ)
      (e : get_elem? h.table (slot_of h k) ≡ some c) (once : Once d) (o : Option V)
      (reads : (q : Key) → lookup q d ≡ (if key_eq q k then o else lookup q c))
      (count : n + length c ≡ h.size + length d) where
    unfoldable pub stored : XdebugHash V
    stored = record h { table = set h.table (slot_of h k) d; size = n }

    in_table : slot_of h k < length h.table
    in_table = omega (arith, v.some_slot, v.chains)

    read_stored :
        (i : ℕ)
        → get_elem? stored.table i ≡ (if slot_of h k == i then some d else get_elem? h.table i)
    unfolding stored
    read_stored i = get_elem?-set h.table (slot_of h k) i d in_table

    stored-IsValid : IsValid stored
    unfolding stored
    stored-IsValid = record {
      some_slot = v.some_slot;
      chains = length-set h.table (slot_of h k) d ∙ v.chains;
      once = λ i b at. elim (Bool-cases (slot_of h k == i)) [
        | inl here ↦
            let same : some d ≡ some b = rw (read_stored i, here) at at in
            let equal : d ≡ b = cc in subst Once equal once
        | inr away ↦ v.once i b (rw (read_stored i, away) at at)
      ];
      counted = omega (arith, v.counted, total-set h.table (slot_of h k) c d e);
    }

    view-stored : (q : Key) → view stored q ≡ (if key_eq q k then o else view h q)
    unfolding stored
    view-stored q =
        let (b, at, new) = chain_of stored q stored-IsValid in
        let (a, e', old) = chain_of h q v in
        elim (Bool-cases (slot_of h k == slot_of h q)) [
          | inl here ↦
              let written : some d ≡ some b = rw (read_stored (slot_of h q), here) at at in
              let slots : slot_of h k ≡ slot_of h q = (==_iff (slot_of h k) (slot_of h q)).0 here in
              let there : some a ≡ some c = sym e' ∙ rw slots at e in
              let d_b : d ≡ b = cc in let a_c : a ≡ c = cc in rw (new, old, ← d_b, a_c) (reads q)
          | inr away ↦
              let same : some b ≡ some a = sym (rw (read_stored (slot_of h q), away) at at) ∙ e' in
              let b_a : b ≡ a = cc in
              elim (Bool-cases (key_eq q k)) [
                | inl equal ↦
                    let slots : slot_of h k ≡ slot_of h q =
                      ap (slot_of h) (sym (eq_of_key_eq q k equal)) in
                    absurd (ground arith)
                | inr differ ↦ rw (new, old, b_a, differ)
              ]
        ]

    pub stored-Writes : Writes h k o stored
    unfolding stored
    stored-Writes = record {
      valid = stored-IsValid;
      entries = view-stored;
      dtor = refl;
      slots = refl;
    }
