-- ===== src/Xdebug/Hash.antt =====
-- xdebug_hash.c and xdebug_hash.h: a chained hash table with text and number keys.
-- A chain is the list of the elements that its xdebug_llist holds, in order: insertion behind the
-- tail appends, removal takes the element out. Each operation also returns the values that it hands to the
-- table's destructor, in order. malloc does not fail.
pub mod Slots
pub mod Keys
pub mod Chains
pub mod Table
pub mod Apply
use Prim.Native.Nat.{bit_xor}
use mathlib.Core.List.{reverse}
use saphire.Prelude.{
  ℕ, zero, suc, ◌+◌, ◌-◌, ◌*◌, ◌/◌, ◌%◌, ◌^◌, Bool, true, false, ◌&&◌, Option, none, some, List, [],
  ◌∷◌, ◌++◌, map, length, get_elem?, replicate, set, ltb, ◌==◌, if◌then◌else◌,
}
use saphire.Clib.{Bytes, Run, ok, fault, out_of_bounds, ◌>>=◌, bytes_eq}

abbrev pub word : ℕ
word = 2 ^ 64

-- A signed char brought into unsigned long.
abbrev pub char_to_ulong : ℕ → ℕ
char_to_ulong c = if ltb c 128 then c else word + c - 256

-- The loop of xdebug_hash_str: `h += h << 5; h ^= (unsigned long) *p++`.
unfoldable pub hash_str_loop : ℕ → Bytes → ℕ
hash_str_loop h [] = h
hash_str_loop h (c ∷ key) =
    hash_str_loop (bit_xor ((h + h * 2 ^ 5 % word) % word) (char_to_ulong c)) key

unfoldable pub hash_str : Bytes → ℕ
unfolding hash_str_loop
hash_str key = hash_str_loop 5381 key

-- `x << n`, `~x` and `a + b` of unsigned long, which xdebug_ui32 is defined as.
abbrev pub shl : ℕ → ℕ → ℕ
shl x n = x * 2 ^ n % word

abbrev pub complement : ℕ → ℕ
complement x = word - 1 - x

abbrev pub add : ℕ → ℕ → ℕ
add a b = (a + b) % word

unfoldable pub hash_num : ℕ → ℕ
hash_num key =
    let k₁ = add key (complement (shl key 15)) in
    let k₂ = bit_xor k₁ (k₁ / 2 ^ 10) in
    let k₃ = add k₂ (shl k₂ 3) in
    let k₄ = bit_xor k₃ (k₃ / 2 ^ 6) in let k₅ = add k₄ (shl k₄ 11) in bit_xor k₅ (k₅ / 2 ^ 16)

-- xdebug_hash_key: KEY_CREATE makes a text key of a text argument, else a number key.
pub data Key : Type 0 where
  str : Bytes → Key
  num : ℕ → Key

-- The hash that FIND_SLOT reduces to a slot.
unfoldable pub key_hash : Key → ℕ
unfolding hash_str hash_num
key_hash (str s) = hash_str s
key_hash (num a) = hash_num a

-- The first byte, `*key->value.str.val`.
unfoldable pub first_byte : Bytes → Run ℕ
first_byte [] = fault out_of_bounds
first_byte (c ∷ s) = ok c

-- The text part of the comparison: lengths, then first bytes, then memcmp over the length.
unfoldable pub str_compare : Bytes → Bytes → Run Bool
unfolding first_byte bytes_eq
str_compare s t =
    if length s == length t
    then (do c ← first_byte s; d ← first_byte t; ok (c == d && bytes_eq s t))
    else ok false

unfoldable pub key_compare : Key → Key → Run Bool
unfolding str_compare
key_compare (num a) (str t) = ok false
key_compare (num a) (num b) = ok (a == b)
key_compare (str s) (num b) = ok false
key_compare (str s) (str t) = str_compare s t

abbrev pub Chain : Type 0 → Type 0
Chain V = List (Key × V)

module _ {V : Type 0} where
  -- The loop of xdebug_hash_extended_find.
  unfoldable pub chain_find : Key → Chain V → Run (Option V)
  unfolding key_compare
  chain_find k [] = ok none
  chain_find k ((j, v) ∷ c) = do
    same ← key_compare k j
    if same then ok (some v) else chain_find k c

  -- The loop of xdebug_hash_add_or_update: the value replaced and the chain, if the key is there.
  unfoldable pub chain_update : Key → V → Chain V → Run (Option (V × Chain V))
  unfolding key_compare
  chain_update k p [] = ok none
  chain_update k p ((j, v) ∷ c) = do
    same ← key_compare k j
    if same then ok (some (v, (j, p) ∷ c)) else (do
      r ← chain_update k p c
      elim r [ none ↦ ok none | some (old, c') ↦ ok (some (old, (j, v) ∷ c')) ])

  -- The loop of xdebug_hash_extended_delete: the value removed and the chain, if the key is there.
  unfoldable pub chain_delete : Key → Chain V → Run (Option (V × Chain V))
  unfolding key_compare
  chain_delete k [] = ok none
  chain_delete k ((j, v) ∷ c) = do
    same ← key_compare k j
    if same then ok (some (v, c)) else (do
      r ← chain_delete k c
      elim r [ none ↦ ok none | some (old, c') ↦ ok (some (old, (j, v) ∷ c')) ])

-- `dtor` and `sorter` say whether the function pointer is set.
pub record XdebugHash (V : Type 0) : Type 0 where
  pub table : List (Chain V)
  pub dtor : Bool
  pub sorter : Bool
  pub slots : ℕ
  pub size : ℕ

module _ {V : Type 0} where
  unfoldable pub hash_alloc : ℕ → Bool → XdebugHash V
  hash_alloc slots dtor = record {
    table = replicate slots [];
    dtor = dtor;
    sorter = false;
    slots = slots;
    size = 0;
  }

  unfoldable pub hash_alloc_with_sort : ℕ → Bool → Bool → XdebugHash V
  unfolding hash_alloc
  hash_alloc_with_sort slots dtor sorter = record (hash_alloc slots dtor) { sorter = sorter }

  -- FIND_SLOT. A table without slots divides by zero.
  unfoldable pub find_slot : XdebugHash V → Key → Run ℕ
  unfolding key_hash
  find_slot h k = if h.slots == 0 then fault out_of_bounds else ok (key_hash k % h.slots)

  -- `l = h->table[slot]`.
  unfoldable pub chain_at : XdebugHash V → ℕ → Run (Chain V)
  chain_at h slot = elim (get_elem? h.table slot) [ none ↦ fault out_of_bounds | some c ↦ ok c ]

  abbrev pub destroyed : XdebugHash V → V → List V
  destroyed h v = if h.dtor then v ∷ [] else []

  -- xdebug_hash_add_or_update returns 1 in both cases.
  unfoldable pub hash_add_or_update : XdebugHash V → Key → V → Run (ℕ × List V × XdebugHash V)
  unfolding find_slot chain_at chain_update
  hash_add_or_update h k p = do
    slot ← find_slot h k
    l ← chain_at h slot
    found ← chain_update k p l
    elim found [
      | some (old, l') ↦ ok (1, destroyed h old, record h { table = set h.table slot l' })
      | none ↦
          ok (1, [], record h { table = set h.table slot (l ++ (k, p) ∷ []); size = h.size + 1 })
    ]

  -- The element's destructor frees a text key, and hands the value to the table's destructor.
  unfoldable pub hash_extended_delete : XdebugHash V → Key → Run (ℕ × List V × XdebugHash V)
  unfolding find_slot chain_at chain_delete
  hash_extended_delete h k = do
    slot ← find_slot h k
    l ← chain_at h slot
    found ← chain_delete k l
    elim found [
      | some (old, l') ↦
          ok (1, destroyed h old, record h { table = set h.table slot l'; size = h.size - 1 })
      | none ↦ ok (0, [], h)
    ]

  -- The value stands for the result 1 and what is stored through `p`.
  unfoldable pub hash_extended_find : XdebugHash V → Key → Run (Option V)
  unfolding find_slot chain_at chain_find
  hash_extended_find h k = do slot ← find_slot h k; l ← chain_at h slot; chain_find k l

  -- The elements in the order of the slots, as the two nested loops reach them: the slots left, and
  -- the index.
  unfoldable pub elements_from : XdebugHash V → ℕ → ℕ → Run (List (Key × V))
  unfolding chain_at
  elements_from h zero i = ok []
  elements_from h (suc left) i = do
    l ← chain_at h i
    rest ← elements_from h left (suc i)
    ok (l ++ rest)

  -- xdebug_hash_apply: what the callback is called with, in order.
  unfoldable pub hash_apply : XdebugHash V → Run (List (Key × V))
  unfolding elements_from
  hash_apply h = elements_from h h.slots 0

  -- xdebug_hash_apply_with_argument, with qsort of the C library on the sorter of the table.
  unfoldable pub hash_apply_with_argument :
      (List (Key × V) → List (Key × V)) → XdebugHash V → Run (List (Key × V))
  unfolding elements_from
  hash_apply_with_argument qsort h = do
    es ← elements_from h h.slots 0
    ok (if h.sorter then qsort es else es)

  -- xdebug_hash_destroy empties each chain from its tail; the values that are handed to the destructor.
  unfoldable pub destroy_from : XdebugHash V → ℕ → ℕ → Run (List V)
  unfolding chain_at
  destroy_from h zero i = ok []
  destroy_from h (suc left) i = do
    l ← chain_at h i
    rest ← destroy_from h left (suc i)
    ok ((if h.dtor then reverse (map (λ e. e.1) l) else []) ++ rest)

  unfoldable pub hash_destroy : XdebugHash V → Run (List V)
  unfolding destroy_from
  hash_destroy h = destroy_from h h.slots 0
