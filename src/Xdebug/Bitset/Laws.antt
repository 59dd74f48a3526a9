-- ===== src/Xdebug/Bitset/Laws.antt =====
-- The array of bytes stands for the set of the positions whose bits are set.
use Prim.Native.Nat.{bit_and-bitwise}
use saphire.Prelude.{
  ℕ, ◌+◌, ◌*◌, ◌/◌, ◌%◌, ◌^◌, ◌<◌, ◌≤◌, ◌≡◌, refl, inl, inr, Bool, true, false, not, some, arith,
  length, get_elem?, get_elem?-set, get_elem?-lt, length-set, length-replicate, set,
  get_elem?-replicate, get_elem?-replicate_ge, ltb, Bool-cases, ◌==◌, ==_iff, if◌then◌else◌,
}
use saphire.Clib.{Run, ok, fault}
use saphire.Xdebug.Bitset.{
  XdebugSet, set_create, byte_at, with_bit, without_bit, set_add, set_remove, masked, set_in,
}
use saphire.Xdebug.Bitset.Bits.{has_bit, has_bit-with_bit, has_bit-without_bit}

-- The array holds bytes and has one for each position up to the size.
pub record IsValid (s : XdebugSet) : Type 0 where
  pub wide : s.size < 8 * length s.setinfo
  pub bytes : (i b : ℕ) → get_elem? s.setinfo i ≡ some b → b < 256

-- What `if (xdebug_set_in(set, position))` tests.
abbrev pub nonzero : Run ℕ → Bool
nonzero (ok n) = not (n == 0)
nonzero (fault e) = false

abbrev pub contains : XdebugSet → ℕ → Bool
contains s q = nonzero (set_in s q)

-- `s'` differs from `s` at most in whether it contains `position`, which it does if `there`.
pub record Writes (s : XdebugSet) (position : ℕ) (there : Bool) (s' : XdebugSet) : Type 0 where
  pub valid : IsValid s'
  pub size : s'.size ≡ s.size
  pub contents :
      (q : ℕ) → q ≤ s.size → contains s' q ≡ (if position == q then there else contains s q)

-- The position's byte.
byte_in :
    (s : XdebugSet) (q : ℕ)
    → IsValid s
    → q ≤ s.size
    → (b : ℕ) × (get_elem? s.setinfo (q / 8) ≡ some b) × (b < 256)
byte_in s q v h =
    let (b, e) = get_elem?-lt s.setinfo (q / 8) (omega (arith, v.wide)) in
    (b, e, v.bytes (q / 8) b e)

contains-has_bit :
    (s : XdebugSet) (q b : ℕ)
    → get_elem? s.setinfo (q / 8) ≡ some b
    → contains s q ≡ has_bit b (q % 8)
unfolding set_in byte_at
contains-has_bit s q b e = rw (e, set_in)

-- A test of a position up to the size does not fault.
pub set_in-ok :
    (s : XdebugSet) (q : ℕ)
    → IsValid s
    → q ≤ s.size
    → (n : ℕ) × (set_in s q ≡ ok n) × (contains s q ≡ not (n == 0))
unfolding set_in byte_at
set_in-ok s q v h =
    let (b, e, _) = byte_in s q v h in
    (masked b (q % 8), rw (set_in, byte_at, e) refl, contains-has_bit s q b e)

-- What a write of one byte may do to its bits.
abbrev Bits : (ℕ → ℕ → ℕ) → Bool → Type 0
Bits f there =
    (b i j : ℕ)
    → b < 256
    → i < 8
    → j < 8
    → (f b i < 256) × (has_bit (f b i) j ≡ (if i == j then there else has_bit b j))

module _ (s : XdebugSet) (v : IsValid s) (p b : ℕ) (h : p ≤ s.size)
    (e : get_elem? s.setinfo (p / 8) ≡ some b) (there : Bool) (f : ℕ → ℕ → ℕ)
    (bits : Bits f there) where
  stored : XdebugSet
  stored = record s { setinfo = set s.setinfo (p / 8) (f b (p % 8)) }

  small : b < 256
  small = v.bytes (p / 8) b e

  read_stored :
      (i : ℕ)
      → get_elem? stored.setinfo i
        ≡ (if p / 8 == i then some (f b (p % 8)) else get_elem? s.setinfo i)
  unfolding stored
  read_stored i = get_elem?-set s.setinfo (p / 8) i (f b (p % 8)) (omega (arith, v.wide))

  stored-IsValid : IsValid stored
  unfolding stored
  stored-IsValid = record {
    wide = rw length-set v.wide;
    bytes = λ i c at.
        ground
          (arith, read_stored i, v.bytes i c, bits b (p % 8) 0 small (omega arith) (omega arith));
  }

  contains-stored :
      (q : ℕ) → q ≤ s.size → contains stored q ≡ (if p == q then there else contains s q)
  contains-stored q k = elim (Bool-cases (p / 8 == q / 8)) [
    | inl here ↦
        let old : contains s q ≡ has_bit b (q % 8) =
          contains-has_bit s q b (rw (← ((==_iff (p / 8) (q / 8)).0 here)) e) in
        let new : contains stored q ≡ has_bit (f b (p % 8)) (q % 8) =
          contains-has_bit stored q (f b (p % 8)) (rw (read_stored, here)) in
        rw (new, old, (bits b (p % 8) (q % 8) small (omega arith) (omega arith)).1) (ground arith)
    | inr away ↦
        let (c, at, _) = byte_in s q v k in
        let new : contains stored q ≡ has_bit c (q % 8) =
          contains-has_bit stored q c (rw (read_stored, away) at) in
        rw (new, contains-has_bit s q c at) (ground arith)
  ]

  stored-Writes : Writes s p there stored
  unfolding stored
  stored-Writes = record { valid = stored-IsValid; size = refl; contents = contains-stored }

with_bit-Bits : Bits with_bit true
with_bit-Bits b i j hb hi hj = ground (arith, has_bit-with_bit b i j hb hi hj)

without_bit-Bits : Bits without_bit false
without_bit-Bits b i j hb hi hj = ground (arith, has_bit-without_bit b i j hb hi hj)

-- Adding a position up to the size of a valid set does not fault; the set stays valid, and contains
-- that position besides what it contained.
pub set_add-Writes :
    (s : XdebugSet) (p : ℕ)
    → IsValid s
    → p ≤ s.size
    → (s' : XdebugSet) × (set_add s p ≡ ok s') × Writes s p true s'
unfolding set_add byte_at stored
set_add-Writes s p v h =
    let (b, e, _) = byte_in s p v h in
    (
      stored s v p b h e true with_bit with_bit-Bits,
      rw (set_add, e),
      stored-Writes s v p b h e true with_bit with_bit-Bits,
    )

-- Removing a position up to the size of a valid set does not fault; the set stays valid, and contains
-- what it contained but that position.
pub set_remove-Writes :
    (s : XdebugSet) (p : ℕ)
    → IsValid s
    → p ≤ s.size
    → (s' : XdebugSet) × (set_remove s p ≡ ok s') × Writes s p false s'
unfolding set_remove byte_at stored
set_remove-Writes s p v h =
    let (b, e, _) = byte_in s p v h in
    (
      stored s v p b h e false without_bit without_bit-Bits,
      rw (set_remove, e),
      stored-Writes s v p b h e false without_bit without_bit-Bits,
    )

masked-zero : (bit : ℕ) → masked 0 bit ≡ 0
unfolding masked
masked-zero bit = bit_and-bitwise 0 (2 ^ bit)

-- A new set has the size asked for, is valid and contains no position up to its size.
pub set_create-empty :
    (size : ℕ)
    → IsValid (set_create size)
      × ((set_create size).size ≡ size)
      × ((q : ℕ) → q ≤ size → set_in (set_create size) q ≡ ok 0)
unfolding set_create set_in byte_at
set_create-empty size =
    let n = size / 8 + 1 + (if size % 8 == 0 then 0 else 1) in
    let room : size < 8 * n = ground arith in
    (
      record {
        wide = rw length-replicate room;
        bytes = λ i b at. elim (Bool-cases (ltb i n)) [
          | inl inside ↦ ground (arith, get_elem?-replicate {A = ℕ} n i 0)
          | inr outside ↦ ground (arith, get_elem?-replicate_ge {A = ℕ} n i 0)
        ];
      },
      refl,
      λ q h.
          rw (get_elem?-replicate {A = ℕ} n (q / 8) 0 (omega arith), set_in, masked-zero (q % 8)),
    )
