-- ===== src/Xdebug/Bitset.antt =====
-- xdebug_set.c and xdebug_set.h: a set of positions as an array of bytes.
pub mod Bits
pub mod Laws
use Prim.Native.Nat.{bit_and, bit_or}
use saphire.Prelude.{
  ℕ, ◌+◌, ◌-◌, ◌/◌, ◌%◌, ◌^◌, Bool, not, Option, none, some, List, length, get_elem?, set,
  replicate, ◌==◌, if◌then◌else◌,
}
use saphire.Clib.{Run, ok, fault, out_of_bounds}

pub record XdebugSet : Type 0 where
  pub size : ℕ
  pub setinfo : List ℕ

unfoldable pub set_create : ℕ → XdebugSet
set_create size = record {
  size = size;
  setinfo = replicate (size / 8 + 1 + (if size % 8 == 0 then 0 else 1)) 0;
}

-- `byte = &(set->setinfo[position / 8])`, read.
unfoldable pub byte_at : XdebugSet → ℕ → Run ℕ
byte_at s position = elim (get_elem? s.setinfo (position / 8)) [
  | none ↦ fault out_of_bounds
  | some b ↦ ok b
]

-- The byte with the bit set, and with the bit cleared: int operations, and back to unsigned char.
unfoldable pub with_bit : ℕ → ℕ → ℕ
with_bit byte bit = bit_or byte (2 ^ bit) % 256

unfoldable pub without_bit : ℕ → ℕ → ℕ
without_bit byte bit = bit_and byte (2 ^ 32 - 1 - 2 ^ bit) % 256

unfoldable pub set_add : XdebugSet → ℕ → Run XdebugSet
unfolding byte_at with_bit
set_add s position = elim (byte_at s position) [
  | fault e ↦ fault e
  | ok byte ↦
      ok (record s { setinfo = set s.setinfo (position / 8) (with_bit byte (position % 8)) })
]

unfoldable pub set_remove : XdebugSet → ℕ → Run XdebugSet
unfolding byte_at without_bit
set_remove s position = elim (byte_at s position) [
  | fault e ↦ fault e
  | ok byte ↦
      ok (record s { setinfo = set s.setinfo (position / 8) (without_bit byte (position % 8)) })
]

-- `*byte & (1 << bit)`; the argument `noisy` is not used.
unfoldable pub masked : ℕ → ℕ → ℕ
masked byte bit = bit_and byte (2 ^ bit)

unfoldable pub set_in : XdebugSet → ℕ → Run ℕ
unfolding byte_at masked
set_in s position = elim (byte_at s position) [
  | fault e ↦ fault e
  | ok byte ↦ ok (masked byte (position % 8))
]
