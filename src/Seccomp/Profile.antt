-- ===== src/Seccomp/Profile.antt =====
-- `hash`, `struct filter` and `create_seccomp_filter` of stage3/extension/seccomp.c, lines 46 to 138.
pub mod Parse
pub mod Djb
pub mod Format
use saphire.Prelude.{
  ℕ, zero, suc, ◌+◌, ◌-◌, ◌*◌, ◌%◌, ◌^◌, Bool, Option, none, some, List, [], ◌∷◌, length, replicate,
  set, ltb, if◌then◌else◌,
}
use saphire.Prelude.Int.{ℤ}
use saphire.Clib.{Bytes, Fault, Run, ok, fault, out_of_bounds, out_of_fuel, strchr_cut, atoi_int}

abbrev pub num_buckets : ℕ
num_buckets = 50000

abbrev pub delim : ℕ
delim = b' '

-- An int array of fixed length; `none` is an element that nothing has written since malloc.
abbrev pub Row : Type 0
Row = List (Option ℤ)

abbrev pub row_size : ℕ
row_size = 333

abbrev pub name_size : ℕ
name_size = 512

pub record Filter : Type 0 where
  pub syscalls : Row
  pub name : Bytes
  pub len : ℕ

-- `c = *str` for a signed char, brought into unsigned long.
abbrev pub char_to_ulong : ℕ → ℕ
char_to_ulong c = if ltb c 128 then c else 2 ^ 64 + c - 256

hash_loop : ℕ → Bytes → ℕ
hash_loop h [] = h
hash_loop h (c ∷ str) =
    hash_loop (((h * 2 ^ 5 % 2 ^ 64 + h) % 2 ^ 64 + char_to_ulong c) % 2 ^ 64) str

unfoldable pub hash : Bytes → ℕ
unfolding hash_loop
hash str = hash_loop 5381 str % num_buckets

-- `row[i] = scn`
unfoldable pub write_row : Row → ℕ → ℤ → Run Row
write_row row i scn = if ltb i (length row) then ok (set row i (some scn)) else fault out_of_bounds

-- The loop, with the rounds it may make: `row` with the numbers written from index `i` on, and the
-- index behind the last one.
unfoldable pub create_loop : ℕ → Bytes → Row → ℕ → Run (Row × ℕ)
create_loop zero syscalls row i = fault out_of_fuel
create_loop (suc fuel) syscalls row i =
    let (piece, rest) = strchr_cut delim syscalls in
    elim (write_row row i (atoi_int piece)) [
      | fault e ↦ fault e
      | ok row' ↦ elim rest [
        | none ↦ ok (row', i + 1)
        | some syscalls' ↦ create_loop fuel syscalls' row' (i + 1)
      ]
    ]

-- Each round consumes a delimiter at least, so the length bounds the rounds.
unfoldable pub create_seccomp_filter : Bytes → Row → Run (Row × ℕ)
unfolding create_loop write_row
create_seccomp_filter syscalls row = create_loop (suc (length syscalls)) syscalls row 0
