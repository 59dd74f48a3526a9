-- ===== src/Seccomp/Profile/Parse.antt =====
-- What `create_seccomp_filter` writes, against the fields of its text.
use saphire.Prelude.{
  ℕ, zero, suc, ◌+◌, ◌<◌, ◌≤◌, ◌≡◌, refl, ◌∙◌, inl, inr, Option, none, some, List, [], ◌∷◌, map,
  arith, length, length-set, set, get_elem?, get_elem?-set_self, get_elem?-set_ne, leb,
  Option-cases, if◌then◌else◌,
}
use saphire.Prelude.Int.{ℤ}
use saphire.Clib.{Bytes, Run, ok, fault, out_of_bounds, strchr_cut, atoi_int}
use saphire.Clib.Text.{fields, fields-strchr_cut, strchr_cut-shorter}
use saphire.Seccomp.Profile.{Row, delim, write_row, create_loop, create_seccomp_filter}

-- The numbers listed in a text, as an `int` holds them.
unfoldable pub numbers : Bytes → List ℤ
numbers s = map atoi_int (fields delim s)

-- The row with `ns` written from index `i` on, if they fit.
unfoldable pub overwrite : Row → ℕ → List ℤ → Row
overwrite row i [] = row
overwrite row i (n ∷ ns) = overwrite (set row i (some n)) (suc i) ns

abbrev pub write_all : Row → ℕ → List ℤ → Run (Row × ℕ)
write_all row i ns =
    if leb (i + length ns) (length row)
    then ok (overwrite row i ns, i + length ns)
    else fault out_of_bounds

abbrev pub numbers_after : Option Bytes → List ℤ
numbers_after none = []
numbers_after (some s) = numbers s

pub numbers-strchr_cut :
    (s : Bytes) → numbers s ≡ atoi_int (strchr_cut delim s).0 ∷ numbers_after (strchr_cut delim s).1
unfolding numbers
numbers-strchr_cut s =
    rw (fields-strchr_cut delim s)
      (elim (Option-cases (strchr_cut delim s).1) [ inl e ↦ rw e | inr (t, e) ↦ rw e ])

-- The loop writes the listed numbers in order, or faults if the row is too short for them.
create_loop-write_all :
    (fuel : ℕ) (s : Bytes) (row : Row) (i : ℕ)
    → length s < fuel
    → create_loop fuel s row i ≡ write_all row i (numbers s)
unfolding create_loop write_row overwrite
create_loop-write_all zero s row i h = absurd (omega arith)
create_loop-write_all (suc fuel) s row i h =
    rw (numbers-strchr_cut s) (elim (Option-cases (strchr_cut delim s).1) [
      | inl e ↦ rw e (ground arith)
      | inr (t, e) ↦
          let row' = set row i (some (atoi_int (strchr_cut delim s).0)) in
          rw e (
            ground (
              arith,
              create_loop-write_all fuel t row' (i + 1),
              strchr_cut-shorter delim s t,
              length-set row i (some (atoi_int (strchr_cut delim s).0)),
            ))
    ])

-- `row` holds the numbers `ns` from index `i` on.
abbrev pub Reads : Row → ℕ → List ℤ → Type 0
Reads row i [] = Unit
Reads row i (n ∷ ns) = (get_elem? row i ≡ some (some n)) × Reads row (suc i) ns

length-overwrite : (row : Row) (i : ℕ) (ns : List ℤ) → length (overwrite row i ns) ≡ length row
unfolding overwrite
length-overwrite row i [] = refl
length-overwrite row i (n ∷ ns) =
    length-overwrite (set row i (some n)) (suc i) ns ∙ length-set row i (some n)

-- Writes from `i` on leave what stands before `i`.
get_elem?-overwrite :
    (row : Row) (i j : ℕ) (ns : List ℤ) → j < i → get_elem? (overwrite row i ns) j ≡ get_elem? row j
unfolding overwrite
get_elem?-overwrite row i j [] h = refl
get_elem?-overwrite row i j (n ∷ ns) h =
    get_elem?-overwrite (set row i (some n)) (suc i) j ns (omega arith)
    ∙ get_elem?-set_ne row (some n) (omega arith)

overwrite-Reads :
    (row : Row) (i : ℕ) (ns : List ℤ) → i + length ns ≤ length row → Reads (overwrite row i ns) i ns
unfolding overwrite
overwrite-Reads row i [] h = tt
overwrite-Reads row i (n ∷ ns) h =
    let row' = set row i (some n) in
    (
      get_elem?-overwrite row' (suc i) i ns (omega arith)
          ∙ get_elem?-set_self row i (some n) (omega arith),
      overwrite-Reads row' (suc i) ns (omega (arith, length-set row i (some n))),
    )

create_seccomp_filter-write_all :
    (s : Bytes) (row : Row) → create_seccomp_filter s row ≡ write_all row 0 (numbers s)
unfolding create_seccomp_filter
create_seccomp_filter-write_all s row = create_loop-write_all (suc (length s)) s row 0 (omega arith)

-- If the numbers between the spaces of the text fit the row, the function returns their count and
-- the row holds them, each cut to an `int`, in order, from its first element on; the row keeps its length.
pub create_seccomp_filter-Reads :
    (s : Bytes) (row : Row)
    → length (numbers s) ≤ length row
    → (row' : Row) × (create_seccomp_filter s row ≡ ok (row', length (numbers s)))
      × Reads row' 0 (numbers s)
      × (length row' ≡ length row)
create_seccomp_filter-Reads s row h = (
  overwrite row 0 (numbers s),
  rw create_seccomp_filter-write_all (ground arith),
  overwrite-Reads row 0 (numbers s) (omega arith),
  length-overwrite row 0 (numbers s),
)

-- If the text lists more numbers than the row has elements, the function writes out of bounds.
pub create_seccomp_filter-out_of_bounds :
    (s : Bytes) (row : Row)
    → length row < length (numbers s)
    → create_seccomp_filter s row ≡ fault out_of_bounds
create_seccomp_filter-out_of_bounds s row h = rw create_seccomp_filter-write_all (ground arith)
