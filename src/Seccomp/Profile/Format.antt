-- ===== src/Seccomp/Profile/Format.antt =====
-- The lines that stage2/build-filters/main.go prints, and what the extension reads from them.
use saphire.Prelude.{
  ℕ, suc, ◌^◌, ◌<◌, ◌≤◌, ◌≡◌, refl, ◌∙◌, ap, ap₂, false, some, List, [], ◌∷◌, ◌++◌, map, arith,
  length, subst, length-map, ◌==◌,
}
use saphire.Prelude.Int.{pos}
use saphire.Clib.{Bytes, ok, strchr_cut, is_digit, digits_value}
use saphire.Clib.Decimal.{decimal, strchr_cut-decimal, atoi-decimal, atoi_int-atoi}
use saphire.Seccomp.Profile.{Row, delim, create_seccomp_filter}
use saphire.Seccomp.Profile.Parse.{Reads, create_seccomp_filter-Reads, numbers, numbers-strchr_cut}

-- What follows the name of a file on its line: ` %d` for each system call, and the newline.
unfoldable pub print_syscalls : List ℕ → Bytes
print_syscalls [] = b'\n' ∷ []
print_syscalls (v ∷ vs) = delim ∷ decimal v (print_syscalls vs)

-- The line of a file.
unfoldable pub print_line : Bytes → List ℕ → Bytes
print_line k v = k ++ print_syscalls v

-- Numbers that an `int` holds.
abbrev pub AreInts : List ℕ → Type 0
AreInts [] = Unit
AreInts (v ∷ vs) = (v < 2 ^ 31) × AreInts vs

numbers-decimal :
    (v : ℕ) (vs : List ℕ)
    → AreInts (v ∷ vs)
    → numbers (decimal v (print_syscalls vs)) ≡ map pos (v ∷ vs)
unfolding print_syscalls digits_value strchr_cut
numbers-decimal v [] (int, ints) =
    rw
      (
        numbers-strchr_cut (decimal v (b'\n' ∷ [])),
        strchr_cut-decimal delim v (b'\n' ∷ []) (unfold is_digit in refl),
      )
      (ap (λ n. n ∷ []) (atoi_int-atoi _ v (atoi-decimal v (b'\n' ∷ []) refl) int))
numbers-decimal v (w ∷ vs) (int, ints) =
    rw
      (
        numbers-strchr_cut (decimal v (delim ∷ decimal w (print_syscalls vs))),
        strchr_cut-decimal delim v (delim ∷ decimal w (print_syscalls vs))
            (unfold is_digit in refl),
      )
      (ap₂ (λ n ns. n ∷ ns) (atoi_int-atoi _ v (atoi-decimal v [] refl) int)
        (numbers-decimal w vs ints))

-- No byte of the name is the delimiter.
abbrev pub NoDelim : Bytes → Type 0
NoDelim [] = Unit
NoDelim (c ∷ k) = ((c == delim) ≡ false) × NoDelim k

strchr_cut-append : (k s : Bytes) → NoDelim k → strchr_cut delim (k ++ delim ∷ s) ≡ (k, some s)
unfolding strchr_cut
strchr_cut-append [] s h = refl
strchr_cut-append (c ∷ k) s h = rw (h.0, strchr_cut-append k s h.1)

-- The first space of the printed line ends the name, and `numbers` of the rest are the numbers.
numbers-print_line :
    (k : Bytes) (v : ℕ) (vs : List ℕ)
    → NoDelim k
    → AreInts (v ∷ vs)
    → (rest : Bytes) × (strchr_cut delim (print_line k (v ∷ vs)) ≡ (k, some rest))
      × (numbers rest ≡ map pos (v ∷ vs))
unfolding print_line print_syscalls
numbers-print_line k v vs h ints =
    (decimal v (print_syscalls vs), strchr_cut-append k _ h, numbers-decimal v vs ints)

-- For numbers that an `int` holds, parsing inverts printing: the first space of the line printed for a file ends its name, if that
-- holds no space itself, and create_seccomp_filter of what follows fills the row with the printed
-- system calls, in order, and returns their count, if they fit the row.
pub create_seccomp_filter-print_line :
    (k : Bytes) (v : ℕ) (vs : List ℕ) (row : Row)
    → NoDelim k
    → AreInts (v ∷ vs)
    → suc (length vs) ≤ length row
    → (rest : Bytes) × (strchr_cut delim (print_line k (v ∷ vs)) ≡ (k, some rest))
      × (row' : Row) × (create_seccomp_filter rest row ≡ ok (row', suc (length vs)))
      × Reads row' 0 (map pos (v ∷ vs))
create_seccomp_filter-print_line k v vs row h ints fits =
    let (rest, cut, ns) = numbers-print_line k v vs h ints in
    let count : length (numbers rest) ≡ suc (length vs) = ap length ns ∙ length-map (v ∷ vs) pos in
    let (row', run, reads, _) = create_seccomp_filter-Reads rest row (omega (arith, count, fits)) in
    (rest, cut, row', run ∙ ap (λ n. ok (row', n)) count, subst (λ ms. Reads row' 0 ms) ns reads)
