-- ===== src/Tests/Seccomp.antt =====
-- stage3/extension/seccomp.c with a libseccomp that keeps the allowed numbers and a uthash that keeps
-- a list, on a profile of two scripts.
use saphire.Prelude.{
  ◌%◌, ◌^◌, ◌<◌, ◌≡◌, ◌≢◌, refl, inl, inr, true, false, ◌&&◌, ◌||◌, Option, none, some, List, [],
  ◌∷◌, map, arith, length, Bool-cases, if◌then◌else◌, replicate,
}
use saphire.Prelude.Int.{ℤ, pos, negsuc}
use saphire.Clib.{codes, Bytes, ok, fault, out_of_bounds, strchr_cut, atoi_int, bytes_eq}
use saphire.Clib.Text.{fields, eq_of_bytes_eq, bytes_eq_refl}
use saphire.Seccomp.Libs.{Seccomp, SeccompLaws, Uthash, UthashLaws, Action, kill, allow}
use saphire.Seccomp.Profile.{Filter, Row, create_seccomp_filter, hash, num_buckets, delim}
use saphire.Seccomp.Profile.Parse.{
  numbers, Reads, create_seccomp_filter-Reads, create_seccomp_filter-out_of_bounds,
}
use saphire.Seccomp.Profile.Djb.{horner, hash-horner}
use saphire.Seccomp.Profile.Format.{print_line, NoDelim, create_seccomp_filter-print_line}
use saphire.Seccomp.Extension.{
  Ini, Request, Globals, initial, success, foreign_hook, run_internal, fpm_syscalls, script_path,
  minit, load_seccomp_profile, read_lines,
}
use saphire.Seccomp.Extension.Filters.{entries, listed, Fits, Finds, read_lines-Finds}
use saphire.Seccomp.Extension.Rules.{listed_in}
use saphire.Seccomp.Extension.Load.{numbers_or_none, load_seccomp_profile-permits}
use saphire.Seccomp.Extension.Requests.{calls, calls-first, load_seccomp_profile-suffix}

abbrev start : Action → Option (List ℤ)
start kill = some []
start allow = none

abbrev add_rule : List ℤ → Action → ℤ → List ℤ × ℤ
add_rule c kill n = (c, negsuc 12)
add_rule c allow n = (n ∷ c, pos 0)

abbrev list_seccomp : Seccomp
list_seccomp = record { Ctx = List ℤ; init = start; rule_add = add_rule; load = λ c. pos 0 }

start_kill : (c : List ℤ) (n : ℤ) → start kill ≡ some c → listed_in n c ≡ false
start_kill [] n h = refl
start_kill (a ∷ c) n h = cc

list_seccomp_laws : SeccompLaws list_seccomp
list_seccomp_laws = record {
  permits = λ c n. listed_in n c;
  supported = λ n. true;
  init_kill = start_kill;
  rule_add_allow = λ c n m. refl;
  rule_add_kill = λ c d n m h. refl;
}

abbrev find_item : Bytes → List (Bytes × Filter) → Option Filter
find_item k [] = none
find_item k ((j, v) ∷ t) = if bytes_eq j k then some v else find_item k t

abbrev list_uthash : Uthash Filter
list_uthash = record {
  Table = List (Bytes × Filter);
  null_table = [];
  add_str = λ k v t. (k, v) ∷ t;
  find_str = find_item;
}

find_ne :
    (k j : Bytes) (v : Filter) (t : List (Bytes × Filter))
    → k ≢ j
    → find_item j ((k, v) ∷ t) ≡ find_item j t
find_ne k j v t h = elim (Bool-cases (bytes_eq k j)) [
  | inl same ↦ absurd (h (eq_of_bytes_eq k j same))
  | inr other ↦ rw other
]

list_uthash_laws : UthashLaws list_uthash
list_uthash_laws = record {
  find-null = λ k. refl;
  find-add_ne = find_ne;
  find-add_self = λ k v t h. rw (bytes_eq_refl k);
}

abbrev lines : List Bytes
lines =
    codes "/index.php 0 1 59\n" ∷ codes "no entry\n" ∷ codes "/a.php 2\n" ∷ codes "comment\n" ∷ []

abbrev settings : Ini
settings = record {
  enable = some (codes "1");
  enable_int = pos 1;
  app_base = some (codes "/var/www");
  profile = some lines;
}

abbrev request : Request
request = record { server = some (some (codes "/var/www/index.php")); executed_filename = [] }

numbers_run : numbers (codes "0 1 59\n") ≡ pos 0 ∷ pos 1 ∷ pos 59 ∷ []
unfolding numbers fields atoi_int
numbers_run = refl

-- A number that no `int` holds is cut to its low 32 bits.
cut_to_int : numbers (codes "4294967297 -1") ≡ pos 1 ∷ negsuc 0 ∷ []
unfolding numbers fields atoi_int
cut_to_int = refl

-- A space at the end of a line lists the number 0, which is read(2).
trailing_space : numbers (codes "1 59 \n") ≡ pos 1 ∷ pos 59 ∷ pos 0 ∷ []
unfolding numbers fields atoi_int
trailing_space = refl

lines-Fits : Fits (entries lines)
unfolding entries strchr_cut numbers fields bytes_eq
lines-Fits = (
  omega arith,
  omega arith,
  refl,
  (omega arith, omega arith, refl, (omega arith, omega arith, refl, tt)),
)

abbrev sec : Seccomp
sec = list_seccomp

abbrev ut : Uthash Filter
ut = list_uthash

abbrev base : Bytes
base = codes "/var/www"

abbrev index : Bytes
index = codes "/index.php"

load_seccomp_profile-permits_example :
    (g g' : Globals sec ut) × (minit sec ut settings (initial sec ut none) ≡ ok (success, g))
    × (load_seccomp_profile sec ut settings request g ≡ ok (pos 0, g'))
    × (d : List ℤ) × (g'.kernel ≡ d ∷ [])
    × ((m : ℤ)
        → listed_in m d ≡ (
            true
            && (listed_in m fpm_syscalls
                || listed_in m (numbers_or_none (listed index (entries lines))))))
unfolding list_seccomp_laws
load_seccomp_profile-permits_example =
    load_seccomp_profile-permits sec ut list_seccomp_laws list_uthash_laws settings settings request
      none (codes "1") base index lines [] refl refl lines-Fits refl (λ d. refl)
      (unfold script_path in refl) refl refl

-- After PHP_MINIT_FUNCTION, in the model of the libraries above, with no filters.
abbrev ready : Globals sec ut
ready = record (initial sec ut none) { old_execute_internal = some foreign_hook; ctx = some [] }

abbrev off : Ini
off = record settings { enable_int = pos 0 }

calls-first_example :
    (g' : Globals sec ut) × (calls sec ut ((off, request) ∷ (settings, request) ∷ []) ready
      ≡ ok (
        map {A = Ini × Request}
            (λ _. run_internal (some foreign_hook))
            ((off, request) ∷ (settings, request) ∷ []),
        g',
      ))
    × (g'.kernel ≡ [])
    × (g'.ctx ≡ some [])
calls-first_example =
    calls-first sec ut off request ((settings, request) ∷ []) ready ready (negsuc 0) refl refl
      (unfold load_seccomp_profile in refl)

abbrev elsewhere : Request
elsewhere = record { server = none; executed_filename = codes "/tmp/xyz/index.php" }

load_seccomp_profile-suffix_example :
    load_seccomp_profile sec ut settings request ready
    ≡ load_seccomp_profile sec ut settings elsewhere ready
load_seccomp_profile-suffix_example =
    load_seccomp_profile-suffix sec ut settings request elsewhere (codes "/var/www/index.php")
      (codes "/tmp/xyz/index.php") base ready (unfold script_path in refl)
      (unfold script_path in refl) refl (omega arith) (omega arith) refl

read_lines-Finds_example :
    (t : List (Bytes × Filter)) × (read_lines ut lines [] ≡ ok t)
    × ((rel : Bytes) → Finds (listed rel (entries lines)) none (find_item rel t))
read_lines-Finds_example = read_lines-Finds list_uthash_laws lines lines-Fits

index-NoDelim : NoDelim index
index-NoDelim = (refl, (refl, (refl, (refl, (refl, (refl, (refl, (refl, (refl, (refl, tt))))))))))

create_seccomp_filter-print_line_example :
    (rest : Bytes) × (strchr_cut delim (print_line index (0 ∷ 10 ∷ 231 ∷ [])) ≡ (index, some rest))
    × (row' : Row) × (create_seccomp_filter rest (replicate 333 none) ≡ ok (row', 3))
    × Reads row' 0 (pos 0 ∷ pos 10 ∷ pos 231 ∷ [])
create_seccomp_filter-print_line_example =
    create_seccomp_filter-print_line index 0 (10 ∷ 231 ∷ []) (replicate 333 none) index-NoDelim
      (omega arith, (omega arith, (omega arith, tt))) (omega arith)

create_seccomp_filter-Reads_example :
    (row' : Row) × (create_seccomp_filter (codes "0 1 59\n") (replicate 333 none)
      ≡ ok (row', length (numbers (codes "0 1 59\n"))))
    × Reads row' 0 (numbers (codes "0 1 59\n"))
    × (length row' ≡ length {A = Option ℤ} (replicate 333 none))
create_seccomp_filter-Reads_example =
    create_seccomp_filter-Reads (codes "0 1 59\n") (replicate 333 none)
      (rw numbers_run (omega arith))

create_seccomp_filter-out_of_bounds_example :
    create_seccomp_filter (codes "0 1 59\n") (none ∷ none ∷ []) ≡ fault out_of_bounds
create_seccomp_filter-out_of_bounds_example =
    create_seccomp_filter-out_of_bounds (codes "0 1 59\n") (none ∷ none ∷ [])
      (rw numbers_run (omega arith))

hash-horner_example :
    (hash index ≡ horner 33 5381 index % 2 ^ 64 % num_buckets) × (hash index < num_buckets)
hash-horner_example = hash-horner index
