-- ===== src/Tests/Xdebug.antt =====
-- The data structures of TE_xdebug at small inputs.
use saphire.Prelude.{
  ℕ, ◌+◌, ◌<◌, ◌≤◌, ◌≡◌, refl, inl, inr, Bool-cases, true, false, ◌||◌, Option, none, some, [], ◌∷◌,
  ◌++◌, map, arith, length, if◌then◌else◌, replicate, ltb, ◌==◌,
}
use saphire.Clib.{Bytes, ok}
use saphire.Xdebug.Bitset.{XdebugSet, set_create, set_add}
use saphire.Xdebug.Bitset.Laws.{IsValid, Writes, set_add-Writes, set_create-empty}
use saphire.Xdebug.Str.{XdebugStr, prealloc, memory, str_add, str_add_int}
use saphire.Xdebug.Str.Append.{Holds, str_add-Holds}
use saphire.Xdebug.Str.Format.{Prints, xdebug_sprintf, xdebug_sprintf-fits}
use saphire.Xdebug.Hash.{
  hash_apply, hash_destroy, str, num, XdebugHash, hash_alloc, hash_add_or_update,
  hash_extended_delete, hash_extended_find, key_compare,
}
use saphire.Xdebug.Hash.Keys.{key_eq, key_compare-key_eq}
use saphire.Xdebug.Hash.Slots
use saphire.Xdebug.Hash.Slots.{view}
use saphire.Xdebug.Hash.Apply.{flat, flat_reverse, hash_apply-flat}
use saphire.Xdebug.Hash.Table.{
  dropped, count, hash_alloc-empty, hash_extended_find-view, hash_add_or_update-Writes,
  hash_extended_delete-Writes,
}
use saphire.Xdebug.Filter.{
  StackEntry, Settings, filter_tracing, filter_none, filter_code_coverage, path_whitelist,
  path_blacklist, namespace_whitelist, namespace_blacklist, strncasecmp_eq, run_internal,
  run_tracing, strip, set_filter, is_stack_frame_filtered,
}
use saphire.Xdebug.Filter.Run.{begins, file_of, names_class, any, run_internal-any}
use saphire.Xdebug.Filter.Configure.{
  is_path, is_namespace, set_filter-groups, run_tracing-set_filter,
}

abbrev twenty : XdebugSet
twenty = record { size = 20; setinfo = replicate 4 0 }

twenty-IsValid : IsValid twenty
unfolding set_create
twenty-IsValid = (set_create-empty 20).0

set_add-Writes_example : (s' : XdebugSet) × (set_add twenty 13 ≡ ok s') × Writes twenty 13 true s'
set_add-Writes_example = set_add-Writes twenty 13 twenty-IsValid (omega arith)

abbrev empty : XdebugStr
empty = record { l = 0; a = 0; d = none }

abbrev abc : Bytes
abc = 97 ∷ 98 ∷ 99 ∷ []

abbrev tight : XdebugStr
tight = record { l = 3; a = 4; d = some (memory abc) }

tight-Holds : Holds tight abc
tight-Holds = record { rest = []; d = refl; l = refl; a = refl }

str_add-Holds_example :
    (xs' : XdebugStr) × (str_add_int tight abc ≡ ok xs')
    × (str_add tight abc ≡ ok xs')
    × Holds xs' (abc ++ abc)
    × (xs'.a ≤ 4 + length abc + prealloc)
str_add-Holds_example = str_add-Holds tight abc (inr tight-Holds) abc (omega arith)

abbrev until_it_fits : ℕ → Option ℕ
until_it_fits m = if ltb 7 m then some 7 else none

until_it_fits-Prints : Prints until_it_fits 7
until_it_fits-Prints m = elim (Bool-cases (ltb 7 m)) [
  | inl fits ↦ inl (rw fits refl)
  | inr full ↦ inr (rw full refl, ground arith)
]

xdebug_sprintf-fits_example : (m : ℕ) × (xdebug_sprintf until_it_fits 31 ≡ ok (m, 7)) × (7 < m)
xdebug_sprintf-fits_example = xdebug_sprintf-fits until_it_fits 7 until_it_fits-Prints (omega arith)

abbrev table : XdebugHash ℕ
table = record { table = replicate 8 []; dtor = true; sorter = false; slots = 8; size = 0 }

table-IsValid : Slots.IsValid table
unfolding hash_alloc
table-IsValid = (hash_alloc-empty 8 true (omega arith)).0

hash_extended_find-view_example : hash_extended_find table (str abc) ≡ ok (view table (str abc))
hash_extended_find-view_example = hash_extended_find-view table (str abc) table-IsValid tt

hash_add_or_update-Writes_example :
    (h' : XdebugHash ℕ) × (hash_add_or_update table (str abc) 5
      ≡ ok (1, dropped table (view table (str abc)), h'))
    × Slots.Writes table (str abc) (some 5) h'
    × (h'.size + count (view table (str abc)) ≡ 0 + 1)
hash_add_or_update-Writes_example = hash_add_or_update-Writes table (str abc) table-IsValid tt 5

-- The table with one entry.
filled : (h : XdebugHash ℕ) × Slots.Writes table (str abc) (some 5) h
filled = let (h, _, w, _) = hash_add_or_update-Writes table (str abc) table-IsValid tt 5 in (h, w)

hash_extended_delete-Writes_example :
    (h' : XdebugHash ℕ) × (hash_extended_delete filled.0 (str abc)
      ≡ ok (count (view filled.0 (str abc)), dropped filled.0 (view filled.0 (str abc)), h'))
    × Slots.Writes filled.0 (str abc) none h'
    × (h'.size + count (view filled.0 (str abc)) ≡ filled.0.size)
hash_extended_delete-Writes_example =
    hash_extended_delete-Writes filled.0 (str abc) filled.1.valid tt

key_compare-key_eq_example : key_compare (str abc) (num 7) ≡ ok (key_eq (str abc) (num 7))
key_compare-key_eq_example = key_compare-key_eq (str abc) (num 7) tt

abbrev entry : StackEntry
entry = record {
  filename = abc;
  include_filename = [];
  class = some abc;
  function_type = 0;
  filtered_tracing = 1;
  filtered_code_coverage = 1;
}

abbrev fresh : Settings
fresh = record {
  filter_type_tracing = 0;
  filters_tracing = [];
  filter_type_code_coverage = 0;
  filters_code_coverage = [];
}

run_internal-any_example :
    (run_internal entry filter_tracing 0 path_whitelist (abc ∷ [])
      ≡ (if any (λ f. begins f (file_of entry filter_tracing)) (abc ∷ []) then 0 else 1))
    × (run_internal entry filter_tracing 0 path_blacklist (abc ∷ [])
        ≡ (if any (λ f. begins f (file_of entry filter_tracing)) (abc ∷ []) then 1 else 0))
    × (run_internal entry filter_tracing 0 namespace_whitelist (abc ∷ [])
        ≡ (if any (names_class (some abc)) (abc ∷ []) then 0 else 1))
    × (run_internal entry filter_tracing 0 namespace_blacklist (abc ∷ [])
        ≡ (if any (names_class (some abc)) (abc ∷ []) then 1 else 0))
run_internal-any_example = run_internal-any entry filter_tracing 0 (abc ∷ [])

set_filter-groups_example :
    (let t = set_filter filter_tracing 1 (abc ∷ []) fresh in
      (t.filter_type_code_coverage ≡ 0)
      × (t.filters_code_coverage ≡ [])
      × (t.filter_type_tracing ≡ (if is_path 1 || is_namespace 1 then 1 else filter_none))
      × (t.filters_tracing ≡ (
          if is_path 1 || is_namespace 1
          then map strip (abc ∷ [])
          else if 1 == filter_none
          then []
          else [])))
    × (let c = set_filter filter_code_coverage 1 (abc ∷ []) fresh in
        (c.filter_type_tracing ≡ 0)
        × (c.filters_tracing ≡ [])
        × (c.filter_type_code_coverage ≡ (if is_path 1 then 1 else filter_none))
        × (c.filters_code_coverage
            ≡ (if is_path 1 then map strip (abc ∷ []) else if 1 == filter_none then [] else [])))
set_filter-groups_example = set_filter-groups 1 (abc ∷ []) fresh

run_tracing-set_filter_example :
    (is_stack_frame_filtered filter_tracing
        (run_tracing (set_filter filter_tracing path_whitelist (abc ∷ []) fresh) entry)
      ≡ (if any (λ f. strncasecmp_eq f abc) (map strip (abc ∷ [])) then 0 else 1))
    × (is_stack_frame_filtered filter_tracing
          (run_tracing (set_filter filter_tracing path_blacklist (abc ∷ []) fresh) entry)
        ≡ (if any (λ f. strncasecmp_eq f abc) (map strip (abc ∷ [])) then 1 else 0))
    × (is_stack_frame_filtered filter_tracing
          (run_tracing (set_filter filter_tracing filter_none (abc ∷ []) fresh) entry)
        ≡ 0)
run_tracing-set_filter_example = run_tracing-set_filter (abc ∷ []) fresh entry

hash_apply-flat_example :
    (hash_apply filled.0 ≡ ok (flat filled.0.table))
    × (length (flat filled.0.table) ≡ filled.0.size)
    × (hash_destroy filled.0 ≡ ok (if filled.0.dtor then flat_reverse filled.0.table else []))
hash_apply-flat_example = hash_apply-flat filled.0 filled.1.valid
