-- ===== src/Xdebug/Filter.antt =====
-- xdebug_filter.c and the constants of xdebug_filter.h: which functions are traced and covered.
-- A list of filters is what its xdebug_llist holds, in order. The warnings that PHP shows are not
-- modelled, and neither is the registration of the constants with PHP.
pub mod Run
pub mod Configure
use Prim.Native.Nat.{bit_and}
use saphire.Prelude.{
  ℕ, ◌+◌, Bool, true, false, not, ◌&&◌, ◌||◌, Option, none, some, List, [], ◌∷◌, ◌++◌, map, leb,
  ◌==◌, if◌then◌else◌,
}
use saphire.Clib.Ctype.{tolower}
use saphire.Clib.{Bytes}

abbrev pub filter_none : ℕ
filter_none = 0x000

abbrev pub filter_tracing : ℕ
filter_tracing = 0x100

abbrev pub filter_code_coverage : ℕ
filter_code_coverage = 0x200

abbrev pub path_whitelist : ℕ
path_whitelist = 0x01

abbrev pub path_blacklist : ℕ
path_blacklist = 0x02

abbrev pub namespace_whitelist : ℕ
namespace_whitelist = 0x11

abbrev pub namespace_blacklist : ℕ
namespace_blacklist = 0x12

abbrev pub xfunc_includes : ℕ
xfunc_includes = 0x10

-- The fields of function_stack_entry that the filters read and write; `class` is NULL for a function.
pub record StackEntry : Type 0 where
  pub filename : Bytes
  pub include_filename : Bytes
  pub class : Option Bytes
  pub function_type : ℕ
  pub filtered_tracing : ℕ
  pub filtered_code_coverage : ℕ

-- `strncasecmp(filter, s, strlen(filter)) == 0`.
unfoldable pub strncasecmp_eq : Bytes → Bytes → Bool
unfolding tolower
strncasecmp_eq [] s = true
strncasecmp_eq (c ∷ filter) [] = false
strncasecmp_eq (c ∷ filter) (d ∷ s) = tolower c == tolower d && strncasecmp_eq filter s

-- A matcher returns whether it matched, and the flag.
abbrev pub Matcher : Type 0
Matcher = StackEntry → ℕ → Bytes → Bool × ℕ

unfoldable pub match_path_whitelist : Matcher
match_path_whitelist fse flag filter =
    if strncasecmp_eq filter fse.filename then (true, 0) else (false, flag)

unfoldable pub match_path_blacklist : Matcher
match_path_blacklist fse flag filter =
    if strncasecmp_eq filter fse.filename then (true, 1) else (false, flag)

-- `strlen(filter) == 0`.
abbrev pub is_empty : Bytes → Bool
is_empty [] = true
is_empty (c ∷ s) = false

-- The test that the two namespace matchers make: in the global namespace, an empty filter; in a
-- class, a filter that is not empty and begins the class's name.
unfoldable pub in_namespace : Option Bytes → Bytes → Bool
in_namespace none filter = is_empty filter
in_namespace (some class) filter = not (is_empty filter) && strncasecmp_eq filter class

unfoldable pub match_namespace_whitelist : Matcher
unfolding in_namespace
match_namespace_whitelist fse flag filter =
    if in_namespace fse.class filter then (true, 0) else (false, flag)

unfoldable pub match_namespace_blacklist : Matcher
unfolding in_namespace
match_namespace_blacklist fse flag filter =
    if in_namespace fse.class filter then (true, 1) else (false, flag)

-- The loop over the filters: the first that matches ends it.
unfoldable pub filter_loop : Matcher → StackEntry → ℕ → List Bytes → ℕ
filter_loop filter_to_run fse flag [] = flag
filter_loop filter_to_run fse flag (filter ∷ filters) =
    let (matched, flag') = filter_to_run fse flag filter in
    let rest = filter_loop filter_to_run fse flag' filters in if matched then flag' else rest

-- The entry that the path filters look at: code coverage takes an include's own file.
unfoldable pub path_entry : StackEntry → ℕ → StackEntry
path_entry fse group =
    if group == filter_code_coverage && not (bit_and fse.function_type xfunc_includes == 0)
    then record fse { filename = fse.include_filename }
    else fse

-- xdebug_filter_run_internal: the flag after it.
unfoldable pub run_internal : StackEntry → ℕ → ℕ → ℕ → List Bytes → ℕ
unfolding filter_loop path_entry match_path_whitelist match_path_blacklist match_namespace_whitelist
    match_namespace_blacklist
run_internal fse group flag type filters =
    if type == path_whitelist
    then filter_loop match_path_whitelist (path_entry fse group) 1 filters
    else if type == path_blacklist
    then filter_loop match_path_blacklist (path_entry fse group) 0 filters
    else if type == namespace_whitelist
    then filter_loop match_namespace_whitelist fse 1 filters
    else if type == namespace_blacklist
    then filter_loop match_namespace_blacklist fse 0 filters
    else flag

-- The settings among Xdebug's globals.
pub record Settings : Type 0 where
  pub filter_type_tracing : ℕ
  pub filters_tracing : List Bytes
  pub filter_type_code_coverage : ℕ
  pub filters_code_coverage : List Bytes

-- xdebug_is_stack_frame_filtered.
unfoldable pub is_stack_frame_filtered : ℕ → StackEntry → ℕ
is_stack_frame_filtered type fse =
    if type == filter_tracing
    then fse.filtered_tracing
    else if type == filter_code_coverage
    then fse.filtered_code_coverage
    else 0

-- xdebug_filter_run_tracing.
unfoldable pub run_tracing : Settings → StackEntry → StackEntry
unfolding run_internal
run_tracing xg fse =
    let cleared = record fse { filtered_tracing = 0 } in
    if xg.filter_type_tracing == filter_none then cleared else record cleared {
      filtered_tracing =
          run_internal cleared filter_tracing 0 xg.filter_type_tracing xg.filters_tracing;
    }

-- PHP_FUNCTION(xdebug_set_filter): a leading backslash is taken off a filter.
unfoldable pub strip : Bytes → Bytes
strip [] = []
strip (c ∷ s) = if c == b'\\' then s else c ∷ s

unfoldable pub is_filter_type : ℕ → Bool
is_filter_type type =
    type == path_whitelist
    || type == path_blacklist
    || type == namespace_whitelist
    || type == namespace_blacklist
    || type == filter_none

-- The list after xdebug_llist_empty and the loop over the array.
unfoldable pub new_filters : ℕ → List Bytes → List Bytes
unfolding strip
new_filters type filters = if type == filter_none then [] else map strip filters

unfoldable pub set_filter : ℕ → ℕ → List Bytes → Settings → Settings
unfolding is_filter_type new_filters
set_filter group type filters xg =
    if group == filter_tracing
    then (if is_filter_type type
        then record xg { filter_type_tracing = type; filters_tracing = new_filters type filters }
        else record xg { filter_type_tracing = filter_none })
    else if group == filter_code_coverage
    then (if type == namespace_whitelist || type == namespace_blacklist
        then record xg { filter_type_code_coverage = filter_none }
        else if is_filter_type type
        then record xg {
          filter_type_code_coverage = type;
          filters_code_coverage = new_filters type filters;
        }
        else record xg { filter_type_code_coverage = filter_none })
    else xg
