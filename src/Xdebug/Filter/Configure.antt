-- ===== src/Xdebug/Filter/Configure.antt =====
-- What PHP_FUNCTION(xdebug_set_filter) leaves in the settings, and what tracing then does.
use saphire.Prelude.{ℕ, ◌≡◌, refl, Bool, ◌||◌, List, [], arith, map, ◌==◌, if◌then◌else◌}
use saphire.Clib.{Bytes}
use saphire.Xdebug.Filter.{
  StackEntry, Settings, filter_none, filter_tracing, filter_code_coverage, path_whitelist,
  path_blacklist, namespace_whitelist, namespace_blacklist, strncasecmp_eq, run_tracing, strip,
  is_filter_type, new_filters, set_filter, is_stack_frame_filtered,
}
use saphire.Xdebug.Filter.Run.{any, run_internal-flag}

-- The types of path filters and of namespace filters.
abbrev pub is_path : ℕ → Bool
is_path type = type == path_whitelist || type == path_blacklist

abbrev pub is_namespace : ℕ → Bool
is_namespace type = type == namespace_whitelist || type == namespace_blacklist

-- Whatever the type asked for, one group's call leaves the other group's settings alone; the type of
-- the group is afterwards the one asked for or none, and none where the type is not a filter type or, for
-- coverage, is a namespace type. The group's list is afterwards the filters given, each without a leading
-- backslash, where a path or, for tracing, a namespace type is asked for; empty where no filter is asked
-- for; and as it was otherwise.
pub set_filter-groups :
    (type : ℕ) (filters : List Bytes) (xg : Settings)
    → (let t = set_filter filter_tracing type filters xg in
        (t.filter_type_code_coverage ≡ xg.filter_type_code_coverage)
        × (t.filters_code_coverage ≡ xg.filters_code_coverage)
        × (t.filter_type_tracing
            ≡ (if is_path type || is_namespace type then type else filter_none))
        × (t.filters_tracing ≡ (
            if is_path type || is_namespace type
            then map strip filters
            else if type == filter_none
            then []
            else xg.filters_tracing)))
      × (let c = set_filter filter_code_coverage type filters xg in
          (c.filter_type_tracing ≡ xg.filter_type_tracing)
          × (c.filters_tracing ≡ xg.filters_tracing)
          × (c.filter_type_code_coverage ≡ (if is_path type then type else filter_none))
          × (c.filters_code_coverage ≡ (
              if is_path type
              then map strip filters
              else if type == filter_none
              then []
              else xg.filters_code_coverage)))
unfolding set_filter is_filter_type new_filters
set_filter-groups type filters xg = (ground arith, ground arith)

-- After a path whitelist is set for tracing, an entry is filtered out exactly if its file does not
-- begin, up to case, with one of the paths; after a path blacklist, exactly if it does; and with no
-- filter never. Each path is taken without a leading backslash.
pub run_tracing-set_filter :
    (filters : List Bytes) (xg : Settings) (fse : StackEntry)
    → (is_stack_frame_filtered filter_tracing
          (run_tracing (set_filter filter_tracing path_whitelist filters xg) fse)
        ≡ (if any (λ f. strncasecmp_eq f fse.filename) (map strip filters) then 0 else 1))
      × (is_stack_frame_filtered filter_tracing
            (run_tracing (set_filter filter_tracing path_blacklist filters xg) fse)
          ≡ (if any (λ f. strncasecmp_eq f fse.filename) (map strip filters) then 1 else 0))
      × (is_stack_frame_filtered filter_tracing
            (run_tracing (set_filter filter_tracing filter_none filters xg) fse)
          ≡ 0)
unfolding set_filter run_tracing is_stack_frame_filtered
run_tracing-set_filter filters xg fse =
    let cleared = record fse { filtered_tracing = 0 } in
    let flags = run_internal-flag cleared filter_tracing 0 (map strip filters) in
    (flags.0, flags.1, refl)
