-- ===== src/Seccomp/Extension.antt =====
-- The life of the extension in a process: stage3/extension/seccomp.c, lines 57 to 61, 80 to 104 and
-- 140 to 273.
pub mod Filters
pub mod Rules
pub mod Load
pub mod Requests
use saphire.Prelude.{
  ℕ, zero, suc, ◌+◌, ◌≡◌, Bool, true, false, not, ◌&&◌, Option, none, some, List, [], ◌∷◌, length,
  replicate, get_elem?, drop, ltb, ◌==◌, if◌then◌else◌,
}
use saphire.Prelude.Int.{ℤ, pos, negsuc, int_eq}
use saphire.Clib.{
  Bytes, Run, ok, fault, out_of_bounds, null_pointer, uninitialised, ◌>>=◌, strchr_cut,
}
use saphire.Seccomp.Libs.{Seccomp, Uthash, kill, allow}
use saphire.Seccomp.Profile.{Row, row_size, name_size, delim, Filter, create_seccomp_filter}

-- PHP's settings as the code reads them: INI_STR (NULL only for a setting that is not registered),
-- INI_INT, and the lines of the file at seccomp.profile_path as getline returns them, if it opens.
pub record Ini : Type 0 where
  pub enable : Option Bytes
  pub enable_int : ℤ
  pub app_base : Option Bytes
  pub profile : Option (List Bytes)

-- What a request shows to the extension: `$_SERVER`, if it is set, with its SCRIPT_FILENAME, if that
-- is set, and the file that is being executed.
pub record Request : Type 0 where
  pub server : Option (Option Bytes)
  pub executed_filename : Bytes

-- The function that zend_execute_internal or seccomp_old_execute_internal points to.
pub data Hook : Type 0 where
  seccomp_hook foreign_hook : Hook

-- What runs an internal function: the hook that was there before, or the engine's own function.
pub data Event : Type 0 where
  run_hook : Hook → Event
  run_engine : Event

abbrev pub is_some {ℓ} : {A : Type ℓ} → Option A → Bool
is_some none = false
is_some (some _) = true

-- SUCCESS and FAILURE.
pub data Status : Type 0 where
  success failure : Status

-- The numbers added for FPM 7.1, and SCMP_SYS(exit) on x86-64.
abbrev pub fpm_syscalls : List ℤ
fpm_syscalls = pos 100 ∷ pos 80 ∷ pos 38 ∷ pos 273 ∷ pos 48 ∷ []

abbrev pub sys_exit : ℤ
sys_exit = pos 60

module _ (ut : Uthash Filter) where
  -- The rest of a line's round: malloc, the numbers, then the name, which strcpy writes with its NUL.
  -- The result of `hash` is not used.
  unfoldable pub add_line : Bytes → Bytes → ut.Table → Run ut.Table
  add_line name text t = do
    (row, len) ← create_seccomp_filter text (replicate row_size none)
    if ltb (length name) name_size
        then ok (ut.add_str name (record { syscalls = row; name = name; len = len }) t)
        else fault out_of_bounds

  unfoldable pub read_line : Bytes → ut.Table → Run ut.Table
  unfolding add_line
  read_line line t =
      let (name, nums) = strchr_cut delim line in
      elim nums [ none ↦ ok t | some text ↦ add_line name text t ]

  unfoldable pub read_lines : List Bytes → ut.Table → Run ut.Table
  unfolding read_line
  read_lines [] t = ok t
  read_lines (line ∷ lines) t = do t' ← read_line line t; read_lines lines t'

-- The path of the script that the filter is looked up for.
unfoldable pub script_path : Request → Run Bytes
script_path r = elim r.server [
  | none ↦ ok r.executed_filename
  | some entry ↦ elim entry [ none ↦ fault null_pointer | some path ↦ ok path ]
]

-- What runs the internal function at the end of seccomp_execute_internal.
unfoldable pub run_internal : Option Hook → Event
run_internal none = run_engine
run_internal (some hook) = run_hook hook

module _ (sec : Seccomp) where
  -- seccomp_rule_add refuses a context that is NULL.
  unfoldable pub rule_add_kill : Option sec.Ctx → ℤ → Option sec.Ctx
  rule_add_kill none n = none
  rule_add_kill (some c) n = some (sec.rule_add c kill n).0

  unfoldable pub rule_add_allow : Option sec.Ctx → ℤ → Option sec.Ctx
  rule_add_allow none n = none
  rule_add_allow (some c) n = some (sec.rule_add c allow n).0

  unfoldable pub add_fpm : List ℤ → Option sec.Ctx → Option sec.Ctx
  unfolding rule_add_allow
  add_fpm [] ctx = ctx
  add_fpm (n ∷ ns) ctx = add_fpm ns (rule_add_allow ctx n)

  -- `for (i = 0; i < s->len; i++)`, with the rounds left and the index.
  unfoldable pub add_row : Row → ℕ → ℕ → Option sec.Ctx → Run (Option sec.Ctx)
  unfolding rule_add_allow
  add_row row zero i ctx = ok ctx
  add_row row (suc left) i ctx = elim (get_elem? row i) [
    | none ↦ fault out_of_bounds
    | some e ↦ elim e [
      | none ↦ fault uninitialised
      | some n ↦ add_row row left (suc i) (rule_add_allow ctx n)
    ]
  ]

  unfoldable pub add_filter : Option Filter → Option sec.Ctx → Run (Option sec.Ctx)
  unfolding add_row
  add_filter none ctx = ok ctx
  add_filter (some s) ctx = add_row s.syscalls s.len 0 ctx

  -- seccomp_load: the kernel takes the filter as it is at that moment. A context that is NULL is
  -- refused with an error code.
  unfoldable pub seccomp_load : Option sec.Ctx → List sec.Ctx → ℤ × List sec.Ctx
  seccomp_load none kernel = (negsuc 21, kernel)
  seccomp_load (some c) kernel =
      let rc = sec.load c in (rc, if int_eq rc (pos 0) then c ∷ kernel else kernel)

module _ (sec : Seccomp) (ut : Uthash Filter) where
  -- The global variables, and the filters that the kernel has taken, the last one first.
  pub record Globals : Type 0 where
    pub execute_internal : Option Hook
    pub old_execute_internal : Option Hook
    pub seccomp_loaded : Bool
    pub filters : ut.Table
    pub ctx : Option sec.Ctx
    pub kernel : List sec.Ctx

  -- Before PHP_MINIT_FUNCTION, with what zend_execute_internal then points to.
  abbrev pub initial : Option Hook → Globals
  initial hook = record {
    execute_internal = hook;
    old_execute_internal = none;
    seccomp_loaded = false;
    filters = ut.null_table;
    ctx = none;
    kernel = [];
  }

  -- PHP_MINIT_FUNCTION(seccomp).
  unfoldable pub minit : Ini → Globals → Run (Status × Globals)
  unfolding read_lines rule_add_kill
  minit ini g =
      let g' = record g {
        old_execute_internal = g.execute_internal;
        execute_internal = some seccomp_hook;
      } in
      elim ini.enable [
        | none ↦ ok (success, g')
        | some _ ↦ elim ini.profile [
          | none ↦ ok (failure, g')
          | some lines ↦ (do
            t ← read_lines ut lines g'.filters
            ok (
              success,
              record g' { filters = t; ctx = rule_add_kill sec (sec.init kill) sys_exit },
            ))
        ]
      ]

  -- The part of load_seccomp_profile behind the two guards.
  unfoldable pub load_filter : Bytes → Globals → Run (ℤ × Globals)
  unfolding add_fpm add_filter seccomp_load
  load_filter relative_path g = do
    ctx ← add_filter sec (ut.find_str relative_path g.filters) (add_fpm sec fpm_syscalls g.ctx)
    let (rc, kernel) = seccomp_load sec ctx g.kernel
    ok (rc, record g { ctx = ctx; kernel = kernel })

  unfoldable pub load_seccomp_profile : Ini → Request → Globals → Run (ℤ × Globals)
  unfolding script_path load_filter
  load_seccomp_profile ini r g = do
    path ← script_path r
    elim ini.app_base [
      | none ↦ fault null_pointer
      | some base ↦
          if ltb (length path) (length base)
          then ok (negsuc 0, g)
          else if int_eq ini.enable_int (pos 0)
          then ok (negsuc 0, g)
          else load_filter (drop (length base) path) g
    ]

  unfoldable pub seccomp_execute_internal : Ini → Request → Globals → Run (Event × Globals)
  unfolding load_seccomp_profile run_internal
  seccomp_execute_internal ini r g = elim (not g.seccomp_loaded && is_some ini.enable) [
    | true ↦ (do
      (rc, g') ← load_seccomp_profile ini r g
      ok (run_internal g'.old_execute_internal, record g' { seccomp_loaded = true }))
    | false ↦ ok (
      run_internal g.old_execute_internal,
      record g { execute_internal = g.old_execute_internal },
    )
  ]
