-- ===== src/Xdebug/Filter/Run.antt =====
-- What the flag says after the filters have run.
use Prim.Native.Nat.{bit_and}
use saphire.Prelude.{
  arith, ◌∙◌, ap, Option, none, some, map, ◌==◌, ℕ, ◌≡◌, refl, inl, inr, Bool, true, false, ◌||◌,
  List, [], ◌∷◌, Bool-cases, if◌then◌else◌,
}
use saphire.Clib.{Bytes}
use saphire.Clib.Ctype.{tolower, starts_with}
use saphire.Xdebug.Filter.{
  StackEntry, Matcher, filter_code_coverage, xfunc_includes, path_whitelist, path_blacklist,
  namespace_whitelist, namespace_blacklist, strncasecmp_eq, in_namespace, match_path_whitelist,
  match_path_blacklist, match_namespace_whitelist, match_namespace_blacklist, filter_loop,
  path_entry, run_internal,
}

-- Whether some filter passes a test.
abbrev pub any : (Bytes → Bool) → List Bytes → Bool
any test [] = false
any test (f ∷ fs) = test f || any test fs

-- A matcher that sets the flag to `hit` where a test holds, and keeps it where not.
filter_loop-any :
    (m : Matcher) (fse : StackEntry) (test : Bytes → Bool) (flag hit : ℕ) (fs : List Bytes)
    → ((f : Bytes) → m fse flag f ≡ (if test f then (true, hit) else (false, flag)))
    → filter_loop m fse flag fs ≡ (if any test fs then hit else flag)
unfolding filter_loop
filter_loop-any m fse test flag hit [] h = refl
filter_loop-any m fse test flag hit (f ∷ fs) h = elim (Bool-cases (test f)) [
  | inl yes' ↦ rw (h f, yes')
  | inr no' ↦ rw (h f, no') (filter_loop-any m fse test flag hit fs h)
]

-- The flag in terms of the tests that the matchers make.
pub run_internal-flag :
    (fse : StackEntry) (group flag : ℕ) (fs : List Bytes)
    → (run_internal fse group flag path_whitelist fs
        ≡ (if any (λ f. strncasecmp_eq f (path_entry fse group).filename) fs then 0 else 1))
      × (run_internal fse group flag path_blacklist fs
          ≡ (if any (λ f. strncasecmp_eq f (path_entry fse group).filename) fs then 1 else 0))
      × (run_internal fse group flag namespace_whitelist fs
          ≡ (if any (in_namespace fse.class) fs then 0 else 1))
      × (run_internal fse group flag namespace_blacklist fs
          ≡ (if any (in_namespace fse.class) fs then 1 else 0))
unfolding run_internal
run_internal-flag fse group flag fs =
    let e = path_entry fse group in
    (
      filter_loop-any match_path_whitelist e (λ f. strncasecmp_eq f e.filename) 1 0 fs (λ f. refl),
      filter_loop-any match_path_blacklist e (λ f. strncasecmp_eq f e.filename) 0 1 fs (λ f. refl),
      filter_loop-any match_namespace_whitelist fse (in_namespace fse.class) 1 0 fs (λ f. refl),
      filter_loop-any match_namespace_blacklist fse (in_namespace fse.class) 0 1 fs (λ f. refl),
    )

-- `f` begins `s`, up to the case of letters.
abbrev pub begins : Bytes → Bytes → Bool
begins f s = starts_with (map tolower f) (map tolower s)

-- The file of an entry: for code coverage of an include, the included one.
abbrev pub file_of : StackEntry → ℕ → Bytes
file_of fse group =
    if group == 0x200
    then (if bit_and fse.function_type 0x10 == 0 then fse.filename else fse.include_filename)
    else fse.filename

-- The empty filter stands for the functions outside of classes, and for those only.
abbrev pub names_class : Option Bytes → Bytes → Bool
names_class none [] = true
names_class none (c ∷ f) = false
names_class (some class) [] = false
names_class (some class) (c ∷ f) = begins (c ∷ f) class

strncasecmp_eq-begins : (f s : Bytes) → strncasecmp_eq f s ≡ begins f s
unfolding strncasecmp_eq starts_with
strncasecmp_eq-begins [] s = refl
strncasecmp_eq-begins (c ∷ f) [] = refl
strncasecmp_eq-begins (c ∷ f) (d ∷ s) = ground (arith, strncasecmp_eq-begins f s)

in_namespace-names_class :
    (class : Option Bytes) (f : Bytes) → in_namespace class f ≡ names_class class f
unfolding in_namespace
in_namespace-names_class none [] = refl
in_namespace-names_class none (c ∷ f) = refl
in_namespace-names_class (some class) [] = refl
in_namespace-names_class (some class) (c ∷ f) = strncasecmp_eq-begins (c ∷ f) class

path_entry-file_of :
    (fse : StackEntry) (group : ℕ) → (path_entry fse group).filename ≡ file_of fse group
unfolding path_entry
path_entry-file_of fse group = elim (Bool-cases (group == filter_code_coverage)) [
  | inl coverage ↦ elim (Bool-cases (bit_and fse.function_type xfunc_includes == 0)) [
    | inl clear ↦ rw (coverage, clear) refl
    | inr included ↦ rw (coverage, included) refl
  ]
  | inr other ↦ rw other refl
]

any-same : (p q : Bytes → Bool) (fs : List Bytes) → ((f : Bytes) → p f ≡ q f) → any p fs ≡ any q fs
any-same p q [] same = refl
any-same p q (f ∷ fs) same = rw (same f, any-same p q fs same) refl

any-file_of :
    (fse : StackEntry) (group : ℕ) (fs : List Bytes)
    → any (λ f. strncasecmp_eq f (path_entry fse group).filename) fs
      ≡ any (λ f. begins f (file_of fse group)) fs
any-file_of fse group fs =
    any-same _ _ fs (λ f. strncasecmp_eq-begins f _ ∙ ap (begins f) (path_entry-file_of fse group))

-- The flag after the filters of each type have run, whatever it was before. A path filter is compared
-- with the entry's file, for code coverage of an include with the included file; a namespace filter with
-- its class: a filter matches if it begins that text, up to the case of letters, but for a namespace filter
-- the empty one matches exactly a function without a class. A whitelist leaves 0 exactly if some filter matches, and else 1; a blacklist leaves 1
-- exactly if some filter matches, and else 0.
pub run_internal-any :
    (fse : StackEntry) (group flag : ℕ) (fs : List Bytes)
    → (run_internal fse group flag path_whitelist fs
        ≡ (if any (λ f. begins f (file_of fse group)) fs then 0 else 1))
      × (run_internal fse group flag path_blacklist fs
          ≡ (if any (λ f. begins f (file_of fse group)) fs then 1 else 0))
      × (run_internal fse group flag namespace_whitelist fs
          ≡ (if any (names_class fse.class) fs then 0 else 1))
      × (run_internal fse group flag namespace_blacklist fs
          ≡ (if any (names_class fse.class) fs then 1 else 0))
run_internal-any fse group flag fs =
    let flags = run_internal-flag fse group flag fs in
    let paths = any-file_of fse group fs in
    let classes = any-same _ _ fs (in_namespace-names_class fse.class) in
    (
      flags.0 ∙ ap (λ b. if b then 0 else 1) paths,
      flags.1 ∙ ap (λ b. if b then 1 else 0) paths,
      flags.2 ∙ ap (λ b. if b then 0 else 1) classes,
      flags.3 ∙ ap (λ b. if b then 1 else 0) classes,
    )
