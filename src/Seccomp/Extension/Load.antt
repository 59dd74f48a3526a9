-- ===== src/Seccomp/Extension/Load.antt =====
-- From the profile's text to the filter in the kernel.
use saphire.Prelude.{
  ◌≡◌, refl, ◌∙◌, Bool, false, ◌&&◌, ◌||◌, Option, none, some, List, [], ◌∷◌, ◌++◌, arith, length,
  length-append, drop-append, ltb,
}
use saphire.Prelude.Int.{ℤ, pos, int_eq}
use saphire.Clib.{Bytes, ok}
use saphire.Seccomp.Libs.{Seccomp, SeccompLaws, Uthash, UthashLaws, kill}
use saphire.Seccomp.Profile.{Filter}
use saphire.Seccomp.Extension.{
  Ini, Request, Hook, success, Globals, initial, fpm_syscalls, sys_exit, script_path, add_filter,
  rule_add_kill, seccomp_load, minit, load_filter, load_seccomp_profile, read_lines, seccomp_hook,
}
use saphire.Seccomp.Extension.Filters.{entries, listed, Fits, Finds, read_lines-Finds}
use saphire.Seccomp.Extension.Rules.{
  listed_in, allow_all, add_fpm-allow_all, add_row-allow_all, allow_all-permits,
}

-- The numbers listed for a script, none if no line names it.
abbrev pub numbers_or_none : Option (List ℤ) → List ℤ
numbers_or_none none = []
numbers_or_none (some ns) = ns

module _ (sec : Seccomp) (ut : Uthash Filter) (slaws : SeccompLaws sec)
    (ulaws : UthashLaws ut) where
  -- The state that PHP_MINIT_FUNCTION leaves.
  abbrev after_minit : Option Hook → ut.Table → sec.Ctx → Globals sec ut
  after_minit hook t c = record {
    execute_internal = some seccomp_hook;
    old_execute_internal = hook;
    seccomp_loaded = false;
    filters = t;
    ctx = some (sec.rule_add c kill sys_exit).0;
    kernel = [];
  }

  minit-after :
      (ini : Ini) (hook : Option Hook) (e : Bytes) (lines : List Bytes) (t : ut.Table) (c : sec.Ctx)
      → ini.enable ≡ some e
      → ini.profile ≡ some lines
      → read_lines ut lines ut.null_table ≡ ok t
      → sec.init kill ≡ some c
      → minit sec ut ini (initial sec ut hook) ≡ ok (success, after_minit hook t c)
  unfolding minit rule_add_kill
  minit-after ini hook e lines t c he hp run hc = rw (minit, he, hp, run, hc)

  add_filter-Finds :
      (o : Option (List ℤ)) (found : Option Filter) (c : sec.Ctx)
      → Finds o none found
      → add_filter sec found (some c) ≡ ok (some (allow_all sec c (numbers_or_none o)))
  unfolding add_filter allow_all
  add_filter-Finds none found c e = rw e
  add_filter-Finds (some ns) found c (s, e, reads, len) =
      rw (e, len) (add_row-allow_all sec s.syscalls 0 ns c reads)

  guards_passed :
      (ini : Ini) (r : Request) (base rel : Bytes) (g : Globals sec ut)
      → script_path r ≡ ok (base ++ rel)
      → ini.app_base ≡ some base
      → int_eq ini.enable_int (pos 0) ≡ false
      → load_seccomp_profile sec ut ini r g ≡ load_filter sec ut rel g
  unfolding load_seccomp_profile
  guards_passed ini r base rel g hpath hbase on =
      let long : ltb (length (base ++ rel)) (length base) ≡ false =
        ground (arith, length-append base rel) in
      rw (load_seccomp_profile, hpath, hbase, long, on, drop-append base rel)

  -- The context that the kernel takes: a rule for each FPM number and each listed one.
  abbrev loaded_ctx : sec.Ctx → List ℤ → sec.Ctx
  loaded_ctx c ns = allow_all sec (allow_all sec (sec.rule_add c kill sys_exit).0 fpm_syscalls) ns

  load_filter-after :
      (hook : Option Hook) (t : ut.Table) (c : sec.Ctx) (rel : Bytes) (o : Option (List ℤ))
      → Finds o none (ut.find_str rel t)
      → sec.load (loaded_ctx c (numbers_or_none o)) ≡ pos 0
      → (g : Globals sec ut) × (load_filter sec ut rel (after_minit hook t c) ≡ ok (pos 0, g))
        × (g.kernel ≡ loaded_ctx c (numbers_or_none o) ∷ [])
  unfolding load_filter seccomp_load
  load_filter-after hook t c rel o finds accepted =
      let d = loaded_ctx c (numbers_or_none o) in
      (
        record (after_minit hook t c) { ctx = some d; kernel = d ∷ [] },
        rw (
          load_filter,
          add_fpm-allow_all sec fpm_syscalls (sec.rule_add c kill sys_exit).0,
          add_filter-Finds o (ut.find_str rel t)
              (allow_all sec (sec.rule_add c kill sys_exit).0 fpm_syscalls) finds,
          seccomp_load,
          accepted,
        ),
        refl,
      )

  permits-loaded_ctx :
      (c : sec.Ctx) (ns : List ℤ) (m : ℤ)
      → sec.init kill ≡ some c
      → slaws.permits (loaded_ctx c ns) m
        ≡ (slaws.supported m && (listed_in m fpm_syscalls || listed_in m ns))
  permits-loaded_ctx c ns m fresh =
      rw
        (
          allow_all-permits slaws (allow_all sec (sec.rule_add c kill sys_exit).0 fpm_syscalls) ns
              m,
          allow_all-permits slaws (sec.rule_add c kill sys_exit).0 fpm_syscalls m,
          slaws.rule_add_kill c c sys_exit m fresh,
          slaws.init_kill c m fresh,
        )
        (regroup (slaws.supported m) (listed_in m fpm_syscalls) (listed_in m ns))
    where
      regroup : (s a b : Bool) → ((s && b) || ((s && a) || false)) ≡ (s && (a || b))
      regroup s a b = ground arith

  -- The whole path from the profile to the kernel. Assume that the names and numbers in the
  -- profile fit and no name occurs twice, that libseccomp gives a context and accepts the filter, that
  -- the setting is on and that the script's path is the application's base followed by `rel`. Then
  -- PHP_MINIT_FUNCTION succeeds, load_seccomp_profile returns 0, and the kernel has one filter, which
  -- permits exactly the supported system calls that are among the FPM numbers or that the
  -- profile lists for `rel`, each of these cut to an `int`.
  pub load_seccomp_profile-permits :
      (ini ini' : Ini) (r : Request) (hook : Option Hook) (e base rel : Bytes) (lines : List Bytes)
      (c : sec.Ctx)
      → ini.enable ≡ some e
      → ini.profile ≡ some lines
      → Fits (entries lines)
      → sec.init kill ≡ some c
      → ((d : sec.Ctx) → sec.load d ≡ pos 0)
      → script_path r ≡ ok (base ++ rel)
      → ini'.app_base ≡ some base
      → int_eq ini'.enable_int (pos 0) ≡ false
      → (g g' : Globals sec ut) × (minit sec ut ini (initial sec ut hook) ≡ ok (success, g))
        × (load_seccomp_profile sec ut ini' r g ≡ ok (pos 0, g'))
        × (d : sec.Ctx) × (g'.kernel ≡ d ∷ [])
        × ((m : ℤ)
            → slaws.permits d m ≡ (
                slaws.supported m
                && (listed_in m fpm_syscalls
                    || listed_in m (numbers_or_none (listed rel (entries lines))))))
  load_seccomp_profile-permits ini ini' r hook e base rel lines c he hp fits hc accepts hpath hbase
        on =
      let (t, run, finds) = read_lines-Finds ulaws lines fits in
      let o = listed rel (entries lines) in
      let (g', loaded, kernel) = load_filter-after hook t c rel o (finds rel) (accepts _) in
      (
        after_minit hook t c,
        g',
        minit-after ini hook e lines t c he hp run hc,
        guards_passed ini' r base rel (after_minit hook t c) hpath hbase on ∙ loaded,
        loaded_ctx c (numbers_or_none o),
        kernel,
        λ m. permits-loaded_ctx c (numbers_or_none o) m hc,
      )
