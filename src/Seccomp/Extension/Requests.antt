-- ===== src/Seccomp/Extension/Requests.antt =====
-- What happens over the calls of the hook: when a filter reaches the kernel, and that only the first
-- call can bring one there.
use saphire.Prelude.{
  ◌≡◌, ◌≢◌, ◌≤◌, refl, ap, ◌⊎◌, inl, inr, Bool, true, false, Option, none, some, List, [], ◌∷◌,
  arith, length, drop, ltb, Bool-cases, Option-cases, if◌then◌else◌, map,
}
use saphire.Prelude.Int.{ℤ, pos, negsuc, int_eq, int_eq_iff}
use saphire.Clib.{Bytes, Run, ok, fault, null_pointer, ◌>>=◌, Run-cases}
use saphire.Seccomp.Libs.{Seccomp, Uthash}
use saphire.Seccomp.Profile.{Filter}
use saphire.Seccomp.Extension.{
  Ini, Request, Event, Globals, is_some, script_path, run_internal, seccomp_load, load_filter,
  load_seccomp_profile, seccomp_execute_internal, fpm_syscalls, add_fpm, add_filter,
}

module _ (sec : Seccomp) (ut : Uthash Filter) where
  -- What load_seccomp_profile does to the kernel and to the other variables.
  pub record Loaded (rc : ℤ) (g g' : Globals sec ut) : Type 0 where
    pub kernel :
        ((rc ≡ pos 0) × (c : sec.Ctx) × (g'.kernel ≡ c ∷ g.kernel))
        ⊎ ((rc ≢ pos 0) × (g'.kernel ≡ g.kernel))
    pub execute_internal : g'.execute_internal ≡ g.execute_internal
    pub old_execute_internal : g'.old_execute_internal ≡ g.old_execute_internal
    pub seccomp_loaded : g'.seccomp_loaded ≡ g.seccomp_loaded
    pub filters : g'.filters ≡ g.filters

  abbrev pub Loads : Globals sec ut → Run (ℤ × Globals sec ut) → Type 0
  Loads g (ok (rc, g')) = Loaded rc g g'
  Loads g (fault e) = Unit

  abbrev with_load : Option sec.Ctx → Globals sec ut → ℤ × Globals sec ut
  with_load ctx g =
      let (rc, kernel) = seccomp_load sec ctx g.kernel in
      (rc, record g { ctx = ctx; kernel = kernel })

  with_load-Loaded :
      (ctx : Option sec.Ctx) (g : Globals sec ut) → Loaded (with_load ctx g).0 g (with_load ctx g).1
  unfolding seccomp_load
  with_load-Loaded none g = record {
    kernel = inr ((λ e. cc), refl);
    execute_internal = refl;
    old_execute_internal = refl;
    seccomp_loaded = refl;
    filters = refl;
  }
  with_load-Loaded (some c) g = record {
    kernel = elim (Bool-cases (int_eq (sec.load c) (pos 0))) [
      | inl zero_rc ↦ inl ((int_eq_iff (sec.load c) (pos 0)).0 zero_rc, c, rw zero_rc)
      | inr error ↦
          inr ((λ e. let k : int_eq (pos 0) (pos 0) ≡ false = rw e at error in cc), rw error)
    ];
    execute_internal = refl;
    old_execute_internal = refl;
    seccomp_loaded = refl;
    filters = refl;
  }

  load_filter-Loads : (rel : Bytes) (g : Globals sec ut) → Loads g (load_filter sec ut rel g)
  unfolding load_filter
  load_filter-Loads rel g =
      let added = add_filter sec (ut.find_str rel g.filters) (add_fpm sec fpm_syscalls g.ctx) in
      elim (Run-cases added) [
        | inl (e, ends) ↦
            let run : load_filter sec ut rel g ≡ fault e = rw (load_filter, ends) in rw run tt
        | inr (ctx, goes) ↦
            let run : load_filter sec ut rel g ≡ ok (with_load ctx g) = rw (load_filter, goes) in
            rw run (with_load-Loaded ctx g)
      ]

  refused : (g : Globals sec ut) → Loaded (negsuc 0) g g
  refused g = record {
    kernel = inr ((λ e. cc), refl);
    execute_internal = refl;
    old_execute_internal = refl;
    seccomp_loaded = refl;
    filters = refl;
  }

  if-Loads :
      (g : Globals sec ut) (b : Bool) (x y : Run (ℤ × Globals sec ut))
      → Loads g x
      → Loads g y
      → Loads g (if b then x else y)
  if-Loads g true x y hx hy = hx
  if-Loads g false x y hx hy = hy

  -- If load_seccomp_profile returns, it either returns 0 and the kernel has exactly one filter more, or
  -- it returns another number and the kernel is as before; the hooks, the flag and the table are
  -- as before in both cases.
  pub load_seccomp_profile-Loads :
      (ini : Ini) (r : Request) (g : Globals sec ut) → Loads g (load_seccomp_profile sec ut ini r g)
  unfolding load_seccomp_profile
  load_seccomp_profile-Loads ini r g = elim (Run-cases (script_path r)) [
    | inl (e, ends) ↦
        let run : load_seccomp_profile sec ut ini r g ≡ fault e = rw (load_seccomp_profile, ends) in
        rw run tt
    | inr (path, goes) ↦ elim (Option-cases ini.app_base) [
      | inl unset ↦
          let run : load_seccomp_profile sec ut ini r g ≡ fault null_pointer =
            rw (load_seccomp_profile, goes, unset) in
          rw run tt
      | inr (base, e) ↦
          let load = load_filter sec ut (drop (length base) path) g in
          let run : load_seccomp_profile sec ut ini r g ≡ (
              if ltb (length path) (length base)
              then ok (negsuc 0, g)
              else if int_eq ini.enable_int (pos 0)
              then ok (negsuc 0, g)
              else load) =
            rw (load_seccomp_profile, goes, e) in
          rw run (
            if-Loads g (ltb (length path) (length base)) _ _ (refused g) (
              if-Loads g (int_eq ini.enable_int (pos 0)) _ _ (refused g)
                (load_filter-Loads (drop (length base) path) g)))
    ]
  ]

  -- Calls of the hook, each with the settings and the request at its time.
  unfoldable pub calls : List (Ini × Request) → Globals sec ut → Run (List Event × Globals sec ut)
  calls [] g = ok ([], g)
  calls ((ini, r) ∷ cs) g = do
    (event, g') ← seccomp_execute_internal sec ut ini r g
    (events, g'') ← calls cs g'
    ok (event ∷ events, g'')

  execute_later :
      (ini : Ini) (r : Request) (g : Globals sec ut)
      → g.seccomp_loaded ≡ true
      → seccomp_execute_internal sec ut ini r g
        ≡ ok (
          run_internal g.old_execute_internal,
          record g { execute_internal = g.old_execute_internal },
        )
  unfolding seccomp_execute_internal
  execute_later ini r g done =
      rw (seccomp_execute_internal, done)
        (ap
          (λ b. ok (
            run_internal g.old_execute_internal,
            record g { execute_internal = g.old_execute_internal; seccomp_loaded = b },
          ))
          done)

  execute_first :
      (ini : Ini) (r : Request) (g g₁ : Globals sec ut) (rc : ℤ)
      → is_some ini.enable ≡ true
      → g.seccomp_loaded ≡ false
      → load_seccomp_profile sec ut ini r g ≡ ok (rc, g₁)
      → seccomp_execute_internal sec ut ini r g
        ≡ ok (run_internal g₁.old_execute_internal, record g₁ { seccomp_loaded = true })
  unfolding seccomp_execute_internal
  execute_first ini r g g₁ rc set fresh load = rw (seccomp_execute_internal, fresh, set, load)

  -- After the flag is set a call only takes the hook out.
  later_calls :
      (cs : List (Ini × Request)) (g : Globals sec ut)
      → g.seccomp_loaded ≡ true
      → (g' : Globals sec ut) × (calls cs g
          ≡ ok (map (λ _. run_internal g.old_execute_internal) cs, g'))
        × (g'.kernel ≡ g.kernel)
        × (g'.ctx ≡ g.ctx)
  unfolding calls
  later_calls [] g done = (g, refl, refl, refl)
  later_calls ((ini, r) ∷ cs) g done =
      let (g', run, kernel, ctx) =
        later_calls cs (record g { execute_internal = g.old_execute_internal }) done in
      (g', rw (execute_later ini r g done, run), kernel, ctx)

  -- Only the first call of the hook can bring a filter into the kernel. If the setting is
  -- registered and load_seccomp_profile returns at the first call, whatever it returns, then all calls
  -- of the hook return, each runs what ran internal functions before the extension, and
  -- the context and the filters of the kernel stay as the first call left them.
  pub calls-first :
      (ini : Ini) (r : Request) (cs : List (Ini × Request)) (g g₁ : Globals sec ut) (rc : ℤ)
      → is_some ini.enable ≡ true
      → g.seccomp_loaded ≡ false
      → load_seccomp_profile sec ut ini r g ≡ ok (rc, g₁)
      → (g' : Globals sec ut) × (calls ((ini, r) ∷ cs) g
          ≡ ok (map (λ _. run_internal g.old_execute_internal) ((ini, r) ∷ cs), g'))
        × (g'.kernel ≡ g₁.kernel)
        × (g'.ctx ≡ g₁.ctx)
  unfolding calls
  calls-first ini r cs g g₁ rc set fresh load =
      let kept : Loaded rc g g₁ = rw load at (load_seccomp_profile-Loads ini r g) in
      let (g', run, kernel, ctx) = later_calls cs (record g₁ { seccomp_loaded = true }) refl in
      (
        g',
        rw (execute_first ini r g g₁ rc set fresh load, run, kept.old_execute_internal),
        kernel,
        ctx,
      )

  -- The path's beginning is not compared with the base: two scripts whose paths are at least as
  -- long as the base and agree behind its length get the same filter, whatever stands in front.
  pub load_seccomp_profile-suffix :
      (ini : Ini) (r r' : Request) (path path' base : Bytes) (g : Globals sec ut)
      → script_path r ≡ ok path
      → script_path r' ≡ ok path'
      → ini.app_base ≡ some base
      → length base ≤ length path
      → length base ≤ length path'
      → drop (length base) path ≡ drop (length base) path'
      → load_seccomp_profile sec ut ini r g ≡ load_seccomp_profile sec ut ini r' g
  unfolding load_seccomp_profile
  load_seccomp_profile-suffix ini r r' path path' base g p p' e long long' same =
      let long₁ : ltb (length path) (length base) ≡ false = ground arith in
      let long₂ : ltb (length path') (length base) ≡ false = ground arith in
      rw (load_seccomp_profile, p, p', e, long₁, long₂, same)
