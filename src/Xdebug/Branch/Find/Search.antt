-- ===== src/Xdebug/Branch/Find/Search.antt =====
-- The search of the paths ends, stays within its memory and finds trails.
use saphire.Prelude.{
  ℕ, zero, suc, ◌+◌, ◌<◌, ◌≤◌, ◌≡◌, refl, sym, ap, subst, ◌∙◌, Bool, true, false, Option, none,
  some, List, [], ◌∷◌, ◌++◌, arith, ◌==◌, if◌then◌else◌, get_elem?, get_elem?-lt, length,
  length-append, Bool-cases, inl, inr, ltb,
}
use mathlib.Core.List.{append_assoc, append-nil}
use saphire.Clib.{Run, ok}
use saphire.Xdebug.Branch.{XdebugPath, PathInfo, path_info_add_path}
use saphire.Xdebug.Branch.Arrays.{Contains, add_element-Contains}
use saphire.Xdebug.Branch.Paths.{adjacent, find_last_element-append}
use saphire.Xdebug.Branch.Info.{XdebugBranch, jmp_exit}
use saphire.Xdebug.Branch.Find.{outs_loop, find_path}
use saphire.Xdebug.Branch.Find.Trails.{
  Edges, listed, edges_from, Trail, start, step, unused, unused_le, unused-step, listed-edges_from,
}
use saphire.Xdebug.Branch.Find.Found.{Closed, AllFound, AllFound-append, Adds, LoopAdds}
use saphire.Xdebug.Branch.Find.Rounds.{
  is_new_edge-cases, IsPrev, IsPrev-copy, outs_loop-skip, outs_loop-visit, find_path-full,
  find_path-room,
}

module _ (entry : ℕ) (branches : List XdebugBranch) (closed : Closed branches) where
  abbrev l : Edges
  l = edges_from 0 branches

  module _ (nr : ℕ) (branch : XdebugBranch) (at : get_elem? branches nr ≡ some branch)
      (front : List ℕ) (path : XdebugPath) (holds : Contains path (front ++ nr ∷ []))
      (trail : Trail entry l (front ++ nr ∷ [])) (visit : ℕ → PathInfo → Run PathInfo)
      (visits : (out : ℕ) (info : PathInfo) (ps : List XdebugPath)
        → Trail entry l ((front ++ nr ∷ []) ++ out ∷ [])
        → out < length branches
        → unused ((front ++ nr ∷ []) ++ out ∷ []) l < unused (front ++ nr ∷ []) l
        → Contains info ps
        → Adds entry branches ps (visit out info)) where
    visit_edge :
        (i out : ℕ) (info : PathInfo) (ps : List XdebugPath)
        → i < branch.outs_count
        → get_elem? branch.outs i ≡ some out
        → (out == 0) ≡ false
        → (out == jmp_exit) ≡ false
        → adjacent nr out (front ++ nr ∷ []) ≡ false
        → Contains info ps
        → Adds entry branches ps (visit out info)
    visit_edge i out info ps less o some_out target new c =
        let zeroth : 0 + nr ≡ nr = omega arith in
        let edge : listed nr out l ≡ true =
          subst (λ a. listed a out l ≡ true) zeroth
            (listed-edges_from 0 nr out i branches branch at less o) in
        visits out info ps (step front nr out trail edge new)
          (closed.targets nr i out branch at o some_out target)
          (unused-step front nr out l edge new) c

    outs_loop-Adds :
        (left i : ℕ) (found : Bool) (info : PathInfo) (ps : List XdebugPath)
        → i + left ≡ branch.outs_count
        → Contains info ps
        → LoopAdds entry branches ps found info (outs_loop visit branch path nr left i found info)
    unfolding outs_loop
    outs_loop-Adds zero i found info ps count c = record {
      found' = found;
      info' = info;
      run = refl;
      more = [];
      paths = subst (Contains info) (sym (append-nil ps)) c;
      trails = tt;
      at_most = λ h. subst (λ qs. length qs ≤ 4096) (sym (append-nil ps)) h;
      kept = λ h. h;
      unchanged = λ h. refl;
      at_least = λ h k. cc;
    }
    outs_loop-Adds (suc left) i found info ps count c =
        let less : i < branch.outs_count = omega arith in
        let (out, o) = get_elem?-lt branch.outs i (omega (arith, closed.counts nr branch at)) in
        elim (is_new_edge-cases path front nr out holds) [
          | inl skip ↦
              let rest = outs_loop-Adds left (suc i) found info ps (omega arith) c in
              record {
                found' = rest.found';
                info' = rest.info';
                run = outs_loop-skip visit branch path nr left i out found info _ o skip rest.run;
                more = rest.more;
                paths = rest.paths;
                trails = rest.trails;
                at_most = rest.at_most;
                kept = rest.kept;
                unchanged = rest.unchanged;
                at_least = rest.at_least;
              }
          | inr (taken, some_out, target, new) ↦
              let here = visit_edge i out info ps less o some_out target new c in
              let rest =
                outs_loop-Adds left (suc i) true here.info (ps ++ here.more) (omega arith)
                  here.paths in
              record {
                found' = rest.found';
                info' = rest.info';
                run =
                    outs_loop-visit visit branch path nr left i out found info _ o here.info taken
                      here.run rest.run;
                more = here.more ++ rest.more;
                paths =
                    subst (Contains rest.info') (append_assoc ps here.more rest.more) rest.paths;
                trails = AllFound-append entry branches here.more rest.more here.trails rest.trails;
                at_most = λ h.
                    subst (λ qs. length qs ≤ 4096) (append_assoc ps here.more rest.more)
                      (rest.at_most (here.at_most h));
                kept = λ h. rest.kept refl;
                unchanged = λ h. let k = rest.kept refl in cc;
                at_least =
                    λ h k m. omega (arith, here.at_least m, length-append here.more rest.more);
              }
        ]

  -- The call on a branch, with the depth that is left.
  pub find_path-Adds :
      (fuel nr : ℕ) (prev : Option XdebugPath) (front : List ℕ) (info : PathInfo)
      (ps : List XdebugPath)
      → IsPrev prev front
      → Trail entry l (front ++ nr ∷ [])
      → nr < length branches
      → unused (front ++ nr ∷ []) l < fuel
      → Contains info ps
      → Adds entry branches ps (find_path fuel branches nr prev info)
  unfolding find_path path_info_add_path
  find_path-Adds zero nr prev front info ps before trail inside h c = absurd (omega arith)
  find_path-Adds (suc fuel) nr prev front info ps before trail inside h c =
      elim (Bool-cases (ltb 4095 info.count)) [
        | inl full ↦ record {
          info = info;
          run = find_path-full fuel branches nr prev info full;
          more = [];
          paths = subst (Contains info) (sym (append-nil ps)) c;
          trails = tt;
          at_most = λ k. subst (λ qs. length qs ≤ 4096) (sym (append-nil ps)) k;
          at_least = λ k. absurd (ground (arith, c.count));
        }
        | inr room ↦
            let (copy, copied, d) = IsPrev-copy prev front before in
            let (path, added, holds, _) = add_element-Contains copy front nr d in
            let last = find_last_element-append path (front ++ nr ∷ []) holds front nr refl in
            let (branch, at) = get_elem?-lt branches nr inside in
            let loop =
              outs_loop-Adds nr branch at front path holds trail
                (λ out i. find_path fuel branches out (some path) i)
                (λ out i qs t inside' less c'.
                  find_path-Adds fuel out (some path) (front ++ nr ∷ []) i qs holds t inside'
                    (omega arith) c')
                branch.outs_count 0 false info ps (omega arith) c in
            elim (Bool-cases loop.found') [
              | inl found ↦ record {
                info = loop.info';
                run =
                    find_path-room fuel branches nr prev info copy path branch loop.found'
                      loop.info' room copied added last at loop.run
                    ∙ ap (λ f. if f then ok loop.info' else path_info_add_path loop.info' path)
                        found;
                more = loop.more;
                paths = loop.paths;
                trails = loop.trails;
                at_most = loop.at_most;
                at_least = λ k. loop.at_least refl found k;
              }
              | inr ended ↦
                  let none_more : ps ++ loop.more ≡ ps =
                    ap (λ qs. ps ++ qs) (loop.unchanged ended) ∙ append-nil ps in
                  let same : Contains loop.info' ps =
                    subst (Contains loop.info') none_more loop.paths in
                  let (info', kept, paths, _) = add_element-Contains loop.info' ps path same in
                  record {
                    info = info';
                    run =
                        find_path-room fuel branches nr prev info copy path branch loop.found'
                          loop.info' room copied added last at loop.run
                        ∙ ap (λ f. if f then ok loop.info' else path_info_add_path loop.info' path)
                            ended
                        ∙ kept;
                    more = path ∷ [];
                    paths = paths;
                    trails = ((front ++ nr ∷ [], holds, trail), tt);
                    at_most = λ k. ground (arith, c.count, length-append ps (path ∷ []));
                    at_least = λ k. omega arith;
                  }
            ]
      ]

  -- Assume that the outs of each branch are in its array and go to branches, but for 0 and
  -- XDEBUG_JMP_EXIT, and that the paths' array holds `ps`, fewer than 4096. Then
  -- xdebug_branch_find_path from a branch `entry` without a path before it ends, within a depth of one
  -- call more than there are outs, and does not fault. It adds a path at least behind `ps`, up to 4096
  -- in all; each is a walk from `entry` along outs of the branches that takes no edge twice.
  pub find_path-finds :
      (info : PathInfo) (ps : List XdebugPath)
      → entry < length branches
      → Contains info ps
      → length ps < 4096
      → (info' : PathInfo) × (more : List XdebugPath) × (find_path
            (suc (length (edges_from 0 branches)))
            branches
            entry
            none
            info
          ≡ ok info')
        × Contains info' (ps ++ more)
        × AllFound entry branches more
        × (length (ps ++ more) ≤ 4096)
        × (0 < length more)
  find_path-finds info ps inside c few =
      let adds =
        find_path-Adds (suc (length l)) entry none [] info ps refl start inside
          (omega (arith, unused_le (entry ∷ []) l)) c in
      (
        adds.info,
        adds.more,
        adds.run,
        adds.paths,
        adds.trails,
        adds.at_most (omega arith),
        adds.at_least few,
      )
