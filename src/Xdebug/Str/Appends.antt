-- ===== src/Xdebug/Str/Appends.antt =====
-- Code that appends to a string, one piece behind the other.
use saphire.Prelude.{◌≡◌, refl, sym, subst, inr, some, [], ◌∷◌, ◌++◌, length}
use mathlib.Core.List.{append_assoc, append-nil}
use saphire.Clib.{Bytes, Run, ok, ◌>>=◌}
use saphire.Xdebug.Str.{XdebugStr, str_add, str_addl, memory}
use saphire.Xdebug.Str.Append.{IsStr, str_add-Appended}
use saphire.Xdebug.Str.Fetched.{str_addl-Holds}

-- The code appends a text to any string without a fault.
pub record Appends (run : XdebugStr → Run XdebugStr) (text : Bytes) : Type 0 where
  pub appends :
      (xs : XdebugStr) (t : Bytes)
      → IsStr xs t
      → (xs' : XdebugStr) × (run xs ≡ ok xs') × IsStr xs' (t ++ text)

pub Appends-str_add : (s : Bytes) → Appends (λ xs. str_add xs s) s
Appends-str_add s = record {
  appends = λ xs t h. let (xs', run, p, _) = str_add-Appended xs t h s in (xs', run, inr p);
}

pub Appends-str_addl : (s : Bytes) → Appends (λ xs. str_addl xs (memory s) (length s)) s
Appends-str_addl s = record {
  appends =
      λ xs t h. let (xs', run, p, _) = str_addl-Holds xs t h s (some 0 ∷ []) in (xs', run, inr p);
}

pub Appends-nothing : Appends (λ xs. ok xs) []
Appends-nothing = record { appends = λ xs t h. (xs, refl, subst (IsStr xs) (sym (append-nil t)) h) }

module _ (f g : XdebugStr → Run XdebugStr) (s t : Bytes) where
  pub Appends-then : Appends f s → Appends g t → Appends (λ xs. f xs >>= g) (s ++ t)
  Appends-then p q = record {
    appends = λ xs u h.
        let (ys, run, holds) = p.appends xs u h in
        let (zs, run', holds') = q.appends ys (u ++ s) holds in
        (zs, rw run run', subst (IsStr zs) (append_assoc u s t) holds');
  }
