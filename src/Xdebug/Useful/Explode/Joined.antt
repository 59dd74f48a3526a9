-- ===== src/Xdebug/Useful/Explode/Joined.antt =====
-- xdebug_join puts the parts that xdebug_explode found together again.
use saphire.Prelude.{
  ℕ, suc, ◌+◌, ◌-◌, ◌≤◌, ◌≡◌, refl, sym, subst, ◌∙◌, inl, inr, some, List, [], ◌∷◌, ◌++◌, arith,
  length, length-append, get_elem?,
}
use mathlib.Core.List.{append_assoc}
use saphire.Prelude.Int.{ℤ, pos}
use saphire.Clib.{Bytes, Run, ok, ◌>>=◌}
use saphire.Xdebug.Str.{XdebugStr, str_new, str_add}
use saphire.Xdebug.Str.Append.{Holds, IsStr, str_add-Appended}
use saphire.Xdebug.Useful.Explode.{explode, arg_at, join_loop, clamp_begin, clamp_end, join}
use saphire.Xdebug.Useful.Explode.Parts.{joined, explode-Splits}

get_elem?-middle :
    (front : List Bytes) (q : Bytes) (back : List Bytes)
    → get_elem? (front ++ q ∷ back) (length front) ≡ some q
get_elem?-middle [] q back = refl
get_elem?-middle (e ∷ front) q back = get_elem?-middle front q back

module _ (delim : Bytes) (args : List Bytes) where
  arg_at-middle :
      (front : List Bytes) (q : Bytes) (back : List Bytes)
      → args ≡ front ++ q ∷ back
      → arg_at args (length front) ≡ ok q
  unfolding arg_at
  arg_at-middle front q back e = rw (e, arg_at, get_elem?-middle front q back) refl

  -- The loop and what follows it.
  abbrev from : ℕ → ℕ → XdebugStr → Run XdebugStr
  from left i ret = do
    ret' ← join_loop delim args left i ret
    arg ← arg_at args (i + left)
    str_add ret' arg

  from-suc :
      (left i : ℕ) (q : Bytes) (ret ret₁ ret₂ : XdebugStr)
      → arg_at args i ≡ ok q
      → str_add ret q ≡ ok ret₁
      → str_add ret₁ delim ≡ ok ret₂
      → from (suc left) i ret ≡ from left (suc i) ret₂
  unfolding join_loop
  from-suc left i q ret ret₁ ret₂ a b c =
      let there : i + suc left ≡ suc i + left = omega arith in rw (there, a, b, c) refl

  from-Holds :
      (front : List Bytes) (q : Bytes) (qs : List Bytes) (ret : XdebugStr) (t : Bytes)
      → args ≡ front ++ q ∷ qs
      → IsStr ret t
      → (xs : XdebugStr) × (from (length qs) (length front) ret ≡ ok xs)
        × Holds xs (t ++ joined delim (q ∷ qs))
  unfolding join_loop joined
  from-Holds front q [] ret t e h =
      let (xs, run, holds, _) = str_add-Appended ret t h q in
      let here : length front + 0 ≡ length front = omega arith in
      (xs, rw (here, arg_at-middle front q [] e) run, holds)
  from-Holds front q (r ∷ qs) ret t e h =
      let (ret₁, add₁, holds₁, _) = str_add-Appended ret t h q in
      let (ret₂, add₂, holds₂, _) = str_add-Appended ret₁ (t ++ q) (inr holds₁) delim in
      let e' : args ≡ (front ++ q ∷ []) ++ r ∷ qs =
        e ∙ sym (append_assoc front (q ∷ []) (r ∷ qs)) in
      let (xs, run, holds) =
        from-Holds (front ++ q ∷ []) r qs ret₂ ((t ++ q) ++ delim) e' (inr holds₂) in
      let next : length (front ++ q ∷ []) ≡ suc (length front) =
        omega (arith, length-append front (q ∷ [])) in
      let text : ((t ++ q) ++ delim) ++ joined delim (r ∷ qs)
          ≡ t ++ (q ++ (delim ++ joined delim (r ∷ qs))) =
        append_assoc (t ++ q) delim (joined delim (r ∷ qs))
        ∙ append_assoc t q (delim ++ joined delim (r ∷ qs)) in
      (
        xs,
        from-suc (length qs) (length front) q ret ret₁ ret₂ (arg_at-middle front q (r ∷ qs) e) add₁
              add₂
            ∙ (rw next at run),
        subst (Holds xs) text holds,
      )

clamp_end-last :
    (front : List Bytes) (q : Bytes) (qs : List Bytes) (n : ℕ)
    → length front + length qs ≤ n
    → clamp_end (length (front ++ q ∷ qs)) (pos n) ≡ ok (length front + length qs)
unfolding clamp_end
clamp_end-last front q qs n h =
    let count : length (front ++ q ∷ qs) ≡ suc (length front + length qs) =
      omega (arith, length-append front (q ∷ qs)) in
    rw (count, clamp_end) (ground arith)

-- xdebug_join from an argument on, up to the last one or beyond, does not fault and gives the
-- arguments with the delimiter between them.
pub join-Holds :
    (delim : Bytes) (front : List Bytes) (q : Bytes) (qs : List Bytes) (n : ℕ)
    → length front + length qs ≤ n
    → (xs : XdebugStr) × (join delim (front ++ q ∷ qs) (pos (length front)) (pos n) ≡ ok xs)
      × Holds xs (joined delim (q ∷ qs))
unfolding join clamp_begin str_new
join-Holds delim front q qs n h =
    let (xs, run, holds) =
      from-Holds delim (front ++ q ∷ qs) front q qs str_new [] refl (inl (refl, refl)) in
    let left : length front + length qs - length front ≡ length qs = omega arith in
    (xs, rw (join, clamp_end-last front q qs n h, clamp_begin, left) run, holds)

-- For a delimiter of a byte at least, xdebug_explode without arguments before, whatever its limit, ends
-- without a fault in some arguments, and xdebug_join of all of them with that delimiter does
-- not fault and gives the text again.
pub join-explode :
    (first : ℕ) (rest str : Bytes) (limit : ℤ)
    → (args : List Bytes) × (explode first rest str [] limit ≡ ok args)
      × (xs : XdebugStr) × (join (first ∷ rest) args (pos 0) (pos (length args)) ≡ ok xs)
      × Holds xs str
join-explode first rest str limit =
    let (q, qs, run, whole) = explode-Splits first rest str [] limit in
    let (xs, put, holds) = join-Holds (first ∷ rest) [] q qs (length (q ∷ qs)) (omega arith) in
    (q ∷ qs, run, xs, put, subst (Holds xs) whole holds)
