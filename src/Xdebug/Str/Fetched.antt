-- ===== src/Xdebug/Str/Fetched.antt =====
-- xdebug_str_addl and xdebug_str_add_str, which append what they read from memory.
use saphire.Prelude.{◌+◌, ◌≤◌, ◌≡◌, refl, ap, inl, inr, none, some, [], ◌∷◌, ◌++◌, map, length}
use saphire.Clib.{Bytes, ok}
use saphire.Xdebug.Str.{Buffer, XdebugStr, prealloc, fetch, str_addl, str_add_str}
use saphire.Xdebug.Str.Append.{Holds, IsStr, append-Holds}

-- The first bytes of memory that begins with `s`.
pub fetch-append : (s : Bytes) (rest : Buffer) → fetch (length s) (map some s ++ rest) ≡ ok s
unfolding fetch
fetch-append [] rest = refl
fetch-append (c ∷ s) rest = rw (fetch-append s rest)

module _ (xs : XdebugStr) (t : Bytes) (h : IsStr xs t) where
  -- xdebug_str_addl, to a new string or to one that holds `t`, of the length of a text at the start of
  -- memory never writes out of its buffer; the string then holds `t` and that text, and its buffer
  -- has grown by 1024 bytes more than the text's length at most.
  pub str_addl-Holds :
      (s : Bytes) (rest : Buffer)
      → (xs' : XdebugStr) × (str_addl xs (map some s ++ rest) (length s) ≡ ok xs')
        × Holds xs' (t ++ s)
        × (xs'.a ≤ xs.a + length s + prealloc)
  unfolding str_addl
  str_addl-Holds s rest =
      let (xs', run, p, q) = append-Holds xs t h s in
      (xs', rw (str_addl, fetch-append s rest) run, p, q)

  -- xdebug_str_add_str, to a new string or to one that holds `t`, of another string, new or with a text,
  -- never writes out of its buffer; the string then holds `t` and the other's text, and its buffer has
  -- grown by 1024 bytes more than that text's length at most.
  pub str_add_str-Holds :
      (ys : XdebugStr) (s : Bytes)
      → IsStr ys s
      → (xs' : XdebugStr) × (str_add_str xs ys ≡ ok xs')
        × Holds xs' (t ++ s)
        × (xs'.a ≤ xs.a + length s + prealloc)
  unfolding str_add_str
  str_add_str-Holds ys s (inl (new, empty)) =
      let (xs', run, p, q) = append-Holds xs t h [] in
      let unset : ys.d ≡ none = ap {A = XdebugStr} (λ y. y.d) new in
      let none_long : ys.l ≡ 0 = ap {A = XdebugStr} (λ y. y.l) new in
      (xs', rw (str_add_str, unset, none_long) run, rw empty p, rw empty q)
  str_add_str-Holds ys s (inr k) =
      let (xs', run, p, q) = append-Holds xs t h s in
      (xs', rw (str_add_str, k.d, k.l, fetch-append s (some 0 ∷ k.rest)) run, p, q)
