-- ===== src/Xdebug/Str.antt =====
-- xdebug_str.c and xdebug_str.h: a growing byte buffer with a NUL behind its text.
-- The counts are numbers of allocated bytes, so signed long does not overflow. malloc and realloc
-- succeed. The flag `f`, which frees the argument, is not modelled.
pub mod Append
pub mod Appends
pub mod Copy
pub mod Fetched
pub mod Format
use saphire.Prelude.{
  ℕ, zero, suc, ◌+◌, ◌-◌, ◌*◌, ◌%◌, ◌^◌, Bool, Option, none, some, List, [], ◌∷◌, ◌++◌, map, length,
  take, drop, replicate, ltb, leb, ◌==◌, if◌then◌else◌,
}
use saphire.Prelude.Int.{ℤ, pos, negsuc}
use saphire.Clib.{
  Bytes, Run, ok, fault, out_of_bounds, null_pointer, out_of_fuel, uninitialised, ◌>>=◌,
}

abbrev pub prealloc : ℕ
prealloc = 1024

-- Allocated memory; `none` is a byte that nothing has written.
abbrev pub Buffer : Type 0
Buffer = List (Option ℕ)

pub record XdebugStr : Type 0 where
  pub l : ℕ
  pub a : ℕ
  pub d : Option Buffer

abbrev pub malloc : ℕ → Buffer
malloc n = replicate n none

-- realloc to a size that is not smaller; of NULL it is malloc.
unfoldable pub realloc : Option Buffer → ℕ → Buffer
realloc none n = malloc n
realloc (some b) n = b ++ malloc (n - length b)

-- `memcpy(b + at, s, n)` for the bytes `s`.
unfoldable pub store : Buffer → ℕ → Bytes → Run Buffer
store b at s =
    if leb (at + length s) (length b)
    then ok (take at b ++ map some s ++ drop (at + length s) b)
    else fault out_of_bounds

-- `n` bytes read from the start of a buffer.
unfoldable pub fetch : ℕ → Buffer → Run Bytes
fetch zero b = ok []
fetch (suc n) [] = fault out_of_bounds
fetch (suc n) (none ∷ b) = fault uninitialised
fetch (suc n) (some c ∷ b) = do s ← fetch n b; ok (c ∷ s)

-- Room for `n` more bytes and a NUL: `if (xs->l + n > xs->a - 1)`.
unfoldable pub reserve : XdebugStr → ℕ → XdebugStr
unfolding realloc
reserve xs n =
    if ltb xs.a (xs.l + n + 1)
    then record xs { d = some (realloc xs.d (xs.a + n + prealloc)); a = xs.a + n + prealloc }
    else xs

-- What the four functions do after they have made room.
unfoldable pub write_text : XdebugStr → Bytes → Run XdebugStr
unfolding store
write_text xs s = elim xs.d [
  | none ↦ fault null_pointer
  | some b ↦ (do
    b₁ ← if xs.l == 0 then store b 0 (0 ∷ []) else ok b
    b₂ ← store b₁ xs.l s
    b₃ ← store b₂ (xs.l + length s) (0 ∷ [])
    ok (record xs { d = some b₃; l = xs.l + length s }))
]

-- xdebug_str_add of a text whose length an `int` holds. `str` ends where its NUL stands, so strlen is
-- the length.
unfoldable pub str_add : XdebugStr → Bytes → Run XdebugStr
unfolding reserve write_text
str_add xs str = write_text (reserve xs (length str)) str

-- xdebug_str_add of any text: `int l = strlen(str)` keeps the low 32 bits of the length. A negative `l`
-- makes memcpy leave the memory; a positive one is what is copied of the text.
unfoldable pub str_add_int : XdebugStr → Bytes → Run XdebugStr
unfolding reserve write_text
str_add_int xs str =
    let l = length str % 2 ^ 32 in
    if ltb l (2 ^ 31) then write_text (reserve xs l) (take l str) else fault out_of_bounds

-- xdebug_str_addl, for an `int le` that is not negative: the first `le` bytes of memory at `str`.
unfoldable pub str_addl : XdebugStr → Buffer → ℕ → Run XdebugStr
unfolding reserve write_text fetch
str_addl xs str le = do s ← fetch le str; write_text (reserve xs le) s

-- xdebug_str_add_str.
unfoldable pub str_add_str : XdebugStr → XdebugStr → Run XdebugStr
unfolding reserve write_text fetch
str_add_str xs str = elim str.d [
  | none ↦ (if str.l == 0 then write_text (reserve xs 0) [] else fault null_pointer)
  | some b ↦ (do s ← fetch str.l b; write_text (reserve xs str.l) s)
]

unfoldable pub str_addc : XdebugStr → ℕ → Run XdebugStr
unfolding reserve write_text
str_addc xs letter = write_text (reserve xs 1) (letter ∷ [])

-- `xs->l = l; xs->d[xs->l] = '\0'`.
unfoldable pub terminate : XdebugStr → ℕ → Run XdebugStr
unfolding store
terminate xs l = elim xs.d [
  | none ↦ fault null_pointer
  | some b ↦ (do b' ← store b l (0 ∷ []); ok (record xs { d = some b'; l = l }))
]

-- xdebug_str_chop; `c` is an int.
unfoldable pub str_chop : XdebugStr → ℤ → Run XdebugStr
unfolding terminate
str_chop xs (pos c) = if ltb xs.l c then ok xs else terminate xs (xs.l - c)
str_chop xs (negsuc c) = terminate xs (xs.l + suc c)

unfoldable pub str_new : XdebugStr
str_new = record { l = 0; a = 0; d = none }

-- xdebug_str_create: `len` bytes at `c`, and a NUL.
unfoldable pub str_create : Buffer → ℕ → Run XdebugStr
unfolding store fetch str_new
str_create c len = do
  s ← fetch len c
  b ← store (malloc (len + 1)) 0 s
  b' ← store b len (0 ∷ [])
  ok (record str_new { l = len; a = len + 1; d = some b' })

-- The memory of a string: its bytes and the NUL.
abbrev pub memory : Bytes → Buffer
memory s = map some s ++ some 0 ∷ []

unfoldable pub str_create_from_char : Bytes → Run XdebugStr
unfolding str_create
str_create_from_char c = str_create (memory c) (length c)

-- xdebug_str_copy.
unfoldable pub str_copy : XdebugStr → Run XdebugStr
unfolding store fetch str_new
str_copy orig = do
  s ← elim orig.d [
    | none ↦ (if orig.l == 0 then ok [] else fault null_pointer)
    | some b ↦ fetch orig.l b
  ]
  b ← store (malloc (orig.l + 1)) 0 s
  b' ← store b orig.l (0 ∷ [])
  ok (record str_new { l = orig.l; a = orig.l + 1; d = some b' })

-- xdebug_strndup, for a length that is not negative.
unfoldable pub strndup : Buffer → ℕ → Run Buffer
unfolding store fetch
strndup s len = do
  text ← fetch len s
  p ← if len == 0 then ok (malloc (len + 1)) else store (malloc (len + 1)) 0 text
  store p len (0 ∷ [])
