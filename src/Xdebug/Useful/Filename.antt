-- ===== src/Xdebug/Useful/Filename.antt =====
-- usefulstuff.c: xdebug_format_output_filename, the names of the files that are written.
pub mod Cleaned
pub mod Safe
use saphire.Prelude.{
  ℕ, zero, suc, Bool, true, false, not, Option, none, some, List, [], ◌∷◌, ltb, ◌==◌, if◌then◌else◌,
  length,
}
use saphire.Clib.{Bytes, codes, Run, ok, fault, out_of_bounds, out_of_fuel, ◌>>=◌}
use saphire.Clib.Text.{lacks_byte}
use saphire.Clib.Decimal.{decimal}
use saphire.Xdebug.Str.{XdebugStr, memory, str_new, str_add, str_addl}

-- `char_ptr = strpbrk(s, set); char_ptr[0] = '_'`, where strpbrk finds a byte.
unfoldable pub replace_first : Bytes → Bytes → Option Bytes
replace_first set [] = none
replace_first set (c ∷ s) = elim (lacks_byte c set) [
  | false ↦ some (b'_' ∷ s)
  | true ↦ elim (replace_first set s) [ none ↦ none | some s' ↦ some (c ∷ s') ]
]

-- The while loop around it, with the rounds it is given.
unfoldable pub clean_loop : ℕ → Bytes → Bytes → Run Bytes
unfolding replace_first
clean_loop zero set s = fault out_of_fuel
clean_loop (suc fuel) set s = elim (replace_first set s) [
  | none ↦ ok s
  | some s' ↦ clean_loop fuel set s'
]

unfoldable pub clean : Bytes → Bytes → Run Bytes
unfolding clean_loop
clean set s = clean_loop (suc (length s)) set s

-- `char_ptr = strrchr(s, '.'); if (char_ptr) char_ptr[0] = '_'`.
unfoldable pub replace_dot : Bytes → Bytes
replace_dot [] = []
replace_dot (c ∷ s) =
    let rest = replace_dot s in
    if lacks_byte b'.' s then (if c == b'.' then b'_' ∷ s else c ∷ s) else c ∷ rest

abbrev pub script_set : Bytes
script_set = codes "/\\: "

abbrev pub server_set : Bytes
server_set = codes "/\\.?&+:*\"<>| "

abbrev pub session_set : Bytes
session_set = codes "/\\.?&+ "

-- What the function asks for: the working directory, xdebug_crc32 of it, the process, the random number as
-- `%06x` prints it, the time and, as `%F` prints it, the time with microseconds; the values of the server
-- and of the session's cookie, where they are set.
pub record Environment : Type 0 where
  pub cwd : Option Bytes
  pub crc32 : Bytes → ℕ
  pub pid : ℕ
  pub random : Bytes
  pub time : ℕ
  pub utime : Bytes
  pub http_host : Option Bytes
  pub unique_id : Option Bytes
  pub request_uri : Option Bytes
  pub session : Option Bytes

-- The cases that add a value after it was cleaned.
unfoldable pub add_clean : Bytes → Bytes → XdebugStr → Run XdebugStr
unfolding clean str_add
add_clean set strval fname = clean set strval >>= λ strval. str_add fname strval

unfoldable pub add_server : Option Bytes → XdebugStr → Run XdebugStr
unfolding add_clean
add_server none fname = ok fname
add_server (some value) fname = add_clean server_set value fname

unfoldable pub add_session : Option Bytes → XdebugStr → Run XdebugStr
unfolding add_clean
add_session none fname = ok fname
add_session (some value) fname =
    if ltb (length value) 100 then add_clean session_set value fname else ok fname

unfoldable pub add_script : Option Bytes → XdebugStr → Run XdebugStr
unfolding clean replace_dot str_add
add_script none fname = ok fname
add_script (some script_name) fname =
    clean script_set script_name >>= λ script_name_tmp. str_add fname (replace_dot script_name_tmp)

unfoldable pub add_cwd : (Bytes → ℕ) → Option Bytes → XdebugStr → Run XdebugStr
unfolding decimal str_add
add_cwd crc32 none fname = ok fname
add_cwd crc32 (some cwd) fname = str_add fname (decimal (crc32 cwd) [])

module _ (env : Environment) (script_name : Option Bytes) where
  -- The switch; a byte without a case adds nothing.
  unfoldable pub specifier : ℕ → XdebugStr → Run XdebugStr
  unfolding add_cwd add_script add_server add_session decimal str_add str_addl replace_dot
  specifier c fname =
      if c == b'c'
      then add_cwd env.crc32 env.cwd fname
      else if c == b'p'
      then str_add fname (decimal env.pid [])
      else if c == b'r'
      then str_add fname env.random
      else if c == b's'
      then add_script script_name fname
      else if c == b't'
      then str_add fname (decimal env.time [])
      else if c == b'u'
      then str_add fname (replace_dot env.utime)
      else if c == b'H'
      then add_server env.http_host fname
      else if c == b'U'
      then add_server env.unique_id fname
      else if c == b'R'
      then add_server env.request_uri fname
      else if c == b'S'
      then add_session env.session fname
      else if c == b'%'
      then str_addl fname (memory (b'%' ∷ [])) 1
      else ok fname

  -- The loop over the format; behind a % at its end it goes on behind the NUL.
  unfoldable pub format_loop : Bytes → XdebugStr → Run XdebugStr
  unfolding specifier str_addl
  format_loop [] fname = ok fname
  format_loop (c ∷ []) fname =
      if not (c == b'%') then str_addl fname (memory (c ∷ [])) 1 else fault out_of_bounds
  format_loop (c ∷ d ∷ format) fname =
      if not (c == b'%')
      then (str_addl fname (memory (c ∷ d ∷ format)) 1
          >>= (λ fname. format_loop (d ∷ format) fname))
      else (specifier d fname >>= (λ fname. format_loop format fname))

  -- xdebug_format_output_filename.
  unfoldable pub format_output_filename : Bytes → Run XdebugStr
  unfolding format_loop str_new
  format_output_filename format = format_loop format str_new
