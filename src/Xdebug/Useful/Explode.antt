-- ===== src/Xdebug/Useful/Explode.antt =====
-- usefulstuff.c: xdebug_memnstr, xdebug_explode and xdebug_join.
pub mod Memnstr
pub mod Parts
pub mod Joined
use saphire.Prelude.{
  ℕ, zero, suc, ◌+◌, ◌-◌, Bool, true, false, ◌&&◌, ◌||◌, Option, none, some, List, [], ◌∷◌, ◌++◌,
  leb, ltb, ◌==◌, if◌then◌else◌, length, take, drop, get_elem?,
}
use saphire.Prelude.Int.{ℤ, pos, negsuc, int_eq}
use saphire.Clib.{Bytes, Run, ok, fault, out_of_bounds, out_of_fuel, ◌>>=◌}
use saphire.Clib.Ctype.{starts_with}
use saphire.Xdebug.Str.{XdebugStr, str_new, str_add}

-- The two loops of xdebug_memnstr at the text `p` that is left: `i` is the distance from the haystack, and
-- `room` the number of places up to `end` where the needle may start.
unfoldable pub memnstr_loop : ℕ → Bytes → ℕ → ℕ → Bytes → Option ℕ
unfolding starts_with
memnstr_loop first needle zero i p = none
memnstr_loop first needle (suc room) i [] = if starts_with needle [] then some i else none
memnstr_loop first needle (suc room) i (c ∷ p) =
    let next = memnstr_loop first needle room (suc i) p in
    if c == first then (if starts_with needle (c ∷ p) then some i else next) else next

-- xdebug_memnstr with a needle of `first` and `rest`, up to the haystack's end.
unfoldable pub memnstr : Bytes → ℕ → Bytes → Option ℕ
unfolding memnstr_loop
memnstr haystack first rest =
    memnstr_loop first (first ∷ rest) (length haystack - length rest) 0 haystack

-- `limit == -1 || --limit > 1`: whether it holds, and the limit after it.
unfoldable pub next_limit : ℤ → Bool × ℤ
next_limit (negsuc zero) = (true, negsuc zero)
next_limit (negsuc (suc n)) = (false, negsuc (suc (suc n)))
next_limit (pos zero) = (false, negsuc zero)
next_limit (pos (suc n)) = (ltb 1 n, pos n)

-- The loop of xdebug_explode: `p1` is the text that is left, `p2` the distance of the delimiter found in
-- it. The result is what is added to the arguments.
unfoldable pub explode_loop : ℕ → ℕ → Bytes → Bytes → ℕ → ℤ → Run (List Bytes)
unfolding memnstr next_limit
explode_loop zero first rest p1 p2 limit = fault out_of_fuel
explode_loop (suc fuel) first rest p1 p2 limit =
    let part = take p2 p1 in
    let p1' = drop (p2 + suc (length rest)) p1 in
    elim (memnstr p1' first rest) [
      | none ↦ ok (part ∷ p1' ∷ [])
      | some p2' ↦ elim ((next_limit limit).0) [
        | false ↦ ok (part ∷ p1' ∷ [])
        | true ↦ (do
          parts ← explode_loop fuel first rest p1' p2' (next_limit limit).1
          ok (part ∷ parts))
      ]
    ]

-- xdebug_explode: the arguments with those added that it finds.
unfoldable pub explode : ℕ → Bytes → Bytes → List Bytes → ℤ → Run (List Bytes)
unfolding memnstr explode_loop
explode first rest str args limit = elim (memnstr str first rest) [
  | none ↦ ok (args ++ str ∷ [])
  | some p2 ↦ (do
    parts ← explode_loop (suc (length str)) first rest str p2 limit
    ok (args ++ parts))
]

-- `args->args[i]`.
unfoldable pub arg_at : List Bytes → ℕ → Run Bytes
arg_at args i = elim (get_elem? args i) [ none ↦ fault out_of_bounds | some a ↦ ok a ]

-- The loop of xdebug_join, with the rounds left and the index.
unfoldable pub join_loop : Bytes → List Bytes → ℕ → ℕ → XdebugStr → Run XdebugStr
unfolding arg_at str_add
join_loop delim args zero i ret = ok ret
join_loop delim args (suc left) i ret = do
  arg ← arg_at args i
  ret₁ ← str_add ret arg
  ret₂ ← str_add ret₁ delim
  join_loop delim args left (suc i) ret₂

-- `if (begin < 0) begin = 0`.
unfoldable pub clamp_begin : ℤ → ℕ
clamp_begin (pos n) = n
clamp_begin (negsuc n) = 0

-- `if (end > args->c - 1) end = args->c - 1`, where there are arguments; before the first there is none.
unfoldable pub clamp_end : ℕ → ℤ → Run ℕ
clamp_end zero end = fault out_of_bounds
clamp_end (suc last) (negsuc n) = fault out_of_bounds
clamp_end (suc last) (pos n) = ok (if ltb last n then last else n)

-- xdebug_join.
unfoldable pub join : Bytes → List Bytes → ℤ → ℤ → Run XdebugStr
unfolding str_new clamp_begin clamp_end join_loop arg_at str_add
join delim args begin end = do
  e ← clamp_end (length args) end
  ret ← join_loop delim args (e - clamp_begin begin) (clamp_begin begin) str_new
  arg ← arg_at args e
  str_add ret arg
