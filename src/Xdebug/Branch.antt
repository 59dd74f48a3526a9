-- ===== src/Xdebug/Branch.antt =====
-- stage1/interpreter-tracing/TE_xdebug/xdebug_branch_info.c, its paths: a path is the sequence of the
-- branches that a function's run goes through, in an array that grows by 32 elements.
pub mod Arrays
pub mod Paths
pub mod Keys
pub mod Info
pub mod Find
use saphire.Prelude.{
  ℕ, zero, suc, ◌+◌, ◌-◌, ◌^◌, Bool, true, false, Option, none, some, List, ◌++◌, ltb, ◌==◌,
  if◌then◌else◌, length, get_elem?, set, replicate, take, [], ◌∷◌,
}
use saphire.Clib.{Bytes, Run, ok, fault, null_pointer, out_of_bounds, uninitialised, ◌>>=◌}
use saphire.Clib.Decimal.{decimal}
use saphire.Xdebug.Str.{XdebugStr, str_add}

-- struct xdebug_path, and the array of struct xdebug_path_info: the elements in use, the elements that
-- there is memory for, and that memory, in which `none` is an element never written.
pub record Array (A : Type 0) : Type 0 where
  pub count : ℕ
  pub size : ℕ
  pub elements : Option (List (Option A))

abbrev pub XdebugPath : Type 0
XdebugPath = Array ℕ

abbrev pub PathInfo : Type 0
PathInfo = Array XdebugPath

module _ {A : Type 0} where
  -- calloc of a path, and the path_info of xdebug_branch_info_create.
  abbrev pub no_elements : Array A
  no_elements = record { count = 0; size = 0; elements = none }

  -- realloc to more elements; of NULL it is malloc.
  unfoldable pub resize : Option (List (Option A)) → ℕ → List (Option A)
  resize none n = replicate n none
  resize (some b) n = b ++ replicate (n - length b) none

  unfoldable pub grow : Array A → Array A
  unfolding resize
  grow p =
      if p.count == p.size
      then record p { size = p.size + 32; elements = some (resize p.elements (p.size + 32)) }
      else p

  -- `path->elements[path->elements_count] = nr; path->elements_count++`.
  unfoldable pub put : Array A → A → Run (Array A)
  put p nr = elim p.elements [
    | none ↦ fault null_pointer
    | some b ↦
        if ltb p.count (length b)
        then ok (record p { elements = some (set b p.count (some nr)); count = p.count + 1 })
        else fault out_of_bounds
  ]

  -- `path->elements[i]`.
  unfoldable pub element : Array A → ℕ → Run A
  element p i = elim p.elements [
    | none ↦ fault null_pointer
    | some b ↦ elim (get_elem? b i) [
      | none ↦ fault out_of_bounds
      | some e ↦ elim e [ none ↦ fault uninitialised | some a ↦ ok a ]
    ]
  ]

  -- xdebug_path_add of a path that is not NULL.
  unfoldable pub add_element : Array A → A → Run (Array A)
  unfolding grow put
  add_element p nr = put (grow p) nr

-- xdebug_path_add.
unfoldable pub path_add : Option XdebugPath → ℕ → Run (Option XdebugPath)
unfolding add_element
path_add none nr = ok none
path_add (some path) nr = do path' ← add_element path nr; ok (some path')

-- xdebug_path_info_add_path.
unfoldable pub path_info_add_path : PathInfo → XdebugPath → Run PathInfo
unfolding add_element
path_info_add_path path_info path = add_element path_info path

-- The loop of xdebug_path_new, with the elements left and the index.
unfoldable pub copy_loop : XdebugPath → ℕ → ℕ → XdebugPath → Run XdebugPath
unfolding element add_element
copy_loop old_path zero i tmp = ok tmp
copy_loop old_path (suc left) i tmp = do
  nr ← element old_path i
  tmp' ← add_element tmp nr
  copy_loop old_path left (suc i) tmp'

-- xdebug_path_new.
unfoldable pub path_new : Option XdebugPath → Run XdebugPath
unfolding copy_loop
path_new none = ok no_elements
path_new (some old_path) = copy_loop old_path old_path.count 0 no_elements

-- `path->elements_count - 1`, which is unsigned.
unfoldable pub count_less_one : XdebugPath → ℕ
count_less_one path = if path.count == 0 then 2 ^ 32 - 1 else path.count - 1

-- xdebug_branch_find_last_element.
unfoldable pub find_last_element : XdebugPath → Run ℕ
unfolding element count_less_one
find_last_element path = element path (count_less_one path)

-- `path->elements[i] == elem1 && path->elements[i + 1] == elem2`.
unfoldable pub pair_at : XdebugPath → ℕ → ℕ → ℕ → Run Bool
unfolding element
pair_at path elem1 elem2 i = do
  e ← element path i
  if e == elem1 then (do f ← element path (suc i); ok (f == elem2)) else ok false

-- The loop of xdebug_path_exists, with the rounds left and the index.
unfoldable pub exists_loop : XdebugPath → ℕ → ℕ → ℕ → ℕ → Run Bool
unfolding pair_at
exists_loop path elem1 elem2 zero i = ok false
exists_loop path elem1 elem2 (suc left) i = do
  here ← pair_at path elem1 elem2 i
  elim here [ true ↦ ok true | false ↦ exists_loop path elem1 elem2 left (suc i) ]

-- xdebug_path_exists.
unfoldable pub path_exists : XdebugPath → ℕ → ℕ → Run Bool
unfolding exists_loop count_less_one
path_exists path elem1 elem2 = exists_loop path elem1 elem2 (count_less_one path) 0

-- `snprintf(temp_nr, 15, "%u:", nr)`, which keeps 14 bytes at most.
unfoldable pub temp_nr : ℕ → Bytes
unfolding decimal
temp_nr nr = take 14 (decimal nr (b':' ∷ []))

-- The loop of xdebug_create_key_for_path, with the elements left and the index.
unfoldable pub key_loop : XdebugPath → ℕ → ℕ → XdebugStr → Run XdebugStr
unfolding element temp_nr str_add
key_loop path zero i str = ok str
key_loop path (suc left) i str = do
  nr ← element path i
  str' ← str_add str (temp_nr nr)
  key_loop path left (suc i) str'

-- xdebug_create_key_for_path.
unfoldable pub create_key_for_path : XdebugPath → XdebugStr → Run XdebugStr
unfolding key_loop
create_key_for_path path str = key_loop path path.count 0 str
