-- ===== src/Xdebug/Llist.antt =====
-- stage1/interpreter-tracing/TE_xdebug/xdebug_llist.c: doubly linked lists, their elements on a heap.
pub mod Chains
pub mod Linked
pub mod Insert
pub mod Unlinked
pub mod Remove
pub mod Empty
use saphire.Prelude.{
  ℕ, zero, suc, ◌+◌, ◌-◌, Bool, true, false, Option, none, some, List, [], ◌∷◌, ◌++◌, ltb, ◌==◌,
  if◌then◌else◌,
}
use saphire.Clib.{Run, ok, fault, null_pointer, out_of_bounds, out_of_fuel, ◌>>=◌}

-- NULL, or the address of an element.
abbrev pub Ptr : Type 0
Ptr = Option ℕ

-- _xdebug_llist_element, with the value that ptr stands for.
pub record Element (V : Type 0) : Type 0 where
  pub ptr : V
  pub prev : Ptr
  pub next : Ptr

-- What is allocated, by address.
abbrev pub Heap : Type 0 → Type 0
Heap V = ℕ → Option (Element V)

-- _xdebug_llist; whether it has a dtor.
pub record Llist : Type 0 where
  pub head : Ptr
  pub tail : Ptr
  pub dtor : Bool
  pub size : ℕ

-- xdebug_llist_init.
unfoldable pub llist_init : Bool → Llist
llist_init dtor = record { size = 0; dtor = dtor; head = none; tail = none }

-- `if (!e) e = ...`.
abbrev pub or_else : Ptr → Ptr → Ptr
or_else none e = e
or_else (some a) e = some a

-- `e == l->head`.
abbrev pub is_head : ℕ → Ptr → Bool
is_head a none = false
is_head a (some b) = a == b

abbrev pub is_null : Ptr → Bool
is_null none = true
is_null (some a) = false

module _ {V : Type 0} where
  unfoldable pub write : Heap V → ℕ → Option (Element V) → Heap V
  write h a c = λ b. if b == a then c else h b

  -- `*e`, where `e` must be an element that is not freed.
  unfoldable pub deref : Heap V → ℕ → Run (Element V)
  deref h a = elim (h a) [ none ↦ fault out_of_bounds | some c ↦ ok c ]

  unfoldable pub set_next : ℕ → Ptr → Heap V → Run (Heap V)
  unfolding write deref
  set_next a next h = do c ← deref h a; ok (write h a (some (record c { next = next })))

  unfoldable pub set_prev : ℕ → Ptr → Heap V → Run (Heap V)
  unfolding write deref
  set_prev a prev h = do c ← deref h a; ok (write h a (some (record c { prev = prev })))

  -- The only element of a list: the branch `l->size == 0` of both insertions.
  unfoldable pub insert_first : ℕ → V → Llist → Heap V → Llist × Heap V
  unfolding write
  insert_first ne p l h = (
    record l { head = some ne; tail = some ne; size = l.size + 1 },
    write h ne (some (record { ptr = p; prev = none; next = none })),
  )

  -- The element behind: `if (e->next)`.
  unfoldable pub link_next : ℕ → Ptr → Llist → Heap V → Run (Llist × Heap V)
  unfolding set_prev
  link_next ne none l h = ok (record l { tail = some ne }, h)
  link_next ne (some n) l h = do h' ← set_prev n (some ne) h; ok (l, h')

  -- The other branch of xdebug_llist_insert_next; `ne` is what malloc returned.
  unfoldable pub insert_behind : ℕ → V → ℕ → Llist → Heap V → Run (Llist × Heap V)
  unfolding write deref link_next set_next
  insert_behind ne p e l h = do
    c ← deref h e
    (l₁, h₁) ←
        link_next ne c.next l (write h ne (some (record { ptr = p; prev = some e; next = c.next })))
    h₂ ← set_next e (some ne) h₁
    ok (record l₁ { size = l₁.size + 1 }, h₂)

  unfoldable pub insert_next : ℕ → Llist → Ptr → V → Heap V → Run (Llist × Heap V)
  unfolding insert_first insert_behind
  insert_next ne l e p h =
      if l.size == 0
      then ok (insert_first ne p l h)
      else elim (or_else e l.tail) [ none ↦ fault null_pointer | some a ↦ insert_behind ne p a l h ]

  -- The element in front: `if (e->prev)`.
  unfoldable pub link_prev : ℕ → Ptr → Llist → Heap V → Run (Llist × Heap V)
  unfolding set_next
  link_prev ne none l h = ok (record l { head = some ne }, h)
  link_prev ne (some n) l h = do h' ← set_next n (some ne) h; ok (l, h')

  unfoldable pub insert_before : ℕ → V → ℕ → Llist → Heap V → Run (Llist × Heap V)
  unfolding write deref link_prev set_prev
  insert_before ne p e l h = do
    c ← deref h e
    (l₁, h₁) ←
        link_prev ne c.prev l (write h ne (some (record { ptr = p; prev = c.prev; next = some e })))
    h₂ ← set_prev e (some ne) h₁
    ok (record l₁ { size = l₁.size + 1 }, h₂)

  unfoldable pub insert_prev : ℕ → Llist → Ptr → V → Heap V → Run (Llist × Heap V)
  unfolding insert_first insert_before
  insert_prev ne l e p h =
      if l.size == 0
      then ok (insert_first ne p l h)
      else elim (or_else e l.head) [ none ↦ fault null_pointer | some a ↦ insert_before ne p a l h ]

  -- The element at the head is taken out.
  unfoldable pub unlink_head : Ptr → Llist → Heap V → Run (Llist × Heap V)
  unfolding set_prev
  unlink_head none l h = ok (record l { head = none; tail = none }, h)
  unlink_head (some n) l h = do h' ← set_prev n none h; ok (record l { head = some n }, h')

  -- What is behind an element that is taken out: `if (!e->next)`.
  unfoldable pub unlink_next : Ptr → Ptr → Llist → Heap V → Run (Llist × Heap V)
  unfolding set_prev
  unlink_next prev none l h = ok (record l { tail = prev }, h)
  unlink_next prev (some n) l h = do h' ← set_prev n prev h; ok (l, h')

  -- Another element is taken out.
  unfoldable pub unlink : Ptr → Ptr → Llist → Heap V → Run (Llist × Heap V)
  unfolding set_next unlink_next
  unlink none next l h = fault null_pointer
  unlink (some b) next l h = do h₁ ← set_next b next h; unlink_next (some b) next l h₁

  -- xdebug_llist_remove: the values that dtor is called with, the list and the heap.
  unfoldable pub remove : Llist → Ptr → Heap V → Run (List V × Llist × Heap V)
  unfolding deref unlink_head unlink write
  remove l none h = ok ([], l, h)
  remove l (some e) h = if l.size == 0 then ok ([], l, h) else (do
    c ← deref h e
    (l₁, h₁) ← if is_head e l.head then unlink_head c.next l h else unlink c.prev c.next l h
    ok (if l.dtor then c.ptr ∷ [] else [], record l₁ { size = l₁.size - 1 }, write h₁ e none))

  -- `XDEBUG_LLIST_NEXT(e)` and `XDEBUG_LLIST_PREV(e)`.
  unfoldable pub next_of : Heap V → Ptr → Run Ptr
  unfolding deref
  next_of h none = fault null_pointer
  next_of h (some a) = do c ← deref h a; ok c.next

  unfoldable pub prev_of : Heap V → Ptr → Run Ptr
  unfolding deref
  prev_of h none = fault null_pointer
  prev_of h (some a) = do c ← deref h a; ok c.prev

  unfoldable pub remove_next : Llist → Ptr → Heap V → Run (List V × Llist × Heap V)
  unfolding next_of remove
  remove_next l e h = do n ← next_of h e; remove l n h

  unfoldable pub remove_prev : Llist → Ptr → Heap V → Run (List V × Llist × Heap V)
  unfolding prev_of remove
  remove_prev l e h = do n ← prev_of h e; remove l n h

  -- The loops of xdebug_llist_jump, with the rounds that are left.
  unfoldable pub steps_next : ℕ → Heap V → Ptr → Run Ptr
  unfolding next_of
  steps_next zero h e = ok e
  steps_next (suc left) h e = do n ← next_of h e; steps_next left h n

  unfoldable pub steps_prev : ℕ → Heap V → Ptr → Run Ptr
  unfolding prev_of
  steps_prev zero h e = ok e
  steps_prev (suc left) h e = do n ← prev_of h e; steps_prev left h n

  -- xdebug_llist_jump; LIST_HEAD is 0 and LIST_TAIL is 1.
  unfoldable pub jump : Llist → ℕ → ℕ → Heap V → Run Ptr
  unfolding steps_next steps_prev
  jump l where_ pos h =
      if where_ == 0
      then steps_next pos h l.head
      else if where_ == 1
      then steps_prev pos h l.tail
      else ok none

  -- xdebug_llist_empty, with the rounds it is given.
  unfoldable pub empty : ℕ → Llist → Heap V → Run (List V × Llist × Heap V)
  unfolding remove
  empty zero l h = fault out_of_fuel
  empty (suc fuel) l h =
      if ltb 0 l.size
      then (if is_null l.tail then ok ([], l, h) else (do
        (vs, l₁, h₁) ← remove l l.tail h
        (ws, l₂, h₂) ← empty fuel l₁ h₁
        ok (vs ++ ws, l₂, h₂)))
      else ok ([], l, h)
