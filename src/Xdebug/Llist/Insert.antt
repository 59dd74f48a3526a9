-- ===== src/Xdebug/Llist/Insert.antt =====
-- xdebug_llist_insert_next puts one element into the list that it stands for.
use saphire.Prelude.{
  ℕ, ◌+◌, ◌≡◌, refl, sym, ap, subst, ◌∙◌, inl, inr, true, false, none, some, [], ◌∷◌, ◌++◌, arith,
  ◌==◌, ==_iff, length-append,
}
use mathlib.Core.List.{append_assoc}
use saphire.Clib.{Run, ok}
use saphire.Xdebug.Llist.{
  Ptr, Heap, Llist, write, insert_first, insert_behind, insert_next, or_else,
}
use saphire.Xdebug.Llist.Chains.{
  Elements, first, last, Spares, IsList, write_same, write_other, Chain-write, Chain-split,
  last-append, Spares-split, other_way, snoc-cases, deref-some,
}
use saphire.Xdebug.Llist.Linked.{
  linked, set_next-linked, linked-other, linked-IsList, link_next-Linked,
}

module _ {V : Type 0} where
  -- What is returned, with the new element among the others.
  pub record Inserted (h : Heap V) (l : Llist) (xs : Elements V) (ne : ℕ) (p : V) (ys : Elements V)
      (r : Run (Llist × Heap V)) : Type 0 where
    l' : Llist
    h' : Heap V
    run : r ≡ ok (l', h')
    list : IsList h' l' (xs ++ (ne, p) ∷ ys)
    dtor : l'.dtor ≡ l.dtor
    frame : (a : ℕ) → (ne == a) ≡ false → Spares a (xs ++ ys) → h' a ≡ h a

  insert_behind-Inserted :
      (h : Heap V) (l : Llist) (xs : Elements V) (e : ℕ) (v : V) (ne : ℕ) (p : V) (ys : Elements V)
      → IsList h l (xs ++ (e, v) ∷ ys)
      → Spares ne (xs ++ (e, v) ∷ ys)
      → Inserted h l (xs ++ (e, v) ∷ []) ne p ys (insert_behind ne p e l h)
  unfolding insert_behind
  insert_behind-Inserted h l xs e v ne p ys is fresh =
      let (left, (here, right)) = Chain-split h none xs ((e, v) ∷ ys) none is.chain in
      let (xs_ne, (e_ne, ys_ne)) = Spares-split ne xs ((e, v) ∷ ys) fresh in
      let c = some (record { ptr = p; prev = some e; next = first ys none }) in
      let h₀ = write h ne c in
      let u = link_next-Linked h₀ l xs e v ne p ys (record {
        left = Chain-write h none xs (some e) ne c xs_ne left;
        here = write_other h ne e c e_ne ∙ here;
        new = write_same h ne c;
        right = Chain-write h (some e) ys none ne c ys_ne right;
        apart = is.apart;
        fresh = fresh;
        head = is.head;
        tail = is.tail ∙ last-append none xs ((e, v) ∷ ys);
        size = is.size;
      }) in
      let step = linked-IsList u.h' u.l' xs e v ne p ys u.behind in
      let set = set_next-linked u.h' u.l' xs e v ne p ys u.behind in
      record {
        l' = record u.l' { size = u.l'.size + 1 };
        h' = linked u.h' u.l' xs e v ne p ys u.behind;
        run = rw (insert_behind, deref-some h e _ here, u.run, set) refl;
        list = subst (IsList _ _) (sym (append_assoc xs ((e, v) ∷ []) ((ne, p) ∷ ys))) step;
        dtor = u.dtor;
        frame = λ a new out.
            let (front, back) = Spares-split a (xs ++ (e, v) ∷ []) ys out in
            let (_, (e_a, _)) = Spares-split a xs ((e, v) ∷ []) front in
            linked-other u.h' u.l' xs e v ne p ys u.behind a e_a
            ∙ u.frame a back
            ∙ write_other h ne a c (other_way a ne new);
      }

  insert_first-Inserted :
      (h : Heap V) (l : Llist) (ne : ℕ) (p : V)
      → IsList h l []
      → Inserted h l [] ne p [] (ok (insert_first ne p l h))
  unfolding insert_first
  insert_first-Inserted h l ne p is =
      let c = some (record { ptr = p; prev = none; next = none }) in
      record {
        l' = record l { head = some ne; tail = some ne; size = l.size + 1 };
        h' = write h ne c;
        run = refl;
        list = record {
          chain = (write_same h ne c, tt);
          apart = (tt, tt);
          head = refl;
          tail = refl;
          size = omega (arith, is.size);
        };
        dtor = refl;
        frame = λ a new out. write_other h ne a c (other_way a ne new);
      }

  -- The two calls of xdebug_llist_insert_next: behind an element, and behind the last one.
  insert_next-at :
      (h : Heap V) (l : Llist) (xs : Elements V) (e : ℕ) (v : V) (ne : ℕ) (p : V) (ys : Elements V)
      (at : Ptr)
      → IsList h l (xs ++ (e, v) ∷ ys)
      → Spares ne (xs ++ (e, v) ∷ ys)
      → or_else at l.tail ≡ some e
      → Inserted h l (xs ++ (e, v) ∷ []) ne p ys (insert_next ne l at p h)
  unfolding insert_next
  insert_next-at h l xs e v ne p ys at is fresh found =
      let some_left : (l.size == 0) ≡ false =
        ground (arith, is.size, length-append xs ((e, v) ∷ ys)) in
      subst (Inserted h l (xs ++ (e, v) ∷ []) ne p ys)
        (sym (rw (insert_next, some_left, found) refl))
        (insert_behind-Inserted h l xs e v ne p ys is fresh)

  insert_next-empty :
      (h : Heap V) (l : Llist) (ne : ℕ) (p : V) (at : Ptr)
      → IsList h l []
      → Inserted h l [] ne p [] (insert_next ne l at p h)
  unfolding insert_next
  insert_next-empty h l ne p at is =
      let nothing : (l.size == 0) ≡ true = (==_iff l.size 0).1 is.size in
      subst (Inserted h l [] ne p []) (sym (rw (insert_next, nothing) refl))
        (insert_first-Inserted h l ne p is)

  -- Without an element it is put behind the last one.
  insert_next-end :
      (h : Heap V) (l : Llist) (zs : Elements V) (ne : ℕ) (p : V)
      → IsList h l zs
      → Spares ne zs
      → Inserted h l zs ne p [] (insert_next ne l none p h)
  insert_next-end h l zs ne p is fresh = elim (snoc-cases zs) [
    | inl nothing ↦
        subst (λ t. Inserted h l t ne p [] (insert_next ne l none p h)) (sym nothing)
          (insert_next-empty h l ne p none (subst (IsList h l) nothing is))
    | inr (front, b, w, same) ↦
        let found : or_else none l.tail ≡ some b =
          is.tail ∙ ap (last none) same ∙ last-append none front ((b, w) ∷ []) in
        subst (λ t. Inserted h l t ne p [] (insert_next ne l none p h)) (sym same)
          (insert_next-at h l front b w ne p [] none (subst (IsList h l) same is)
            (subst (Spares ne) same fresh) found)
  ]

  -- For a list with an element whose elements are linked in both directions and counted, and memory that no
  -- element of it uses: xdebug_llist_insert_next behind any element does not fault and leaves the list with
  -- the new element behind that one, and without an element with the new one at the end. For a list
  -- without elements it does not fault and leaves the list with the new element alone, whatever element is
  -- given. The list then is linked in both directions and counted, and what is at other addresses than
  -- its elements' stays as it is.
  pub insert_next-IsList :
      (h : Heap V) (l l₀ : Llist) (xs : Elements V) (e : ℕ) (v : V) (ys : Elements V) (ne : ℕ)
      (p : V) (at : Ptr)
      → IsList h l (xs ++ (e, v) ∷ ys)
      → Spares ne (xs ++ (e, v) ∷ ys)
      → IsList h l₀ []
      → Inserted h l (xs ++ (e, v) ∷ []) ne p ys (insert_next ne l (some e) p h)
        × Inserted h l (xs ++ (e, v) ∷ ys) ne p [] (insert_next ne l none p h)
        × Inserted h l₀ [] ne p [] (insert_next ne l₀ at p h)
  insert_next-IsList h l l₀ xs e v ys ne p at is fresh is₀ = (
    insert_next-at h l xs e v ne p ys (some e) is fresh refl,
    insert_next-end h l (xs ++ (e, v) ∷ ys) ne p is fresh,
    insert_next-empty h l₀ ne p at is₀,
  )
