-- ===== src/Xdebug/Llist/Remove.antt =====
-- xdebug_llist_remove takes one element out of the list that it stands for.
use saphire.Prelude.{
  ℕ, suc, ◌-◌, ◌≡◌, refl, sym, ap, subst, ◌∙◌, inl, inr, true, false, none, some, [], ◌∷◌, ◌++◌,
  arith, ◌==◌, ==_iff, if◌then◌else◌, length, length-append,
}
use saphire.Clib.{Run, ok}
use saphire.Xdebug.Llist.{Ptr, Heap, Llist, write, is_head, unlink_head, unlink, remove}
use saphire.Xdebug.Llist.Chains.{
  Elements, first, last, Spares, AreApart, IsList, write_same, write_other, Chain-write,
  Chain-split, last-append, Spares-split, Spares-join, AreApart-Middle, other_way, snoc-cases,
  deref-some,
}
use saphire.Xdebug.Llist.Unlinked.{Unlinked, unlink_head-Unlinked, unlink-Unlinked}

module _ {V : Type 0} where
  is_head-behind :
      (front : Elements V) (b : ℕ) (w : V) (zs : Elements V) (e : ℕ)
      → Spares e (front ++ (b, w) ∷ [])
      → is_head e (first ((front ++ (b, w) ∷ []) ++ zs) none) ≡ false
  is_head-behind [] b w zs e (differ, _) = other_way e b differ
  is_head-behind ((a, u) ∷ front) b w zs e (differ, _) = other_way e a differ

  -- What remains of xdebug_llist_remove behind the change of the neighbours.
  record Removed (h : Heap V) (l : Llist) (e : ℕ) (v : V) (zs : Elements V) : Type 0 where
    h' : Heap V
    l' : Llist
    run : remove l (some e) h ≡ ok (if l.dtor then v ∷ [] else [], l', h')
    list : IsList h' l' zs
    freed : h' e ≡ none
    dtor : l'.dtor ≡ l.dtor
    frame : (a : ℕ) → (e == a) ≡ false → Spares a zs → h' a ≡ h a

  unlinked_run : Ptr → Ptr → ℕ → Llist → Heap V → Run (Llist × Heap V)
  unlinked_run prev next e l h =
      if is_head e l.head then unlink_head next l h else unlink prev next l h

  remove-Removed :
      (h : Heap V) (l : Llist) (e : ℕ) (v : V) (prev next : Ptr) (zs : Elements V)
      → h e ≡ some (record { ptr = v; prev = prev; next = next })
      → l.size ≡ suc (length zs)
      → AreApart zs
      → Spares e zs
      → Unlinked h l zs (unlinked_run prev next e l h)
      → Removed h l e v zs
  unfolding remove unlinked_run
  remove-Removed h l e v prev next zs here size apart spares u =
      let some_left : (l.size == 0) ≡ false = ground (arith, size) in
      record {
        h' = write u.h' e none;
        l' = record u.l' { size = u.l'.size - 1 };
        run = rw (remove, some_left, deref-some h e _ here, u.run) refl;
        list = record {
          chain = Chain-write u.h' none zs none e none spares u.chain;
          apart = apart;
          head = u.head;
          tail = u.tail;
          size = omega (arith, u.size, size);
        };
        freed = write_same u.h' e none;
        dtor = u.dtor;
        frame = λ a differ out. write_other u.h' e a none (other_way a e differ) ∙ u.frame a out;
      }

  module _ (h : Heap V) (l : Llist) (e : ℕ) (v : V) (ys : Elements V) where
    size-Middle :
        (xs : Elements V) → l.size ≡ length (xs ++ (e, v) ∷ ys) → l.size ≡ suc (length (xs ++ ys))
    size-Middle xs size = omega (arith, size, length-append xs ((e, v) ∷ ys), length-append xs ys)

    remove-first : IsList h l ((e, v) ∷ ys) → Removed h l e v ys
    unfolding unlinked_run
    remove-first is =
        let (here, right) = is.chain in
        let (spares, apart) = is.apart in
        let same : (e == e) ≡ true = (==_iff e e).1 refl in
        let at_head : is_head e l.head ≡ true = ap (is_head e) is.head ∙ same in
        let u = unlink_head-Unlinked h l e ys right apart is.tail in
        remove-Removed h l e v none (first ys none) ys here is.size apart spares (
          subst (Unlinked h l ys)
            (sym (
              ap
                (λ b.
                  if b then unlink_head (first ys none) l h else unlink none (first ys none) l h)
                at_head))
            u)

    remove-behind :
        (front : Elements V) (b : ℕ) (w : V)
        → IsList h l ((front ++ (b, w) ∷ []) ++ (e, v) ∷ ys)
        → Removed h l e v ((front ++ (b, w) ∷ []) ++ ys)
    unfolding unlinked_run
    remove-behind front b w is =
        let xs = front ++ (b, w) ∷ [] in
        let (left, (here, right)) = Chain-split h none xs ((e, v) ∷ ys) none is.chain in
        let m = AreApart-Middle xs e v ys is.apart in
        let not_head : is_head e l.head ≡ false =
          ap (is_head e) is.head ∙ is_head-behind front b w ((e, v) ∷ ys) e m.front in
        let head : l.head ≡ first (xs ++ ys) none =
          is.head ∙ same_first front b w ((e, v) ∷ ys) ys in
        let tail : l.tail ≡ last (some e) ys = is.tail ∙ last-append none xs ((e, v) ∷ ys) in
        let u = unlink-Unlinked h l e front b w ys left right m.apart head tail in
        remove-Removed h l e v (last none xs) (first ys none) (xs ++ ys) here
          (size-Middle xs is.size) m.apart (Spares-join e xs ys m.front m.back)
          (subst (Unlinked h l (xs ++ ys))
            (sym (
              ap
                (λ b.
                  if b
                  then unlink_head (first ys none) l h
                  else unlink (last none xs) (first ys none) l h)
                not_head))
            u)
      where
        same_first :
            (front : Elements V) (b : ℕ) (w : V) (zs zs' : Elements V)
            → first ((front ++ (b, w) ∷ []) ++ zs) none ≡ first ((front ++ (b, w) ∷ []) ++ zs') none
        same_first [] b w zs zs' = refl
        same_first ((a, u) ∷ front) b w zs zs' = refl

    remove-any : (xs : Elements V) → IsList h l (xs ++ (e, v) ∷ ys) → Removed h l e v (xs ++ ys)
    remove-any xs is = elim (snoc-cases xs) [
      | inl nothing ↦
          subst (λ zs. Removed h l e v (zs ++ ys)) (sym nothing)
            (remove-first (subst (λ zs. IsList h l (zs ++ (e, v) ∷ ys)) nothing is))
      | inr (front, b, w, same) ↦
          subst (λ zs. Removed h l e v (zs ++ ys)) (sym same)
            (remove-behind front b w (subst (λ zs. IsList h l (zs ++ (e, v) ∷ ys)) same is))
    ]

    -- For a list whose elements are linked in both directions and counted, xdebug_llist_remove of any of its
    -- elements does not fault, calls the destructor, if there is one, with exactly that element's
    -- value, frees the element, and leaves a list of the other elements in their order, linked in
    -- both directions and counted; what is at other addresses stays as it is.
    pub remove-IsList :
        (xs : Elements V)
        → IsList h l (xs ++ (e, v) ∷ ys)
        → (l' : Llist) × (h' : Heap V) × (remove l (some e) h
            ≡ ok (if l.dtor then v ∷ [] else [], l', h'))
          × IsList h' l' (xs ++ ys)
          × (h' e ≡ none)
          × (l'.dtor ≡ l.dtor)
          × ((a : ℕ) → Spares a (xs ++ (e, v) ∷ ys) → h' a ≡ h a)
    remove-IsList xs is =
        let r = remove-any xs is in
        (
          r.l',
          r.h',
          r.run,
          r.list,
          r.freed,
          r.dtor,
          λ a out.
              let (front, (differ, back)) = Spares-split a xs ((e, v) ∷ ys) out in
              r.frame a differ (Spares-join a xs ys front back),
        )
