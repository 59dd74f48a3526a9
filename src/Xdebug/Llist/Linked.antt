-- ===== src/Xdebug/Llist/Linked.antt =====
-- A new element behind another one, before and after its neighbours point to it.
use saphire.Prelude.{
  ℕ, ◌+◌, ◌≡◌, refl, sym, ap, subst, ◌∙◌, false, none, some, [], ◌∷◌, ◌++◌, arith, ◌==◌, length,
  length-append,
}
use mathlib.Core.List.{append_assoc}
use saphire.Clib.{Run, ok}
use saphire.Xdebug.Llist.{Ptr, Heap, Llist, write, set_next, link_next}
use saphire.Xdebug.Llist.Chains.{
  Elements, first, last, Chain, Spares, AreApart, IsList, write_same, write_other, Chain-write,
  Chain-join, last-append, Spares-split, AreApart-Middle, Middle-AreApart, other_way, set_next-some,
  Chain-set_prev,
}

module _ {V : Type 0} where
  AreApart-insert :
      (xs : Elements V) (a : ℕ) (v : V) (ys : Elements V)
      → AreApart (xs ++ ys)
      → Spares a (xs ++ ys)
      → AreApart (xs ++ (a, v) ∷ ys)
  AreApart-insert xs a v ys apart spares =
      let (front, back) = Spares-split a xs ys spares in
      Middle-AreApart xs a v ys (record { front = front; back = back; apart = apart })

  same_first :
      (xs : Elements V) (a : ℕ) (v : V) (ys zs : Elements V)
      → first (xs ++ (a, v) ∷ ys) none ≡ first (xs ++ (a, v) ∷ zs) none
  same_first [] a v ys zs = refl
  same_first ((b, w) ∷ xs) a v ys zs = refl

  -- The list and the heap when only the element in front has to be linked.
  pub record Behind (h : Heap V) (l : Llist) (xs : Elements V) (e : ℕ) (v : V) (ne : ℕ) (p : V)
      (ys : Elements V) : Type 0 where
    pub next : Ptr
    pub left : Chain h none xs (some e)
    pub here : h e ≡ some (record { ptr = v; prev = last none xs; next = next })
    pub new : h ne ≡ some (record { ptr = p; prev = some e; next = first ys none })
    pub right : Chain h (some ne) ys none
    pub apart : AreApart (xs ++ (e, v) ∷ ys)
    pub fresh : Spares ne (xs ++ (e, v) ∷ ys)
    pub head : l.head ≡ first (xs ++ (e, v) ∷ ys) none
    pub tail : l.tail ≡ last (some ne) ys
    pub size : l.size ≡ length (xs ++ (e, v) ∷ ys)

  module _ (h : Heap V) (l : Llist) (xs : Elements V) (e : ℕ) (v : V) (ne : ℕ) (p : V)
      (ys : Elements V) (b : Behind h l xs e v ne p ys) where
    pub linked : Heap V
    linked = write h e (some (record { ptr = v; prev = last none xs; next = some ne }))

    count : l.size + 1 ≡ length (xs ++ (e, v) ∷ (ne, p) ∷ ys)
    count =
        omega
          (arith, b.size, length-append xs ((e, v) ∷ ys), length-append xs ((e, v) ∷ (ne, p) ∷ ys))

    pub set_next-linked : set_next e (some ne) h ≡ ok linked
    unfolding linked
    set_next-linked = set_next-some h e v (last none xs) b.next (some ne) b.here

    pub linked-other : (a : ℕ) → (e == a) ≡ false → linked a ≡ h a
    unfolding linked
    linked-other a differ = write_other h e a _ (other_way a e differ)

    pub linked-IsList : IsList linked (record l { size = l.size + 1 }) (xs ++ (e, v) ∷ (ne, p) ∷ ys)
    unfolding linked
    linked-IsList =
        let c = some (record { ptr = v; prev = last none xs; next = some ne }) in
        let m = AreApart-Middle xs e v ys b.apart in
        let (_, (differ, _)) = Spares-split ne xs ((e, v) ∷ ys) b.fresh in
        let assoc = append_assoc xs ((e, v) ∷ []) in
        let new' = write_other h e ne c (other_way ne e differ) ∙ b.new in
        record {
          chain =
              Chain-join linked none xs ((e, v) ∷ (ne, p) ∷ ys) none
                (Chain-write h none xs (some e) e c m.front b.left)
                (write_same h e c, (new', Chain-write h (some ne) ys none e c m.back b.right));
          apart = subst AreApart (assoc ((ne, p) ∷ ys)) (
              AreApart-insert (xs ++ (e, v) ∷ []) ne p ys (subst AreApart (sym (assoc ys)) b.apart)
                (subst (Spares ne) (sym (assoc ys)) b.fresh));
          head = b.head ∙ same_first xs e v ys ((ne, p) ∷ ys);
          tail = b.tail ∙ sym (last-append none xs ((e, v) ∷ (ne, p) ∷ ys));
          size = count;
        }

  pub record Linked (h : Heap V) (l : Llist) (xs : Elements V) (e : ℕ) (v : V) (ne : ℕ) (p : V)
      (ys : Elements V) (r : Run (Llist × Heap V)) : Type 0 where
    pub l' : Llist
    pub h' : Heap V
    pub run : r ≡ ok (l', h')
    pub behind : Behind h' l' xs e v ne p ys
    pub dtor : l'.dtor ≡ l.dtor
    pub frame : (a : ℕ) → Spares a ys → h' a ≡ h a

  -- What the new element is, before the element behind it is linked.
  pub record Written (h : Heap V) (l : Llist) (xs : Elements V) (e : ℕ) (v : V) (ne : ℕ) (p : V)
      (ys : Elements V) : Type 0 where
    pub left : Chain h none xs (some e)
    pub here : h e ≡ some (record { ptr = v; prev = last none xs; next = first ys none })
    pub new : h ne ≡ some (record { ptr = p; prev = some e; next = first ys none })
    pub right : Chain h (some e) ys none
    pub apart : AreApart (xs ++ (e, v) ∷ ys)
    pub fresh : Spares ne (xs ++ (e, v) ∷ ys)
    pub head : l.head ≡ first (xs ++ (e, v) ∷ ys) none
    pub tail : l.tail ≡ last (some e) ys
    pub size : l.size ≡ length (xs ++ (e, v) ∷ ys)

  pub link_next-Linked :
      (h : Heap V) (l : Llist) (xs : Elements V) (e : ℕ) (v : V) (ne : ℕ) (p : V) (ys : Elements V)
      → Written h l xs e v ne p ys
      → Linked h l xs e v ne p ys (link_next ne (first ys none) l h)
  unfolding link_next
  link_next-Linked h l xs e v ne p [] b = record {
    l' = record l { tail = some ne };
    h' = h;
    run = refl;
    behind = record {
      next = none;
      left = b.left;
      here = b.here;
      new = b.new;
      right = tt;
      apart = b.apart;
      fresh = b.fresh;
      head = b.head;
      tail = refl;
      size = b.size;
    };
    dtor = refl;
    frame = λ a out. refl;
  }
  link_next-Linked h l xs e v ne p ((n, w) ∷ ys) b =
      let (_, (e_n, _)) = Spares-split ne xs ((e, v) ∷ (n, w) ∷ ys) b.fresh in
      let m = AreApart-Middle xs e v ((n, w) ∷ ys) b.apart in
      let k = AreApart-Middle xs n w ys m.apart in
      let (_, (_, (n_ne, _))) = Spares-split ne xs ((e, v) ∷ (n, w) ∷ ys) b.fresh in
      let (h', set, chain', (c, same)) =
        Chain-set_prev h (some e) (some ne) n w ys none b.right k.back in
      let kept : (a : ℕ) → (n == a) ≡ false → h' a ≡ h a =
        (λ a differ. ap (λ g. g a) same ∙ write_other h n a c (other_way a n differ)) in
      record {
        l' = l;
        h' = h';
        run = rw (link_next, set) refl;
        behind = record {
          next = some n;
          left =
              subst (λ g. Chain g none xs (some e)) (sym same)
                (Chain-write h none xs (some e) n c k.front b.left);
          here = kept e m.back.0 ∙ b.here;
          new = kept ne n_ne ∙ b.new;
          right = chain';
          apart = b.apart;
          fresh = b.fresh;
          head = b.head;
          tail = b.tail;
          size = b.size;
        };
        dtor = refl;
        frame = λ a out. kept a out.0;
      }
