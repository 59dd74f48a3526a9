-- ===== src/Xdebug/Llist/Unlinked.antt =====
-- The neighbours of an element that is taken out point to each other.
use saphire.Prelude.{
  ℕ, ◌≡◌, refl, sym, ap, subst, ◌∙◌, false, Option, none, some, [], ◌∷◌, ◌++◌, ◌==◌,
}
use mathlib.Core.List.{append_assoc}
use saphire.Clib.{Run, ok, ◌>>=◌}
use saphire.Xdebug.Llist.{
  Ptr, Element, Heap, Llist, write, set_next, unlink_head, unlink_next, unlink,
}
use saphire.Xdebug.Llist.Chains.{
  Elements, first, last, Chain, Spares, AreApart, write_other, Chain-write, Chain-join, last-append,
  Spares-split, AreApart-Middle, other_way, Chain-set_prev, Chain-set_next,
}

module _ {V : Type 0} where
  -- The list without the element, before that is freed.
  pub record Unlinked (h : Heap V) (l : Llist) (xs : Elements V) (r : Run (Llist × Heap V))
      : Type 0 where
    pub l' : Llist
    pub h' : Heap V
    pub run : r ≡ ok (l', h')
    pub chain : Chain h' none xs none
    pub head : l'.head ≡ first xs none
    pub tail : l'.tail ≡ last none xs
    pub size : l'.size ≡ l.size
    pub dtor : l'.dtor ≡ l.dtor
    pub frame : (a : ℕ) → Spares a xs → h' a ≡ h a

  same_elsewhere :
      (h h' : Heap V) (n a : ℕ) (c : Option (Element V))
      → h' ≡ write h n c
      → (n == a) ≡ false
      → h' a ≡ h a
  same_elsewhere h h' n a c same differ =
      ap (λ g. g a) same ∙ write_other h n a c (other_way a n differ)

  pub unlink_head-Unlinked :
      (h : Heap V) (l : Llist) (e : ℕ) (ys : Elements V)
      → Chain h (some e) ys none
      → AreApart ys
      → l.tail ≡ last (some e) ys
      → Unlinked h l ys (unlink_head (first ys none) l h)
  unfolding unlink_head
  unlink_head-Unlinked h l e [] chain apart tail = record {
    l' = record l { head = none; tail = none };
    h' = h;
    run = refl;
    chain = tt;
    head = refl;
    tail = refl;
    size = refl;
    dtor = refl;
    frame = λ a spares. refl;
  }
  unlink_head-Unlinked h l e ((n, w) ∷ ys) chain (spares, apart) tail =
      let (h', set, chain', (c, same)) = Chain-set_prev h (some e) none n w ys none chain spares in
      record {
        l' = record l { head = some n };
        h' = h';
        run = rw (unlink_head, set) refl;
        chain = chain';
        head = refl;
        tail = tail;
        size = refl;
        dtor = refl;
        frame = λ a out. same_elsewhere h h' n a c same out.0;
      }

  unlink_next-Unlinked :
      (h : Heap V) (l : Llist) (e b : ℕ) (xs ys : Elements V)
      → Chain h none xs (first ys none)
      → Chain h (some e) ys none
      → AreApart (xs ++ ys)
      → last none xs ≡ some b
      → l.head ≡ first (xs ++ ys) none
      → l.tail ≡ last (some e) ys
      → Unlinked h l (xs ++ ys) (unlink_next (some b) (first ys none) l h)
  unfolding unlink_next
  unlink_next-Unlinked h l e b xs [] left right apart end head tail = record {
    l' = record l { tail = some b };
    h' = h;
    run = refl;
    chain = Chain-join h none xs [] none left tt;
    head = head;
    tail = sym (last-append none xs [] ∙ end);
    size = refl;
    dtor = refl;
    frame = λ a spares. refl;
  }
  unlink_next-Unlinked h l e b xs ((n, w) ∷ ys) left right apart end head tail =
      let m = AreApart-Middle xs n w ys apart in
      let (h', set, chain', (c, same)) =
        Chain-set_prev h (some e) (some b) n w ys none right m.back in
      let left' : Chain h' none xs (some n) =
        subst (λ g. Chain g none xs (some n)) (sym same)
          (Chain-write h none xs (some n) n c m.front left) in
      let right' : Chain h' (last none xs) ((n, w) ∷ ys) none =
        subst (λ s. Chain h' s ((n, w) ∷ ys) none) (sym end) chain' in
      record {
        l' = l;
        h' = h';
        run = rw (unlink_next, set) refl;
        chain = Chain-join h' none xs ((n, w) ∷ ys) none left' right';
        head = head;
        tail = tail ∙ sym (last-append none xs ((n, w) ∷ ys));
        size = refl;
        dtor = refl;
        frame = λ a out. same_elsewhere h h' n a c same (Spares-split a xs ((n, w) ∷ ys) out).1.0;
      }

  unlink-next :
      (b : ℕ) (next : Ptr) (l : Llist) (h h₁ : Heap V) (xs : Elements V)
      → set_next b next h ≡ ok h₁
      → ((a : ℕ) → Spares a xs → h₁ a ≡ h a)
      → Unlinked h₁ l xs (unlink_next (some b) next l h₁)
      → Unlinked h l xs (unlink (some b) next l h)
  unfolding unlink
  unlink-next b next l h h₁ xs set kept u =
      subst (Unlinked h l xs) (sym (ap (λ r. r >>= λ h₁. unlink_next (some b) next l h₁) set))
        (record {
          l' = u.l';
          h' = u.h';
          run = u.run;
          chain = u.chain;
          head = u.head;
          tail = u.tail;
          size = u.size;
          dtor = u.dtor;
          frame = λ a out. u.frame a out ∙ kept a out;
        })

  pub unlink-Unlinked :
      (h : Heap V) (l : Llist) (e : ℕ) (front : Elements V) (b : ℕ) (w : V) (ys : Elements V)
      → let xs = front ++ (b, w) ∷ [] in
        Chain h none xs (some e)
        → Chain h (some e) ys none
        → AreApart (xs ++ ys)
        → l.head ≡ first (xs ++ ys) none
        → l.tail ≡ last (some e) ys
        → Unlinked h l (xs ++ ys) (unlink (last none xs) (first ys none) l h)
  unlink-Unlinked h l e front b w ys left right apart head tail =
      let xs = front ++ (b, w) ∷ [] in
      let end : last none xs ≡ some b = last-append none front ((b, w) ∷ []) in
      let around =
        AreApart-Middle front b w ys (subst AreApart (append_assoc front ((b, w) ∷ []) ys) apart) in
      let (h₁, set, left', (c, same)) =
        Chain-set_next h none front b w (some e) (first ys none) left around.front in
      let right' : Chain h₁ (some e) ys none =
        subst (λ g. Chain g (some e) ys none) (sym same)
          (Chain-write h (some e) ys none b c around.back right) in
      subst (λ p. Unlinked h l (xs ++ ys) (unlink p (first ys none) l h)) (sym end)
        (unlink-next b (first ys none) l h h₁ (xs ++ ys) set
          (λ a out.
            same_elsewhere h h₁ b a c same
              (Spares-split a front ((b, w) ∷ [])
                (Spares-split a (front ++ (b, w) ∷ []) ys out).0).1.0)
          (unlink_next-Unlinked h₁ l e b xs ys left' right' apart end head tail))
