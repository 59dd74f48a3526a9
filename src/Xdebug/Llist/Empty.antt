-- ===== src/Xdebug/Llist/Empty.antt =====
-- xdebug_llist_empty ends, with every element destroyed once.
use saphire.Prelude.{
  ℕ, zero, suc, ◌+◌, ◌<◌, ◌≡◌, refl, sym, ap, subst, ◌∙◌, inl, inr, Bool, true, false, none, some,
  List, [], ◌∷◌, ◌++◌, arith, if◌then◌else◌, ltb, length, length-append,
}
use mathlib.Core.List.{append-nil}
use saphire.Clib.{ok}
use saphire.Xdebug.Llist.{Heap, Llist, is_null, remove, empty}
use saphire.Xdebug.Llist.Chains.{Elements, IsList, last-append, snoc-cases}
use saphire.Xdebug.Llist.Remove.{remove-IsList}

module _ {V : Type 0} where
  -- The values, the last one first.
  abbrev pub backwards : Elements V → List V
  backwards [] = []
  backwards ((a, v) ∷ xs) = backwards xs ++ v ∷ []

  backwards-snoc :
      (xs : Elements V) (b : ℕ) (w : V) → backwards (xs ++ (b, w) ∷ []) ≡ w ∷ backwards xs
  backwards-snoc [] b w = refl
  backwards-snoc ((a, v) ∷ xs) b w = ap (λ t. t ++ v ∷ []) (backwards-snoc xs b w)

  -- One round of the loop.
  empty-round :
      (fuel : ℕ) (l l₁ l₂ : Llist) (h h₁ h₂ : Heap V) (vs ws : List V)
      → 0 < l.size
      → is_null l.tail ≡ false
      → remove l l.tail h ≡ ok (vs, l₁, h₁)
      → empty fuel l₁ h₁ ≡ ok (ws, l₂, h₂)
      → empty (suc fuel) l h ≡ ok (vs ++ ws, l₂, h₂)
  unfolding empty
  empty-round fuel l l₁ l₂ h h₁ h₂ vs ws size tail one rest =
      let some_left : ltb 0 l.size ≡ true = ground (arith, size) in
      rw (empty, some_left, tail, one, rest) refl

  empty-done :
      (fuel : ℕ) (l : Llist) (h : Heap V) → l.size ≡ 0 → empty (suc fuel) l h ≡ ok ([], l, h)
  unfolding empty
  empty-done fuel l h size =
      let none_left : ltb 0 l.size ≡ false = ground (arith, size) in rw (empty, none_left) refl

  destroyed :
      (dtor : Bool) (v : V) (vs : List V)
      → (if dtor then v ∷ [] else []) ++ (if dtor then vs else []) ≡ (if dtor then v ∷ vs else [])
  destroyed true v vs = refl
  destroyed false v vs = refl

  record Emptied (fuel : ℕ) (l : Llist) (h : Heap V) (xs : Elements V) : Type 0 where
    l' : Llist
    h' : Heap V
    run : empty fuel l h ≡ ok (if l.dtor then backwards xs else [], l', h')
    list : IsList h' l' []

  nothing_destroyed : (dtor : Bool) → (if dtor then backwards [] else []) ≡ []
  nothing_destroyed true = refl
  nothing_destroyed false = refl

  empty-Emptied :
      (n : ℕ) (l : Llist) (h : Heap V) (xs : Elements V)
      → length xs ≡ n
      → IsList h l xs
      → Emptied (suc n) l h xs
  empty-Emptied zero l h [] count is = record {
    l' = l;
    h' = h;
    run = empty-done zero l h is.size ∙ ap (λ vs. ok (vs, l, h)) (sym (nothing_destroyed l.dtor));
    list = is;
  }
  empty-Emptied zero l h (x ∷ xs) count is = absurd (omega (arith, count))
  empty-Emptied (suc n) l h xs count is = elim (snoc-cases xs) [
    | inl nothing ↦
        let none_left : length xs ≡ 0 = ap length nothing in
        absurd (omega (arith, count, none_left))
    | inr (front, b, w, same) ↦
        let is' = subst (IsList h l) same is in
        let (l₁, h₁, one, list, _, dtor, _) = remove-IsList h l b w [] front is' in
        let size : length xs ≡ length front + 1 =
          ap length same ∙ length-append front ((b, w) ∷ []) in
        let list' = subst (IsList h₁ l₁) (append-nil front) list in
        let r = empty-Emptied n l₁ h₁ front (omega (arith, size, count)) list' in
        let tail : l.tail ≡ some b = is'.tail ∙ last-append none front ((b, w) ∷ []) in
        let one' : remove l l.tail h ≡ ok (if l.dtor then w ∷ [] else [], l₁, h₁) =
          ap (λ e. remove l e h) tail ∙ one in
        let all =
          empty-round (suc n) l l₁ r.l' h h₁ r.h' _ _ (omega (arith, is.size, count))
            (ap is_null tail) one' r.run in
        let values =
          ap (λ d. (if l.dtor then w ∷ [] else []) ++ (if d then backwards front else [])) dtor
          ∙ destroyed l.dtor w (backwards front)
          ∙ ap (λ vs. if l.dtor then vs else [])
              (sym (ap backwards same ∙ backwards-snoc front b w)) in
        record {
          l' = r.l';
          h' = r.h';
          run = all ∙ ap (λ vs. ok (vs, r.l', r.h')) values;
          list = r.list;
        }
  ]

  -- For a list whose elements are linked in both directions and counted, the loop of xdebug_llist_empty
  -- ends, without a fault, in one round more than there are elements; the list is then empty, and the
  -- destructor, if there is one, was called with the value of each element once, from the last one to the
  -- first.
  pub empty-IsList :
      (l : Llist) (h : Heap V) (xs : Elements V)
      → IsList h l xs
      → (l' : Llist) × (h' : Heap V) × (empty (suc (length xs)) l h
          ≡ ok (if l.dtor then backwards xs else [], l', h'))
        × IsList h' l' []
  empty-IsList l h xs is =
      let r = empty-Emptied (length xs) l h xs refl is in (r.l', r.h', r.run, r.list)
