-- ===== src/Xdebug/Llist/Chains.antt =====
-- The elements of a list on the heap, in both directions.
use saphire.Prelude.{
  ℕ, ◌≡◌, refl, ap, ◌∙◌, ◌⊎◌, inl, inr, true, false, Option, none, some, List, [], ◌∷◌, ◌++◌, arith,
  ◌==◌, ==_iff, length,
}
use saphire.Clib.{ok}
use saphire.Xdebug.Llist.{Ptr, Element, Heap, Llist, write, deref, set_next, set_prev}

-- The elements that a list stands for: their addresses and values.
abbrev pub Elements : Type 0 → Type 0
Elements V = List (ℕ × V)

pub other_way : (a b : ℕ) → (b == a) ≡ false → (a == b) ≡ false
other_way a b h = ground (arith, h)

module _ {V : Type 0} where
  -- The address of the first, or what stands behind them.
  abbrev pub first : Elements V → Ptr → Ptr
  first [] stop = stop
  first ((a, v) ∷ xs) stop = some a

  -- The address of the last, or what stands in front of them.
  abbrev pub last : Ptr → Elements V → Ptr
  last start [] = start
  last start ((a, v) ∷ xs) = last (some a) xs

  -- Each element points to its neighbours.
  abbrev pub Chain : Heap V → Ptr → Elements V → Ptr → Type 0
  Chain h start [] stop = Unit
  Chain h start ((a, v) ∷ xs) stop =
      (h a ≡ some (record { ptr = v; prev = start; next = first xs stop }))
      × Chain h (some a) xs stop

  -- No element has the address.
  abbrev pub Spares : ℕ → Elements V → Type 0
  Spares a [] = Unit
  Spares a ((b, v) ∷ xs) = ((b == a) ≡ false) × Spares a xs

  abbrev pub AreApart : Elements V → Type 0
  AreApart [] = Unit
  AreApart ((a, v) ∷ xs) = Spares a xs × AreApart xs

  -- The elements of a list: linked in both directions between its ends, and counted.
  pub record IsList (h : Heap V) (l : Llist) (xs : Elements V) : Type 0 where
    pub chain : Chain h none xs none
    pub apart : AreApart xs
    pub head : l.head ≡ first xs none
    pub tail : l.tail ≡ last none xs
    pub size : l.size ≡ length xs

  pub write_same : (h : Heap V) (a : ℕ) (c : Option (Element V)) → write h a c a ≡ c
  unfolding write
  write_same h a c = let same : (a == a) ≡ true = (==_iff a a).1 refl in rw same refl

  pub write_other :
      (h : Heap V) (a b : ℕ) (c : Option (Element V)) → (b == a) ≡ false → write h a c b ≡ h b
  unfolding write
  write_other h a b c other = rw other refl

  -- A write to another address.
  pub Chain-write :
      (h : Heap V) (start : Ptr) (xs : Elements V) (stop : Ptr) (a : ℕ) (c : Option (Element V))
      → Spares a xs
      → Chain h start xs stop
      → Chain (write h a c) start xs stop
  Chain-write h start [] stop a c spares chain = tt
  Chain-write h start ((b, v) ∷ xs) stop a c (other, spares) (here, chain) =
      (write_other h a b c other ∙ here, Chain-write h (some b) xs stop a c spares chain)

  pub Chain-split :
      (h : Heap V) (start : Ptr) (xs ys : Elements V) (stop : Ptr)
      → Chain h start (xs ++ ys) stop
      → Chain h start xs (first ys stop) × Chain h (last start xs) ys stop
  Chain-split h start [] ys stop chain = (tt, chain)
  Chain-split h start ((a, v) ∷ []) ys stop (here, chain) = ((here, tt), chain)
  Chain-split h start ((a, v) ∷ (b, w) ∷ xs) ys stop (here, chain) =
      let (left, right) = Chain-split h (some a) ((b, w) ∷ xs) ys stop chain in
      ((here, left), right)

  pub Chain-join :
      (h : Heap V) (start : Ptr) (xs ys : Elements V) (stop : Ptr)
      → Chain h start xs (first ys stop)
      → Chain h (last start xs) ys stop
      → Chain h start (xs ++ ys) stop
  Chain-join h start [] ys stop left right = right
  Chain-join h start ((a, v) ∷ []) ys stop (here, left) right = (here, right)
  Chain-join h start ((a, v) ∷ (b, w) ∷ xs) ys stop (here, left) right =
      (here, Chain-join h (some a) ((b, w) ∷ xs) ys stop left right)

  pub last-append :
      (start : Ptr) (xs ys : Elements V) → last start (xs ++ ys) ≡ last (last start xs) ys
  last-append start [] ys = refl
  last-append start ((a, v) ∷ xs) ys = last-append (some a) xs ys

  pub Spares-split : (a : ℕ) (xs ys : Elements V) → Spares a (xs ++ ys) → Spares a xs × Spares a ys
  Spares-split a [] ys h = (tt, h)
  Spares-split a ((b, v) ∷ xs) ys (other, h) =
      let (left, right) = Spares-split a xs ys h in ((other, left), right)

  pub Spares-join : (a : ℕ) (xs ys : Elements V) → Spares a xs → Spares a ys → Spares a (xs ++ ys)
  Spares-join a [] ys h k = k
  Spares-join a ((b, v) ∷ xs) ys (other, h) k = (other, Spares-join a xs ys h k)

  -- Elements of which one stands between two parts.
  pub record Middle (xs : Elements V) (a : ℕ) (ys : Elements V) : Type 0 where
    pub front : Spares a xs
    pub back : Spares a ys
    pub apart : AreApart (xs ++ ys)

  pub AreApart-Middle :
      (xs : Elements V) (a : ℕ) (v : V) (ys : Elements V)
      → AreApart (xs ++ (a, v) ∷ ys)
      → Middle xs a ys
  AreApart-Middle [] a v ys (spares, apart) = record { front = tt; back = spares; apart = apart }
  AreApart-Middle ((b, w) ∷ xs) a v ys (spares, apart) =
      let (left, (differ, right)) = Spares-split b xs ((a, v) ∷ ys) spares in
      let rest = AreApart-Middle xs a v ys apart in
      record {
        front = (other_way b a differ, rest.front);
        back = rest.back;
        apart = (Spares-join b xs ys left right, rest.apart);
      }

  pub Middle-AreApart :
      (xs : Elements V) (a : ℕ) (v : V) (ys : Elements V)
      → Middle xs a ys
      → AreApart (xs ++ (a, v) ∷ ys)
  Middle-AreApart [] a v ys m = (m.back, m.apart)
  Middle-AreApart ((b, w) ∷ xs) a v ys m =
      let (differ, front) = m.front in
      let (spares, apart) = m.apart in
      let (left, right) = Spares-split b xs ys spares in
      (
        Spares-join b xs ((a, v) ∷ ys) left (other_way a b differ, right),
        Middle-AreApart xs a v ys (record { front = front; back = m.back; apart = apart }),
      )

  -- Elements seen from their end.
  pub snoc-cases :
      (xs : Elements V)
      → (xs ≡ []) ⊎ ((front : Elements V) × (b : ℕ) × (w : V) × (xs ≡ front ++ (b, w) ∷ []))
  snoc-cases [] = inl refl
  snoc-cases ((a, v) ∷ xs) = elim (snoc-cases xs) [
    | inl nothing ↦ inr ([], a, v, ap (λ t. (a, v) ∷ t) nothing)
    | inr (front, b, w, same) ↦ inr ((a, v) ∷ front, b, w, ap (λ t. (a, v) ∷ t) same)
  ]

  pub deref-some : (h : Heap V) (a : ℕ) (c : Element V) → h a ≡ some c → deref h a ≡ ok c
  unfolding deref
  deref-some h a c e = rw (deref, e) refl

  pub set_next-some :
      (h : Heap V) (a : ℕ) (v : V) (p q q' : Ptr)
      → h a ≡ some (record { ptr = v; prev = p; next = q })
      → set_next a q' h ≡ ok (write h a (some (record { ptr = v; prev = p; next = q' })))
  unfolding set_next
  set_next-some h a v p q q' e = rw (set_next, deref-some h a _ e) refl

  pub set_prev-some :
      (h : Heap V) (a : ℕ) (v : V) (p q p' : Ptr)
      → h a ≡ some (record { ptr = v; prev = p; next = q })
      → set_prev a p' h ≡ ok (write h a (some (record { ptr = v; prev = p'; next = q })))
  unfolding set_prev
  set_prev-some h a v p q p' e = rw (set_prev, deref-some h a _ e) refl

  -- The first element with another one in front of it.
  pub Chain-set_prev :
      (h : Heap V) (start start' : Ptr) (n : ℕ) (w : V) (ys : Elements V) (stop : Ptr)
      → Chain h start ((n, w) ∷ ys) stop
      → Spares n ys
      → (h' : Heap V) × (set_prev n start' h ≡ ok h')
        × Chain h' start' ((n, w) ∷ ys) stop
        × ((c : Option (Element V)) × (h' ≡ write h n c))
  Chain-set_prev h start start' n w ys stop (here, chain) spares =
      let c = some (record { ptr = w; prev = start'; next = first ys stop }) in
      (
        write h n c,
        set_prev-some h n w start (first ys stop) start' here,
        (write_same h n c, Chain-write h (some n) ys stop n c spares chain),
        (c, refl),
      )

  -- The last element with another one behind it.
  pub Chain-set_next :
      (h : Heap V) (start : Ptr) (front : Elements V) (b : ℕ) (w : V) (stop stop' : Ptr)
      → Chain h start (front ++ (b, w) ∷ []) stop
      → Spares b front
      → (h' : Heap V) × (set_next b stop' h ≡ ok h')
        × Chain h' start (front ++ (b, w) ∷ []) stop'
        × ((c : Option (Element V)) × (h' ≡ write h b c))
  Chain-set_next h start front b w stop stop' chain spares =
      let (left, (here, _)) = Chain-split h start front ((b, w) ∷ []) stop chain in
      let c = some (record { ptr = w; prev = last start front; next = stop' }) in
      (
        write h b c,
        set_next-some h b w (last start front) stop stop' here,
        Chain-join (write h b c) start front ((b, w) ∷ []) stop'
            (Chain-write h start front (some b) b c spares left) (write_same h b c, tt),
        (c, refl),
      )
