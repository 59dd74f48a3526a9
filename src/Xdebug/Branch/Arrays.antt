-- ===== src/Xdebug/Branch/Arrays.antt =====
-- The arrays of a path and of the paths stand for the lists of the elements that were added.
use saphire.Prelude.{
  ℕ, suc, ◌+◌, ◌-◌, ◌<◌, ◌≡◌, refl, sym, ap, ◌⊎◌, inl, inr, true, false, Option, none, some, List,
  ◌++◌, ltb, ◌==◌, ==_iff, if◌then◌else◌, length, set, replicate, [], ◌∷◌, map, arith,
  length-append, length-map, Bool-cases,
}
use mathlib.Core.List.{append_assoc}
use saphire.Clib.{ok}
use saphire.Xdebug.Branch.{Array, no_elements, resize, grow, put, add_element}

module _ {A : Type 0} where
  -- The array holds the elements, with memory that nothing has written behind them; no memory at all is
  -- an array without elements.
  pub record Contains (p : Array A) (es : List A) : Type 0 where
    pub rest : List (Option A)
    pub memory :
        (p.elements ≡ some (map some es ++ rest)) ⊎ ((p.elements ≡ none) × (es ≡ []) × (rest ≡ []))
    pub count : p.count ≡ length es
    pub size : p.size ≡ length es + length rest

  pub no_elements-Contains : Contains no_elements []
  no_elements-Contains = record {
    rest = [];
    memory = inr (refl, refl, refl);
    count = refl;
    size = refl;
  }

  empty_of_length : (b : List (Option A)) → length b ≡ 0 → b ≡ []
  empty_of_length [] h = refl
  empty_of_length (c ∷ b) h = absurd (omega arith)

  uncons :
      (b : List (Option A)) → 0 < length b → (c : Option A) × (t : List (Option A)) × (b ≡ c ∷ t)
  uncons [] h = absurd (omega arith)
  uncons (c ∷ b) h = (c, b, refl)

  set_behind :
      (es : List A) (c : Option A) (rest : List (Option A)) (a : A)
      → set (map some es ++ c ∷ rest) (length es) (some a) ≡ map some (es ++ a ∷ []) ++ rest
  set_behind [] c rest a = refl
  set_behind (e ∷ es) c rest a = ap (λ b. some e ∷ b) (set_behind es c rest a)

  resize_memory :
      (p : Array A) (es : List A) (h : Contains p es) (n : ℕ)
      → resize p.elements (p.size + n) ≡ map some es ++ (h.rest ++ replicate n none)
  unfolding resize
  resize_memory p es h n = elim h.memory [
    | inl full ↦
        let long : length (map some es ++ h.rest) ≡ p.size = omega (
          arith,
          length-append (map {A = A} some es) h.rest,
          length-map es (λ (a : A). some a),
          h.size,
        ) in
        let new : p.size + n - length (map some es ++ h.rest) ≡ n = omega (arith, long) in
        rw (full, resize, new) (append_assoc (map some es) h.rest (replicate n none))
    | inr (unset, empty, bare) ↦
        let none_there : p.size + n ≡ n = rw (h.size, empty, bare) (omega arith) in
        rw (unset, resize, none_there, empty, bare) refl
  ]

  put-Contains :
      (p : Array A) (es : List A) (c : Option A) (rest : List (Option A)) (a : A)
      → p.elements ≡ some (map some es ++ c ∷ rest)
      → p.count ≡ length es
      → p.size ≡ length es + suc (length rest)
      → (p' : Array A) × (put p a ≡ ok p') × Contains p' (es ++ a ∷ []) × (p'.size ≡ p.size)
  unfolding put
  put-Contains p es c rest a memory count size =
      let fits : ltb (length es) (length (map some es ++ c ∷ rest)) ≡ true = ground (
        arith,
        length-append (map {A = A} some es) (c ∷ rest),
        length-map es (λ (a : A). some a),
      ) in
      let more : length (es ++ a ∷ []) ≡ length es + 1 = length-append es (a ∷ []) in
      (
        record p {
          elements = some (set (map some es ++ c ∷ rest) (length es) (some a));
          count = length es + 1;
        },
        rw (put, memory, count, fits) refl,
        record {
          rest = rest;
          memory = inl (ap some (set_behind es c rest a));
          count = sym more;
          size = omega (arith, size, more);
        },
        refl,
      )

  add_to_full :
      (p : Array A) (es : List A) (a : A) (h : Contains p es)
      → (p.count == p.size) ≡ true
      → (p' : Array A) × (add_element p a ≡ ok p')
        × Contains p' (es ++ a ∷ [])
        × (p'.size ≡ p.size + 32)
  unfolding add_element grow
  add_to_full p es a h full =
      let same : p.count ≡ p.size = (==_iff p.count p.size).0 full in
      let bare : h.rest ≡ [] = empty_of_length h.rest (omega (arith, h.count, h.size, same)) in
      let more : resize p.elements (p.size + 32) ≡ map some es ++ replicate 32 none =
        rw (resize_memory p es h 32, bare) refl in
      let (p', run, contains, size) =
        put-Contains (grow p) es none (replicate 31 none) a (rw (full, more) refl) (rw full h.count)
          (rw full (omega (arith, h.count, same))) in
      (p', run, contains, rw full at size)

  add_to_spare :
      (p : Array A) (es : List A) (a : A) (h : Contains p es)
      → (p.count == p.size) ≡ false
      → (p' : Array A) × (add_element p a ≡ ok p') × Contains p' (es ++ a ∷ []) × (p'.size ≡ p.size)
  unfolding add_element grow
  add_to_spare p es a h spare =
      let room : 0 < length h.rest = ground (arith, h.count, h.size) in
      let (c, rest, e) = uncons h.rest room in
      let memory : p.elements ≡ some (map some es ++ c ∷ rest) = elim h.memory [
        | inl full ↦ rw (← e) full
        | inr (_, _, bare) ↦ absurd (omega (arith, room, ap length bare))
      ] in
      rw spare (put-Contains p es c rest a memory h.count (rw e at h.size))

  -- Adding an element to an array with the elements `es` does not fault and puts it behind them; the
  -- memory grows by 32 elements exactly if it was full.
  pub add_element-Contains :
      (p : Array A) (es : List A) (a : A)
      → Contains p es
      → (p' : Array A) × (add_element p a ≡ ok p')
        × Contains p' (es ++ a ∷ [])
        × (p'.size ≡ (if length es == p.size then p.size + 32 else p.size))
  add_element-Contains p es a h = elim (Bool-cases (p.count == p.size)) [
    | inl full ↦
        let (p', run, contains, size) = add_to_full p es a h full in
        (p', run, contains, rw (← h.count, full) size)
    | inr spare ↦
        let (p', run, contains, size) = add_to_spare p es a h spare in
        (p', run, contains, rw (← h.count, spare) size)
  ]
