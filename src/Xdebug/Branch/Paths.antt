-- ===== src/Xdebug/Branch/Paths.antt =====
-- A path's array stands for the list of the elements that were added.
use saphire.Prelude.{
  none, ℕ, zero, suc, ◌≡◌, refl, sym, ap, subst, ◌∙◌, inl, inr, Bool, false, Option, some, List,
  ◌++◌, ◌==◌, length, get_elem?, [], ◌∷◌, map, arith, length-append, Bool-cases, ◌||◌, ◌&&◌,
}
use mathlib.Core.List.{append_assoc, append-nil}
use saphire.Clib.{ok}
use saphire.Xdebug.Branch.{
  XdebugPath, no_elements, element, path_add, copy_loop, path_new, count_less_one,
  find_last_element, pair_at, exists_loop, path_exists,
}
use saphire.Xdebug.Branch.Arrays.{Contains, no_elements-Contains, add_element-Contains}

get_elem?-prefix :
    (es : List ℕ) (rest : List (Option ℕ)) (i n : ℕ)
    → get_elem? es i ≡ some n
    → get_elem? (map some es ++ rest) i ≡ some (some n)
get_elem?-prefix [] rest i n h = cc
get_elem?-prefix (e ∷ es) rest zero n h = ap some h
get_elem?-prefix (e ∷ es) rest (suc i) n h = get_elem?-prefix es rest i n h

get_elem?-middle :
    (front : List ℕ) (n : ℕ) (back : List ℕ) → get_elem? (front ++ n ∷ back) (length front) ≡ some n
get_elem?-middle [] n back = refl
get_elem?-middle (e ∷ front) n back = get_elem?-middle front n back

count_less_one-suc : (path : XdebugPath) (n : ℕ) → path.count ≡ suc n → count_less_one path ≡ n
unfolding count_less_one
count_less_one-suc path n h = ground arith

-- Whether `a` and `b` stand next to each other, in this order.
unfoldable pub adjacent : ℕ → ℕ → List ℕ → Bool
adjacent a b [] = false
adjacent a b (e ∷ []) = false
adjacent a b (e ∷ f ∷ es) = ((e == a) && (f == b)) || adjacent a b (f ∷ es)

module _ (path : XdebugPath) (es : List ℕ) (h : Contains path es) where
  element_at : (i n : ℕ) → get_elem? es i ≡ some n → element path i ≡ ok n
  unfolding element
  element_at i n e = elim h.memory [
    | inl full ↦ rw (full, element, get_elem?-prefix es h.rest i n e) refl
    | inr (_, empty, _) ↦
        let k : get_elem? {A = ℕ} [] i ≡ some n =
          sym (ap (λ (xs : List ℕ). get_elem? xs i) empty) ∙ e in
        cc
  ]

  pub element_behind :
      (front : List ℕ) (n : ℕ) (back : List ℕ)
      → es ≡ front ++ n ∷ back
      → element path (length front) ≡ ok n
  element_behind front n back e = element_at (length front) n (rw e (get_elem?-middle front n back))

  pub shift :
      (front : List ℕ) (n : ℕ) (back : List ℕ)
      → es ≡ front ++ n ∷ back
      → es ≡ (front ++ n ∷ []) ++ back
  shift front n back e = e ∙ sym (append_assoc front (n ∷ []) back)

  copy_loop-Contains :
      (front back : List ℕ) (tmp : XdebugPath)
      → es ≡ front ++ back
      → Contains tmp front
      → (tmp' : XdebugPath) × (copy_loop path (length back) (length front) tmp ≡ ok tmp')
        × Contains tmp' es
  unfolding copy_loop
  copy_loop-Contains front [] tmp e t =
      (tmp, refl, subst (Contains tmp) (sym (e ∙ append-nil front)) t)
  copy_loop-Contains front (n ∷ back) tmp e t =
      let (tmp', run, t', _) = add_element-Contains tmp front n t in
      let (tmp₂, run₂, t₂) =
        copy_loop-Contains (front ++ n ∷ []) back tmp' (shift front n back e) t' in
      let next : length (front ++ n ∷ []) ≡ suc (length front) =
        omega (arith, length-append front (n ∷ [])) in
      (tmp₂, rw (element_behind front n back e, run) (rw next at run₂), t₂)

  pair_behind :
      (a b : ℕ) (front : List ℕ) (e f : ℕ) (back : List ℕ)
      → es ≡ front ++ e ∷ f ∷ back
      → pair_at path a b (length front) ≡ ok ((e == a) && (f == b))
  unfolding pair_at
  pair_behind a b front e f back eq =
      let next : length (front ++ e ∷ []) ≡ suc (length front) =
        omega (arith, length-append front (e ∷ [])) in
      let second : element path (suc (length front)) ≡ ok f =
        rw next at (element_behind (front ++ e ∷ []) f back (shift front e (f ∷ back) eq)) in
      rw (element_behind front e (f ∷ back) eq, pair_at, second) (ground arith)

  exists_loop-adjacent :
      (a b : ℕ) (front : List ℕ) (e : ℕ) (back : List ℕ)
      → es ≡ front ++ e ∷ back
      → exists_loop path a b (length back) (length front) ≡ ok (adjacent a b (e ∷ back))
  unfolding exists_loop adjacent
  exists_loop-adjacent a b front e [] eq = refl
  exists_loop-adjacent a b front e (f ∷ back) eq =
      let next : length (front ++ e ∷ []) ≡ suc (length front) =
        omega (arith, length-append front (e ∷ [])) in
      let rest : exists_loop path a b (length back) (suc (length front))
          ≡ ok (adjacent a b (f ∷ back)) =
        rw next at
          (exists_loop-adjacent a b (front ++ e ∷ []) f back (shift front e (f ∷ back) eq)) in
      rw (pair_behind a b front e f back eq) (elim (Bool-cases ((e == a) && (f == b))) [
        | inl here ↦ rw here refl
        | inr other ↦ rw (other, rest) refl
      ])

  -- The last element of a path that holds `es` is the last one that was added.
  pub find_last_element-append :
      (front : List ℕ) (n : ℕ) → es ≡ front ++ n ∷ [] → find_last_element path ≡ ok n
  unfolding find_last_element
  find_last_element-append front n e =
      let count : path.count ≡ suc (length front) =
        h.count ∙ ap length e ∙ (omega (arith, length-append front (n ∷ []))) in
      rw (find_last_element, count_less_one-suc path (length front) count)
        (element_behind front n [] e)

-- xdebug_path_exists of a path that has an element does not fault, and tells whether the two elements stand
-- next to each other in it, in this order.
pub path_exists-adjacent :
    (path : XdebugPath) (e : ℕ) (es : List ℕ) (elem1 elem2 : ℕ)
    → Contains path (e ∷ es)
    → path_exists path elem1 elem2 ≡ ok (adjacent elem1 elem2 (e ∷ es))
unfolding path_exists
path_exists-adjacent path e es elem1 elem2 h =
    rw (count_less_one-suc path (length es) h.count)
      (exists_loop-adjacent path (e ∷ es) h elem1 elem2 [] e es refl)

pub path_exists-append :
    (path : XdebugPath) (front : List ℕ) (n elem1 elem2 : ℕ)
    → Contains path (front ++ n ∷ [])
    → path_exists path elem1 elem2 ≡ ok (adjacent elem1 elem2 (front ++ n ∷ []))
path_exists-append path [] n elem1 elem2 h = path_exists-adjacent path n [] elem1 elem2 h
path_exists-append path (e ∷ front) n elem1 elem2 h =
    path_exists-adjacent path e (front ++ n ∷ []) elem1 elem2 h

pub copy-Contains :
    (old_path : XdebugPath) (es : List ℕ)
    → Contains old_path es
    → (path : XdebugPath) × (path_new (some old_path) ≡ ok path) × Contains path es
unfolding path_new
copy-Contains old_path es h =
    let (path, run, c) =
      copy_loop-Contains old_path es h [] es no_elements refl no_elements-Contains in
    (path, rw h.count run, c)

path_add-Contains :
    (path : XdebugPath) (es : List ℕ) (nr : ℕ)
    → Contains path es
    → (path' : XdebugPath) × (path_add (some path) nr ≡ ok (some path'))
      × Contains path' (es ++ nr ∷ [])
unfolding path_add
path_add-Contains path es nr h =
    let (path', add, c, _) = add_element-Contains path es nr h in (path', rw add refl, c)

-- xdebug_path_new of a path with the elements `es` makes a path with the same elements, and without a path
-- one without elements; xdebug_path_add then puts an element behind those of the first and makes it the last
-- one, and puts it as the only one into the second.
pub path_new-Contains :
    (old_path : XdebugPath) (es : List ℕ) (nr : ℕ)
    → Contains old_path es
    → (path path' empty single : XdebugPath) × (path_new (some old_path) ≡ ok path)
      × Contains path es
      × (path_add (some path) nr ≡ ok (some path'))
      × Contains path' (es ++ nr ∷ [])
      × (find_last_element path' ≡ ok nr)
      × (path_new none ≡ ok empty)
      × Contains empty []
      × (path_add (some empty) nr ≡ ok (some single))
      × Contains single (nr ∷ [])
unfolding path_new
path_new-Contains old_path es nr h =
    let (path, run, c) =
      copy_loop-Contains old_path es h [] es no_elements refl no_elements-Contains in
    let (path', add, c') = path_add-Contains path es nr c in
    let (single, add₁, c₁) = path_add-Contains no_elements [] nr no_elements-Contains in
    (
      path,
      path',
      no_elements,
      single,
      rw h.count run,
      c,
      add,
      c',
      find_last_element-append path' (es ++ nr ∷ []) c' es nr refl,
      refl,
      no_elements-Contains,
      add₁,
      c₁,
    )
