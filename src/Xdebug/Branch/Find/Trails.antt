-- ===== src/Xdebug/Branch/Find/Trails.antt =====
-- Trails: walks along the edges of the branches that take no edge twice. A trail can only grow as long as
-- an edge is left.
use saphire.Prelude.{
  ℕ, zero, suc, ◌+◌, ◌<◌, ◌≤◌, ◌≡◌, refl, Bool, true, false, ◌&&◌, ◌||◌, some, List, [], ◌∷◌, ◌++◌,
  map, arith, ◌==◌, if◌then◌else◌, get_elem?, take, length, Bool-cases, inl, inr,
}
use saphire.Xdebug.Branch.Paths.{adjacent}
use saphire.Xdebug.Branch.Info.{XdebugBranch}

abbrev pub Edges : Type 0
Edges = List (ℕ × ℕ)

unfoldable pub listed : ℕ → ℕ → Edges → Bool
listed a c [] = false
listed a c ((x, y) ∷ l) = ((x == a) && (y == c)) || listed a c l

-- The edges from one branch.
unfoldable pub out_edges : ℕ → List ℕ → Edges
out_edges a outs = map (λ c. (a, c)) outs

-- The edges from the branches, of which the first has the number `a`.
unfoldable pub edges_from : ℕ → List XdebugBranch → Edges
unfolding out_edges
edges_from a [] = []
edges_from a (b ∷ bs) = out_edges a (take b.outs_count b.outs) ++ edges_from (suc a) bs

-- A walk from `entry` along listed edges, each of which is new when it is taken.
pub data Trail (entry : ℕ) (l : Edges) : List ℕ → Type 0 where
  start : Trail entry l (entry ∷ [])
  step :
      (es : List ℕ) (last n : ℕ)
      → Trail entry l (es ++ last ∷ [])
      → listed last n l ≡ true
      → adjacent last n (es ++ last ∷ []) ≡ false
      → Trail entry l ((es ++ last ∷ []) ++ n ∷ [])

-- The edges that a walk has not taken.
unfoldable pub unused : List ℕ → Edges → ℕ
unused es [] = 0
unused es ((a, c) ∷ l) = (if adjacent a c es then 0 else 1) + unused es l

pub unused_le : (es : List ℕ) (l : Edges) → unused es l ≤ length l
unfolding unused
unused_le es [] = omega arith
unused_le es ((a, c) ∷ l) = ground (arith, unused_le es l)

adjacent-append :
    (a c : ℕ) (es : List ℕ) (n : ℕ) → adjacent a c es ≡ true → adjacent a c (es ++ n ∷ []) ≡ true
unfolding adjacent
adjacent-append a c [] n h = cc
adjacent-append a c (e ∷ []) n h = cc
adjacent-append a c (e ∷ f ∷ es) n h = ground (arith, adjacent-append a c (f ∷ es) n)

adjacent-last : (es : List ℕ) (last n : ℕ) → adjacent last n ((es ++ last ∷ []) ++ n ∷ []) ≡ true
unfolding adjacent
adjacent-last [] last n = ground arith
adjacent-last (e ∷ []) last n = ground arith
adjacent-last (e ∷ f ∷ es) last n = ground (arith, adjacent-last (f ∷ es) last n)

unused-append_le : (es : List ℕ) (n : ℕ) (l : Edges) → unused (es ++ n ∷ []) l ≤ unused es l
unfolding unused
unused-append_le es n [] = omega arith
unused-append_le es n ((a, c) ∷ l) =
    ground (arith, unused-append_le es n l, adjacent-append a c es n)

unused-less :
    (es : List ℕ) (a c n : ℕ) (l : Edges)
    → listed a c l ≡ true
    → adjacent a c es ≡ false
    → adjacent a c (es ++ n ∷ []) ≡ true
    → unused (es ++ n ∷ []) l < unused es l
unfolding unused listed
unused-less es a c n [] h old new = cc
unused-less es a c n ((x, y) ∷ l) h old new = elim (Bool-cases ((x == a) && (y == c))) [
  | inl here ↦
      let p : x ≡ a = ground arith in
      let q : y ≡ c = ground arith in rw (p, q, old, new) (ground (arith, unused-append_le es n l))
  | inr other ↦ ground (arith, unused-less es a c n l, adjacent-append x y es n)
]

-- A step along a new edge uses one up.
pub unused-step :
    (es : List ℕ) (last n : ℕ) (l : Edges)
    → listed last n l ≡ true
    → adjacent last n (es ++ last ∷ []) ≡ false
    → unused ((es ++ last ∷ []) ++ n ∷ []) l < unused (es ++ last ∷ []) l
unused-step es last n l h old =
    unused-less (es ++ last ∷ []) last n n l h old (adjacent-last es last n)

listed-append : (a c : ℕ) (l m : Edges) → listed a c (l ++ m) ≡ (listed a c l || listed a c m)
unfolding listed
listed-append a c [] m = refl
listed-append a c ((x, y) ∷ l) m = ground (arith, listed-append a c l m)

listed-out_edges :
    (a c : ℕ) (outs : List ℕ) (n i : ℕ)
    → i < n
    → get_elem? outs i ≡ some c
    → listed a c (out_edges a (take n outs)) ≡ true
unfolding listed out_edges
listed-out_edges a c [] n i h e = cc
listed-out_edges a c (o ∷ outs) zero i h e = absurd (omega arith)
listed-out_edges a c (o ∷ outs) (suc n) zero h e = let same : o ≡ c = cc in ground arith
listed-out_edges a c (o ∷ outs) (suc n) (suc i) h e =
    ground (arith, listed-out_edges a c outs n i (omega arith) e)

-- The outs of a branch are edges.
pub listed-edges_from :
    (a k c i : ℕ) (bs : List XdebugBranch) (b : XdebugBranch)
    → get_elem? bs k ≡ some b
    → i < b.outs_count
    → get_elem? b.outs i ≡ some c
    → listed (a + k) c (edges_from a bs) ≡ true
unfolding edges_from
listed-edges_from a k c i [] b e h o = cc
listed-edges_from a zero c i (b' ∷ bs) b e h o =
    let same : b' ≡ b = cc in
    let here : a + 0 ≡ a = omega arith in
    let mine : listed a c (out_edges a (take b'.outs_count b'.outs)) ≡ true =
      rw same (listed-out_edges a c b.outs b.outs_count i h o) in
    rw
      (
        here,
        listed-append a c (out_edges a (take b'.outs_count b'.outs)) (edges_from (suc a) bs),
        mine,
      )
      refl
listed-edges_from a (suc k) c i (b' ∷ bs) b e h o =
    let there : a + suc k ≡ suc a + k = omega arith in
    let rest : listed (suc a + k) c (edges_from (suc a) bs) ≡ true =
      listed-edges_from (suc a) k c i bs b e h o in
    rw
      (
        there,
        listed-append (suc a + k) c (out_edges a (take b'.outs_count b'.outs))
            (edges_from (suc a) bs),
        rest,
      )
      (ground arith)
