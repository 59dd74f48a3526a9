-- ===== src/Xdebug/Useful/Explode/Parts.antt =====
-- The parts that xdebug_explode finds make up the text again.
use saphire.Prelude.{
  ℕ, zero, suc, ◌+◌, ◌<◌, ◌≡◌, refl, sym, ap, ◌∙◌, inl, inr, some, List, [], ◌∷◌, ◌++◌, arith,
  length, length-append, take, drop, Bool-cases, Option-cases,
}
use saphire.Prelude.Int.{ℤ}
use saphire.Clib.{Bytes, Run, ok}
use saphire.Xdebug.Useful.Explode.{memnstr, next_limit, explode_loop, explode}
use saphire.Xdebug.Useful.Explode.Memnstr.{memnstr-strstr, strstr-found}

-- The parts with the delimiter between them.
unfoldable pub joined : Bytes → List Bytes → Bytes
joined delim [] = []
joined delim (p ∷ []) = p
joined delim (p ∷ q ∷ parts) = p ++ (delim ++ joined delim (q ∷ parts))

module _ (first : ℕ) (rest : Bytes) where
  abbrev delim : Bytes
  delim = first ∷ rest

  -- A run that gives parts that make up the text.
  abbrev Splits : Bytes → Run (List Bytes) → Type 0
  Splits text r =
      (q : Bytes) × (qs : List Bytes) × (r ≡ ok (q ∷ qs)) × (joined delim (q ∷ qs) ≡ text)

  found_there :
      (p1 : Bytes) (p2 : ℕ)
      → memnstr p1 first rest ≡ some p2
      → p1 ≡ take p2 p1 ++ (delim ++ drop (p2 + suc (length rest)) p1)
  found_there p1 p2 h = strstr-found p1 delim p2 (sym (memnstr-strstr p1 first rest) ∙ h)

  shorter :
      (p1 : Bytes) (p2 : ℕ)
      → memnstr p1 first rest ≡ some p2
      → length (drop (p2 + suc (length rest)) p1) < length p1
  shorter p1 p2 h =
      let p1' = drop (p2 + suc (length rest)) p1 in
      omega (
        arith,
        ap length (found_there p1 p2 h),
        length-append (take p2 p1) (delim ++ p1'),
        length-append rest p1',
      )

  explode_loop-Splits :
      (fuel : ℕ) (p1 : Bytes) (p2 : ℕ) (limit : ℤ)
      → memnstr p1 first rest ≡ some p2
      → length p1 < fuel
      → Splits p1 (explode_loop fuel first rest p1 p2 limit)
  unfolding explode_loop joined
  explode_loop-Splits zero p1 p2 limit h f = absurd (omega arith)
  explode_loop-Splits (suc fuel) p1 p2 limit h f =
      let p1' = drop (p2 + suc (length rest)) p1 in
      let part = take p2 p1 in
      elim (Option-cases (memnstr p1' first rest)) [
        | inl ended ↦ (part, p1' ∷ [], rw (explode_loop, ended) refl, sym (found_there p1 p2 h))
        | inr (p2', more) ↦ elim (Bool-cases (next_limit limit).0) [
          | inl on ↦
              let (q, qs, run, whole) =
                explode_loop-Splits fuel p1' p2' (next_limit limit).1 more
                  (omega (arith, shorter p1 p2 h)) in
              (
                part,
                q ∷ qs,
                rw (explode_loop, more, on, run) refl,
                rw whole (sym (found_there p1 p2 h)),
              )
          | inr enough ↦
              (part, p1' ∷ [], rw (explode_loop, more, enough) refl, sym (found_there p1 p2 h))
        ]
      ]

  pub explode-Splits :
      (str : Bytes) (args : List Bytes) (limit : ℤ)
      → (q : Bytes) × (qs : List Bytes) × (explode first rest str args limit ≡ ok (args ++ q ∷ qs))
        × (joined delim (q ∷ qs) ≡ str)
  unfolding explode joined
  explode-Splits str args limit = elim (Option-cases (memnstr str first rest)) [
    | inl whole ↦ (str, [], rw (explode, whole) refl, refl)
    | inr (p2, found) ↦
        let (q, qs, run, all) =
          explode_loop-Splits (suc (length str)) str p2 limit found (omega arith) in
        (q, qs, rw (explode, found, run) refl, all)
  ]
