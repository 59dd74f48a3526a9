-- ===== src/Xdebug/Dbgp/Written.antt =====
-- The parser of commands reads what a client writes, and reports what it cannot read.
use saphire.Prelude.{
  ℕ, ◌<◌, ◌≡◌, refl, sym, ap, ◌∙◌, ◌⊎◌, inl, inr, true, Option, none, some, List, [], ◌∷◌, ◌++◌,
  arith, ◌==◌, ==_iff, if◌then◌else◌, get_elem?, set, length, length-set, length-replicate,
  get_elem?-set_self, get_elem?-set_ne, get_elem?-replicate, Bool-cases, ◌≢◌,
}
use mathlib.Core.List.{append-nil}
use saphire.Clib.{Bytes, ok, ◌>>=◌}
use saphire.Clib.Text.{Lacks, strchr_cut-Lacks, strchr_cut-Lacks_all}
use saphire.Xdebug.Dbgp.{
  error_ok, Args, no_args, normal, store, start, parse_cut, parse_loop, parse_cmd,
}
use saphire.Xdebug.Dbgp.Accepts.{at, settle}
use saphire.Xdebug.Dbgp.Given.{
  Given, plain, in_quotes, to_the_end, text_of, slot, item, IsGiven, is_short, key_of, raw,
  item-more, item-last,
}

-- The options, each behind a space.
unfoldable pub written : List Given → Bytes
written [] = []
written (g ∷ gs) = b' ' ∷ item g ++ written gs

-- Each option is well written, and all but the last can be followed.
abbrev pub AreGiven : List Given → Type 0
AreGiven [] = Unit
AreGiven (g ∷ []) = IsGiven g
AreGiven (g ∷ h ∷ gs) = IsGiven g × (is_short g ≡ true) × AreGiven (h ∷ gs)

-- The value of the option number `i`.
abbrev pub lookup : ℕ → List Given → Option Bytes
lookup i [] = none
lookup i (g ∷ gs) = if i == slot g then some (text_of g) else lookup i gs

-- No option is given twice.
abbrev pub AreDistinct : List Given → Type 0
AreDistinct [] = Unit
AreDistinct (g ∷ gs) = (lookup (slot g) gs ≡ none) × AreDistinct gs

-- The arguments after the options.
abbrev pub stored : Args → List Given → Args
stored args [] = args
stored args (g ∷ gs) = stored (set args (slot g) (some (text_of g))) gs

-- An option that is given has no value yet.
abbrev pub Apart : Args → List Given → Type 0
Apart args gs = (i : ℕ) → i < 27 → (get_elem? args i ≡ some none) ⊎ (lookup i gs ≡ none)

store-free :
    (args : Args) (i : ℕ) (v : Bytes)
    → get_elem? args i ≡ some none
    → store args (some i) v ≡ ok (some (set args i (some v)))
unfolding store
store-free args i v h = rw (store, h) refl

pub slot-small : (g : Given) → IsGiven g → slot g < 27
slot-small (plain opt []) h = absurd h
slot-small (plain opt (c ∷ v)) (letter, _, _, _) = ground (arith, letter)
slot-small (in_quotes opt v) (letter, h) = ground (arith, letter)
slot-small (to_the_end v) h = omega arith

pub head-IsGiven : (g : Given) (gs : List Given) → AreGiven (g ∷ gs) → IsGiven g
head-IsGiven g [] h = h
head-IsGiven g (h ∷ gs) (given, short, rest) = given

pub tail-AreGiven : (g : Given) (gs : List Given) → AreGiven (g ∷ gs) → AreGiven gs
tail-AreGiven g [] h = tt
tail-AreGiven g (h ∷ gs) (given, short, rest) = rest

module _ (args : Args) (g : Given) (gs : List Given) (given : AreGiven (g ∷ gs))
    (apart : Apart args (g ∷ gs)) where
  slot-free : get_elem? args (slot g) ≡ some none
  slot-free =
      let here : (slot g == slot g) ≡ true = (==_iff (slot g) (slot g)).1 refl in
      elim (apart (slot g) (slot-small g (head-IsGiven g gs given))) [
        | inl free ↦ free
        | inr missing ↦ let found : lookup (slot g) (g ∷ gs) ≡ some (text_of g) = rw here refl in cc
      ]

  pub store-slot :
      store args (some (slot g)) (text_of g) ≡ ok (some (set args (slot g) (some (text_of g))))
  store-slot = store-free args (slot g) (text_of g) slot-free

  pub set-Apart : lookup (slot g) gs ≡ none → Apart (set args (slot g) (some (text_of g))) gs
  set-Apart fresh i small = elim (Bool-cases (i == slot g)) [
    | inl here ↦
        let same : i ≡ slot g = (==_iff i (slot g)).0 here in
        inr (ap (λ j. lookup j gs) same ∙ fresh)
    | inr other ↦
        let differ : slot g ≢ i = ground (arith, other) in
        let kept : get_elem? (set args (slot g) (some (text_of g))) i ≡ get_elem? args i =
          get_elem?-set_ne args (some (text_of g)) differ in
        let later : lookup i (g ∷ gs) ≡ lookup i gs = rw other refl in
        elim (apart i small) [
          | inl free ↦ inl (kept ∙ free)
          | inr missing ↦ inr (sym later ∙ missing)
        ]
  ]

-- The loop on the options behind the first space.
written-runs :
    (g : Given) (gs : List Given) (args : Args) (old : ℕ) (u : Bytes)
    → AreGiven (g ∷ gs)
    → AreDistinct (g ∷ gs)
    → Apart args (g ∷ gs)
    → parse_loop (item g ++ written gs) (at normal args old u) ≡ ok (error_ok, stored args (g ∷ gs))
unfolding written
written-runs g [] args old u given distinct apart =
    ap (λ t. parse_loop t (at normal args old u)) (append-nil (item g))
    ∙ item-last g args old u given
    ∙ ap (λ r. settle args r (λ args'. ok (error_ok, args'))) (store-slot args g [] given apart)
written-runs g (h ∷ gs) args old u (given, short, rest) (fresh, distinct) apart =
    item-more g args old u (item h ++ written gs) given short
    ∙ ap
        (λ r.
          settle args r
            (λ args'. parse_loop (item h ++ written gs) (at normal args' (key_of g) (raw g))))
        (store-slot args g (h ∷ gs) (given, short, rest) apart)
    ∙ written-runs h gs (set args (slot g) (some (text_of g))) (key_of g) (raw g) rest distinct
        (set-Apart args g (h ∷ gs) (given, short, rest) apart fresh)

-- The value of an option that is given, and else what was there.
abbrev or_else : Option Bytes → Option (Option Bytes) → Option (Option Bytes)
or_else none r = r
or_else (some v) r = some (some v)

stored-lookup :
    (gs : List Given) (args : Args) (i : ℕ)
    → AreGiven gs
    → AreDistinct gs
    → length args ≡ 27
    → i < 27
    → get_elem? (stored args gs) i ≡ or_else (lookup i gs) (get_elem? args i)
stored-lookup [] args i given distinct size small = refl
stored-lookup (g ∷ gs) args i given (fresh, distinct) size small =
    let args' = set args (slot g) (some (text_of g)) in
    let size' : length args' ≡ 27 = length-set args (slot g) (some (text_of g)) ∙ size in
    let rest = stored-lookup gs args' i (tail-AreGiven g gs given) distinct size' small in
    elim (Bool-cases (i == slot g)) [
      | inl here ↦
          let same : i ≡ slot g = (==_iff i (slot g)).0 here in
          let missing : lookup i gs ≡ none = ap (λ j. lookup j gs) same ∙ fresh in
          let put : get_elem? args' i ≡ some (some (text_of g)) =
            ap (get_elem? args') same
            ∙ get_elem?-set_self args (slot g) (some (text_of g))
                (omega (arith, size, same, small)) in
          rest ∙ ap (λ o. or_else o (get_elem? args' i)) missing ∙ put ∙ rw here refl
      | inr other ↦
          let differ : slot g ≢ i = ground (arith, other) in
          rest
          ∙ ap (or_else (lookup i gs)) (get_elem?-set_ne args (some (text_of g)) differ)
          ∙ rw other refl
    ]

or_else-none : (o : Option Bytes) → or_else o (some none) ≡ some o
or_else-none none = refl
or_else-none (some v) = refl

pub stored-no_args :
    (gs : List Given) (i : ℕ)
    → AreGiven gs
    → AreDistinct gs
    → i < 27
    → get_elem? (stored no_args gs) i ≡ some (lookup i gs)
stored-no_args gs i given distinct small =
    stored-lookup gs no_args i given distinct (length-replicate {A = Option Bytes} 27 none) small
    ∙ ap (or_else (lookup i gs)) (get_elem?-replicate 27 i none small)
    ∙ or_else-none (lookup i gs)

pub parse_cmd-cut :
    (cmd rest : Bytes)
    → Lacks b' ' cmd
    → parse_cmd (cmd ++ b' ' ∷ rest) ≡ parse_loop rest start >>= λ r. ok (r.0, some cmd, r.1)
unfolding parse_cmd parse_cut
parse_cmd-cut cmd rest h = rw (strchr_cut-Lacks b' ' cmd rest h) refl

parse_cmd-alone :
    (c : ℕ) (cmd : Bytes)
    → Lacks b' ' (c ∷ cmd)
    → parse_cmd (c ∷ cmd) ≡ ok (error_ok, some (c ∷ cmd), no_args)
unfolding parse_cmd parse_cut
parse_cmd-alone c cmd h = ap parse_cut (strchr_cut-Lacks_all b' ' (c ∷ cmd) h)

parse_cmd-stored :
    (c : ℕ) (cmd : Bytes) (gs : List Given)
    → Lacks b' ' (c ∷ cmd)
    → AreGiven gs
    → AreDistinct gs
    → parse_cmd (c ∷ cmd ++ written gs) ≡ ok (error_ok, some (c ∷ cmd), stored no_args gs)
unfolding written
parse_cmd-stored c cmd [] h given distinct =
    ap parse_cmd (append-nil (c ∷ cmd)) ∙ parse_cmd-alone c cmd h
parse_cmd-stored c cmd (g ∷ gs) h given distinct =
    parse_cmd-cut (c ∷ cmd) (item g ++ written gs) h
    ∙ ap (λ r. r >>= λ r. ok (r.0, some (c ∷ cmd), r.1))
        (written-runs g gs no_args b' ' [] given distinct
          (λ i small. inl (get_elem?-replicate 27 i none small)))

-- For a command's name of one byte at least, without a space, and options with a small letter or, at the
-- end, a dash, none of them twice, with values that are not empty, have no space and do not begin with
-- a double quote, or stand in quotes with each backslash and double quote behind a backslash, or are
-- the rest of the line: xdebug_dbgp_parse_cmd does not fault, reports no error, and returns the name and,
-- for each of the 27 options, exactly the value that was given to it, or none.
pub parse_cmd-written :
    (c : ℕ) (cmd : Bytes) (gs : List Given)
    → Lacks b' ' (c ∷ cmd)
    → Lacks 0 (c ∷ cmd)
    → AreGiven gs
    → AreDistinct gs
    → (args : Args) × (parse_cmd (c ∷ cmd ++ written gs) ≡ ok (error_ok, some (c ∷ cmd), args))
      × ((i : ℕ) → i < 27 → get_elem? args i ≡ some (lookup i gs))
parse_cmd-written c cmd gs h nul given distinct = (
  stored no_args gs,
  parse_cmd-stored c cmd gs h given distinct,
  λ i small. stored-no_args gs i given distinct small,
)
