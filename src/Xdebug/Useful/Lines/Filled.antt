-- ===== src/Xdebug/Useful/Lines/Filled.antt =====
-- What the loop of xdebug_fd_read_line_delim leaves in the buffer.
use saphire.Prelude.{
  take_all, ℕ, ◌-◌, ◌<◌, ◌≡◌, refl, ap, ◌∙◌, ◌⊎◌, inl, inr, Bool, ◌&&◌, true, false, none, some,
  List, [], ◌∷◌, ◌++◌, arith, length, length-append, get_elem?, ltb, ◌==◌, Bool-cases,
}
use mathlib.Core.List.{append_assoc, append-nil}
use saphire.Clib.{Bytes, Run, ok}
use saphire.Xdebug.Useful.Lines.{FdBuf, is_complete, append_read, fill}

-- A buffer with memory for the bytes `b`.
abbrev pub filled : Bytes → FdBuf
filled b = record { buffer = some b; buffer_size = length b }

-- The bytes that are in the buffer; where there are none there may be no memory.
abbrev pub Keeps : FdBuf → Bytes → Type 0
Keeps context b = (context ≡ filled b) ⊎ ((context.buffer ≡ none) × (b ≡ []))

-- The pieces one behind the other.
unfoldable pub flat : List Bytes → Bytes
flat [] = []
flat (chunk ∷ chunks) = chunk ++ flat chunks

-- The last byte is the delimiter.
unfoldable pub ends_in : ℕ → Bytes → Bool
ends_in delim [] = false
ends_in delim (c ∷ []) = c == delim
ends_in delim (c ∷ d ∷ s) = ends_in delim (d ∷ s)

pub last_byte :
    (delim c : ℕ) (s : Bytes)
    → (d : ℕ) × (get_elem? (c ∷ s) (length s) ≡ some d) × ((d == delim) ≡ ends_in delim (c ∷ s))
unfolding ends_in
last_byte delim c [] = (c, refl, refl)
last_byte delim c (d ∷ s) = last_byte delim d s

-- To a delimiter below 128 the sign of a `char` makes no difference.
signed-same : (delim c : ℕ) → delim < 128 → (ltb c 128 && c == delim) ≡ (c == delim)
signed-same delim c ascii = ground arith

is_complete-ends_in :
    (delim : ℕ) (b : Bytes) → delim < 128 → is_complete delim (filled b) ≡ ok (ends_in delim b)
unfolding is_complete ends_in
is_complete-ends_in delim [] ascii = refl
is_complete-ends_in delim (c ∷ s) ascii =
    let (d, at, last) = last_byte delim c s in
    let before : length (c ∷ s) - 1 ≡ length s = omega arith in
    let some_byte : ltb (length (c ∷ s)) 1 ≡ false = ground arith in
    rw (is_complete, some_byte, before, at) (ap ok (signed-same delim d ascii ∙ last))

append_read-filled : (b chunk : Bytes) → append_read (filled b) chunk ≡ ok (filled (b ++ chunk))
unfolding append_read
append_read-filled b chunk =
    let fits : ltb (length b) (length b) ≡ false = ground arith in
    rw (append_read, fits, take_all b, length-append b chunk) refl

-- What read or recv returns where it returns more than 0.
abbrev pub HaveBytes : List Bytes → Type 0
HaveBytes [] = Unit
HaveBytes (chunk ∷ chunks) = (0 < length chunk) × HaveBytes chunks

pub record Fills (delim : ℕ) (b : Bytes) (chunks : List Bytes) : Type 0 where
  pub used : List Bytes
  pub left : List Bytes
  pub pieces : chunks ≡ used ++ left
  pub run :
      fill delim (filled b) chunks
      ≡ ok (ends_in delim (b ++ flat used), filled (b ++ flat used), left)
  pub ended :
      (ends_in delim (b ++ flat used) ≡ true)
      ⊎ ((ends_in delim (b ++ flat used) ≡ false) × (left ≡ []))

true_or_false : (b : Bool) → (b ≡ true) ⊎ ((b ≡ false) × (◌≡◌ {A = List Bytes} [] []))
true_or_false true = inl refl
true_or_false false = inr (refl, refl)

fill-more :
    (delim : ℕ) (b : Bytes) (c : ℕ) (cs : Bytes) (chunks : List Bytes)
    (r : Run (Bool × FdBuf × List Bytes))
    → delim < 128
    → ends_in delim b ≡ false
    → fill delim (filled (b ++ c ∷ cs)) chunks ≡ r
    → fill delim (filled b) ((c ∷ cs) ∷ chunks) ≡ r
unfolding fill
fill-more delim b c cs chunks r ascii open_line rest =
    rw (fill, is_complete-ends_in delim b ascii, open_line, append_read-filled b (c ∷ cs)) rest

fill-full :
    (delim : ℕ) (b chunk : Bytes) (chunks : List Bytes)
    → delim < 128
    → ends_in delim b ≡ true
    → fill delim (filled b) (chunk ∷ chunks) ≡ ok (true, filled b, chunk ∷ chunks)
unfolding fill
fill-full delim b chunk chunks ascii full = rw (fill, is_complete-ends_in delim b ascii, full) refl

pub fill-Fills :
    (delim : ℕ) (b : Bytes) (chunks : List Bytes)
    → delim < 128
    → HaveBytes chunks
    → Fills delim b chunks
unfolding flat fill
fill-Fills delim b [] ascii h =
    let same : b ++ flat [] ≡ b = append-nil b in
    record {
      used = [];
      left = [];
      pieces = refl;
      run = rw (append-nil b, fill, is_complete-ends_in delim b ascii) refl;
      ended = true_or_false (ends_in delim (b ++ flat []));
    }
fill-Fills delim b ([] ∷ chunks) ascii (h, hs) = absurd (omega arith)
fill-Fills delim b ((c ∷ cs) ∷ chunks) ascii (h, hs) = elim (Bool-cases (ends_in delim b)) [
  | inl full ↦ record {
    used = [];
    left = (c ∷ cs) ∷ chunks;
    pieces = refl;
    run = rw (append-nil b, full) (fill-full delim b (c ∷ cs) chunks ascii full);
    ended = inl (rw (append-nil b) full);
  }
  | inr open_line ↦
      let rest = fill-Fills delim (b ++ c ∷ cs) chunks ascii hs in
      let text : (b ++ c ∷ cs) ++ flat rest.used ≡ b ++ (c ∷ cs ++ flat rest.used) =
        append_assoc b (c ∷ cs) (flat rest.used) in
      record {
        used = (c ∷ cs) ∷ rest.used;
        left = rest.left;
        pieces = ap (λ p. (c ∷ cs) ∷ p) rest.pieces;
        run = fill-more delim b c cs chunks _ ascii open_line (rw text at rest.run);
        ended = rw text at rest.ended;
      }
]
