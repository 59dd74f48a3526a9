-- ===== src/Xdebug/Useful/Lines/Streams.antt =====
-- A line is the stream's first line, however the stream comes in pieces.
use saphire.Prelude.{
  take_all, ℕ, suc, ◌+◌, ◌-◌, ◌<◌, ◌≡◌, refl, sym, ap, ◌∙◌, ◌⊎◌, inl, inr, true, false, none, some,
  List, [], ◌∷◌, ◌++◌, arith, length, length-append, take, ltb, ◌==◌, ==_iff, if◌then◌else◌,
  Bool-cases,
}
use mathlib.Core.List.{append_assoc, append-nil}
use saphire.Clib.Text.{Lacks}
use saphire.Clib.{Bytes, ok, strchr_cut}
use saphire.Xdebug.Useful.Lines.{FdBuf, init_buffer, fill, split_line, cut_line, fd_read_line_delim}
use saphire.Xdebug.Useful.Lines.Filled.{filled, Keeps, flat, ends_in, HaveBytes, fill-Fills}

-- The first delimiter of a text that ends in one.
strchr_cut-ends_in :
    (delim : ℕ) (b : Bytes)
    → ends_in delim b ≡ true
    → (line : Bytes) × (rest : Bytes) × (strchr_cut delim b ≡ (line, some rest))
      × (b ≡ line ++ delim ∷ rest)
      × Lacks delim line
unfolding strchr_cut ends_in
strchr_cut-ends_in delim [] h = cc
strchr_cut-ends_in delim (c ∷ []) h =
    let same : c ≡ delim = (==_iff c delim).0 h in ([], [], rw h refl, rw same refl, tt)
strchr_cut-ends_in delim (c ∷ d ∷ s) h = elim (Bool-cases (c == delim)) [
  | inl here ↦
      let same : c ≡ delim = (==_iff c delim).0 here in ([], d ∷ s, rw here refl, rw same refl, tt)
  | inr later ↦
      let (line, rest, cut, whole, lacks) = strchr_cut-ends_in delim (d ∷ s) h in
      (c ∷ line, rest, rw (strchr_cut, later, cut) refl, ap (λ t. c ∷ t) whole, (later, lacks))
]

cut_line-rest :
    (delim : ℕ) (b line rest : Bytes)
    → strchr_cut delim b ≡ (line, some rest)
    → b ≡ line ++ delim ∷ rest
    → cut_line delim (filled b)
      ≡ ok (
        line,
        record {
          buffer = if ltb 0 (length rest) then some rest else none;
          buffer_size = length rest;
        },
      )
unfolding cut_line split_line
cut_line-rest delim b line rest cut whole =
    let count : length b ≡ length line + suc (length rest) =
      ap length whole ∙ length-append line (delim ∷ rest) in
    let left : length b - length line - 1 ≡ length rest = omega (arith, count) in
    let size : length b - (length line + 1) ≡ length rest = omega (arith, count) in
    let cut' : strchr_cut delim (take (length b) b) ≡ (line, some rest) =
      ap (strchr_cut delim) (take_all b) ∙ cut in
    ap (split_line (length b)) cut' ∙ rw (split_line, left, size, take_all rest) refl

cut_line-Keeps :
    (delim : ℕ) (b line rest : Bytes)
    → strchr_cut delim b ≡ (line, some rest)
    → b ≡ line ++ delim ∷ rest
    → (context : FdBuf) × (cut_line delim (filled b) ≡ ok (line, context)) × Keeps context rest
cut_line-Keeps delim b line [] cut whole = (
  record { buffer = none; buffer_size = 0 },
  cut_line-rest delim b line [] cut whole,
  inr (refl, refl),
)
cut_line-Keeps delim b line (c ∷ rest) cut whole =
    let some_left : ltb 0 (suc (length rest)) ≡ true = ground arith in
    (
      filled (c ∷ rest),
      cut_line-rest delim b line (c ∷ rest) cut whole ∙ rw some_left refl,
      inl refl,
    )

init_buffer-filled :
    (context : FdBuf) (b : Bytes) → Keeps context b → init_buffer context ≡ filled b
unfolding init_buffer
init_buffer-filled context b (inl memory) = rw memory refl
init_buffer-filled context b (inr (unset, empty)) = rw (init_buffer, unset, empty) refl

flat-append : (p q : List Bytes) → flat (p ++ q) ≡ flat p ++ flat q
unfolding flat
flat-append [] q = refl
flat-append (c ∷ p) q = rw (flat-append p q) (sym (append_assoc c (flat p) (flat q)))

module _ (delim : ℕ) (context : FdBuf) (b : Bytes) (input : List Bytes)
    (keeps : Keeps context b) where
  read_none :
      (context' : FdBuf) (input' : List Bytes)
      → fill delim (filled b) input ≡ ok (false, context', input')
      → fd_read_line_delim delim context input ≡ ok (none, context', input')
  unfolding fd_read_line_delim
  read_none context' input' run =
      rw (fd_read_line_delim, init_buffer-filled context b keeps, run) refl

  read_some :
      (context' context₂ : FdBuf) (line : Bytes) (input' : List Bytes)
      → fill delim (filled b) input ≡ ok (true, context', input')
      → cut_line delim context' ≡ ok (line, context₂)
      → fd_read_line_delim delim context input ≡ ok (some line, context₂, input')
  unfolding fd_read_line_delim
  read_some context' context₂ line input' run cut =
      rw (fd_read_line_delim, init_buffer-filled context b keeps, run, cut) refl

  -- For a delimiter below 128, a buffer that keeps the bytes `b`, and pieces of a stream that each have a byte,
  -- xdebug_fd_read_line_delim does not fault. Either it returns the bytes in front of the first delimiter of
  -- what the buffer kept and the pieces bring, however that is cut into pieces; the buffer and
  -- the pieces that are left then hold exactly what stands behind that delimiter. Or it returns nothing, has read
  -- all pieces, keeps all bytes in the buffer, and these do not end in the delimiter.
  pub fd_read_line_delim-first :
      delim < 128
      → HaveBytes input
      → ((line : Bytes) × (context' : FdBuf) × (b' : Bytes) × (input' : List Bytes)
          × (fd_read_line_delim delim context input ≡ ok (some line, context', input'))
          × Keeps context' b'
          × Lacks delim line
          × (b ++ flat input ≡ line ++ delim ∷ (b' ++ flat input')))
        ⊎ ((context' : FdBuf) × (fd_read_line_delim delim context input ≡ ok (none, context', []))
            × Keeps context' (b ++ flat input)
            × (ends_in delim (b ++ flat input) ≡ false))
  fd_read_line_delim-first ascii have =
      let f = fill-Fills delim b input ascii have in
      elim f.ended [
        | inl full ↦
            let (line, rest, cut, whole, lacks) =
              strchr_cut-ends_in delim (b ++ flat f.used) full in
            let (context', got, kept) =
              cut_line-Keeps delim (b ++ flat f.used) line rest cut whole in
            let stream : b ++ flat input ≡ line ++ delim ∷ (rest ++ flat f.left) =
              ap (λ p. b ++ flat p) f.pieces
              ∙ ap (λ t. b ++ t) (flat-append f.used f.left)
              ∙ sym (append_assoc b (flat f.used) (flat f.left))
              ∙ ap (λ t. t ++ flat f.left) whole
              ∙ append_assoc line (delim ∷ rest) (flat f.left) in
            inl (
              line,
              context',
              rest,
              f.left,
              read_some (filled (b ++ flat f.used)) context' line f.left
                  (f.run ∙ ap (λ e. ok (e, filled (b ++ flat f.used), f.left)) full) got,
              kept,
              lacks,
              stream,
            )
        | inr (part, nothing) ↦
            let all : f.used ≡ input =
              sym (append-nil f.used) ∙ ap (λ p. f.used ++ p) (sym nothing) ∙ sym f.pieces in
            let kept : (b ++ flat f.used) ≡ b ++ flat input = ap (λ p. b ++ flat p) all in
            inr (
              filled (b ++ flat f.used),
              read_none (filled (b ++ flat f.used)) [] (
                  f.run
                  ∙ ap (λ e. ok (e, filled (b ++ flat f.used), f.left)) part
                  ∙ ap (λ l. ok (false, filled (b ++ flat f.used), l)) nothing),
              inl (ap filled kept),
              sym (ap (ends_in delim) kept) ∙ part,
            )
      ]
