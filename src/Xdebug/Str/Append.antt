-- ===== src/Xdebug/Str/Append.antt =====
-- The buffer holds the text that was appended to it.
use saphire.Prelude.{
  take_all, ℕ, ◌+◌, ◌-◌, ◌%◌, ◌^◌, ◌<◌, ◌≤◌, ◌≡◌, refl, sym, ap, ◌∙◌, ◌⊎◌, inl, inr, true, false,
  Option, none, some, [], ◌∷◌, ◌++◌, map, arith, length, length-append, length-map,
  length-replicate, drop, take-append, drop-append, drop-append_add, split_at, Bool-cases, ltb, leb,
  ◌==◌, if◌then◌else◌,
}
use mathlib.Core.List.{append_assoc, map-append}
use saphire.Clib.{Bytes, ok}
use saphire.Xdebug.Str.{
  Buffer, XdebugStr, prealloc, malloc, realloc, store, reserve, write_text, str_add, str_add_int,
  str_addc,
}

-- The buffer begins with the text and a NUL, and the counts are the lengths.
pub record Holds (xs : XdebugStr) (t : Bytes) : Type 0 where
  pub rest : Buffer
  pub d : xs.d ≡ some (map some t ++ some 0 ∷ rest)
  pub l : xs.l ≡ length t
  pub a : xs.a ≡ length t + 1 + length rest

-- A string as xdebug_str_new makes it, or one that holds a text.
abbrev pub IsStr : XdebugStr → Bytes → Type 0
IsStr xs t = ((xs ≡ record { l = 0; a = 0; d = none }) × (t ≡ [])) ⊎ Holds xs t

-- A write of `s` behind the first part of a buffer, over `mid`.
pub store-at :
    (front mid back : Buffer) (s : Bytes) (i : ℕ)
    → i ≡ length front
    → length mid ≡ length s
    → store (front ++ (mid ++ back)) i s ≡ ok (front ++ (map some s ++ back))
unfolding store
store-at front mid back s i hi hs =
    let fits : leb (i + length s) (length (front ++ (mid ++ back))) ≡ true =
      ground (arith, length-append front (mid ++ back), length-append mid back) in
    let behind : drop (i + length s) (front ++ (mid ++ back)) ≡ back =
      rw (hi, ← hs) (drop-append_add front (mid ++ back) (length mid) ∙ drop-append mid back) in
    rw (fits, behind, hi, take-append front (mid ++ back))
      (ap ok (append_assoc front (map some s) back))

-- Room behind the text for `n` bytes and a NUL.
record Spare (xs : XdebugStr) (t : Bytes) (n : ℕ) : Type 0 where
  spare : Buffer
  d : xs.d ≡ some (map some t ++ spare)
  l : xs.l ≡ length t
  a : xs.a ≡ length t + length spare
  room : n < length spare

-- The NUL that is written first into an empty string changes no count.
first_nul :
    (t : Bytes) (spare : Buffer) (l : ℕ)
    → l ≡ length t
    → 0 < length spare
    → (spare' : Buffer) × ((if l == 0
          then store (map some t ++ spare) 0 (0 ∷ [])
          else ok (map some t ++ spare))
        ≡ ok (map some t ++ spare'))
      × (length spare' ≡ length spare)
first_nul t [] l hl h = absurd (omega arith)
first_nul [] (c ∷ spare) l hl h =
    (some 0 ∷ spare, rw hl (store-at [] (c ∷ []) spare (0 ∷ []) 0 refl refl), refl)
first_nul (x ∷ t) (c ∷ spare) l hl h =
    let more : (l == 0) ≡ false = ground arith in (c ∷ spare, rw more, refl)

write_text-Holds :
    (xs : XdebugStr) (t s : Bytes)
    → Spare xs t (length s)
    → (xs' : XdebugStr) × (write_text xs s ≡ ok xs') × Holds xs' (t ++ s) × (xs'.a ≡ xs.a)
unfolding write_text
write_text-Holds xs t s h =
    let (spare, nul, len) = first_nul t h.spare xs.l h.l (omega (arith, h.room)) in
    let (mid, c, rest, e, n) = split_at (length s) spare (omega (arith, h.room)) in
    let front = map some t ++ map some s in
    let text : store (map some t ++ spare) xs.l s ≡ ok (front ++ c ∷ rest) = rw e (
      store-at (map some t) mid (c ∷ rest) s xs.l (h.l ∙ sym (length-map t some)) n
      ∙ ap ok (sym (append_assoc (map some t) (map some s) (c ∷ rest)))) in
    let end : store (front ++ c ∷ rest) (xs.l + length s) (0 ∷ []) ≡ ok (front ++ some 0 ∷ rest) =
      store-at front (c ∷ []) rest (0 ∷ []) (xs.l + length s)
        (omega (
          arith,
          h.l,
          length-append (map some t) (map some s),
          length-map t some,
          length-map s some,
        ))
        refl in
    (
      record xs { d = some (front ++ some 0 ∷ rest); l = xs.l + length s },
      rw (write_text, h.d, nul, text, end),
      record {
        rest = rest;
        d = rw (map-append some t s);
        l = rw (h.l, length-append t s);
        a =
            omega
              (arith, h.a, len, n, length-append t s, ap length e, length-append mid (c ∷ rest));
      },
      refl,
    )

-- Making room allocates only if there is none, and at most 1024 bytes more than is needed.
reserve-Spare :
    (xs : XdebugStr) (t : Bytes) (n : ℕ)
    → IsStr xs t
    → Spare (reserve xs n) t n × ((reserve xs n).a ≤ xs.a + n + prealloc)
unfolding reserve realloc
reserve-Spare xs t n (inl (e, empty)) =
    let grows : ltb 0 (0 + n + 1) ≡ true = ground arith in
    rw (e, grows)
      (
        record {
          spare = malloc (0 + n + prealloc);
          d = rw empty;
          l = rw empty;
          a = rw (empty, length-replicate) (omega arith);
          room = rw length-replicate (omega arith);
        },
        omega arith,
      )
reserve-Spare xs t n (inr h) = elim (Bool-cases (ltb xs.a (xs.l + n + 1))) [
  | inl grows ↦
      let old = map some t ++ some 0 ∷ h.rest in
      let more = malloc (xs.a + n + prealloc - length old) in
      let size : length old ≡ xs.a =
        omega (arith, h.a, length-append (map some t) (some 0 ∷ h.rest), length-map t some) in
      let added : length (h.rest ++ more) ≡ length h.rest + (n + prealloc) = omega (
        arith,
        size,
        length-append h.rest more,
        length-replicate {A = Option ℕ} (xs.a + n + prealloc - length old) none,
      ) in
      rw (reserve, grows)
        (
          record {
            spare = some 0 ∷ (h.rest ++ more);
            d = ap some (rw (h.d, realloc) (append_assoc (map some t) (some 0 ∷ h.rest) more));
            l = h.l;
            a = omega (arith, h.a, added);
            room = omega (arith, added);
          },
          omega arith,
        )
  | inr fits ↦
      rw (reserve, fits)
        (
          record {
            spare = some 0 ∷ h.rest;
            d = h.d;
            l = h.l;
            a = omega (arith, h.a);
            room = ground (arith, h.a, h.l);
          },
          omega arith,
        )
]

module _ (xs : XdebugStr) (t : Bytes) (h : IsStr xs t) where
  -- The part that the four functions share.
  pub append-Holds :
      (s : Bytes)
      → (xs' : XdebugStr) × (write_text (reserve xs (length s)) s ≡ ok xs')
        × Holds xs' (t ++ s)
        × (xs'.a ≤ xs.a + length s + prealloc)
  append-Holds s =
      let (room, bound) = reserve-Spare xs t (length s) h in
      let (xs', run, holds, kept) = write_text-Holds (reserve xs (length s)) t s room in
      (xs', run, holds, omega (arith, bound, kept))

  -- The same of str_add.
  pub str_add-Appended :
      (s : Bytes)
      → (xs' : XdebugStr) × (str_add xs s ≡ ok xs')
        × Holds xs' (t ++ s)
        × (xs'.a ≤ xs.a + length s + prealloc)
  unfolding str_add
  str_add-Appended = append-Holds

  -- Where the length fits an `int`, that makes no difference.
  str_add_int-str_add : (s : Bytes) → length s < 2 ^ 31 → str_add_int xs s ≡ str_add xs s
  unfolding str_add_int str_add
  str_add_int-str_add s int =
      let low : length s % 2 ^ 32 ≡ length s = omega arith in
      let positive : ltb (length s) (2 ^ 31) ≡ true = ground arith in
      rw (str_add_int, low, positive, take_all s) refl

  -- xdebug_str_add of a text of fewer than 2 ^ 31 bytes, to a new string or to one that holds `t`, never
  -- writes out of its buffer; the string then holds `t` and the argument, and its buffer has
  -- grown by 1024 bytes more than the argument's length at most.
  pub str_add-Holds :
      (s : Bytes)
      → length s < 2 ^ 31
      → (xs' : XdebugStr) × (str_add_int xs s ≡ ok xs')
        × (str_add xs s ≡ ok xs')
        × Holds xs' (t ++ s)
        × (xs'.a ≤ xs.a + length s + prealloc)
  str_add-Holds s int =
      let (xs', run, holds, bound) = str_add-Appended s in
      (xs', str_add_int-str_add s int ∙ run, run, holds, bound)

  pub str_addc-Holds :
      (c : ℕ)
      → (xs' : XdebugStr) × (str_addc xs c ≡ ok xs')
        × Holds xs' (t ++ c ∷ [])
        × (xs'.a ≤ xs.a + 1 + prealloc)
  unfolding str_addc
  str_addc-Holds c = append-Holds (c ∷ [])
