-- ===== src/Xdebug/Useful/Filename/Safe.antt =====
-- No value that goes into the name of a file brings a slash along.
use saphire.Prelude.{
  ℕ, ◌≡◌, refl, sym, ap, subst, ◌∙◌, ◌⊎◌, inl, inr, Bool, true, false, not, Option, none, some, [],
  ◌∷◌, ◌++◌, ltb, ◌==◌, if◌then◌else◌, length,
}
use saphire.Clib.{Bytes, Run, ok, fault, out_of_bounds, ◌>>=◌, is_digit, strchr_cut}
use saphire.Clib.Text.{Lacks, Lacks-append, Lacks-strchr_cut, lacks_byte}
use saphire.Clib.Decimal.{decimal, strchr_cut-decimal}
use saphire.Xdebug.Str.{XdebugStr, memory, str_new, str_add, str_addl}
use saphire.Xdebug.Str.Append.{IsStr}
use saphire.Xdebug.Str.Fetched.{str_addl-Holds}
use saphire.Xdebug.Str.Appends.{
  Appends, Appends-str_add, Appends-str_addl, Appends-nothing, Appends-then,
}
use saphire.Xdebug.Useful.Filename.{
  replace_dot, script_set, server_set, session_set, Environment, add_clean, add_server, add_session,
  add_script, add_cwd, specifier, format_loop, format_output_filename,
}
use saphire.Xdebug.Useful.Filename.Cleaned.{cleaned, clean_lem, cleaned-Lacks, replace_dot-Lacks}

-- The code appends some text without a slash.
record AppendsSafe (run : XdebugStr → Run XdebugStr) : Type 0 where
  text : Bytes
  appends : Appends run text
  safe : Lacks b'/' text

decimal-Lacks : (n : ℕ) → Lacks b'/' (decimal n [])
decimal-Lacks n = Lacks-strchr_cut b'/' (decimal n []) (
    ap (λ r. r.1) (strchr_cut-decimal b'/' n [] (unfold is_digit in refl))
    ∙ (unfold strchr_cut in refl))

safe-str_add : (s : Bytes) → Lacks b'/' s → AppendsSafe (λ xs. str_add xs s)
safe-str_add s h = record { text = s; appends = Appends-str_add s; safe = h }

safe-nothing : AppendsSafe (λ xs. ok xs)
safe-nothing = record { text = []; appends = Appends-nothing; safe = tt }

safe-if :
    (b : Bool) (f g : XdebugStr → Run XdebugStr)
    → AppendsSafe f
    → AppendsSafe g
    → AppendsSafe (λ xs. if b then f xs else g xs)
safe-if true f g p q = p
safe-if false f g p q = q

safe-add_clean :
    (set s : Bytes)
    → lacks_byte b'_' set ≡ true
    → lacks_byte b'/' set ≡ false
    → AppendsSafe (add_clean set s)
unfolding add_clean
safe-add_clean set s plain slash =
    subst (λ r. AppendsSafe (λ xs. r >>= λ strval. str_add xs strval)) (sym (clean_lem set plain s))
      (safe-str_add (cleaned set s) (cleaned-Lacks b'/' set s slash refl))

safe-add_server : (value : Option Bytes) → AppendsSafe (add_server value)
unfolding add_server
safe-add_server none = safe-nothing
safe-add_server (some value) = safe-add_clean server_set value refl refl

safe-add_session : (value : Option Bytes) → AppendsSafe (add_session value)
unfolding add_session
safe-add_session none = safe-nothing
safe-add_session (some value) =
    safe-if (ltb (length value) 100) _ _ (safe-add_clean session_set value refl refl) safe-nothing

safe-add_script : (script_name : Option Bytes) → AppendsSafe (add_script script_name)
unfolding add_script
safe-add_script none = safe-nothing
safe-add_script (some s) =
    subst (λ r. AppendsSafe (λ xs. r >>= λ name. str_add xs (replace_dot name)))
      (sym (clean_lem script_set refl s))
      (safe-str_add (replace_dot (cleaned script_set s)) (
        replace_dot-Lacks b'/' (cleaned script_set s) refl
          (cleaned-Lacks b'/' script_set s refl refl)))

safe-add_cwd : (crc32 : Bytes → ℕ) (cwd : Option Bytes) → AppendsSafe (add_cwd crc32 cwd)
unfolding add_cwd
safe-add_cwd crc32 none = safe-nothing
safe-add_cwd crc32 (some cwd) = safe-str_add (decimal (crc32 cwd) []) (decimal-Lacks (crc32 cwd))

module _ (env : Environment) (script_name : Option Bytes) (random : Lacks b'/' env.random)
    (utime : Lacks b'/' env.utime) where
  safe-specifier : (c : ℕ) → AppendsSafe (specifier env script_name c)
  unfolding specifier
  safe-specifier c = safe-if (c == b'c') _ _ (safe-add_cwd env.crc32 env.cwd) (
      safe-if (c == b'p') _ _ (safe-str_add _ (decimal-Lacks env.pid)) (
        safe-if (c == b'r') _ _ (safe-str_add _ random) (
          safe-if (c == b's') _ _ (safe-add_script script_name) (
            safe-if (c == b't') _ _ (safe-str_add _ (decimal-Lacks env.time)) (
              safe-if (c == b'u') _ _ (safe-str_add _ (replace_dot-Lacks b'/' env.utime refl utime))
                (safe-if (c == b'H') _ _ (safe-add_server env.http_host) (
                  safe-if (c == b'U') _ _ (safe-add_server env.unique_id) (
                    safe-if (c == b'R') _ _ (safe-add_server env.request_uri) (
                      safe-if (c == b'S') _ _ (safe-add_session env.session) (
                        safe-if (c == b'%') _ _
                          (record {
                            text = b'%' ∷ [];
                            appends = Appends-str_addl (b'%' ∷ []);
                            safe = (refl, tt);
                          })
                          safe-nothing))))))))))

-- No % stands at the end of a format without a byte of its own behind it.
abbrev pub ends_well : Bytes → Bool
ends_well [] = true
ends_well (c ∷ []) = not (c == b'%')
ends_well (c ∷ d ∷ format) = if not (c == b'%') then ends_well (d ∷ format) else ends_well format

-- The code faults on any string.
abbrev Faults : (XdebugStr → Run XdebugStr) → Type 0
Faults run = (xs : XdebugStr) (t : Bytes) → IsStr xs t → run xs ≡ fault out_of_bounds

safe-first :
    (c : ℕ) (s : Bytes) → (c == b'/') ≡ false → AppendsSafe (λ xs. str_addl xs (memory (c ∷ s)) 1)
safe-first c s h = record {
  text = c ∷ [];
  appends = record {
    appends = λ xs t is.
        let (xs', run, p, _) = str_addl-Holds xs t is (c ∷ []) (memory s) in (xs', run, inr p);
  };
  safe = (h, tt);
}

module _ (f g : XdebugStr → Run XdebugStr) (p : AppendsSafe f) where
  safe-then : AppendsSafe g → AppendsSafe (λ xs. f xs >>= g)
  safe-then q = record {
    text = p.text ++ q.text;
    appends = Appends-then f g p.text q.text p.appends q.appends;
    safe = Lacks-append b'/' p.text q.text p.safe q.safe;
  }

  fault-then : Faults g → Faults (λ xs. f xs >>= g)
  fault-then q = λ xs t is.
      let (ys, run, is') = p.appends.appends xs t is in
      ap (λ r. r >>= g) run ∙ q ys (t ++ p.text) is'

abbrev Formats : Bool → (XdebugStr → Run XdebugStr) → Type 0
Formats well run = ((well ≡ true) × AppendsSafe run) ⊎ ((well ≡ false) × Faults run)

Formats-then :
    (well : Bool) (f g : XdebugStr → Run XdebugStr)
    → AppendsSafe f
    → Formats well g
    → Formats well (λ xs. f xs >>= g)
Formats-then well f g p (inl (good, q)) = inl (good, safe-then f g p q)
Formats-then well f g p (inr (bad, q)) = inr (bad, fault-then f g p q)

Formats-if :
    (percent well well' : Bool) (f g : XdebugStr → Run XdebugStr)
    → Formats well f
    → Formats well' g
    → Formats (if not percent then well else well') (λ xs. if not percent then f xs else g xs)
Formats-if true well well' f g p q = q
Formats-if false well well' f g p q = p

Formats-last :
    (percent : Bool) (f : XdebugStr → Run XdebugStr)
    → AppendsSafe f
    → Formats (not percent) (λ xs. if not percent then f xs else fault out_of_bounds)
Formats-last true f p = inr (refl, λ xs t is. refl)
Formats-last false f p = inl (refl, p)

module _ (env : Environment) (script_name : Option Bytes) (random : Lacks b'/' env.random)
    (utime : Lacks b'/' env.utime) where
  format_loop-Formats :
      (format : Bytes)
      → Lacks b'/' format
      → Formats (ends_well format) (format_loop env script_name format)
  unfolding format_loop
  format_loop-Formats [] h = inl (refl, safe-nothing)
  format_loop-Formats (c ∷ []) (h, hs) = Formats-last (c == b'%') _ (safe-first c [] h)
  format_loop-Formats (c ∷ d ∷ format) (h, (k, hs)) =
      Formats-if (c == b'%') (ends_well (d ∷ format)) (ends_well format) _ _
        (Formats-then (ends_well (d ∷ format)) _ _ (safe-first c (d ∷ format) h)
          (format_loop-Formats (d ∷ format) (k, hs)))
        (Formats-then (ends_well format) _ _ (safe-specifier env script_name random utime d)
          (format_loop-Formats format hs))

  -- For a format without a slash, and where what printf gives for the random number and for the time has
  -- none: xdebug_format_output_filename gives a name without a slash, whatever the script's name, the
  -- server's values and the session are, without a fault. But where the format ends in a % without a
  -- byte of its own behind it, it reads behind the format's end.
  pub format_output_filename-safe :
      (format : Bytes)
      → Lacks b'/' format
      → ((ends_well format ≡ true)
          × ((xs : XdebugStr) × (name : Bytes) × (format_output_filename env script_name format
                ≡ ok xs)
              × IsStr xs name
              × Lacks b'/' name))
        ⊎ ((ends_well format ≡ false)
            × (format_output_filename env script_name format ≡ fault out_of_bounds))
  unfolding format_output_filename
  format_output_filename-safe format h = elim (format_loop-Formats format h) [
    | inl (good, p) ↦
        let (xs, run, is) = p.appends.appends str_new [] (inl (unfold str_new in (refl, refl))) in
        inl (good, (xs, p.text, run, is, p.safe))
    | inr (bad, q) ↦ inr (bad, q str_new [] (inl (unfold str_new in (refl, refl))))
  ]
