-- ===== src/Seccomp/Extension/Filters.antt =====
-- The table of filters that the loop over the profile's lines builds.
use saphire.Prelude.{
  ◌<◌, ◌≤◌, ◌≡◌, refl, sym, ap, fun_ext, ◌∙◌, inl, inr, false, Option, none, some, List, [], ◌∷◌,
  lt→ltb, length, length-replicate, replicate, Bool-cases, Option-cases, if◌then◌else◌,
}
use saphire.Prelude.Int.{ℤ}
use saphire.Clib.{Bytes, Run, ok, ◌>>=◌, strchr_cut, bytes_eq}
use saphire.Clib.Text.{eq_of_bytes_eq, ne_of_bytes_eq, bytes_eq_refl}
use saphire.Seccomp.Libs.{Uthash, UthashLaws}
use saphire.Seccomp.Profile.{Filter, row_size, name_size, delim}
use saphire.Seccomp.Profile.Parse.{numbers, Reads, create_seccomp_filter-Reads}
use saphire.Seccomp.Extension.{add_line, read_line, read_lines}

-- The name and the text of each line that has a space.
abbrev pub entries_of_cut : Bytes → Option Bytes → List (Bytes × Bytes) → List (Bytes × Bytes)
entries_of_cut name none es = es
entries_of_cut name (some text) es = (name, text) ∷ es

unfoldable pub entries : List Bytes → List (Bytes × Bytes)
entries [] = []
entries (line ∷ lines) =
    entries_of_cut (strchr_cut delim line).0 (strchr_cut delim line).1 (entries lines)

-- The numbers listed for a name.
abbrev pub listed : Bytes → List (Bytes × Bytes) → Option (List ℤ)
listed rel [] = none
listed rel ((name, text) ∷ es) = if bytes_eq name rel then some (numbers text) else listed rel es

-- Each name and its numbers fit `struct filter`, and no name occurs twice.
abbrev pub Fits : List (Bytes × Bytes) → Type 0
Fits [] = Unit
Fits ((name, text) ∷ es) =
    (length name < name_size)
    × (length (numbers text) ≤ row_size)
    × (listed name es ≡ none)
    × Fits es

-- The table finds a filter with the listed numbers where some are listed, and else what it found
-- before.
abbrev pub Finds : Option (List ℤ) → Option Filter → Option Filter → Type 0
Finds none before after = after ≡ before
Finds (some ns) before after =
    (s : Filter) × (after ≡ some s) × Reads s.syscalls 0 ns × (s.len ≡ length ns)

module _ {ut : Uthash Filter} (laws : UthashLaws ut) where
  read_entries : List (Bytes × Bytes) → ut.Table → Run ut.Table
  read_entries [] t = ok t
  read_entries ((name, text) ∷ es) t = do t' ← add_line ut name text t; read_entries es t'

  read_line-none :
      (line : Bytes) (t : ut.Table) → (strchr_cut delim line).1 ≡ none → read_line ut line t ≡ ok t
  unfolding read_line
  read_line-none line t e = rw (e, read_line)

  read_line-some :
      (line text : Bytes) (t : ut.Table)
      → (strchr_cut delim line).1 ≡ some text
      → read_line ut line t ≡ add_line ut (strchr_cut delim line).0 text t
  unfolding read_line
  read_line-some line text t e = rw (e, read_line)

  read_lines-entries :
      (lines : List Bytes) (t : ut.Table) → read_lines ut lines t ≡ read_entries (entries lines) t
  unfolding read_lines read_entries entries
  read_lines-entries [] t = refl
  read_lines-entries (line ∷ lines) t = elim (Option-cases (strchr_cut delim line).1) [
    | inl e ↦ rw (read_line-none line t e, e) (read_lines-entries lines t)
    | inr (text, e) ↦
        rw (read_line-some line text t e, e)
          (ap (λ k. add_line ut (strchr_cut delim line).0 text t >>= k)
            (fun_ext (read_lines-entries lines)))
  ]

  -- The filter that a line adds.
  add_line-Reads :
      (name text : Bytes) (t : ut.Table)
      → length name < name_size
      → length (numbers text) ≤ row_size
      → (s : Filter) × (add_line ut name text t ≡ ok (ut.add_str name s t))
        × Reads s.syscalls 0 (numbers text)
        × (s.len ≡ length (numbers text))
  unfolding add_line
  add_line-Reads name text t short few =
      let (row, run, reads, _) =
        create_seccomp_filter-Reads text (replicate row_size none) (rw length-replicate few) in
      (
        record { syscalls = row; name = name; len = length (numbers text) },
        rw (run, lt→ltb _ _ short),
        reads,
        refl,
      )

  -- Distinct names: what is listed further down is not the name itself.
  listed_ne :
      (k name text : Bytes) (es : List (Bytes × Bytes)) {ns : List ℤ}
      → listed name es ≡ none
      → listed k es ≡ some ns
      → (bytes_eq name k ≡ false) × (listed k ((name, text) ∷ es) ≡ some ns)
  listed_ne k name text es absent found = elim (Bool-cases (bytes_eq name k)) [
    | inl same ↦
        let none_there : listed k es ≡ none = rw (eq_of_bytes_eq name k same) at absent in cc
    | inr other ↦ (other, rw other found)
  ]

  read_entries-Finds :
      (es : List (Bytes × Bytes)) (t : ut.Table)
      → Fits es
      → ((k : Bytes) (ns : List ℤ) → listed k es ≡ some ns → ut.find_str k t ≡ none)
      → (t' : ut.Table) × (read_entries es t ≡ ok t')
        × ((rel : Bytes) → Finds (listed rel es) (ut.find_str rel t) (ut.find_str rel t'))
  unfolding read_entries
  read_entries-Finds [] t fits fresh = (t, refl, λ rel. refl)
  read_entries-Finds ((name, text) ∷ es) t (short, few, absent, fits) fresh =
      let (s, run, reads, len) = add_line-Reads name text t short few in
      let (t', rest, finds) = read_entries-Finds es (ut.add_str name s t) fits (λ k ns found.
        let (ne, at) = listed_ne k name text es absent found in
        laws.find-add_ne name k s t (ne_of_bytes_eq name k ne) ∙ fresh k ns at) in
      (
        t',
        rw run rest,
        λ rel. elim (Bool-cases (bytes_eq name rel)) [
          | inl same ↦
              let e = eq_of_bytes_eq name rel same in
              let gone : listed rel es ≡ none = rw e at absent in
              let kept : ut.find_str rel t' ≡ ut.find_str rel (ut.add_str name s t) =
                rw gone at (finds rel) in
              let added =
                laws.find-add_self name s t (fresh name (numbers text) (rw (bytes_eq_refl name))) in
              rw same (
                s,
                kept ∙ ap (λ k. ut.find_str k (ut.add_str name s t)) (sym e) ∙ added,
                reads,
                len,
              )
          | inr other ↦
              rw other
                (rw (laws.find-add_ne name rel s t (ne_of_bytes_eq name rel other)) at (finds rel))
        ],
      )

  -- If the names and the numbers of the lines fit and no name occurs twice, reading the lines does not
  -- fault, and the table then finds, for each name, a filter whose first elements are the numbers that
  -- its line lists, each cut to an `int`, in order, and nothing for any other name.
  pub read_lines-Finds :
      (lines : List Bytes)
      → Fits (entries lines)
      → (t : ut.Table) × (read_lines ut lines ut.null_table ≡ ok t)
        × ((rel : Bytes) → Finds (listed rel (entries lines)) none (ut.find_str rel t))
  read_lines-Finds lines fits =
      let (t, run, finds) =
        read_entries-Finds (entries lines) ut.null_table fits (λ k ns _. laws.find-null k) in
      (
        t,
        read_lines-entries lines ut.null_table ∙ run,
        λ rel. rw (laws.find-null rel) at (finds rel),
      )
