-- ===== src/Tests/Useful.antt =====
-- usefulstuff.c on short texts.
use saphire.Prelude.{
  ◌+◌, ◌≤◌, ◌*◌, ◌≡◌, refl, ◌⊎◌, inl, true, false, Option, none, some, List, [], ◌∷◌, ◌++◌, arith,
  length,
}
use saphire.Prelude.Int.{pos}
use saphire.Clib.{Bytes, ok, fault, out_of_bounds, codes}
use saphire.Clib.Text.{Lacks, Lacks-lacks_byte}
use saphire.Clib.Ctype.{starts_with}
use saphire.Xdebug.Str.{XdebugStr}
use saphire.Xdebug.Str.Append.{Holds, IsStr}
use saphire.Xdebug.Useful.Url.{raw_url_encode, raw_url_decode, path_from_url, path_to_url}
use saphire.Xdebug.Useful.Url.Coding.{raw_url_decode-encode}
use saphire.Xdebug.Useful.Url.Paths.{path_from_url-path_to_url}
use saphire.Xdebug.Useful.Explode.{explode, join}
use saphire.Xdebug.Useful.Explode.Joined.{join-explode}
use saphire.Xdebug.Useful.Filename.{Environment, format_output_filename}
use saphire.Xdebug.Useful.Filename.Safe.{ends_well, format_output_filename-safe}
use saphire.Xdebug.Useful.Lines.{FdBuf, fd_read_line_delim}
use saphire.Xdebug.Useful.Lines.Filled.{filled, Keeps, flat, ends_in}
use saphire.Xdebug.Useful.Lines.Streams.{fd_read_line_delim-first}

raw_url_decode-encode_example :
    (raw_url_decode (raw_url_encode true (codes "/a b")) ≡ codes "/a b")
    × (length (raw_url_encode true (codes "/a b")) + 1 ≤ 3 * length (codes "/a b") + 1)
raw_url_decode-encode_example =
    raw_url_decode-encode true (codes "/a b")
      (omega arith, (omega arith, (omega arith, (omega arith, tt))))

-- A file system on which no relative path is found.
abbrev not_found : Bytes → Option Bytes
not_found path = none

path_from_url-path_to_url_example :
    (url : Bytes) × (path_to_url not_found (codes "/a b") ≡ ok url)
    × (path_from_url url ≡ ok (codes "/a b"))
unfolding starts_with
path_from_url-path_to_url_example =
    path_from_url-path_to_url not_found b'a' (codes " b")
      (omega arith, (omega arith, (omega arith, (omega arith, tt))))
      (refl, (refl, (refl, (refl, tt)))) (refl, (refl, (refl, (refl, tt)))) refl refl

join-explode_example :
    (args : List Bytes) × (explode b',' [] (codes "a,,b") [] (pos 2) ≡ ok args)
    × (xs : XdebugStr) × (join (b',' ∷ []) args (pos 0) (pos (length args)) ≡ ok xs)
    × Holds xs (codes "a,,b")
join-explode_example = join-explode b',' [] (codes "a,,b") (pos 2)

-- A line in two pieces, the second with the beginning of the next line and its end.
abbrev pieces : List Bytes
pieces = codes "run" ∷ codes " 1;st;" ∷ codes "x" ∷ []

fd_read_line_delim-first_example :
    ((line : Bytes) × (context' : FdBuf) × (b' : Bytes) × (input' : List Bytes)
      × (fd_read_line_delim b';' (filled []) pieces ≡ ok (some line, context', input'))
      × Keeps context' b'
      × Lacks b';' line
      × ([] ++ flat pieces ≡ line ++ b';' ∷ (b' ++ flat input')))
    ⊎ ((context' : FdBuf) × (fd_read_line_delim b';' (filled []) pieces ≡ ok (none, context', []))
        × Keeps context' ([] ++ flat pieces)
        × (ends_in b';' ([] ++ flat pieces) ≡ false))
fd_read_line_delim-first_example =
    fd_read_line_delim-first b';' (filled []) [] pieces (inl refl) (omega arith)
      (omega arith, (omega arith, (omega arith, tt)))

-- A request whose host has slashes.
abbrev environment : Environment
environment = record {
  cwd = some (codes "/tmp");
  crc32 = λ s. 7;
  pid = 42;
  random = codes "0000ff";
  time = 100;
  utime = codes "100.5";
  http_host = some (codes "a/../b");
  unique_id = none;
  request_uri = none;
  session = none;
}

format_output_filename-safe_example :
    ((ends_well (codes "t.%H") ≡ true)
      × ((xs : XdebugStr) × (name : Bytes) × (format_output_filename environment
              (some (codes "/a.php"))
              (codes "t.%H")
            ≡ ok xs)
          × IsStr xs name
          × Lacks b'/' name))
    ⊎ ((ends_well (codes "t.%H") ≡ false)
        × (format_output_filename environment (some (codes "/a.php")) (codes "t.%H")
            ≡ fault out_of_bounds))
format_output_filename-safe_example =
    format_output_filename-safe environment (some (codes "/a.php"))
      (Lacks-lacks_byte b'/' (codes "0000ff") refl) (Lacks-lacks_byte b'/' (codes "100.5") refl)
      (codes "t.%H") (Lacks-lacks_byte b'/' (codes "t.%H") refl)
