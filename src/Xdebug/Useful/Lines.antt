-- ===== src/Xdebug/Useful/Lines.antt =====
-- usefulstuff.c: xdebug_fd_read_line_delim, which the debugger reads its commands with.
pub mod Filled
pub mod Streams
use saphire.Prelude.{
  ℕ, zero, suc, ◌+◌, ◌-◌, Bool, ◌&&◌, true, false, Option, none, some, List, [], ◌∷◌, ◌++◌, ltb,
  ◌==◌, if◌then◌else◌, length, get_elem?, take,
}
use saphire.Clib.{Bytes, Run, ok, fault, out_of_bounds, null_pointer, strchr_cut, ◌>>=◌}

-- struct fd_buf: the memory without its NUL, and buffer_size.
pub record FdBuf : Type 0 where
  pub buffer : Option Bytes
  pub buffer_size : ℕ

-- `if (!context->buffer)`.
unfoldable pub init_buffer : FdBuf → FdBuf
init_buffer context = elim context.buffer [
  | none ↦ record { buffer = some []; buffer_size = 0 }
  | some _ ↦ context
]

-- Whether the buffer's last byte is the delimiter: the loop ends. The buffer's `char` is signed and the
-- delimiter is not, so that a byte from 128 on is negative and no delimiter.
unfoldable pub is_complete : ℕ → FdBuf → Run Bool
is_complete delim context = elim context.buffer [
  | none ↦ fault null_pointer
  | some b ↦
      if ltb context.buffer_size 1 then ok false else elim (get_elem? b (context.buffer_size - 1)) [
        | none ↦ fault out_of_bounds
        | some c ↦ ok (ltb c 128 && c == delim)
      ]
]

-- The realloc and the memcpy of what was read.
unfoldable pub append_read : FdBuf → Bytes → Run FdBuf
append_read context chunk = elim context.buffer [
  | none ↦ fault null_pointer
  | some b ↦
      if ltb (length b) context.buffer_size
      then fault out_of_bounds
      else ok (record {
        buffer = some (take context.buffer_size b ++ chunk);
        buffer_size = context.buffer_size + length chunk;
      })
]

-- The loop, on what read or recv returns in turn, nothing where it returns 0 or an error: whether a line
-- is there, the buffer and what is left to be read.
unfoldable pub fill : ℕ → FdBuf → List Bytes → Run (Bool × FdBuf × List Bytes)
unfolding is_complete append_read
fill delim context [] = do complete ← is_complete delim context; ok (complete, context, [])
fill delim context (chunk ∷ chunks) = do
  complete ← is_complete delim context
  elim complete [
    | true ↦ ok (true, context, chunk ∷ chunks)
    | false ↦ elim chunk [
      | [] ↦ ok (false, context, chunks)
      | c ∷ cs ↦ (do context' ← append_read context (c ∷ cs); fill delim context' chunks)
    ]
  ]

-- The line, and the buffer with what stands behind it, where memchr finds the delimiter.
unfoldable pub split_line : ℕ → Bytes × Option Bytes → Run (Bytes × FdBuf)
split_line size (line, none) = fault null_pointer
split_line size (line, some rest) =
    let nbufsize = size - length line - 1 in
    ok (
      line,
      record {
        buffer = if ltb 0 nbufsize then some (take nbufsize rest) else none;
        buffer_size = size - (length line + 1);
      },
    )

-- What follows the loop.
unfoldable pub cut_line : ℕ → FdBuf → Run (Bytes × FdBuf)
unfolding strchr_cut split_line
cut_line delim context = elim context.buffer [
  | none ↦ fault null_pointer
  | some b ↦ split_line context.buffer_size (strchr_cut delim (take context.buffer_size b))
]

-- xdebug_fd_read_line_delim: the line, if one is there, the buffer and what is left to be read.
unfoldable pub fd_read_line_delim : ℕ → FdBuf → List Bytes → Run (Option Bytes × FdBuf × List Bytes)
unfolding init_buffer fill cut_line
fd_read_line_delim delim context input = do
  (complete, context', input') ← fill delim (init_buffer context) input
  elim complete [
    | false ↦ ok (none, context', input')
    | true ↦ (do (line, context₂) ← cut_line delim context'; ok (some line, context₂, input'))
  ]
