-- ===== src/Lib.antt =====
-- A model of the program's core in C: the PHP extension that puts a system call filter on a script
-- (stage3/extension/seccomp.c), and the data structures, the helpers and the debugger protocol of the
-- tracing extension that finds out what scripts call (stage1/interpreter-tracing/TE_xdebug).
--
-- The program works in three stages. Stage 1 traces the interpreter, stage 2 collects for each script
-- the system calls it can reach and prints them as a profile (stage2/build-filters/main.go), one line
-- for each script, and stage 3 reads the profile at the start of PHP and loads the filter of the script
-- that the first request asks for.
--
-- The files, each named for its part:
--   Prelude: Boolean tests on the native ℕ, the integers and the list lemmas that all parts share.
--   Clib: what the code uses of the C language and its library. `Run` is the result of code that can
--     fault: a null pointer, an access out of bounds, a read of memory never written. Texts are lists
--     of bytes without their NUL. Clib/Text describes a text as the fields between its delimiters,
--     Clib/Ctype is ctype.h and strstr, Clib/Decimal is about the digits that printf prints and atoi
--     reads.
--   Seccomp/Libs: libseccomp and uthash as parameters, with the behaviour they document as laws.
--   Seccomp/Profile: `hash` and `create_seccomp_filter`. Its children prove what the parser reads
--     (Parse), what the hash is (Djb) and that the parser reads what stage 2 prints (Format).
--   Seccomp/Extension: PHP_MINIT_FUNCTION (`minit`), load_seccomp_profile and seccomp_execute_internal
--     on the state `Globals`, the global variables and the filters that the kernel has taken. The
--     settings are `Ini`, a request is `Request`. Filters is about the table of filters, Rules and
--     Load about the rules that reach the kernel, Requests about sequences of calls of the hook.
--   Xdebug/Bitset: xdebug_set.c. Bytes are numbers below 256; a position is checked against the memory.
--   Xdebug/Str: xdebug_str.c. A buffer is a list of bytes, none where nothing was written; every write
--     is checked against its length. Format is the loop of xdebug_sprintf, vsnprintf a parameter;
--     Append is about what is appended, Fetched about what is read from memory for it, Copy about copies
--     and Appends about code that appends one piece behind the other.
--   Xdebug/Llist: xdebug_llist.c on a heap of elements that point to their neighbours; malloc's result is an
--     argument. Chains says what list a heap holds, Linked and Insert are about insertion, Unlinked
--     and Remove about removal, Empty about the removal of all.
--   Xdebug/Hash: xdebug_hash.c, with each chain as the list of its elements. A destructor's calls are
--     the list of the values it is called with. Slots, Keys and Chains are about the parts of a
--     table, Table about the map that it stands for, Apply about walks over it.
--   Xdebug/Filter: xdebug_filter.c, on the fields of a stack entry that it reads and writes.
--   Xdebug/Branch: the paths and branches of xdebug_branch_info.c. Arrays is about their arrays, Paths
--     about paths, Keys about the text that a path has as its key, Info about the branches and their
--     updates, Find about the search of the paths.
--   Xdebug/Useful: usefulstuff.c. Url is the encoding of URLs and the conversion of paths, the engine's
--     look-up of a relative path a parameter; Explode is the splitting and joining of texts; Lines is
--     the reading of lines from a connection, on the pieces that read or recv returns; Filename is the
--     names of output files, from a format and the values of the engine in `Environment`.
--   Xdebug/Compat: xdebug_stripcslashes of xdebug_compat.c, Escaped about the escapes it undoes.
--   Xdebug/Xml: xdebug_xml.c and xdebug_xmlize of xdebug_var.c. A node with its child and the next node is
--     one tree; str_to_str and base64 of the engine are parameters. Escape and Unescape are
--     about entities, Print about the text of a tree, Clean about the NULs it does not have.
--   Xdebug/Dbgp: xdebug_handler_dbgp.c. parse_cmd is the state machine that reads a command; Accepts,
--     Given and Written are about commands as a client writes them, Refused about the others. Answer is
--     xdebug_dbgp_parse_option, the handlers a parameter, and make_message; Cases and Framed are about
--     these two, Commands about the table of commands.
--
-- Loops are structural recursion but for six. create_loop runs on fuel, one more than the bytes of the
-- text, which is enough since each round takes a byte at least; its theorems are about the function with
-- that fuel. The loop of xdebug_sprintf takes its rounds from an argument;
-- 31 are enough for a text of fewer than 2 ^ 30 bytes, since a round doubles the size or fits the text. find_path has the depth of the
-- recursion as its fuel; one more than the number of outs is enough, since each call takes a new edge.
-- explode_loop has one more than the text's length, since each round passes a delimiter;
-- the loop of xdebug_llist_empty has one more than the elements, since each round removes one;
-- the loop over strpbrk has one more than the text's bytes, since each round replaces one.
--
-- Allocation never fails here. 64-bit and 32-bit wrap-around is written out in the two hashes. An `int`
-- that holds a length or a count is a number of any size; that is what the code has as long as it is below
-- 2 ^ 31, or for a negative one not below -2 ^ 31. Four definitions go further: create_loop cuts the
-- numbers of a profile to an `int` (`atoi_int`), str_add_int keeps the low 32 bits of a length,
-- sprintf_loop faults where its `int size` overflows, and is_complete takes a `char` from 128 on as
-- negative. Not modelled: freeing memory, the engine's values, the
-- handlers of the debugger's commands, the other parts of the tracing extension, the Go and Python
-- tools but for the format of the profile.
pub mod Prelude
pub mod Clib
pub mod Seccomp
pub mod Xdebug
pub mod Tests
