-- ===== src/Xdebug.antt =====
-- stage1/interpreter-tracing/TE_xdebug: the tracing extension that stage 1 runs the PHP tests with.
pub mod Bitset
pub mod Str
pub mod Filter
pub mod Llist
pub mod Hash
pub mod Branch
pub mod Useful
pub mod Compat
pub mod Xml
pub mod Dbgp
