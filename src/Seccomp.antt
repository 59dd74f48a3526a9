-- ===== src/Seccomp.antt =====
-- stage3/extension/seccomp.c: the PHP extension that loads, before the first internal function of
-- a request runs, the system-call filter listed for the requested script.
-- The global variables are a record that each function takes and returns. libseccomp, uthash and
-- PHP's settings are parameters (Seccomp/Libs).
pub mod Libs
pub mod Profile
pub mod Extension
