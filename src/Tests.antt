-- ===== src/Tests.antt =====
-- Runs of the definitions at concrete inputs, and the theorems applied at such inputs.
mod Seccomp
mod Xdebug
mod Branch
mod Useful
mod Dbgp
mod Answer
mod Llist
