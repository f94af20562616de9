-- ===== src/Seccomp.antt =====
-- mini_docker/seccomp.py.
pub mod Syscalls
pub mod Whitelist
pub mod Bpf
pub mod Filter
pub mod Machine
pub mod Numbers
pub mod Total
pub mod Verdict
pub mod Forbidden
pub mod Encoding
pub mod Manager
pub mod Policy
