-- ===== src/Seccomp/Whitelist.antt =====
-- ALLOWED_SYSCALLS_WHITELIST and ABSOLUTELY_FORBIDDEN_SYSCALLS of mini_docker/seccomp.py.
use mini_docker.Base.{String, List, [], ◌∷◌, ◌++◌}

-- The first half of the whitelist.
pub whitelist_files : List String
whitelist_files =
    "read" ∷ "write" ∷ "sendfile" ∷ "open" ∷ "openat" ∷ "close" ∷ "lseek" ∷ "pread64" ∷ "pwrite64"
    ∷ "readv" ∷ "writev" ∷ "preadv" ∷ "pwritev" ∷ "preadv2" ∷ "pwritev2" ∷ "stat" ∷ "fstat"
    ∷ "lstat" ∷ "newfstatat" ∷ "statx" ∷ "access" ∷ "faccessat" ∷ "faccessat2" ∷ "fcntl" ∷ "flock"
    ∷ "fsync" ∷ "fdatasync" ∷ "truncate" ∷ "ftruncate" ∷ "rename" ∷ "renameat" ∷ "renameat2"
    ∷ "link" ∷ "linkat" ∷ "unlink" ∷ "unlinkat" ∷ "symlink" ∷ "symlinkat" ∷ "readlink"
    ∷ "readlinkat" ∷ "chmod" ∷ "fchmod" ∷ "fchmodat" ∷ "chown" ∷ "fchown" ∷ "fchownat" ∷ "lchown"
    ∷ "creat" ∷ "mknod" ∷ "mknodat" ∷ "getdents" ∷ "getdents64" ∷ "getcwd" ∷ "chdir" ∷ "fchdir"
    ∷ "mkdir" ∷ "mkdirat" ∷ "rmdir" ∷ "mmap" ∷ "mprotect" ∷ "munmap" ∷ "brk" ∷ "mremap" ∷ "msync"
    ∷ "mincore" ∷ "madvise" ∷ "mlock" ∷ "munlock" ∷ "mlockall" ∷ "munlockall" ∷ "mlock2" ∷ "fork"
    ∷ "vfork" ∷ "clone" ∷ "clone3" ∷ "execve" ∷ "execveat" ∷ "exit" ∷ "exit_group" ∷ "wait4"
    ∷ "rt_sigaction" ∷ "rt_sigprocmask" ∷ "rt_sigreturn" ∷ "rt_sigpending" ∷ "rt_sigtimedwait"
    ∷ "rt_sigsuspend" ∷ "sigaltstack" ∷ "kill" ∷ "tgkill" ∷ "tkill" ∷ "getpid" ∷ "getppid"
    ∷ "gettid" ∷ "getuid" ∷ "getgid" ∷ "geteuid" ∷ "getegid" ∷ "getresuid" ∷ "getresgid"
    ∷ "getgroups" ∷ "getpgid" ∷ "getpgrp" ∷ "getsid" ∷ "setuid" ∷ "setgid" ∷ "setreuid" ∷ "setregid"
    ∷ "setresuid" ∷ "setresgid" ∷ "setgroups" ∷ "setpgid" ∷ "setsid" ∷ "setfsuid" ∷ "setfsgid"
    ∷ "pipe" ∷ []

-- The second half.
pub whitelist_rest : List String
whitelist_rest =
    "pipe2" ∷ "dup" ∷ "dup2" ∷ "dup3" ∷ "socket" ∷ "connect" ∷ "accept" ∷ "accept4" ∷ "bind"
    ∷ "listen" ∷ "sendto" ∷ "recvfrom" ∷ "sendmsg" ∷ "recvmsg" ∷ "sendmmsg" ∷ "recvmmsg"
    ∷ "shutdown" ∷ "getsockname" ∷ "getpeername" ∷ "socketpair" ∷ "setsockopt" ∷ "getsockopt"
    ∷ "poll" ∷ "ppoll" ∷ "select" ∷ "pselect6" ∷ "epoll_create" ∷ "epoll_create1" ∷ "epoll_ctl"
    ∷ "epoll_wait" ∷ "epoll_pwait" ∷ "epoll_pwait2" ∷ "clock_gettime" ∷ "clock_getres"
    ∷ "clock_nanosleep" ∷ "gettimeofday" ∷ "nanosleep" ∷ "times" ∷ "timer_create" ∷ "timer_settime"
    ∷ "timer_gettime" ∷ "timer_getoverrun" ∷ "timer_delete" ∷ "alarm" ∷ "getitimer" ∷ "setitimer"
    ∷ "futex" ∷ "set_robust_list" ∷ "get_robust_list" ∷ "getrandom" ∷ "getrlimit" ∷ "setrlimit"
    ∷ "prlimit64" ∷ "getrusage" ∷ "sched_yield" ∷ "sched_getparam" ∷ "sched_setparam"
    ∷ "sched_getscheduler" ∷ "sched_setscheduler" ∷ "sched_get_priority_max"
    ∷ "sched_get_priority_min" ∷ "sched_rr_get_interval" ∷ "sched_getaffinity" ∷ "sched_setaffinity"
    ∷ "sched_getattr" ∷ "sched_setattr" ∷ "uname" ∷ "sysinfo" ∷ "getcpu" ∷ "ioctl" ∷ "prctl"
    ∷ "arch_prctl" ∷ "set_tid_address" ∷ "set_thread_area" ∷ "get_thread_area" ∷ "capget" ∷ "umask"
    ∷ "sync" ∷ "syncfs" ∷ "eventfd" ∷ "eventfd2" ∷ "signalfd" ∷ "signalfd4" ∷ "timerfd_create"
    ∷ "timerfd_settime" ∷ "timerfd_gettime" ∷ "inotify_init1" ∷ "fallocate" ∷ "splice" ∷ "tee"
    ∷ "vmsplice" ∷ "copy_file_range" ∷ "sync_file_range" ∷ "memfd_create" ∷ "statfs" ∷ "fstatfs"
    ∷ "utime" ∷ "utimes" ∷ "utimensat" ∷ "futimesat" ∷ "getxattr" ∷ "lgetxattr" ∷ "fgetxattr"
    ∷ "listxattr" ∷ "llistxattr" ∷ "flistxattr" ∷ "mbind" ∷ "get_mempolicy" ∷ "set_mempolicy"
    ∷ "pause" ∷ "rseq" ∷ "close_range" ∷ "openat2" ∷ "rt_tgsigqueueinfo" ∷ "membarrier" ∷ []

unfoldable pub allowed_syscalls_whitelist : List String
unfolding whitelist_files whitelist_rest
allowed_syscalls_whitelist = whitelist_files ++ whitelist_rest

unfoldable pub absolutely_forbidden_syscalls : List String
absolutely_forbidden_syscalls =
    "ptrace" ∷ "process_vm_readv" ∷ "process_vm_writev" ∷ "kcmp" ∷ "init_module" ∷ "finit_module"
    ∷ "delete_module" ∷ "kexec_load" ∷ "kexec_file_load" ∷ "reboot" ∷ "swapon" ∷ "swapoff" ∷ "mount"
    ∷ "umount" ∷ "umount2" ∷ "pivot_root" ∷ "settimeofday" ∷ "clock_settime" ∷ "clock_adjtime"
    ∷ "adjtimex" ∷ "sethostname" ∷ "setdomainname" ∷ "iopl" ∷ "ioperm" ∷ "acct" ∷ "syslog"
    ∷ "lookup_dcookie" ∷ "bpf" ∷ "perf_event_open" ∷ "userfaultfd" ∷ "fanotify_init"
    ∷ "fanotify_mark" ∷ "add_key" ∷ "keyctl" ∷ "request_key" ∷ "capset" ∷ "setns" ∷ "unshare"
    ∷ "personality" ∷ "quotactl" ∷ "vhangup" ∷ "move_pages" ∷ "seccomp" ∷ []
