-- ===== src/Container/Exits.antt =====
-- The exit codes of `_exit_code_from_wait_status` in mini_docker/container.py.
use mini_docker.Base.{ℕ, ◌+◌, ◌*◌, ◌≡◌, ◌≤◌, ◌<◌, arith}
use mini_docker.Container.Stop.{exit_code_from_wait_status}

-- For a 16-bit wait status that is no stop, the exit code of `_exit_code_from_wait_status` is the
-- argument of `exit` where the process exited, and 128 plus the number of the signal where a
-- signal ended it; the bit for a core dump changes nothing.
pub exit_code_from_wait_status_lem :
    (value signal core : ℕ)
    → value < 256
    → 1 ≤ signal
    → signal < 127
    → core < 2
    → (exit_code_from_wait_status (value * 256) ≡ value)
      × (exit_code_from_wait_status (core * 128 + signal) ≡ 128 + signal)
unfolding exit_code_from_wait_status
exit_code_from_wait_status_lem value signal core v l u c = (ground arith, ground arith)
