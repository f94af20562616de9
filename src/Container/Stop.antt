-- ===== src/Container/Stop.antt =====
-- `_exit_code_from_wait_status`, `_try_reap_process` and `stop`.
use mini_docker.Base.{
  ℕ, zero, suc, ◌+◌, ◌*◌, ◌%◌, String, Bool, not, ◌&&◌, Option, none, some, ◌==◌, if◌then◌else◌,
}
use mini_docker.Errors.{
  Error, container_not_found, container_invalid_state, container_internal_error, os_error, ok, Exec,
  ◌>>=◌, ◌>>◌, pure, raise, catch,
}
use mini_docker.Metadata.Config.{code}
use mini_docker.Metadata.Store.{load_container_config, is_running, has_exited, exit_status}
use mini_docker.World.{
  Os, World, kill, waitpid, sleep, Signal, probe, sigterm, sigkill, Killed, delivered,
  no_such_process, not_permitted, kill_error, no_child, wait_error, not_yet, reaped, log,
}
use mini_docker.Container.Cleanup.{finalize_stopped_container}

-- `os.WTERMSIG`, and `os.WIFSIGNALED`: the low seven bits are no exit, and no stop.
abbrev pub term_signal : ℕ → ℕ
term_signal status = status % 128

abbrev pub was_signaled : ℕ → Bool
was_signaled status = not (term_signal status == 0) && not (term_signal status == 127)

-- On a POSIX host.
unfoldable pub exit_code_from_wait_status : ℕ → ℕ
exit_code_from_wait_status status =
    if has_exited status
    then exit_status status
    else if was_signaled status
    then 128 + term_signal status
    else 1

-- `signal.SIGKILL`
abbrev pub sigkill_number : ℕ
sigkill_number = 9

abbrev pub or_code : Option ℕ → ℕ → ℕ
or_code none d = d
or_code (some c) d = c

-- `except OSError` turns what is no ESRCH into a `ContainerInternalError`.
abbrev pub as_internal : Error → Exec World ℕ
as_internal e = raise container_internal_error

module _ (os : Os) where
  unfoldable pub try_reap_process : ℕ → Exec World (Option ℕ)
  unfolding exit_code_from_wait_status
  try_reap_process pid = do
    waited ← log (λ calls. os.waitpid calls pid) (waitpid pid)
    elim waited [
      | no_child ↦ pure none
      | wait_error ↦ raise os_error
      | not_yet ↦ pure none
      | reaped status ↦ pure (some (exit_code_from_wait_status status))
    ]

  -- What the processes of the containers, such as the supervisor, write at this point.
  unfoldable pub meanwhile : Exec World Unit
  meanwhile w = (ok tt, record w { containers = os.child_writes w.calls w.containers })

  abbrev pub send : ℕ → Signal → Exec World Killed
  send pid signal = do
    answer ← log (λ calls. os.kill calls pid signal) (kill pid signal)
    meanwhile
    pure answer

  abbrev pub pause : Exec World Unit
  pause = do log (λ calls. tt) sleep; meanwhile

  -- The grace window: `timeout * 10` rounds.
  unfoldable pub wait_for_exit : ℕ → ℕ → Exec World (Option ℕ)
  wait_for_exit zero pid = pure none
  wait_for_exit (suc rounds) pid = do
    exit_code ← try_reap_process pid
    elim exit_code [
      | some c ↦ pure (some c)
      | none ↦ do
        answer ← send pid probe
        elim answer [
          | delivered ↦ do pause; wait_for_exit rounds pid
          | no_such_process ↦ pure (some 0)
          | not_permitted ↦ raise os_error
          | kill_error ↦ raise os_error
        ]
    ]

  -- The ten rounds after SIGKILL.
  unfoldable pub wait_for_reap : ℕ → ℕ → Exec World (Option ℕ)
  wait_for_reap zero pid = pure none
  wait_for_reap (suc rounds) pid = do
    reaped_exit_code ← try_reap_process pid
    elim reaped_exit_code [ some c ↦ pure (some c) | none ↦ do pause; wait_for_reap rounds pid ]

  -- SIGKILL and what follows, with the exit code.
  unfoldable pub force_kill : ℕ → Exec World ℕ
  unfolding wait_for_reap
  force_kill pid = do
    answer ← send pid sigkill
    elim answer [
      | delivered ↦ do
        exit_code ← wait_for_reap 10 pid
        pure (or_code exit_code (128 + sigkill_number))
      | no_such_process ↦ do exit_code ← wait_for_reap 10 pid; pure (or_code exit_code 0)
      | not_permitted ↦ raise os_error
      | kill_error ↦ raise os_error
    ]

  -- The body of the `try`; `none` is an `OSError` with ESRCH of the first SIGTERM.
  unfoldable pub terminate : ℕ → ℕ → Exec World ℕ
  unfolding wait_for_exit force_kill
  terminate timeout pid = do
    found ← send pid probe
    elim found [
      | no_such_process ↦ pure 0
      | not_permitted ↦ raise os_error
      | kill_error ↦ raise os_error
      | delivered ↦ do
        sent ← send pid sigterm
        elim sent [
          | no_such_process ↦ pure 0
          | not_permitted ↦ raise os_error
          | kill_error ↦ raise os_error
          | delivered ↦ do
            exit_code ← wait_for_exit (timeout * 10) pid
            elim exit_code [ some c ↦ pure c | none ↦ force_kill pid ]
        ]
    ]

  unfoldable pub stop : String → ℕ → Exec World Bool
  unfolding terminate
  stop container_id timeout = do
    loaded ← load_container_config os container_id
    elim loaded [
      | none ↦ raise (container_not_found container_id)
      | some config ↦
          if is_running config
          then (elim config.pid [
            | none ↦ finalize_stopped_container os container_id config none
            | some pid ↦
                if pid == 0 then finalize_stopped_container os container_id config none else (do
                  exit_code ← catch (terminate timeout pid) as_internal
                  finalize_stopped_container os container_id config (some (code exit_code)))
          ])
          else raise (container_invalid_state container_id)
    ]
