-- ===== src/Sysfile/Exit.antt =====
-- What `exit` of xv6/proc.c does with the files of the process, before it takes `ptable.lock`.
use operation_system.Sysfile.{
  fileclose, iput, close_end, argfd, ok, ◌>>=◌, Closing, Result, Process,
}
use operation_system.Base.{ℕ, zero, suc, ◌+◌, Option, none, some, List, [], ◌∷◌, ◌++◌, length, set}

-- A descriptor that is open is closed and cleared.
abbrev pub exit_fd : ℕ → Process → Option ℕ → Result (Process × List Closing)
exit_fd fd p none = ok (p, [])
exit_fd fd p (some f) = close_end p (fileclose f p.files) >>= λ (r : Process × Closing).
    ok (record r.0 { ofile = set r.0.ofile fd none }, r.1 ∷ [])

-- The loop over the descriptors from `fd` on, with `n` of them left, and the closes of pipes that
-- xv6/pipe.c goes on with.
pub exit_fds : ℕ → ℕ → Process → Result (Process × List Closing)
exit_fds zero fd p = ok (p, [])
exit_fds (suc n) fd p = exit_fd fd p (argfd fd p) >>= λ (r : Process × List Closing).
    exit_fds n (fd + 1) r.0 >>= λ (q : Process × List Closing). ok (q.0, r.1 ++ q.1)

-- The loop, and the `iput` of the current directory, which the process then has no more.
pub exit_files : Process → Result (Process × List Closing)
exit_files p = exit_fds (length p.ofile) 0 p >>= λ (r : Process × List Closing).
    iput r.0.cwd r.0.kern >>= λ k. ok (record r.0 { kern = k }, r.1)
