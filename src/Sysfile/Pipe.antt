-- ===== src/Sysfile/Pipe.antt =====
-- `sys_pipe` of xv6/sysfile.c and `pipealloc` of xv6/pipe.c, over the table of files and kalloc.c. A pipe
-- is named by the address of its page.
pub mod Pending
pub mod Fds
pub mod Counts
use operation_system.Base.{
  ℕ, Bool, true, false, not, Option, none, some, List, [], ◌∷◌, ◌==◌, if◌then◌else◌, get_or, set,
}
use operation_system.Kalloc.{Kmem, kalloc}
use operation_system.Fs.Icache.{Result, ok, ◌>>=◌}
use operation_system.File.{fd_pipe, File, no_file, filealloc, Closing, fileclose}
use operation_system.Sysfile.{Process, fdalloc, close_end}

-- The closes of pipes that xv6/pipe.c goes on with, in their order.
abbrev pub close_files : List ℕ → Process → Result (Process × List Closing)
close_files [] p = ok (p, [])
close_files (f ∷ fs) p =
    close_end p (fileclose f p.files) >>= λ r. close_files fs r.0 >>= λ q. ok (q.0, r.1 ∷ q.1)

abbrev pub Piped : Type 0
Piped = Result (Process × Kmem × List Closing × Option (ℕ × ℕ))

-- `bad:`, for the files that there are.
abbrev pub bad : Kmem → List ℕ → Process → Piped
bad km fs p = close_files fs p >>= λ r. ok (r.0, km, r.1, none)

abbrev pub pipe_file : ℕ → Bool → File → File
pipe_file page writes f = record f { type = fd_pipe page; readable = not writes; writable = writes }

abbrev pub set_ends : ℕ → ℕ → ℕ → List File → List File
set_ends page f0 f1 files =
    let files1 = set files f0 (pipe_file page false (get_or files f0 no_file)) in
    set files1 f1 (pipe_file page true (get_or files1 f1 no_file))

abbrev pub with_page : Process → ℕ → ℕ → ℕ × Kmem → Piped
with_page p f0 f1 (page, km) =
    if page == 0
    then bad km (f0 ∷ f1 ∷ []) p
    else ok (record p { files = set_ends page f0 f1 p.files }, km, [], some (f0, f1))

abbrev pub with_write_end : Kmem → Process → ℕ → List File × Option ℕ → Piped
with_write_end km p f0 (files, none) = bad km (f0 ∷ []) (record p { files = files })
with_write_end km p f0 (files, some f1) = with_page (record p { files = files }) f0 f1 (kalloc km)

abbrev pub with_read_end : Kmem → Process → List File × Option ℕ → Piped
with_read_end km p (files, none) = ok (record p { files = files }, km, [], none)
with_read_end km p (files, some f0) =
    with_write_end km (record p { files = files }) f0 (filealloc files)

-- The files of the two ends; `none` is -1.
unfoldable pub pipealloc : Kmem → Process → Piped
pipealloc km p = with_read_end km p (filealloc p.files)

abbrev pub second_fd : Kmem → Process → ℕ → ℕ → ℕ → Option (List (Option ℕ) × ℕ) → Piped
second_fd km p rf wf fd0 none = bad km (rf ∷ wf ∷ []) (record p { ofile = set p.ofile fd0 none })
second_fd km p rf wf fd0 (some (ofile, fd1)) =
    ok (record p { ofile = ofile }, km, [], some (fd0, fd1))

abbrev pub first_fd : Kmem → Process → ℕ → ℕ → Option (List (Option ℕ) × ℕ) → Piped
first_fd km p rf wf none = bad km (rf ∷ wf ∷ []) p
first_fd km p rf wf (some (ofile, fd0)) =
    second_fd km (record p { ofile = ofile }) rf wf fd0 (fdalloc wf ofile)

abbrev pub with_fds : Process × Kmem × List Closing × Option (ℕ × ℕ) → Piped
with_fds (p, km, cs, none) = ok (p, km, cs, none)
with_fds (p, km, cs, some (rf, wf)) = first_fd km p rf wf (fdalloc rf p.ofile)

-- The two descriptors; `none` is -1.
unfoldable pub sys_pipe : Kmem → Process → Piped
sys_pipe km p = pipealloc km p >>= with_fds
