-- ===== src/Proc/Create.antt =====
-- kernel/proc.c: `allocpid`, `allocproc`, `freeproc` and `fork`, on the process table and
-- `nextpid`. What kalloc, proc_pagetable and uvmcopy answer are arguments, an address being 0 on
-- failure; the pages that they take and that freeproc gives back, the saved registers, the files
-- and the name are not part of this state.
pub mod Alloc
pub mod Fork
use cow_pbs_cofee_cafe_icecr.Base.{
  ℕ, Bool, Option, none, some, ℤ, pos, negsuc, ◌+ℤ◌, int32, ltb_ℤ, ◌==◌, if◌then◌else◌, update,
}
use cow_pbs_cofee_cafe_icecr.Proc.Defs.{Proc, null, unused, used, runnable, state_eq, Table, nproc}
use cow_pbs_cofee_cafe_icecr.Proc.Table.{find}

-- `proc` and `nextpid`
pub record Kernel : Type 0 where
  pub procs : Table
  pub nextpid : ℤ

-- The pid, and the next one.
pub allocpid : ℤ → ℤ × ℤ
allocpid nextpid = (nextpid, int32 (nextpid +ℤ pos 1))

pub clear : Proc → Proc
clear p = record p {
  trapframe = 0;
  pagetable = 0;
  sz = 0;
  pid = pos 0;
  parent = none;
  chan = null;
  killed = pos 0;
  xstate = pos 0;
  state = unused;
}

pub freeproc : ℕ → Table → Table
freeproc i t = update t i (clear (t i))

-- The entry that is found, with its pid and the answer of kalloc.
pub claim : ℤ → ℕ → Proc → Proc
claim pid frame p = record p { pid = pid; state = used; trapframe = frame }

-- The rest of allocproc, once the page table is there.
pub start : ℕ → ℕ → Proc → Proc
start ticks table p = record p {
  pagetable = table;
  rtime = 0;
  etime = 0;
  ctime = ticks;
  wait_time = pos 0;
  running_time = pos 0;
  sleep_time = pos 0;
  st_priority = pos 50;
  rbi = pos 25;
  schedule_count = pos 0;
}

-- The part of allocproc behind `found`. On success the index of the entry comes back.
pub set_up : ℕ → ℕ → ℕ → ℕ → Kernel → Kernel × Option ℕ
set_up ticks frame table i k =
    let ids = allocpid k.nextpid in
    let t : Table = update k.procs i (claim ids.0 frame (k.procs i)) in
    if frame == 0
    then (record { procs = freeproc i t; nextpid = ids.1 }, none)
    else if table == 0
    then (record { procs = freeproc i t; nextpid = ids.1 }, none)
    else (record { procs = update t i (start ticks table (t i)); nextpid = ids.1 }, some i)

pub set_up_found : ℕ → ℕ → ℕ → Kernel → Option ℕ → Kernel × Option ℕ
set_up_found ticks frame table k none = (k, none)
set_up_found ticks frame table k (some i) = set_up ticks frame table i k

pub allocproc : ℕ → ℕ → ℕ → Kernel → Kernel × Option ℕ
allocproc ticks frame table k =
    set_up_found ticks frame table k (find nproc 0 (λ p. state_eq p.state unused) k.procs)

-- The child `np` of `me`, once its memory is copied.
pub inherit : ℕ → Proc → Proc → Proc
inherit me p np = record np { sz = p.sz; parent = some me; state = runnable }

pub fork_into : ℕ → ℤ → Kernel × Option ℕ → ℤ × Kernel
fork_into me copied (k, none) = (negsuc 0, k)
fork_into me copied (k, some np) =
    if ltb_ℤ copied (pos 0) then (negsuc 0, record k { procs = freeproc np k.procs }) else (
      (k.procs np).pid,
      record k { procs = update k.procs np (inherit me (k.procs me) (k.procs np)) },
    )

pub fork : ℕ → ℕ → ℕ → ℕ → ℤ → Kernel → ℤ × Kernel
fork me ticks frame table copied k = fork_into me copied (allocproc ticks frame table k)
