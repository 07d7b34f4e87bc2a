-- ===== src/Mem/Kalloc.antt =====
-- kernel/kalloc.c: the page allocator, with the count of references to each page. `kend` is the
-- address `end` that the linker script gives. The lists of free pages runs through the pages.
pub mod Heap
pub mod Alloc
pub mod Free
pub mod Init
use cow_pbs_cofee_cafe_icecr.Base.{
  ℕ, zero, suc, ◌+◌, ◌-◌, ◌*◌, ◌/◌, ◌%◌, ◌^◌, Bool, not, ◌||◌, ◌==◌, ltb, leb, if◌then◌else◌,
  update, Outcome, panic, ret,
}
use cow_pbs_cofee_cafe_icecr.Mem.Pages.{Mem, pg_round_up, pgsize, phystop, memset_page}

-- The index `(uint64)pa >> 12`.
abbrev pub page_of : ℕ → ℕ
page_of pa = pa / 2 ^ 12

pub increase_no_of_ref : ℕ → Mem → Mem
increase_no_of_ref pa m = record m {
  refs = update m.refs (page_of pa) ((m.refs (page_of pa) + 1) % 2 ^ 32);
}

-- r->next = kmem.freelist; kmem.freelist = r;
pub push : ℕ → Mem → Mem
push r m = record m { word = update m.word (r / 8) m.freelist; freelist = r }

-- The page is filled with 1 and put on the list.
pub junk_and_push : ℕ → Mem → Mem
junk_and_push pa m = push pa (record m { word = memset_page pa 1 m.word })

-- The test before the panic of `kfree`.
abbrev pub bad_page : ℕ → ℕ → Bool
bad_page kend pa = not (pa % 4096 == 0) || (ltb pa kend || leb phystop pa)

-- What follows the decrement, for the new count.
pub release_page : ℕ → ℕ → Mem → Mem
release_page pa count m =
    if ltb 0 count then m else junk_and_push pa (record m { refs = update m.refs (page_of pa) 0 })

pub kfree : ℕ → ℕ → Mem → Outcome Mem
kfree kend pa m =
    let count = (m.refs (page_of pa) + (2 ^ 32 - 1)) % 2 ^ 32 in
    if bad_page kend pa
    then panic
    else ret (release_page pa count (record m { refs = update m.refs (page_of pa) count }))

-- The address of the page, 0 if there is none.
pub kalloc : Mem → ℕ × Mem
kalloc m = if m.freelist == 0 then (0, m) else (
  m.freelist,
  record m {
    freelist = m.word (m.freelist / 8);
    word = memset_page m.freelist 5 m.word;
    refs = update m.refs (page_of m.freelist) 1;
  },
)

-- The loop of `freerange`, for the `n` whole pages from `p` on.
pub free_pages : ℕ → ℕ → Mem → Mem
free_pages zero p m = m
free_pages (suc n) p m = free_pages n (p + pgsize) (junk_and_push p m)

-- The loop of `initialize_no_of_ref_array`.
pub initialize_no_of_ref_array : ℕ → ℕ → Mem → Mem
initialize_no_of_ref_array zero p m = m
initialize_no_of_ref_array (suc n) p m =
    initialize_no_of_ref_array n (p + pgsize) (record m { refs = update m.refs (page_of p) 0 })

-- The rounds that `for(; p + PGSIZE <= pa_end; p += PGSIZE)` makes.
abbrev pub rounds : ℕ → ℕ → ℕ
rounds p pa_end = (pa_end - p) / pgsize

pub freerange : ℕ → ℕ → Mem → Mem
freerange pa_start pa_end m =
    let p = pg_round_up pa_start in
    initialize_no_of_ref_array (rounds p pa_end) p (free_pages (rounds p pa_end) p m)

pub kinit : ℕ → Mem → Mem
kinit kend = freerange kend phystop
