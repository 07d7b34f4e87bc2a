-- ===== src/Mem/Tests.antt =====
-- The allocator and a copy-on-write fault at a concrete memory: instances of the theorems.
use cow_pbs_cofee_cafe_icecr.Base.{
  ℕ, ◌<◌, ◌≤◌, ◌%◌, ◌≡◌, ◌≢◌, ◌⊎◌, refl, arith, pos, ◌==◌, if◌then◌else◌, List, [], ◌∷◌, ret, panic,
}
use cow_pbs_cofee_cafe_icecr.Mem.Pages.{Mem, phystop}
use cow_pbs_cofee_cafe_icecr.Mem.Kalloc.{kalloc, kfree, kinit}
use cow_pbs_cofee_cafe_icecr.Mem.Kalloc.Heap.{IsHeap, IsPage}
use cow_pbs_cofee_cafe_icecr.Mem.Kalloc.Alloc.{IsAllocated, kalloc-heap}
use cow_pbs_cofee_cafe_icecr.Mem.Kalloc.Free.{IsReleased, kfree-panic, kfree-IsReleased}
use cow_pbs_cofee_cafe_icecr.Mem.Kalloc.Init.{In, kinit-IsHeap}
use cow_pbs_cofee_cafe_icecr.Mem.Cow.{write_trap}
use cow_pbs_cofee_cafe_icecr.Mem.Walk.Path.{IsPath}
use cow_pbs_cofee_cafe_icecr.Mem.Cow.Fault.{IsFault, IsPrivate, write_trap-IsPrivate}

-- The kernel ends at 0x80001000. The page 0x80005000 is free; the tables 0x80002000, 0x80003000 and
-- 0x80004000 map the address 0x1000 to the page 0x80006000, readable, for the user and
-- copy-on-write, which has two references.
abbrev kend : ℕ
kend = 0x80001000

abbrev memory : Mem
memory = record {
  freelist = 0x80005000;
  refs = λ i. if i == 0x80005 then 0 else if i == 0x80006 then 2 else 1;
  word = λ i.
      if i == 0x10000400
      then 0x20000C01
      else if i == 0x10000600
      then 0x20001001
      else if i == 0x10000801
      then 0x20001913
      else 0;
}

abbrev one_free : List ℕ
one_free = 0x80005000 ∷ []

memory-IsHeap : IsHeap kend memory one_free
memory-IsHeap = record { chain = omega arith; all_free = omega arith; distinct = (tt, tt) }

kalloc-heap_example :
    ((one_free ≡ []) × (kalloc memory ≡ (0, memory)))
    ⊎ ((x : ℕ) × (xs : List ℕ) × (one_free ≡ x ∷ xs) × IsAllocated kend x xs memory (kalloc memory))
kalloc-heap_example = kalloc-heap kend memory one_free memory-IsHeap

kfree-panic_example :
    ((kfree kend 0x80006001 memory ≡ panic)
      → (0x80006001 % 4096 ≢ 0) ⊎ (0x80006001 < kend) ⊎ (phystop ≤ 0x80006001))
    × ((0x80006001 % 4096 ≢ 0) ⊎ (0x80006001 < kend) ⊎ (phystop ≤ 0x80006001)
        → kfree kend 0x80006001 memory ≡ panic)
kfree-panic_example = kfree-panic kend 0x80006001 memory

kfree-IsReleased_example :
    (u : Mem) × (kfree kend 0x80004000 memory ≡ ret u)
    × IsReleased kend 0x80004000 one_free memory u
kfree-IsReleased_example =
    kfree-IsReleased kend 0x80004000 memory one_free memory-IsHeap (omega arith) (omega arith)
      (omega arith)

-- The memory before `kinit`.
abbrev boot : Mem
boot = record { freelist = 0; refs = λ i. 0; word = λ i. 0 }

kinit-IsHeap_example :
    (free : List ℕ) × IsHeap kend (kinit kend boot) free × ((x : ℕ) → IsPage kend x → In x free)
kinit-IsHeap_example = kinit-IsHeap kend boot refl (λ i. refl) (omega arith) (omega arith)

memory-IsPath : IsPath 0x80002000 0x1000 0x10000801 memory
memory-IsPath = record {
  table = 0x80003000;
  last = 0x80004000;
  upper = refl;
  to_table = refl;
  middle = refl;
  to_last = refl;
  here = refl;
}

memory-IsFault : IsFault kend 0x1234 0x80002000 0x10000801 memory
memory-IsFault = record {
  positive = omega arith;
  in_space = omega arith;
  entry = memory-IsPath;
  cow = refl;
  page = omega arith;
  small = omega arith;
  table = omega arith;
  apart = omega arith;
  counted = omega arith;
}

write_trap-IsPrivate_example :
    (u : Mem) × (write_trap kend 0x1234 0x80002000 memory ≡ ret (pos 0, u))
    × IsPrivate kend 0x80005000 0x10000801 [] memory u
write_trap-IsPrivate_example =
    write_trap-IsPrivate kend 0x1234 0x80002000 0x10000801 0x80005000 [] memory memory-IsHeap
      memory-IsFault
