-- ===== src/Mem/Copy/Tests.antt =====
-- copyin over the end of the last page of a process.
use cow_pbs_cofee_cafe_icecr.Base.{◌+◌, ◌==◌, if◌then◌else◌}
use cow_pbs_cofee_cafe_icecr.Mem.Pages.{Mem}
use cow_pbs_cofee_cafe_icecr.Mem.Copy.{copyin}
use cow_pbs_cofee_cafe_icecr.Mem.Copy.Fetch.{IsCopyin, copyin-IsCopyin}

-- The tables 0x80002000, 0x80003000 and 0x80004000 map the page 0x2000 to 0x80006000.
abbrev one_page : Mem
one_page = record {
  freelist = 0;
  refs = λ i. 1;
  word = λ i.
      if i == 0x10000400
      then 0x20000C01
      else if i == 0x10000600
      then 0x20001001
      else if i == 0x10000802
      then 0x20001813
      else i + 1;
}

copyin-IsCopyin_example :
    IsCopyin 0x80002000 3 0x2FFC 6 one_page
      (λ j. 0)
      (copyin 0x80002000 3 0x2FFC 6 one_page (λ j. 0))
copyin-IsCopyin_example = copyin-IsCopyin 0x80002000 3 0x2FFC 6 one_page (λ j. 0)
