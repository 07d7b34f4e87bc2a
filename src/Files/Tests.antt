-- ===== src/Files/Tests.antt =====
-- A file of kernel/file.c that is opened and shared.
use cow_pbs_cofee_cafe_icecr.Base.{false, pos, ◌+ℤ◌, int32, update}
use cow_pbs_cofee_cafe_icecr.Files.{File, fd_none, Files}

abbrev free_file : File
free_file = record {
  type = fd_none;
  ref = pos 0;
  readable = false;
  writable = false;
  pipe = 0;
  ip = 0;
  off = 0;
  major = 0;
}

-- The table after fileinit.
abbrev empty : Files
empty = record { table = λ f. free_file; held = λ f. 0 }

abbrev one_open : Files
one_open = record {
  table = update empty.table 0 (record free_file { ref = pos 1 });
  held = update empty.held 0 1;
}

abbrev two_open : Files
two_open = record {
  table = update one_open.table 0 (record free_file { ref = int32 (pos 1 +ℤ pos 1) });
  held = update one_open.held 0 2;
}
