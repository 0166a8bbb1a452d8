-- ===== src/FileTable/Tests.antt =====
-- Examples for the table of open files: file 3 with two references, and no other.
use os2_project.Base.{ℕ, arith, false, true, List, [], ◌∷◌, if◌then◌else◌, ◌==◌}
use os2_project.FileTable.{File, fd_none, fd_pipe, Closing}
use os2_project.FileTable.Counts.{IsCounted}
use os2_project.FileTable.Calls.{Closed, fileclose_lem}

abbrev unused : File
unused = record {
  type = fd_none;
  ref = 0;
  readable = false;
  writable = false;
  pipe = 0;
  ip = 0;
  off = 0;
  major = 0;
}

abbrev in_use : File
in_use = record unused { type = fd_pipe; ref = 2; readable = true; pipe = 4096 }

abbrev table : ℕ → File
table f = if 3 == f then in_use else unused

abbrev refs : List ℕ
refs = 3 ∷ 3 ∷ []

table-IsCounted : IsCounted table refs
table-IsCounted = record { counts = λ f lt. ground arith; few = λ f lt. ground arith }

abbrev before : List ℕ
before = 3 ∷ []

fileclose_lem_example :
    (done : Closing) × (file' : ℕ → File) × Closed table before [] 3
      (omega arith)
      table-IsCounted
      done
      file'
fileclose_lem_example = fileclose_lem table before [] 3 (omega arith) table-IsCounted
