-- ===== src/Tests/Paths.antt =====
-- The theorems on the calls that take a path (system/lib/file_syscalls.c, system/lib/file_meta.c) at
-- small tables.
use spacefish.Prelude.{ℕ}
use spacefish.File.Host.{World}
use spacefish.File.Paths.{Names}
use spacefish.Tests.Files.{world}
use spacefish.Tests.Table.{one_file}

-- The table has the file "/a".
abbrev with_a : World (Unit {0})
with_a = record world { meta = one_file }

-- O_CREAT | O_RDWR
abbrev flags : ℕ
flags = 66
