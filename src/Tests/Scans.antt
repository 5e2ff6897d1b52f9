-- ===== src/Tests/Scans.antt =====
-- Two small files, scanned from an empty store and from the memory store.
use mosito.Base.{ℕ, List, [], ◌∷◌, replicate, ◌==◌, arith, length-replicate}
use mosito.Buffer.{Block}
use mosito.Queue.{block_size}
use mosito.Scan.{MemoryStore, prelude, gather}
use mosito.Scan.Reads.{IsPaged}
use mosito.Scan.Pages.{IsSame, IsStored, scan-IsPaged}
use mosito.Tests.Memory.{plain}

==-IsSame : IsSame ◌==◌
==-IsSame = record { sound = λ x y e. ground arith; itself = λ x. ground arith }

-- File `n` holds the numbers `n` and 7.
abbrev disk : ℕ → List ℕ
disk name = name ∷ 7 ∷ []

abbrev no_files : MemoryStore ◌==◌
no_files = record { blocks = [] }

abbrev page : Block
page = record { mem = replicate block_size 0; free = 0; size = block_size; tuple_size = 0 }

scan-IsPaged_example :
    IsStored ◌==◌ ==-IsSame disk (prelude ◌==◌ plain 0 disk no_files 3).0
    × IsPaged (disk 3) (
        gather ◌==◌
          (prelude ◌==◌ plain 0 disk no_files 3).0
          5
          (prelude ◌==◌ plain 0 disk no_files 3).1
          page)
scan-IsPaged_example =
    scan-IsPaged ◌==◌ ==-IsSame plain 0 disk no_files 3 page 5
      (λ name blocks e. absurd (ground (arith, e))) (length-replicate {A = ℕ} block_size 0)
      (omega arith)
