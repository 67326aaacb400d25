-- ===== src/Load/Loaded.antt =====
-- What the check of the offsets gives to the search.
use heindall.Prelude.{ℕ, ◌+◌, ◌-◌, List, arith}
use heindall.Build.{offset}
use heindall.Build.Blocks.{blocks_for_rows-ceil}
use heindall.Build.Rows.{HasRoom}
use heindall.Load.Offsets.{IsTable}

-- The blocks of the accepted tables have a lane for every row.
pub IsTable-HasRoom :
    (count clusters : ℕ) (lists blocks : List ℕ)
    → IsTable count clusters lists blocks
    → HasRoom lists blocks clusters
IsTable-HasRoom count clusters lists blocks t c hc =
    omega (arith, t.spans c hc, blocks_for_rows-ceil (offset lists (c + 1) - offset lists c))
