-- ===== src/Persistence/Examples.antt =====
-- The table of leases at a concrete input.
use kube_queue.Common.{codes, Option, some}
use kube_queue.Leadership.Lease.{Lease}

abbrev row : Option Lease
row = some (record { holder = codes "a"; generation = 4; expires_at = 100000000000 })
