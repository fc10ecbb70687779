-- ===== src/Buffer/Examples.antt =====
-- Three reads, of which the first has the slab.
use pyuv.Base.{true, [], ◌∷◌}
use pyuv.Buffer.Sharing.{Reads}

abbrev first_reads : Reads
first_reads = record { buffer = record { in_use = true }; owners = 1 ∷ [] }
