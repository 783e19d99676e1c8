-- ===== src/Transfers/Tests.antt =====
-- Transfers by a slow system.
use xlib.Common.{ℕ, List, [], ltb, if◌then◌else◌}
use xlib.Ledger.{Status, gave}

-- At most three bytes are transferred at a time.
abbrev slow : ℕ → Status ℕ
slow asked = gave (if ltb 3 asked then 3 else asked)

abbrev slow_from : ℕ → Status (ℕ × List ℕ)
slow_from asked = gave (if ltb 3 asked then 3 else asked, [])
