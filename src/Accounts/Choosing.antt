-- ===== src/Accounts/Choosing.antt =====
-- What `setDefault` of src/core/AccountsManager.cpp does on each of its branches.
use compact_phone.Base.{ℤ, Bool, ◌&&◌}
use compact_phone.Accounts.Table.{Table}
use compact_phone.Accounts.Editing
use compact_phone.Accounts.Editing.{make_default}
use compact_phone.Accounts.Entries

-- Every statement of the transaction succeeds.
abbrev pub all_succeed : {D : Type 0} → Table D → ℤ → D → Bool
all_succeed t id d =
    let (begun, d1) = t.begin d in
    let (unset, d2) = t.clear_default d1 in
    let (set, d3) = t.mark_default id d2 in begun && unset && set && (t.commit d3).0
