-- ===== src/Tests/Editing.antt =====
-- The theorems about the accounts manager's edits, at a run over the stores in memory.
use compact_phone.Base.{pos, ◌≡◌, refl, ◌≤◌, Bool, false, List, [], ◌∷◌, arith, z_eq}
use compact_phone.Base.Dict.{is_some, map_option, lookup}
use compact_phone.Base.Text.{Text, codes, text_eq}
use compact_phone.Backend.Fake.{FakeSipBackend}
use compact_phone.Backend.Fake.Engine
use compact_phone.Backend.Fake.Calls.{fake_backend}
use compact_phone.Accounts.{find_password}
use compact_phone.Accounts.Registration.{has_registered}
use compact_phone.Accounts.Table.{Row, row_of, row_at}
use compact_phone.Accounts.Tied.{count}
use compact_phone.Accounts.RoundTrip.{read_back}
use compact_phone.Accounts.Editing
use compact_phone.Accounts.Editing.{AccountBook}
use compact_phone.Accounts.Choosing
use compact_phone.Accounts.Restart
use compact_phone.Accounts.Restart.{Edit, IsAccountsTable}
use compact_phone.Tests.{account, ready_backend}
use compact_phone.Tests.Store.{memory, memory_with, Database, memory-IsTable, keychain}

-- One account in the database, and one more added, made the default and disabled.
abbrev pub stored : List Row
stored = row_of account ∷ []

abbrev history : List Edit
history =
    Edit.register_startup
    ∷ Edit.add (codes "ref") account (codes "pw")
    ∷ Edit.set_default (pos 2)
    ∷ Edit.set_enabled (pos 2) false
    ∷ []

pub stored-IsAccountsTable : IsAccountsTable stored
unfolding row_of row_at z_eq
stored-IsAccountsTable k = ground arith

abbrev after : AccountBook FakeSipBackend (List (Text × Text)) Database
after = Restart.edits fake_backend keychain memory history (
    Editing.load fake_backend keychain memory
      (Restart.started fake_backend keychain memory ready_backend [] (stored, [])))

registered-backend_ids_example :
    (count (pos 1) after.manager.entries ≤ 1)
    × (has_registered (pos 1) after.manager.entries
        ≡ is_some (lookup (pos 1) after.manager.backend_ids))
registered-backend_ids_example =
    Restart.registered-backend_ids fake_backend keychain memory memory-IsTable ready_backend []
      (stored, []) stored-IsAccountsTable history (pos 1)

no_loss :
    Restart.any_loses_commit fake_backend keychain memory history (
      Editing.load fake_backend keychain memory
        (Restart.started fake_backend keychain memory ready_backend [] (stored, [])))
    ≡ false
unfolding Restart.any_loses_commit Editing.load find_password text_eq Engine.add_account
no_loss = refl

find-restart_example :
    Editing.find (pos 2) (
      Editing.load fake_backend keychain memory
        (Restart.started fake_backend keychain memory ready_backend [] after.database))
    ≡ map_option read_back (Editing.find (pos 2) after)
find-restart_example =
    Restart.find-restart fake_backend keychain memory memory-IsTable ready_backend [] (stored, [])
      stored-IsAccountsTable history ready_backend [] (pos 2) no_loss

abbrev loaded : AccountBook FakeSipBackend (List (Text × Text)) Database
loaded =
    Editing.load fake_backend keychain (memory_with false)
      (Restart.started fake_backend keychain (memory_with false) ready_backend [] (stored, []))

-- The only account is chosen as the default one, and the COMMIT fails.
abbrev chosen : Bool × AccountBook FakeSipBackend (List (Text × Text)) Database
chosen = Editing.set_default fake_backend keychain (memory_with false) (pos 1) loaded
