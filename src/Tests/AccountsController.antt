-- ===== src/Tests/AccountsController.antt =====
-- The theorems about the accounts controller, over the stores in memory.
use compact_phone.Base.{
  ℤ, pos, ◌≡◌, ◌≤◌, true, false, Bool, List, [], ◌∷◌, arith, z_eq, ltb_ℤ, invalid_id, ◌⊎◌, ◌&&◌,
  not,
}
use compact_phone.Base.Text.{Text, codes, is_empty}
use compact_phone.Boot.{Value}
use compact_phone.Account.{Account}
use compact_phone.Backend.Fake.{FakeSipBackend}
use compact_phone.Backend.Fake.Engine
use compact_phone.Backend.Fake.Calls.{fake_backend}
use compact_phone.Accounts.{RegistrationState}
use compact_phone.Accounts.Table.{row_of, account_of}
use compact_phone.Accounts.Tied.{IsTied}
use compact_phone.Accounts.Editing
use compact_phone.Accounts.Editing.{AccountBook}
use compact_phone.Accounts.Restart
use compact_phone.Accounts.Defaults.{default_count}
use compact_phone.AccountsController.{AccountsController, MediaSettings}
use compact_phone.AccountsController.Params.{apply_params, snapshot, default_auth_user, new_account}
use compact_phone.AccountsController.RoundTrip
use compact_phone.AccountsController.Status.{active_account_id}
use compact_phone.AccountsController.Servers
use compact_phone.AccountsController.Servers.{is_wanted}
use compact_phone.AccountsController.Active
use compact_phone.AccountsController.Active.{any_up, up_at}
use compact_phone.AccountsController.Actions.{created}
use compact_phone.AccountsController.History
use compact_phone.AccountsController.History.{Act, acts}
use compact_phone.Tests.{account, ready_backend}
use compact_phone.Tests.Store.{Database, memory, memory-IsTable, keychain}
use compact_phone.Tests.Editing.{stored, stored-IsAccountsTable}
use compact_phone.Tests.Boot.{qt}

abbrev media : MediaSettings FakeSipBackend
media = record {
  set_stun_servers = λ servers b. Engine.set_stun_servers servers b;
  set_codec_priority = λ priority_order b. Engine.set_codec_priority priority_order b;
}

abbrev truth : Text → Bool
truth s = not (is_empty s)

abbrev loaded : AccountBook FakeSipBackend (List (Text × Text)) Database
loaded =
    Editing.load fake_backend keychain memory
      (Restart.started fake_backend keychain memory ready_backend [] (stored, []))

-- Another account that is to be the default one, and then the first one again.
abbrev history : List Act
history =
    Act.add_account (codes "ref")
      ((codes "username", Value.text (codes "bob")) ∷ (codes "isDefault", Value.boolean true) ∷ [])
    ∷ Act.update_account (pos 1) ((codes "isDefault", Value.boolean true) ∷ [])
    ∷ Act.registration_event (pos 1) true (pos 200) []
    ∷ Act.remove_account (pos 2)
    ∷ []

one_default : default_count fake_backend keychain memory loaded ≤ 1
unfolding Editing.load account_of row_of z_eq
one_default = ground arith

acts-default_count_example :
    let book =
      (acts fake_backend keychain memory media qt truth history
        (created fake_backend keychain memory media qt truth loaded)).book in
    (default_count fake_backend keychain memory book ≤ 1) × ((k : ℤ) → IsTied k book.manager)
acts-default_count_example =
    History.acts-default_count fake_backend keychain memory media qt truth memory-IsTable
      ready_backend [] (stored, []) stored-IsAccountsTable one_default history

abbrev up : AccountsController FakeSipBackend (List (Text × Text)) Database
up = record {
  book = record loaded {
    manager = record loaded.manager { reg_states = (pos 1, RegistrationState.registered) ∷ [] };
  };
  registered_count = 1;
  active_id = pos 1;
  last_state = [];
  notices = [];
}

active_account_id-outcome_example :
    let m = up.book.manager in
    let all = Editing.accounts up.book in
    (((any_up m all ≡ false) × (active_account_id up ≡ invalid_id))
      ⊎ (up_at m (active_account_id up) all ≡ true))
    × (((ltb_ℤ (pos 0) up.active_id && up_at m up.active_id all) ≡ false)
        ⊎ (active_account_id up ≡ up.active_id))
active_account_id-outcome_example = Active.active_account_id-outcome up

apply_params-snapshot_example :
    apply_params qt truth new_account (snapshot account)
    ≡ record (default_auth_user qt truth account) {
      id = new_account.id;
      password_ref = new_account.password_ref;
    }
apply_params-snapshot_example = RoundTrip.apply_params-snapshot qt truth new_account account

-- Two accounts with the same server.
abbrev with_server : Account
with_server = record account { stun_server = codes "stun.pbx" }

abbrev sharing : AccountsController FakeSipBackend (List (Text × Text)) Database
sharing = record up {
  book = record loaded {
    manager = record loaded.manager {
      entries = Editing.new_entry with_server ∷ Editing.new_entry with_server ∷ [];
    };
  };
}
