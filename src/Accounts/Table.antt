-- ===== src/Accounts/Table.antt =====
-- The accounts table as src/core/AccountsManager.cpp binds and reads it. SQLite is a parameter: the
-- statements that the manager runs, over the database's own state, with what they are documented to do.
use compact_phone.Base.{
  ℤ, pos, ◌≡◌, Bool, true, false, not, ◌&&◌, Option, none, some, List, [], ◌∷◌, if◌then◌else◌, z_eq,
  ◌==◌, ◌⊎◌,
}
use compact_phone.Base.Dict.{map_option}
use compact_phone.Base.Text.{Text, is_empty}
use compact_phone.Account.{
  Account, transport_to_string, transport_from_string, srtp_mode_to_string, srtp_mode_from_string,
  dtmf_method_to_string, dtmf_method_from_string,
}

-- A row of `accounts`: flags are 0 or 1.
pub record Row : Type 0 where
  pub id : ℤ
  pub label : Text
  pub display_name : Text
  pub username : Text
  pub domain : Text
  pub auth_user : Text
  pub auth_realm : Text
  pub password_ref : Text
  pub transport : Text
  pub proxy : Text
  pub stun_server : Text
  pub public_address : Text
  pub codec_list : Text
  pub voicemail_number : Text
  pub register_on_startup : ℤ
  pub register_interval_sec : ℤ
  pub keepalive_interval_sec : ℤ
  pub session_timers_enabled : ℤ
  pub publish_presence_enabled : ℤ
  pub ice_enabled : ℤ
  pub hide_caller_id : ℤ
  pub zrtp_enabled : ℤ
  pub srtp_mode : Text
  pub allow_untrusted_cert : ℤ
  pub dtmf_method : Text
  pub is_default : ℤ
  pub enabled : ℤ
  pub sort_order : ℤ
  pub provider : Text

abbrev pub flag : Bool → ℤ
flag b = if b then pos 1 else pos 0

abbrev pub is_set : ℤ → Bool
is_set n = not (z_eq n (pos 0))

-- What `insertRow` and `update` bind, column by column.
unfoldable pub row_of : Account → Row
unfolding transport_to_string srtp_mode_to_string dtmf_method_to_string
row_of a = record {
  id = a.id;
  label = a.label;
  display_name = a.display_name;
  username = a.username;
  domain = a.domain;
  auth_user = a.auth_user;
  auth_realm = a.auth_realm;
  password_ref = a.password_ref;
  transport = transport_to_string a.transport;
  proxy = a.proxy;
  stun_server = a.stun_server;
  public_address = a.public_address;
  codec_list = a.codec_list;
  voicemail_number = a.voicemail_number;
  register_on_startup = flag a.register_on_startup;
  register_interval_sec = a.register_interval_sec;
  keepalive_interval_sec = a.keepalive_interval_sec;
  session_timers_enabled = flag a.session_timers_enabled;
  publish_presence_enabled = flag a.publish_presence_enabled;
  ice_enabled = flag a.ice_enabled;
  hide_caller_id = flag a.hide_caller_id;
  zrtp_enabled = flag a.zrtp_enabled;
  srtp_mode = srtp_mode_to_string a.srtp_mode;
  allow_untrusted_cert = flag a.allow_untrusted_cert;
  dtmf_method = dtmf_method_to_string a.dtmf_method;
  is_default = flag a.is_default;
  enabled = flag a.enabled;
  sort_order = a.sort_order;
  provider = a.provider;
}

-- `readText`: a column is read as a C string, which ends at the first NUL.
unfoldable pub read_text : Text → Text
read_text [] = []
read_text (c ∷ s) = let rest = read_text s in if c == 0 then [] else c ∷ rest

-- The label that is shown for a label and a display name.
abbrev pub label_or : Text → Text → Text
label_or label display_name = if is_empty label then display_name else label

-- What `loadFromDatabase` reads from a row.
unfoldable pub account_of : Row → Account
unfolding read_text transport_from_string srtp_mode_from_string dtmf_method_from_string z_eq
account_of r = record {
  id = r.id;
  label = label_or (read_text r.label) (read_text r.display_name);
  display_name = read_text r.display_name;
  username = read_text r.username;
  domain = read_text r.domain;
  auth_user = read_text r.auth_user;
  auth_realm = read_text r.auth_realm;
  password_ref = read_text r.password_ref;
  transport = transport_from_string (read_text r.transport);
  proxy = read_text r.proxy;
  stun_server = read_text r.stun_server;
  public_address = read_text r.public_address;
  codec_list = read_text r.codec_list;
  voicemail_number = read_text r.voicemail_number;
  register_on_startup = is_set r.register_on_startup;
  register_interval_sec = r.register_interval_sec;
  keepalive_interval_sec = r.keepalive_interval_sec;
  session_timers_enabled = is_set r.session_timers_enabled;
  publish_presence_enabled = is_set r.publish_presence_enabled;
  ice_enabled = is_set r.ice_enabled;
  hide_caller_id = is_set r.hide_caller_id;
  zrtp_enabled = is_set r.zrtp_enabled;
  srtp_mode = srtp_mode_from_string (read_text r.srtp_mode);
  allow_untrusted_cert = is_set r.allow_untrusted_cert;
  dtmf_method = dtmf_method_from_string (read_text r.dtmf_method);
  is_default = is_set r.is_default;
  enabled = is_set r.enabled;
  sort_order = r.sort_order;
  provider = read_text r.provider;
}

-- The statements that the manager runs. `insert_row` answers with the id that the database gives.
pub record Table (D : Type 0) : Type 0 where
  pub rows : D → List Row
  pub insert_row : Row → D → Option ℤ × D
  pub update_row : Row → D → Bool × D
  pub delete_row : ℤ → D → Bool × D
  pub begin : D → Bool × D
  pub clear_default : D → Bool × D
  pub mark_default : ℤ → D → Bool × D
  pub commit : D → Bool × D
  pub rollback : D → D
  pub set_enabled_row : ℤ → Bool → D → Bool × D

-- The row of an id.
unfoldable pub row_at : ℤ → List Row → Option Row
row_at k [] = none
row_at k (r ∷ rs) = if z_eq r.id k then some r else row_at k rs

-- `UPDATE` writes every column but these two.
abbrev pub overwritten : Row → Row → Row
overwritten new old = record new { is_default = old.is_default; password_ref = old.password_ref }

abbrev pub cleared : Row → Row
cleared r = record r { is_default = if z_eq r.is_default (pos 1) then pos 0 else r.is_default }

abbrev pub marked : Row → Row
marked r = record r { is_default = pos 1 }

-- The transaction of `setDefault`.
unfoldable pub write_default : {D : Type 0} → Table D → ℤ → D → Bool × D
write_default t id d =
    let (begun, d1) = t.begin d in
    let (unset, d2) = t.clear_default d1 in
    let (set, d3) = t.mark_default id d2 in
    if not begun
    then (false, d1)
    else if not unset
    then (false, t.rollback d2)
    else if not set
    then (false, t.rollback d3)
    else t.commit d3

-- A `COMMIT` that `setDefault` gets to, and that fails: the program returns false without a rollback.
abbrev pub commit_fails : {D : Type 0} → Table D → ℤ → D → Bool
commit_fails t id d =
    let (begun, d1) = t.begin d in
    let (unset, d2) = t.clear_default d1 in
    let (set, d3) = t.mark_default id d2 in begun && unset && set && not (t.commit d3).0

-- What SQLite does with the statements, as the manager's connection sees the rows, at each id `k`: one
-- that fails changes nothing, an insert gives an id that no row has, and a rollback restores what was
-- there before the transaction. A `COMMIT` may fail; it then either leaves the transaction open, with
-- what was written in it, or has rolled it back.
pub record IsTable {D : Type 0} (t : Table D) : Type 0 where
  pub inserted :
      (r : Row) (d : D) (k id : ℤ)
      → (t.insert_row r d).0 ≡ some id
      → (row_at id (t.rows d) ≡ none)
        × (row_at k (t.rows (t.insert_row r d).1)
            ≡ (if z_eq id k then some (record r { id = id }) else row_at k (t.rows d)))
  pub not_inserted :
      (r : Row) (d : D) (k : ℤ)
      → (t.insert_row r d).0 ≡ none
      → row_at k (t.rows (t.insert_row r d).1) ≡ row_at k (t.rows d)
  pub updated :
      (r : Row) (d : D) (k : ℤ)
      → row_at k (t.rows (t.update_row r d).1) ≡ (
          if (t.update_row r d).0 && z_eq r.id k
          then map_option (overwritten r) (row_at k (t.rows d))
          else row_at k (t.rows d))
  pub deleted :
      (id : ℤ) (d : D) (k : ℤ)
      → row_at k (t.rows (t.delete_row id d).1)
        ≡ (if (t.delete_row id d).0 && z_eq id k then none else row_at k (t.rows d))
  pub begun : (d : D) (k : ℤ) → row_at k (t.rows (t.begin d).1) ≡ row_at k (t.rows d)
  pub unset :
      (d : D) (k : ℤ)
      → (t.clear_default d).0 ≡ true
      → row_at k (t.rows (t.clear_default d).1) ≡ map_option cleared (row_at k (t.rows d))
  pub set :
      (id : ℤ) (d : D) (k : ℤ)
      → (t.mark_default id d).0 ≡ true
      → row_at k (t.rows (t.mark_default id d).1)
        ≡ (if z_eq id k then map_option marked (row_at k (t.rows d)) else row_at k (t.rows d))
  pub committed :
      (d : D) (k : ℤ)
      → (t.commit d).0 ≡ true
      → row_at k (t.rows (t.commit d).1) ≡ row_at k (t.rows d)
  pub not_committed :
      (id : ℤ) (d : D) (k : ℤ)
      → commit_fails t id d ≡ true
      → let d3 = (t.mark_default id (t.clear_default (t.begin d).1).1).1 in
        (row_at k (t.rows (t.commit d3).1) ≡ row_at k (t.rows d3))
        ⊎ (row_at k (t.rows (t.commit d3).1) ≡ row_at k (t.rows d))
  pub rolled_back_unset :
      (d : D) (k : ℤ)
      → (t.begin d).0 ≡ true
      → row_at k (t.rows (t.rollback (t.clear_default (t.begin d).1).1)) ≡ row_at k (t.rows d)
  pub rolled_back_set :
      (id : ℤ) (d : D) (k : ℤ)
      → (t.begin d).0 ≡ true
      → row_at k (t.rows (t.rollback (t.mark_default id (t.clear_default (t.begin d).1).1).1))
        ≡ row_at k (t.rows d)
  pub enabled :
      (id : ℤ) (on : Bool) (d : D) (k : ℤ)
      → row_at k (t.rows (t.set_enabled_row id on d).1) ≡ (
          if (t.set_enabled_row id on d).0 && z_eq id k
          then map_option (λ r. record r { enabled = flag on }) (row_at k (t.rows d))
          else row_at k (t.rows d))
