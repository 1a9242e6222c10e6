-- ===== src/AccountsController/RoundTrip.antt =====
-- What the interface reads of an account it can write back: src/core/AccountsController.cpp.
use compact_phone.Base.{◌≡◌, Bool}
use compact_phone.Base.Text.{Text, text_eq}
use compact_phone.Base.TextMap.{get}
use compact_phone.Boot.{Qt}
use compact_phone.Account.{Account, enum_strings_roundtrip}
use compact_phone.AccountsController.Params.{apply_params, snapshot, default_auth_user}

-- The parameters that are read of an account, applied to any other, make it the account that they were
-- read of, but for the id and the password's reference, which it keeps, and an empty authentication user,
-- which becomes the user name.
pub apply_params-snapshot :
    (qt : Qt) (truth : Text → Bool) (old a : Account)
    → apply_params qt truth old (snapshot a)
      ≡ record (default_auth_user qt truth a) { id = old.id; password_ref = old.password_ref }
unfolding apply_params snapshot get text_eq
apply_params-snapshot qt truth old a =
    let enums = enum_strings_roundtrip a.transport a.srtp_mode a.dtmf_method in
    λ i. record (default_auth_user qt truth a) {
      id = old.id;
      password_ref = old.password_ref;
      transport = enums.0 i;
      srtp_mode = enums.1 i;
      dtmf_method = enums.2 i;
    }
