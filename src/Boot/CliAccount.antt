-- ===== src/Boot/CliAccount.antt =====
-- The account of a command line can be added: src/core/BootConfig_parser.cpp.
use compact_phone.Base.{◌≡◌, refl, ap, ◌∙◌, Bool, true, false, not, [], ◌∷◌, ◌++◌}
use compact_phone.Base.Text.{Text, codes, text_eq, is_empty}
use compact_phone.Base.TextMap.{set}
use compact_phone.Boot.{Qt, Value, Params, value, to_string}
use compact_phone.Boot.Settings.{
  Parser, settings, apply_settings, cli_params, cli_server, cli_user, cli_on_start, or_else, set_if,
}
use compact_phone.Boot.Params.{value-set_same, value-set_other, value-apply_settings, all_spare}
use compact_phone.Boot.Complete.{IsStartable, joined-is_empty}

module _ (qt : Qt) (p : Parser) where
  or_else-has_text :
      (s fallback : Text)
      → not (is_empty fallback) ≡ true
      → not (is_empty (or_else qt p s fallback)) ≡ true
  or_else-has_text [] fallback h = h
  or_else-has_text (x ∷ s) fallback h = refl

  -- The settings after the label write none of the keys that an account needs.
  value-settings :
      (k : Text) (m : Params)
      → text_eq (codes "registerOnStartup") k ≡ false
      → all_spare k settings ≡ true
      → value k (
          set
            (codes "registerOnStartup")
            (Value.boolean (cli_on_start qt p))
            (apply_settings qt p settings m))
        ≡ value k m
  value-settings k m other spared =
      value-set_other true k (codes "registerOnStartup") (Value.boolean (cli_on_start qt p))
        (apply_settings qt p settings m) other
      ∙ value-apply_settings qt p k settings m spared

  pub cli_params-IsStartable :
      (password : Text)
      → is_empty (cli_server qt p) ≡ false
      → is_empty (cli_user qt p) ≡ false
      → IsStartable qt (record {
        params = cli_params qt p;
        password = password;
        register_on_start = cli_on_start qt p;
      })
  unfolding cli_params text_eq
  cli_params-IsStartable password server user =
      let u = cli_user qt p in
      let auth = or_else qt p (qt.trimmed (p.value (codes "sip-auth-user"))) u in
      let shown = u ++ b'@' ∷ cli_server qt p in
      let label = or_else qt p (qt.trimmed (p.value (codes "sip-label"))) shown in
      let m1 = set (codes "username") (Value.text u) [] in
      let m2 = set (codes "domain") (Value.text (cli_server qt p)) m1 in
      let m3 = set (codes "authUser") (Value.text auth) m2 in
      let realm = Value.text (qt.trimmed (p.value (codes "sip-realm"))) in
      let m4 = set_if qt p (codes "sip-realm") (codes "authRealm") realm m3 in
      let m5 = set (codes "label") (Value.text label) m4 in
      let nonempty : Value → Bool = λ v. not (is_empty (to_string qt v)) in
      (
        ap nonempty (
              value-settings (codes "username") m5 refl refl
              ∙ value-set_other true (codes "username") (codes "label") (Value.text label) m4 refl
              ∙ value-set_other (p.is_set (codes "sip-realm")) (codes "username")
                  (codes "authRealm") realm m3 refl
              ∙ value-set_other true (codes "username") (codes "authUser") (Value.text auth) m2 refl
              ∙ value-set_other true (codes "username") (codes "domain")
                  (Value.text (cli_server qt p)) m1 refl
              ∙ value-set_same (codes "username") (Value.text u) [])
            ∙ ap not user,
        ap nonempty (
              value-settings (codes "domain") m5 refl refl
              ∙ value-set_other true (codes "domain") (codes "label") (Value.text label) m4 refl
              ∙ value-set_other (p.is_set (codes "sip-realm")) (codes "domain") (codes "authRealm")
                  realm m3 refl
              ∙ value-set_other true (codes "domain") (codes "authUser") (Value.text auth) m2 refl
              ∙ value-set_same (codes "domain") (Value.text (cli_server qt p)) m1)
            ∙ ap not server,
        ap nonempty (
              value-settings (codes "authUser") m5 refl refl
              ∙ value-set_other true (codes "authUser") (codes "label") (Value.text label) m4 refl
              ∙ value-set_other (p.is_set (codes "sip-realm")) (codes "authUser")
                  (codes "authRealm") realm m3 refl
              ∙ value-set_same (codes "authUser") (Value.text auth) m2)
            ∙ or_else-has_text (qt.trimmed (p.value (codes "sip-auth-user"))) u (ap not user),
        ap nonempty (
              value-settings (codes "label") m5 refl refl
              ∙ value-set_same (codes "label") (Value.text label) m4)
            ∙ or_else-has_text (qt.trimmed (p.value (codes "sip-label"))) shown
                (joined-is_empty u b'@' (cli_server qt p)),
        value-set_same (codes "registerOnStartup") (Value.boolean (cli_on_start qt p))
            (apply_settings qt p settings m5),
      )
