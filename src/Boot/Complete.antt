-- ===== src/Boot/Complete.antt =====
-- The accounts of a configuration: src/core/BootConfig_file.cpp and BootConfig_parser.cpp.
use compact_phone.Base.{
  ℕ, ◌≡◌, refl, ap, ◌∙◌, sym, Bool, true, false, not, ◌&&◌, [], ◌∷◌, ◌++◌, arith, inl, inr,
  Bool-cases,
}
use compact_phone.Base.Text.{Text, codes, text_eq, is_empty}
use compact_phone.Boot.{Qt, System, Console, Value, Params, value, to_string, BootAccount}
use compact_phone.Boot.Object.{
  Json, read_fields, fill_auth_user, fill_label, is_complete, parse_account_object,
}
use compact_phone.Boot.Params.{value-set_same, value-set_other}

pub joined-is_empty : (s : Text) (c : ℕ) (t : Text) → not (is_empty (s ++ c ∷ t)) ≡ true
joined-is_empty [] c t = refl
joined-is_empty (d ∷ s) c t = refl

module _ (qt : Qt) where
  abbrev pub has_text : Text → Params → Bool
  has_text key m = not (is_empty (to_string qt (value key m)))

  -- What an account needs to be added, and its start flag in both of its places.
  abbrev pub IsStartable : BootAccount → Type 0
  IsStartable a =
      (has_text (codes "username") a.params ≡ true)
      × (has_text (codes "domain") a.params ≡ true)
      × (has_text (codes "authUser") a.params ≡ true)
      × (has_text (codes "label") a.params ≡ true)
      × (value (codes "registerOnStartup") a.params ≡ Value.boolean a.register_on_start)

  -- What a start account keeps of its parameters, by the reads.
  has_text-same :
      (key : Text) (m m' : Params) → value key m' ≡ value key m → has_text key m' ≡ has_text key m
  has_text-same key m m' h = ap (λ v. not (is_empty (to_string qt v))) h

  module _ {J : Type 0} (json : Json J) (m : Params) where
    abbrev authorised : Params
    authorised = fill_auth_user json qt m

    value-fill_auth_user :
        (key : Text) → text_eq (codes "authUser") key ≡ false → value key authorised ≡ value key m
    value-fill_auth_user key other =
        value-set_other (is_empty (to_string qt (value (codes "authUser") m))) key
          (codes "authUser") (value (codes "username") m) m other

    fill_auth_user-has_text :
        has_text (codes "username") m ≡ true → has_text (codes "authUser") authorised ≡ true
    fill_auth_user-has_text user =
        elim (Bool-cases (is_empty (to_string qt (value (codes "authUser") m)))) [
          | inl e ↦ rw (e) (
              ap (λ v. not (is_empty (to_string qt v)))
                (value-set_same (codes "authUser") (value (codes "username") m) m)
              ∙ user)
          | inr e ↦ rw (e) (ap not e)
        ]

    value-fill_label :
        (key : Text)
        → text_eq (codes "label") key ≡ false
        → value key (fill_label json qt m) ≡ value key m
    value-fill_label key other =
        let user = to_string qt (value (codes "username") m) in
        let server = to_string qt (value (codes "domain") m) in
        value-set_other
          (is_empty (to_string qt (value (codes "label") m))
            && not (is_empty user)
            && not (is_empty server))
          key (codes "label") (Value.text (user ++ b'@' ∷ server)) m other

    fill_label-has_text :
        has_text (codes "username") m ≡ true
        → has_text (codes "domain") m ≡ true
        → has_text (codes "label") (fill_label json qt m) ≡ true
    fill_label-has_text user server =
        elim (Bool-cases (is_empty (to_string qt (value (codes "label") m)))) [
          | inl e ↦
              let name = to_string qt (value (codes "username") m) in
              let host = to_string qt (value (codes "domain") m) in
              rw (e, user, server)
                (ap (λ v. not (is_empty (to_string qt v)))
                    (value-set_same (codes "label") (Value.text (name ++ b'@' ∷ host)) m)
                  ∙ joined-is_empty name b'@' host)
          | inr e ↦ rw (e) (ap not e)
        ]

  module _ {J : Type 0} (json : Json J) (on_start : Bool) (m : Params) where
    abbrev named : Params
    named = fill_auth_user json qt m

    abbrev filled : Params
    filled = fill_label json qt named

    read_through :
        (key : Text)
        → text_eq (codes "authUser") key ≡ false
        → text_eq (codes "label") key ≡ false
        → value key filled ≡ value key m
    read_through key other other' =
        value-fill_label json named key other' ∙ value-fill_auth_user json m key other

    filled-IsStartable :
        (password : Text)
        → value (codes "registerOnStartup") m ≡ Value.boolean on_start
        → (has_text (codes "username") filled && has_text (codes "domain") filled) ≡ true
        → IsStartable
            (record { params = filled; password = password; register_on_start = on_start })
    unfolding text_eq
    filled-IsStartable password start whole =
        let user : has_text (codes "username") filled ≡ true = ground arith in
        let server : has_text (codes "domain") filled ≡ true = ground arith in
        let user1 =
          sym (
            has_text-same (codes "username") named filled
              (value-fill_label json named (codes "username") refl))
          ∙ user in
        let server1 =
          sym (
            has_text-same (codes "domain") named filled
              (value-fill_label json named (codes "domain") refl))
          ∙ server in
        let user0 =
          sym
            (has_text-same (codes "username") m filled (read_through (codes "username") refl refl))
          ∙ user in
        (
          user,
          server,
          has_text-same (codes "authUser") named filled
                (value-fill_label json named (codes "authUser") refl)
              ∙ fill_auth_user-has_text json m user0,
          fill_label-has_text json named user1 server1,
          read_through (codes "registerOnStartup") refl refl ∙ start,
        )

  module _ {J S : Type 0} (json : Json J) (sys : System S) where
    read_fields-value :
        (obj : J) (on_start : Bool)
        → value (codes "registerOnStartup") (read_fields json obj on_start) ≡ Value.boolean on_start
    unfolding read_fields
    read_fields-value obj on_start =
        value-set_same (codes "registerOnStartup") (Value.boolean on_start) _

    pub parse_account_object-IsStartable :
        (obj : J) (c : Console S)
        → is_complete json qt (parse_account_object json qt sys obj c).0 ≡ true
        → IsStartable (parse_account_object json qt sys obj c).0
    unfolding parse_account_object
    parse_account_object-IsStartable obj c whole =
        let a = (parse_account_object json qt sys obj c).0 in
        filled-IsStartable json a.register_on_start (read_fields json obj a.register_on_start)
          a.password (read_fields-value obj a.register_on_start) whole
