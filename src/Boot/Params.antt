-- ===== src/Boot/Params.antt =====
-- The reads of an account's parameters after the writes of src/core/BootConfig_parser.cpp and
-- BootConfig_file.cpp.
use compact_phone.Base.{
  ◌≡◌, refl, Bool, true, false, not, ◌&&◌, List, [], ◌∷◌, if◌then◌else◌, arith,
}
use compact_phone.Base.Text.{Text, text_eq, text_eq_iff}
use compact_phone.Base.TextMap.{set, get-set}
use compact_phone.Boot.{Qt, Value, Params, value}
use compact_phone.Boot.Server.{bool_option_value}
use compact_phone.Boot.Settings.{Parser, Setting, apply_setting, apply_settings, set_bool_pair}

pub value-set :
    (j k : Text) (v : Value) (m : Params)
    → value j (set k v m) ≡ (if text_eq k j then v else value j m)
value-set j k v m = ground (arith, get-set j k v m)

pub value-set_same : (k : Text) (v : Value) (m : Params) → value k (set k v m) ≡ v
value-set_same k v m = ground (arith, value-set k k v m, text_eq_iff k k)

-- A write under a test, to another key.
pub value-set_other :
    (c : Bool) (j k : Text) (v : Value) (m : Params)
    → text_eq k j ≡ false
    → value j (if c then set k v m else m) ≡ value j m
value-set_other true j k v m h = ground (arith, value-set j k v m)
value-set_other false j k v m h = refl

-- The settings that do not write the key `k`.
abbrev pub spares : Text → Setting → Bool
spares k (Setting.raw name dst) = not (text_eq dst k)
spares k (Setting.lower name dst) = not (text_eq dst k)
spares k (Setting.number name dst) = not (text_eq dst k)
spares k (Setting.yes_no name dst) = not (text_eq dst k)
spares k (Setting.on name dst) = not (text_eq dst k)
spares k (Setting.pair positive negative dst) = not (text_eq dst k)

abbrev pub all_spare : Text → List Setting → Bool
all_spare k [] = true
all_spare k (s ∷ rest) = spares k s && all_spare k rest

module _ (qt : Qt) (p : Parser) (k : Text) where
  value-apply_setting :
      (s : Setting) (m : Params) → spares k s ≡ true → value k (apply_setting qt p s m) ≡ value k m
  unfolding apply_setting set_bool_pair
  value-apply_setting (Setting.raw name dst) m h =
      ground (arith, value-set k dst (Value.text (p.value name)) m)
  value-apply_setting (Setting.lower name dst) m h =
      ground (arith, value-set k dst (Value.text (qt.to_lower (p.value name))) m)
  value-apply_setting (Setting.number name dst) m h =
      ground (arith, value-set k dst (Value.number (qt.to_int (p.value name))) m)
  value-apply_setting (Setting.yes_no name dst) m h =
      ground (arith, value-set k dst (Value.boolean (bool_option_value qt (p.value name) true)) m)
  value-apply_setting (Setting.on name dst) m h =
      ground (arith, value-set k dst (Value.boolean true) m)
  value-apply_setting (Setting.pair positive negative dst) m h =
      let m' = if p.is_set positive then set dst (Value.boolean true) m else m in
      ground
        (arith, value-set k dst (Value.boolean true) m, value-set k dst (Value.boolean false) m')

  pub value-apply_settings :
      (ss : List Setting) (m : Params)
      → all_spare k ss ≡ true
      → value k (apply_settings qt p ss m) ≡ value k m
  unfolding apply_settings
  value-apply_settings [] m h = refl
  value-apply_settings (s ∷ rest) m h =
      ground (arith, value-apply_settings rest (apply_setting qt p s m), value-apply_setting s m)
