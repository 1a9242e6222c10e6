-- ===== src/Updates.antt =====
-- src/core/UpdateChecker.h, UpdateChecker.cpp: the check for a newer version. Qt's texts, numbers, URLs and
-- XML reader are parameters.
pub mod Versions
pub mod Feed
pub mod Ordering
pub mod Offers
use compact_phone.Base.{ℕ, ℤ, Bool, Option, List}
use compact_phone.Base.Text.{Text}

-- What Qt reads of texts: the digits, a number of a run of digits, and `toInt`, none where it is not ok.
pub record Numbers : Type 0 where
  pub is_digit : ℕ → Bool
  pub to_unsigned : Text → ℕ
  pub to_int : Text → Option ℤ

-- `QUrl`, in strict mode.
pub record Urls (U : Type 0) : Type 0 where
  pub no_url : U
  pub parse : Text → U
  pub is_valid : U → Bool
  pub is_empty : U → Bool
  pub host : U → Text
  pub scheme : U → Text
  pub equal_ignoring_case : Text → Text → Bool
  pub to_lower : Text → Text

-- The attributes of an `<enclosure>`.
pub record Enclosure : Type 0 where
  pub short_version : Text
  pub version : Text
  pub url : Text

pub data UpdateSignal (U : Type 0) : Type 0 where
  feed_url_changed : UpdateSignal U
  up_to_date : UpdateSignal U
  check_failed : Text → UpdateSignal U
  update_available : Text → U → UpdateSignal U

-- `requests` are those that are under way.
pub record UpdateChecker (U : Type 0) : Type 0 where
  pub feed_url : Text
  pub current_version : Text
  pub latest_version : Text
  pub latest_url : Option U
  pub requests : List U
  pub signals : List (UpdateSignal U)
