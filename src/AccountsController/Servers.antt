-- ===== src/AccountsController/Servers.antt =====
-- The STUN servers and the codecs that the backend is told: src/core/AccountsController.cpp.
use compact_phone.Base.{ℕ, ◌+◌, ◌≡◌, Bool, false, ◌&&◌, ◌||◌, List, [], ◌∷◌, if◌then◌else◌}
use compact_phone.Base.Text.{Text, text_eq}
use compact_phone.Account.{Account}
use compact_phone.AccountsController.{AccountsController, MediaSettings}
use compact_phone.Accounts.Editing

-- Some enabled account has the server.
abbrev pub is_wanted : Text → List Account → Bool
is_wanted s [] = false
is_wanted s (a ∷ rest) = a.enabled && text_eq a.stun_server s || is_wanted s rest

abbrev pub copies : Text → List Text → ℕ
copies s [] = 0
copies s (t ∷ ts) = (if text_eq t s then 1 else 0) + copies s ts

-- What the setters do to a backend whose servers are seen by `servers`.
pub record IsMedia {B : Type 0} (media : MediaSettings B) (servers : B → List Text) : Type 0 where
  pub set : (told : List Text) (b : B) → servers (media.set_stun_servers told b) ≡ told
  pub kept : (codecs : List Text) (b : B) → servers (media.set_codec_priority codecs b) ≡ servers b
