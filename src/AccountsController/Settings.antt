-- ===== src/AccountsController/Settings.antt =====
-- src/core/AccountsController.cpp, `pushNetworkAndCodecSettings`: the backend's settings from the accounts.
use compact_phone.Base.{ℕ, Bool, false, not, ◌&&◌, ◌||◌, List, [], ◌∷◌, if◌then◌else◌, ◌==◌}
use compact_phone.Base.Text.{Text, text_eq, is_empty}
use compact_phone.Account.{Account}
use compact_phone.Accounts.Editing
use compact_phone.Accounts.Editing.{AccountBook}
use compact_phone.AccountsController.{AccountsController, MediaSettings}

abbrev pub is_member : Text → List Text → Bool
is_member s [] = false
is_member s (t ∷ ts) = text_eq t s || is_member s ts

-- The loop over the accounts, with the servers that have been seen.
unfoldable pub stuns_after : List Text → List Account → List Text
stuns_after seen [] = []
stuns_after seen (a ∷ rest) =
    let skipped = stuns_after seen rest in
    let taken = stuns_after (a.stun_server ∷ seen) rest in
    if not a.enabled || is_empty a.stun_server || is_member a.stun_server seen
    then skipped
    else a.stun_server ∷ taken

unfoldable pub first_codecs : (Account → Bool) → List Account → Text
first_codecs test [] = []
first_codecs test (a ∷ rest) = if test a then a.codec_list else first_codecs test rest

-- Of the first enabled default account, or else of the first enabled one that has any.
unfoldable pub codecs_of : List Account → Text
unfolding first_codecs
codecs_of accounts =
    let of_default = first_codecs (λ a. a.enabled && a.is_default) accounts in
    if is_empty of_default
    then first_codecs (λ a. a.enabled && not (is_empty a.codec_list)) accounts
    else of_default

abbrev push : ℕ → List Text → List Text
push c [] = (c ∷ []) ∷ []
push c (t ∷ ts) = (c ∷ t) ∷ ts

-- The tokens between commas. The one after a last comma, which `getline` does not give, is empty.
unfoldable pub tokens : Text → List Text
tokens [] = [] ∷ []
tokens (c ∷ s) = let rest = tokens s in if c == b',' then [] ∷ rest else push c rest

abbrev pub is_blank : ℕ → Bool
is_blank c = c == b' ' || c == 9

-- From the first character that is not blank, and up to the last.
unfoldable pub trim_start : Text → Text
trim_start [] = []
trim_start (c ∷ s) = let rest = trim_start s in if is_blank c then rest else c ∷ s

unfoldable pub trim_end : Text → Text
trim_end [] = []
trim_end (c ∷ s) = let rest = trim_end s in if is_empty rest && is_blank c then [] else c ∷ rest

unfoldable pub trimmed_tokens : List Text → List Text
unfolding trim_start trim_end
trimmed_tokens [] = []
trimmed_tokens (t ∷ ts) =
    let rest = trimmed_tokens ts in
    let token = trim_end (trim_start t) in if is_empty token then rest else token ∷ rest

module _ {B K D : Type 0} (media : MediaSettings B) where
  unfoldable pub push_settings : AccountsController B K D → AccountsController B K D
  unfolding stuns_after codecs_of tokens trimmed_tokens Editing.accounts
  push_settings c =
      let accounts = Editing.accounts c.book in
      let codecs = codecs_of accounts in
      let backend = media.set_stun_servers (stuns_after [] accounts) c.book.manager.backend in
      let backend' =
        if is_empty codecs
        then backend
        else media.set_codec_priority (trimmed_tokens (tokens codecs)) backend in
      record c { book = record c.book { manager = record c.book.manager { backend = backend' } } }
