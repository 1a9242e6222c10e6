-- ===== src/Updates/Feed.antt =====
-- src/core/UpdateChecker.cpp: the feed, and what is made of it.
use compact_phone.Base.{Bool, true, false, not, ◌&&◌, ◌||◌, some, List, [], ◌∷◌, if◌then◌else◌}
use compact_phone.Base.Text.{Text, codes, text_eq, is_empty}
use compact_phone.Updates.{Numbers, Urls, Enclosure, UpdateSignal, UpdateChecker}
use compact_phone.Updates.Versions.{Sign, compare_versions}

-- `endsWith`
unfoldable pub ends_with : Text → Text → Bool
ends_with suffix [] = text_eq suffix []
ends_with suffix (c ∷ s) = text_eq suffix (c ∷ s) || ends_with suffix s

abbrev pub is_below : Sign → Bool
is_below Sign.below = true
is_below s = false

-- `ParsedFeed`: an empty version is none.
pub record ParsedFeed (U : Type 0) : Type 0 where
  pub version : Text
  pub url : U

module _ {U : Type 0} (urls : Urls U) where
  unfoldable pub is_https_url : U → Bool
  is_https_url u =
      urls.is_valid u
      && not (urls.is_empty u)
      && not (is_empty (urls.host u))
      && urls.equal_ignoring_case (urls.scheme u) (codes "https")

  unfoldable pub is_trusted_download_host : U → Bool
  unfolding ends_with text_eq
  is_trusted_download_host u =
      let host = urls.to_lower (urls.host u) in
      text_eq host (codes "github.com")
      || ends_with (codes ".github.com") host
      || ends_with (codes ".githubusercontent.com") host

  unfoldable pub set_feed_url : Text → UpdateChecker U → UpdateChecker U
  unfolding text_eq
  set_feed_url url c =
      if text_eq c.feed_url url
      then c
      else record c { feed_url = url; signals = UpdateSignal.feed_url_changed ∷ c.signals }

  unfoldable pub check : UpdateChecker U → UpdateChecker U
  unfolding is_https_url
  check c =
      let url = urls.parse c.feed_url in
      if is_empty c.feed_url
      then record c { signals = UpdateSignal.up_to_date ∷ c.signals }
      else if not (is_https_url url)
      then record c {
        signals = UpdateSignal.check_failed (codes "invalid update feed URL") ∷ c.signals;
      }
      else record c { requests = url ∷ c.requests }

  module _ (num : Numbers) where
    abbrev pub version_of : Enclosure → Text
    version_of e = if is_empty e.short_version then e.version else e.short_version

    abbrev pub is_eligible : Enclosure → Bool
    is_eligible e =
        not (is_empty (version_of e))
        && is_https_url (urls.parse e.url)
        && is_trusted_download_host (urls.parse e.url)

    -- One `<enclosure>` of the loop.
    unfoldable pub better : ParsedFeed U → Enclosure → ParsedFeed U
    unfolding is_https_url is_trusted_download_host compare_versions
    better best e =
        if not (is_eligible e)
        then best
        else if is_empty best.version || is_below (compare_versions num best.version (version_of e))
        then record { version = version_of e; url = urls.parse e.url }
        else best

    unfoldable pub best_of : ParsedFeed U → List Enclosure → ParsedFeed U
    unfolding better
    best_of best [] = best
    best_of best (e ∷ es) = best_of (better best e) es

    module _ (enclosures : Text → List Enclosure) where
      unfoldable pub parse_appcast : Text → ParsedFeed U
      unfolding best_of
      parse_appcast xml = best_of (record { version = []; url = urls.no_url }) (enclosures xml)

      -- The reply to a request that failed, with the reason.
      unfoldable pub on_reply_failed : Text → UpdateChecker U → UpdateChecker U
      on_reply_failed reason c = record c { signals = UpdateSignal.check_failed reason ∷ c.signals }

      -- The reply to one that succeeded.
      unfoldable pub on_reply_read : Text → UpdateChecker U → UpdateChecker U
      unfolding parse_appcast compare_versions
      on_reply_read xml c =
          let feed = parse_appcast xml in
          if is_empty feed.version
          then record c {
            signals = UpdateSignal.check_failed (codes "appcast had no entries") ∷ c.signals;
          }
          else if is_below (compare_versions num c.current_version feed.version)
          then record c {
            latest_version = feed.version;
            latest_url = some feed.url;
            signals = UpdateSignal.update_available feed.version feed.url ∷ c.signals;
          }
          else record c { signals = UpdateSignal.up_to_date ∷ c.signals }
