-- ===== src/Updates/Offers.antt =====
-- What the user is offered: src/core/UpdateChecker.cpp, `parseAppcast` and `onReplyFinished`.
use compact_phone.Base.{
  ◌≡◌, refl, ap, ◌∙◌, Bool, true, false, not, ◌&&◌, ◌||◌, some, List, [], ◌∷◌, if◌then◌else◌, arith,
  ◌⊎◌, inl, inr, Bool-cases,
}
use compact_phone.Base.Text.{Text, codes, is_empty}
use compact_phone.Updates.{Numbers, Urls, Enclosure, UpdateSignal, UpdateChecker}
use compact_phone.Updates.Versions.{compare_versions}
use compact_phone.Updates.Feed.{
  ParsedFeed, is_below, version_of, is_eligible, better, best_of, parse_appcast, on_reply_read,
}

-- Some element has the property.
abbrev pub Any : {A : Type 0} → (A → Type 0) → List A → Type 0
Any P [] = ⊥
Any P (x ∷ xs) = P x ⊎ Any P xs

module _ {U : Type 0} (urls : Urls U) (num : Numbers) where
  abbrev pub any_eligible : List Enclosure → Bool
  any_eligible [] = false
  any_eligible (e ∷ es) = is_eligible urls num e || any_eligible es

  abbrev offer : Enclosure → ParsedFeed U
  offer e = record { version = version_of urls num e; url = urls.parse e.url }

  -- The best of a feed is an eligible entry of it, or what was best before.
  abbrev IsFrom : ParsedFeed U → ParsedFeed U → List Enclosure → Type 0
  IsFrom best result es =
      (result ≡ best) ⊎ Any (λ e. (is_eligible urls num e ≡ true) × (result ≡ offer e)) es

  better-cases :
      (best : ParsedFeed U) (e : Enclosure)
      → (better urls num best e ≡ best)
        ⊎ ((is_eligible urls num e ≡ true) × (better urls num best e ≡ offer e))
  unfolding better
  better-cases best e = elim (Bool-cases (is_eligible urls num e)) [
    | inr no_offer ↦ inl (rw (no_offer, better) refl)
    | inl eligible ↦
        let newer =
          is_empty best.version
          || is_below (compare_versions num best.version (version_of urls num e)) in
        elim (Bool-cases newer) [
          | inl take ↦ inr (eligible, rw (eligible, take, better) refl)
          | inr keep ↦ inl (rw (eligible, keep, better) refl)
        ]
  ]

  best_of-IsFrom :
      (best : ParsedFeed U) (es : List Enclosure) → IsFrom best (best_of urls num best es) es
  unfolding best_of
  best_of-IsFrom best [] = inl refl
  best_of-IsFrom best (e ∷ es) =
      later (better-cases best e) (best_of-IsFrom (better urls num best e) es)
    where
      later :
          {result next : ParsedFeed U}
          → (next ≡ best) ⊎ ((is_eligible urls num e ≡ true) × (next ≡ offer e))
          → IsFrom next result es
          → IsFrom best result (e ∷ es)
      later step (inr there) = inr (inr there)
      later (inl kept) (inl done) = inl (done ∙ kept)
      later (inr taken) (inl done) = inr (inl (taken.0, done ∙ taken.1))

  best_of-is_empty :
      (best : ParsedFeed U) (es : List Enclosure)
      → is_empty (best_of urls num best es).version
        ≡ (is_empty best.version && not (any_eligible es))
  unfolding best_of better
  best_of-is_empty best [] = ground arith
  best_of-is_empty best (e ∷ es) = ground (arith, best_of-is_empty (better urls num best e) es)

  module _ (enclosures : Text → List Enclosure) (xml : Text) (c : UpdateChecker U) where
    abbrev pub no_entries : UpdateChecker U
    no_entries = record c {
      signals = UpdateSignal.check_failed (codes "appcast had no entries") ∷ c.signals;
    }

    -- What follows if the feed's best is this entry.
    abbrev pub judged : Enclosure → UpdateChecker U
    judged e =
        let version = version_of urls num e in
        let url = urls.parse e.url in
        if is_below (compare_versions num c.current_version version)
        then record c {
          latest_version = version;
          latest_url = some url;
          signals = UpdateSignal.update_available version url ∷ c.signals;
        }
        else record c { signals = UpdateSignal.up_to_date ∷ c.signals }

    abbrev judged_feed : ParsedFeed U → UpdateChecker U
    judged_feed feed =
        if is_below (compare_versions num c.current_version feed.version)
        then record c {
          latest_version = feed.version;
          latest_url = some feed.url;
          signals = UpdateSignal.update_available feed.version feed.url ∷ c.signals;
        }
        else record c { signals = UpdateSignal.up_to_date ∷ c.signals }

    decided :
        (result : UpdateChecker U) (feed : ParsedFeed U) (es : List Enclosure)
        → result ≡ judged_feed feed
        → Any (λ e. (is_eligible urls num e ≡ true) × (feed ≡ offer e)) es
        → Any (λ e. (is_eligible urls num e ≡ true) × (result ≡ judged e)) es
    decided result feed [] h impossible = impossible
    decided result feed (e ∷ es) h (inl (eligible, found)) =
        inl (eligible, h ∙ ap judged_feed found)
    decided result feed (e ∷ es) h (inr there) = inr (decided result feed es h there)

    not_start :
        (feed : ParsedFeed U) (es : List Enclosure)
        → is_empty feed.version ≡ false
        → IsFrom (record { version = []; url = urls.no_url }) feed es
        → Any (λ e. (is_eligible urls num e ≡ true) × (feed ≡ offer e)) es
    not_start feed es full (inr there) = there
    not_start feed es full (inl start) = absurd (ground (arith, ap (λ f. is_empty f.version) start))

    -- A feed that is read without an eligible entry (a version, and an https URL on a trusted host) fails the
    -- check. In any other, some eligible entry decides: it is offered, with its own version and URL, if it
    -- is newer than the current version, and if not the program is up to date.
    pub on_reply_read-outcome :
        ((any_eligible (enclosures xml) ≡ false)
          × (on_reply_read urls num enclosures xml c ≡ no_entries))
        ⊎ Any
            (λ e.
              (is_eligible urls num e ≡ true)
              × (on_reply_read urls num enclosures xml c ≡ judged e))
            (enclosures xml)
    unfolding on_reply_read parse_appcast
    on_reply_read-outcome =
        let es = enclosures xml in
        let start : ParsedFeed U = record { version = []; url = urls.no_url } in
        let feed = best_of urls num start es in
        elim (Bool-cases (any_eligible es)) [
          | inr gone ↦ inl (gone, rw (best_of-is_empty start es ∙ ap not gone, on_reply_read) refl)
          | inl there ↦ inr (
              let full = best_of-is_empty start es ∙ ap not there in
              decided (on_reply_read urls num enclosures xml c) feed es
                (rw (full, on_reply_read) refl) (not_start feed es full (best_of-IsFrom start es)))
        ]
