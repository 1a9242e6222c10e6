-- ===== src/Tests/Updates.antt =====
-- The theorems about versions and updates, at two entries of a feed.
use compact_phone.Base.{ℕ, pos, ◌≡◌, true, false, some, none, [], ◌∷◌, arith, ◌⊎◌, ◌&&◌, leb}
use compact_phone.Base.Text.{Text, codes, text_eq}
use compact_phone.Updates.{Numbers, Urls, Enclosure, UpdateChecker}
use compact_phone.Updates.Versions.{Sign, compare_versions, natural_compare, natural_compare_on}
use compact_phone.Updates.Ordering
use compact_phone.Updates.Ordering.{flip}
use compact_phone.Updates.Feed.{is_eligible, on_reply_read}
use compact_phone.Updates.Offers
use compact_phone.Updates.Offers.{Any, any_eligible, no_entries, judged}

-- Texts of one digit are read as numbers.
abbrev digit_of : Text → ℕ
digit_of [] = 0
digit_of (c ∷ s) = c

abbrev numbers : Numbers
numbers = record {
  is_digit = λ c. leb 48 c && leb c 57;
  to_unsigned = digit_of;
  to_int = λ s. some (pos (digit_of s));
}

abbrev urls : Urls Text
urls = record {
  no_url = [];
  parse = λ s. s;
  is_valid = λ u. true;
  is_empty = λ u. false;
  host = λ u. u;
  scheme = λ u. codes "https";
  equal_ignoring_case = text_eq;
  to_lower = λ s. s;
}

abbrev entry : Enclosure
entry = record { short_version = codes "0.2"; version = []; url = codes "github.com" }

abbrev foreign : Enclosure
foreign = record { short_version = codes "0.9"; version = []; url = codes "github.com.evil" }

abbrev checker : UpdateChecker Text
checker = record {
  feed_url = [];
  current_version = codes "0.1";
  latest_version = [];
  latest_url = none;
  requests = [];
  signals = [];
}

compare_versions-flip_example :
    (compare_versions numbers (codes "0.1-test2") (codes "0.1")
      ≡ flip (compare_versions numbers (codes "0.1") (codes "0.1-test2")))
    × (compare_versions numbers (codes "0.1") (codes "0.1") ≡ Sign.same)
compare_versions-flip_example =
    Ordering.compare_versions-flip numbers (codes "0.1") (codes "0.1-test2")

natural_compare_on-enough_example :
    natural_compare_on numbers 5 (codes "test2") (codes "test3")
    ≡ some (natural_compare numbers (codes "test2") (codes "test3"))
natural_compare_on-enough_example =
    Ordering.natural_compare_on-enough numbers 5 (codes "test2") (codes "test3") (omega arith)

on_reply_read-outcome_example :
    ((any_eligible urls numbers (foreign ∷ entry ∷ []) ≡ false)
      × (on_reply_read urls numbers (λ xml. foreign ∷ entry ∷ []) [] checker
          ≡ no_entries urls numbers (λ xml. foreign ∷ entry ∷ []) [] checker))
    ⊎ Any
        (λ e.
          (is_eligible urls numbers e ≡ true)
          × (on_reply_read urls numbers (λ xml. foreign ∷ entry ∷ []) [] checker
              ≡ judged urls numbers (λ xml. foreign ∷ entry ∷ []) [] checker e))
        (foreign ∷ entry ∷ [])
on_reply_read-outcome_example =
    Offers.on_reply_read-outcome urls numbers (λ xml. foreign ∷ entry ∷ []) [] checker
