-- ===== src/RemoteInfo.antt =====
-- src/core/sipbackend/pjsip/RemoteInfo.cpp: the URI and the display name in the header of a remote party.
pub mod Headers
use compact_phone.Base.{
  ℕ, zero, suc, ◌+◌, ◌-◌, Bool, true, false, ◌&&◌, ◌||◌, Option, none, some, List, [], ◌∷◌,
  if◌then◌else◌, ltb, leb, ◌==◌,
}
use compact_phone.Base.Lists.{length}
use compact_phone.Base.Text.{Text, is_empty}

pub record RemoteInfo : Type 0 where
  pub uri : Text
  pub display_name : Text

-- `find`
unfoldable pub index_of : ℕ → Text → Option ℕ
index_of c [] = none
index_of c (d ∷ s) =
    let rest = index_of c s in
    if d == c then some 0 else elim rest [ none ↦ none | some n ↦ some (suc n) ]

unfoldable pub skip : ℕ → Text → Text
skip zero s = s
skip (suc n) [] = []
skip (suc n) (c ∷ s) = skip n s

unfoldable pub first : ℕ → Text → Text
first zero s = []
first (suc n) [] = []
first (suc n) (c ∷ s) = c ∷ first n s

-- `substr`
abbrev pub substr : ℕ → ℕ → Text → Text
substr pos count s = first count (skip pos s)

abbrev pub is_blank : ℕ → Bool
is_blank c = c == b' ' || c == 9

unfoldable pub strip_end : Text → Text
strip_end [] = []
strip_end (c ∷ s) = let rest = strip_end s in if is_empty rest && is_blank c then [] else c ∷ rest

abbrev front_is : ℕ → Text → Bool
front_is c [] = false
front_is c (d ∷ s) = d == c

unfoldable pub back_is : ℕ → Text → Bool
back_is c [] = false
back_is c (d ∷ []) = d == c
back_is c (d ∷ e ∷ s) = back_is c (e ∷ s)

unfoldable pub unquote : Text → Text
unfolding back_is skip first
unquote s =
    if leb 2 (length s) && front_is b'"' s && back_is b'"' s then substr 1 (length s - 2) s else s

unfoldable pub parse_remote_info : Text → RemoteInfo
unfolding index_of strip_end unquote skip first
parse_remote_info raw =
    let whole : RemoteInfo = record { uri = raw; display_name = [] } in
    elim (index_of b'<' raw) [
      | none ↦ whole
      | some lt ↦ elim (index_of b'>' raw) [
        | none ↦ whole
        | some gt ↦
            if ltb lt gt
            then record {
              uri = substr (lt + 1) (gt - lt - 1) raw;
              display_name = unquote (strip_end (first lt raw));
            }
            else whole
      ]
    ]
