-- ===== src/Boot/Server.antt =====
-- src/core/BootConfig_parser.cpp: the option values of the command line.
use compact_phone.Base.{
  ℕ, ◌+◌, Bool, true, false, not, ◌&&◌, ◌||◌, [], ◌∷◌, ◌++◌, if◌then◌else◌, ◌==◌,
}
use compact_phone.Base.Text.{Text, codes, text_eq, is_empty}
use compact_phone.Boot.{Qt}

-- `startsWith`, `endsWith` and `count` of a character, and `contains("]:")`.
abbrev pub starts_with : ℕ → Text → Bool
starts_with c [] = false
starts_with c (d ∷ s) = d == c

unfoldable pub ends_with : ℕ → Text → Bool
ends_with c [] = false
ends_with c (d ∷ []) = d == c
ends_with c (d ∷ e ∷ s) = ends_with c (e ∷ s)

unfoldable pub occurrences : ℕ → Text → ℕ
occurrences c [] = 0
occurrences c (d ∷ s) = (if d == c then 1 else 0) + occurrences c s

unfoldable pub contains_close_colon : Text → Bool
contains_close_colon [] = false
contains_close_colon (c ∷ s) = c == b']' && starts_with b':' s || contains_close_colon s

unfoldable pub has_port : Text → Bool
unfolding occurrences contains_close_colon
has_port server =
    if starts_with b'[' server then contains_close_colon server else occurrences b':' server == 1

-- `contains(':')`
abbrev pub has_colon : Text → Bool
has_colon s = not (occurrences b':' s == 0)

module _ (qt : Qt) where
  unfoldable pub bool_option_value : Text → Bool → Bool
  unfolding text_eq
  bool_option_value value fallback =
      let v = qt.to_lower (qt.trimmed value) in
      if text_eq v (codes "0")
        || text_eq v (codes "no")
        || text_eq v (codes "false")
        || text_eq v (codes "off")
      then false
      else if text_eq v (codes "1")
          || text_eq v (codes "yes")
          || text_eq v (codes "true")
          || text_eq v (codes "on")
      then true
      else fallback

  unfoldable pub server_with_optional_port : Text → Text → Text
  unfolding has_port ends_with occurrences
  server_with_optional_port server port =
      let s = qt.trimmed server in
      let p = qt.trimmed port in
      if is_empty s || is_empty p || has_port s
      then s
      else if starts_with b'[' s && ends_with b']' s
      then s ++ b':' ∷ p
      else if has_colon s
      then b'[' ∷ s ++ b']' ∷ b':' ∷ p
      else s ++ b':' ∷ p
