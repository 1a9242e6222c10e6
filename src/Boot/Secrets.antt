-- ===== src/Boot/Secrets.antt =====
-- src/core/BootConfig_secrets.cpp: where a password comes from.
use compact_phone.Base.{
  ℕ, suc, zero, Bool, true, false, ◌&&◌, none, some, [], ◌∷◌, if◌then◌else◌, ◌==◌,
}
use compact_phone.Base.Text.{Text, codes, text_eq, is_empty}
use compact_phone.Boot.{Qt, System, Console, Warning, warn}

-- `startsWith`
unfoldable pub has_prefix : Text → Text → Bool
has_prefix [] s = true
has_prefix (c ∷ p) [] = false
has_prefix (c ∷ p) (d ∷ s) = d == c && has_prefix p s

-- `mid`
unfoldable pub mid : ℕ → Text → Text
mid zero s = s
mid (suc n) [] = []
mid (suc n) (c ∷ s) = mid n s

module _ {S : Type 0} (qt : Qt) (sys : System S) where
  unfoldable pub resolve_password : Text → Console S → Text × Console S
  unfolding has_prefix mid text_eq
  resolve_password spec c =
      if is_empty spec
      then ([], c)
      else if has_prefix (codes "@env:") spec
      then elim (sys.variable (mid 5 spec)) [
        | none ↦ ([], warn (Warning.variable_not_set (mid 5 spec)) c)
        | some password ↦ (password, c)
      ]
      else if has_prefix (codes "@file:") spec
      then elim (sys.first_line (mid 6 spec)) [
        | none ↦ ([], warn (Warning.unreadable_password_file (mid 6 spec)) c)
        | some line ↦ (qt.trimmed line, c)
      ]
      else if text_eq spec (codes "@stdin")
      then (let (line, input) = sys.read_line c.input in (line, record c { input = input }))
      else (spec, c)
