-- ===== src/Boot/Ports.antt =====
-- src/core/BootConfig_parser.cpp, `serverWithOptionalPort`: a port is put where it is read again.
use compact_phone.Base.{ℕ, ◌+◌, ◌≡◌, refl, true, false, [], ◌∷◌, ◌++◌, arith, inl, inr, Bool-cases}
use compact_phone.Base.Text.{Text, is_empty}
use compact_phone.Boot.{Qt}
use compact_phone.Boot.Server.{
  starts_with, ends_with, occurrences, contains_close_colon, has_port, has_colon,
  server_with_optional_port,
}

occurrences-append :
    (c : ℕ) (s t : Text) → occurrences c (s ++ t) ≡ occurrences c s + occurrences c t
unfolding occurrences
occurrences-append c [] t = ground arith
occurrences-append c (d ∷ s) t = ground (arith, occurrences-append c s t)

contains_close_colon-prefix :
    (s t : Text) → contains_close_colon t ≡ true → contains_close_colon (s ++ t) ≡ true
unfolding contains_close_colon
contains_close_colon-prefix [] t h = h
contains_close_colon-prefix (c ∷ s) t h = ground (arith, contains_close_colon-prefix s t h)

contains_close_colon-end :
    (s p : Text) → ends_with b']' s ≡ true → contains_close_colon (s ++ b':' ∷ p) ≡ true
unfolding contains_close_colon ends_with
contains_close_colon-end [] p h = ground arith
contains_close_colon-end (c ∷ []) p h = ground arith
contains_close_colon-end (c ∷ d ∷ s) p h = ground (arith, contains_close_colon-end (d ∷ s) p h)

starts_with-append :
    (c : ℕ) (s t : Text) → is_empty s ≡ false → starts_with c (s ++ t) ≡ starts_with c s
starts_with-append c [] t h = ground arith
starts_with-append c (d ∷ s) t h = refl

-- The three ways in which a port is put behind a server that has none.
module _ (t q : Text) where
  bracketed-has_port :
      is_empty t ≡ false
      → starts_with b'[' t ≡ true
      → ends_with b']' t ≡ true
      → has_port (t ++ b':' ∷ q) ≡ true
  unfolding has_port
  bracketed-has_port s opened close =
      ground (arith, starts_with-append b'[' t (b':' ∷ q) s, contains_close_colon-end t q close)

  colons-has_port : has_port (b'[' ∷ t ++ b']' ∷ b':' ∷ q) ≡ true
  unfolding has_port contains_close_colon
  colons-has_port = contains_close_colon-prefix (b'[' ∷ t) (b']' ∷ b':' ∷ q) refl

  plain-has_port :
      is_empty t ≡ false
      → starts_with b'[' t ≡ false
      → has_colon t ≡ false
      → occurrences b':' q ≡ 0
      → has_port (t ++ b':' ∷ q) ≡ true
  unfolding has_port occurrences
  plain-has_port s opened none_there plain =
      ground (arith, starts_with-append b'[' t (b':' ∷ q) s, occurrences-append b':' t (b':' ∷ q))

module _ (qt : Qt) where
  -- For a server and a port that are not empty once trimmed, a port without a colon, and a server
  -- that ends with a bracket if it begins with one, the server with the port is one in which a
  -- port is found, whether it had one, is a name, a bare IPv6 address or a bracketed one.
  pub server_with_optional_port-has_port :
      (server port : Text)
      → is_empty (qt.trimmed server) ≡ false
      → is_empty (qt.trimmed port) ≡ false
      → occurrences b':' (qt.trimmed port) ≡ 0
      → (starts_with b'[' (qt.trimmed server) ≡ true → ends_with b']' (qt.trimmed server) ≡ true)
      → has_port (server_with_optional_port qt server port) ≡ true
  unfolding server_with_optional_port
  server_with_optional_port-has_port server port s p plain closed =
      let t = qt.trimmed server in
      let q = qt.trimmed port in
      elim (Bool-cases (has_port t)) [
        | inl there ↦ rw (s, p, there, server_with_optional_port) there
        | inr gone ↦ elim (Bool-cases (starts_with b'[' t)) [
          | inl opened ↦
              rw (s, p, gone, opened, closed opened, server_with_optional_port)
                (bracketed-has_port t q s opened (closed opened))
          | inr opened ↦ elim (Bool-cases (has_colon t)) [
            | inl colons ↦
                rw (s, p, gone, opened, colons, server_with_optional_port) (colons-has_port t q)
            | inr colons ↦
                rw (s, p, gone, opened, colons, server_with_optional_port)
                  (plain-has_port t q s opened colons plain)
          ]
        ]
      ]
