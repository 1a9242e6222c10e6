-- ===== src/Tests/RemoteInfo.antt =====
-- The theorem about headers of remote parties, at the header of a call.
use compact_phone.Base.{◌≡◌, refl, ◌∷◌, ◌++◌}
use compact_phone.Base.Text.{codes}
use compact_phone.RemoteInfo.{parse_remote_info}
use compact_phone.RemoteInfo.Headers
use compact_phone.RemoteInfo.Headers.{quoted}

parse_remote_info-quoted_example :
    parse_remote_info
      (quoted (codes "Ann") ++ b'<' ∷ (codes "sip:ann@pbx" ++ b'>' ∷ codes ";tag=1"))
    ≡ record { uri = codes "sip:ann@pbx"; display_name = codes "Ann" }
parse_remote_info-quoted_example =
    Headers.parse_remote_info-quoted (codes "Ann") (codes "sip:ann@pbx") (codes ";tag=1") refl refl
      refl
