-- ===== src/Tests/Lines.antt =====
-- The theorem about watched lines, over the fake backend with watches under ids that are free.
use compact_phone.Base.{
  ℕ, suc, ◌+◌, ◌<◌, ◌≤◌, ℤ, pos, pos_part, ◌≡◌, refl, some, none, List, [], ◌∷◌, arith, z_eq,
  z_eq_iff, if◌then◌else◌,
}
use compact_phone.Base.Dict.{Dict, lookup, insert, is_some, lookup-insert, lookup-erase}
use compact_phone.Base.Text.{Text, codes}
use compact_phone.Backend.{SipBackend, PresenceState}
use compact_phone.Backend.Fake.{FakeSipBackend}
use compact_phone.Backend.Fake.Engine.{unwatch}
use compact_phone.Backend.Fake.Calls.{fake_backend}
use compact_phone.Lines
use compact_phone.Lines.{LineTable, WatchedLine, LineState}
use compact_phone.Lines.Watches.{IsWatching, owners}
use compact_phone.Lines.History
use compact_phone.Lines.History.{LineEvent, on_events}
use compact_phone.Tests.{ready_backend}

abbrev keys_sum : Dict Text → ℕ
keys_sum [] = 0
keys_sum ((k, v) ∷ d) = pos_part k + keys_sum d

lookup-above : (n : ℕ) (d : Dict Text) → keys_sum d < n → lookup (pos n) d ≡ none
unfolding lookup
lookup-above n [] above = refl
lookup-above n ((k, v) ∷ d) above = ground (arith, z_eq_iff k (pos n), lookup-above n d)

abbrev free_id : FakeSipBackend → ℤ
free_id b = pos (suc (keys_sum b.watches))

abbrev watching : SipBackend FakeSipBackend
watching = record fake_backend {
  watch = λ account uri b. (free_id b, record b { watches = insert (free_id b) uri b.watches });
}

abbrev held : ℤ → FakeSipBackend → ℕ
held k b = if is_some (lookup k b.watches) then 1 else 0

watching-IsWatching : IsWatching watching held
unfolding unwatch z_eq
watching-IsWatching = record {
  refused = λ account uri b k e. ground arith;
  granted = λ account uri b k e. (
    ground (arith, lookup-above (suc (keys_sum b.watches)) b.watches (omega arith)),
    ground (arith, lookup-insert k (free_id b) uri b.watches),
  );
  unwatched = λ id b k. ground (arith, z_eq_iff id k, lookup-erase k id b.watches);
}

abbrev table : LineTable (List WatchedLine)
table = record {
  lines = λ d. d;
  insert_line = λ account uri label order d. (some (pos 7), d);
  delete_line = λ id d. d;
}

abbrev stored : List WatchedLine
stored =
    record {
      id = pos 1;
      account_id = pos 1;
      uri = codes "sip:601@pbx";
      label = [];
      sort_order = pos 0;
      state = LineState.unknown;
    }
    ∷ []

abbrev history : List LineEvent
history =
    LineEvent.add (λ id. id) (pos 1) (codes "sip:602@pbx") []
    ∷ LineEvent.presence (pos 1) PresenceState.busy
    ∷ LineEvent.remove (pos 1)
    ∷ []

on_events-owners_example :
    let m =
      on_events watching table
        (λ id. id)
        history
        (Lines.opened watching table (λ id. id) ready_backend stored) in
    (held (pos 1) m.backend ≡ owners (pos 1) m.entries)
    × (owners (pos 1) m.entries ≤ 1)
    × (held (pos 1) (Lines.closed watching table (λ id. id) m) ≡ 0)
unfolding z_eq lookup
on_events-owners_example =
    History.on_events-owners watching table (λ id. id) held watching-IsWatching (pos 1) refl
      ready_backend stored refl history
