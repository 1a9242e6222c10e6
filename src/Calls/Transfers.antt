-- ===== src/Calls/Transfers.antt =====
-- src/core/TransferTracker.h: which calls to hang up once a transfer has finished.
use compact_phone.Base.{
  ℤ, pos, ◌≡◌, Bool, not, ◌||◌, ◌&&◌, Option, none, some, List, [], arith, ltb_ℤ, leb_ℤ,
  if◌then◌else◌, z_eq, z_eq_iff,
}
use compact_phone.Base.Dict.{Dict, lookup, insert, erase, is_some, lookup-erase}

abbrev pub Pending : Type 0
Pending = Dict (List ℤ)

unfoldable pub record_legs : ℤ → List ℤ → Pending → Pending
record_legs id cleanup_ids pending = insert id cleanup_ids pending

unfoldable pub has : ℤ → Pending → Bool
has id pending = is_some (lookup id pending)

unfoldable pub take : ℤ → Pending → List ℤ × Pending
take id pending = elim (lookup id pending) [
  | none ↦ ([], pending)
  | some ids ↦ (ids, erase id pending)
]

unfoldable pub take_legs_to_hangup : ℤ → ℤ → Bool → Pending → List ℤ × Pending
unfolding take
take_legs_to_hangup id status_code final_notify pending =
    if not final_notify
    then ([], pending)
    else let (ids, rest) = take id pending in
      if ltb_ℤ status_code (pos 200) || leb_ℤ (pos 300) status_code then ([], rest) else (ids, rest)

unfoldable pub drop : ℤ → Pending → Pending
drop id pending = erase id pending

abbrev pub is_success : ℤ → Bool
is_success code = leb_ℤ (pos 200) code && ltb_ℤ code (pos 300)

abbrev pub or_empty : Option (List ℤ) → List ℤ
or_empty none = []
or_empty (some ids) = ids

-- A NOTIFY yields the recorded legs of its call exactly if it is final and its code is a 2xx; a final
-- one of any code removes the entry of its call, one that is not final removes nothing, and the
-- entries of all other calls stay.
pub take_legs_outcome :
    (id code : ℤ) (final : Bool) (pending : Pending) (j : ℤ)
    → let (legs, rest) = take_legs_to_hangup id code final pending in
      (legs ≡ (if final && is_success code then or_empty (lookup id pending) else []))
      × (lookup j rest ≡ (if final && z_eq id j then none else lookup j pending))
unfolding take_legs_to_hangup
take_legs_outcome id code final pending j = ground (arith, lookup-erase j id pending, z_eq_iff id j)
