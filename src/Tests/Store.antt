-- ===== src/Tests/Store.antt =====
-- An accounts table in memory and a keychain that keeps everything: stores of the tests.
use compact_phone.Base.{
  ℕ, suc, ◌+◌, ◌<◌, ℤ, pos, pos_part, ◌≡◌, Bool, refl, sym, ap, ◌∙◌, true, none, some, List, [],
  ◌∷◌, map, arith, if◌then◌else◌, inl, z_eq, z_eq_iff,
}
use compact_phone.Base.Dict.{map_option}
use compact_phone.Base.Text.{Text}
use compact_phone.Accounts.Table.{Table, IsTable, Row, row_at, overwritten, cleared, marked, flag}
use compact_phone.Accounts.{find_password}
use compact_phone.Accounts.Editing.{Keychain}

abbrev ids_sum : List Row → ℕ
ids_sum [] = 0
ids_sum (r ∷ rs) = pos_part r.id + ids_sum rs

abbrev fresh_id : List Row → ℤ
fresh_id rs = pos (suc (ids_sum rs))

abbrev without : ℤ → List Row → List Row
without id [] = []
without id (r ∷ rs) = let rest = without id rs in if z_eq r.id id then rest else r ∷ rest

abbrev at_id : ℤ → (Row → Row) → Row → Row
at_id id f r = if z_eq r.id id then f r else r

-- The rows, and those of before the transaction.
abbrev pub Database : Type 0
Database = List Row × List Row

-- A table whose `COMMIT` succeeds, or fails and leaves the transaction open.
abbrev pub memory_with : Bool → Table Database
memory_with commits = record {
  rows = λ d. d.0;
  insert_row = λ r d. (some (fresh_id d.0), (record r { id = fresh_id d.0 } ∷ d.0, d.1));
  update_row = λ r d. (true, (map (at_id r.id (overwritten r)) d.0, d.1));
  delete_row = λ id d. (true, (without id d.0, d.1));
  begin = λ d. (true, (d.0, d.0));
  clear_default = λ d. (true, (map cleared d.0, d.1));
  mark_default = λ id d. (true, (map (at_id id marked) d.0, d.1));
  commit = λ d. (commits, d);
  rollback = λ d. (d.1, d.1);
  set_enabled_row =
      λ id on d. (true, (map (at_id id (λ r. record r { enabled = flag on })) d.0, d.1));
}

abbrev pub memory : Table Database
memory = memory_with true

row_at-above : (n : ℕ) (rs : List Row) → ids_sum rs < n → row_at (pos n) rs ≡ none
unfolding row_at
row_at-above n [] above = refl
row_at-above n (r ∷ rs) above = ground (arith, z_eq_iff r.id (pos n), row_at-above n rs)

row_at-at_id :
    (id k : ℤ) (f : Row → Row) (rs : List Row)
    → ((r : Row) → z_eq r.id id ≡ true → (f r).id ≡ r.id)
    → row_at k (map (at_id id f) rs)
      ≡ (if z_eq id k then map_option f (row_at k rs) else row_at k rs)
unfolding row_at
row_at-at_id id k f [] keeps = ground arith
row_at-at_id id k f (r ∷ rs) keeps =
    ground (
      arith,
      z_eq_iff r.id k,
      z_eq_iff r.id id,
      z_eq_iff id k,
      keeps r,
      row_at-at_id id k f rs keeps,
    )

row_at-cleared :
    (k : ℤ) (rs : List Row) → row_at k (map cleared rs) ≡ map_option cleared (row_at k rs)
unfolding row_at
row_at-cleared k [] = refl
row_at-cleared k (r ∷ rs) = ground (arith, row_at-cleared k rs)

row_at-without :
    (id k : ℤ) (rs : List Row)
    → row_at k (without id rs) ≡ (if z_eq id k then none else row_at k rs)
unfolding row_at
row_at-without id k [] = ground arith
row_at-without id k (r ∷ rs) =
    ground (arith, z_eq_iff r.id k, z_eq_iff r.id id, z_eq_iff id k, row_at-without id k rs)

inserted :
    (r : Row) (d : Database) (k id : ℤ)
    → (memory.insert_row r d).0 ≡ some id
    → (row_at id (memory.rows d) ≡ none)
      × (row_at k (memory.rows (memory.insert_row r d).1)
          ≡ (if z_eq id k then some (record r { id = id }) else row_at k (memory.rows d)))
unfolding row_at
inserted r d k id e =
    let q : fresh_id d.0 ≡ id = ground arith in
    (
      sym (ap (λ j. row_at j d.0) q) ∙ row_at-above (suc (ids_sum d.0)) d.0 (ground arith),
      (λ i. if z_eq (q i) k then some (record r { id = q i }) else row_at k d.0),
    )

pub memory_with-IsTable : (commits : Bool) → IsTable (memory_with commits)
memory_with-IsTable commits = record {
  inserted = λ r d k id e. inserted r d k id e;
  not_inserted = λ r d k e. ground arith;
  updated =
      λ r d k. row_at-at_id r.id k (overwritten r) d.0 (λ o e. ground (arith, z_eq_iff o.id r.id));
  deleted = λ id d k. row_at-without id k d.0;
  begun = λ d k. refl;
  unset = λ d k e. row_at-cleared k d.0;
  set = λ id d k e. row_at-at_id id k marked d.0 (λ o e. refl);
  committed = λ d k e. refl;
  not_committed = λ id d k e. inl refl;
  rolled_back_unset = λ d k e. refl;
  rolled_back_set = λ id d k e. refl;
  enabled = λ id on d k. row_at-at_id id k (λ r. record r { enabled = flag on }) d.0 (λ o e. refl);
}

pub memory-IsTable : IsTable memory
memory-IsTable = memory_with-IsTable true

abbrev pub keychain : Keychain (List (Text × Text))
keychain = record {
  get = λ key ps. find_password key ps;
  set = λ key p ps. (true, (key, p) ∷ ps);
  erase = λ key ps. (true, []);
}
