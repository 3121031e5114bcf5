-- ===== src/Gallery/Listing/Ending.antt =====
-- When `closeAccount` cannot close an account.
use share_slices.Base.{
  ℕ, String, ◌≡◌, refl, inl, inr, true, false, some, List, [], ◌∷◌, arith, Bool-cases, find_where,
  update_where, select_where, some_of,
}
use share_slices.Gallery.Listing.{ListingRow, ListingTables, TombstoneRow, is_row, row_of}
use share_slices.Gallery.Listing.Closure.{
  closes_with_account, withdraw_row, is_buried, has_tombstone, close_account,
}

-- The row of a listing that is closed with its account is among those that get a tombstone.
buried-found :
    (user l : String) (now : ℕ) (tombstones : List TombstoneRow) (rows : List ListingRow)
    (r : ListingRow)
    → find_where (is_row l) rows ≡ some r
    → closes_with_account user r ≡ true
    → has_tombstone tombstones r ≡ true
    → some_of (has_tombstone tombstones) (
        select_where
          (is_buried user)
          (update_where (closes_with_account user) (withdraw_row now) rows))
      ≡ true
buried-found user l now tombstones [] r found closes has = cc
buried-found user l now tombstones (x ∷ rows) r found closes has = elim (Bool-cases (is_row l x)) [
  | inl e ↦ ground (arith, found, closes, has, e)
  | inr e ↦ elim (Bool-cases (closes_with_account user x)) [
    | inl c ↦ ground (arith, buried-found user l now tombstones rows r, c, e)
    | inr c ↦ elim (Bool-cases (is_buried user x)) [
      | inl b ↦ ground (arith, buried-found user l now tombstones rows r, c, b, e)
      | inr b ↦ ground (arith, buried-found user l now tombstones rows r, c, b, e)
    ]
  ]
]

-- If one of a user's listings that an account closure would withdraw has a tombstone already, then
-- `closeAccount` ends with an exception and leaves the tables as they were: such an account cannot
-- be closed.
pub close_account_refused :
    (user l : String) (now : ℕ) (event_id : String → String) (t : ListingTables) (r : ListingRow)
    → row_of l t ≡ some r
    → closes_with_account user r ≡ true
    → has_tombstone t.tombstones r ≡ true
    → close_account user now event_id t ≡ (false, t)
unfolding close_account
close_account_refused user l now event_id t r here closes has =
    rw (buried-found user l now t.tombstones t.listings r here closes has) refl
