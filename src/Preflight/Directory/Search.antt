-- ===== src/Preflight/Directory/Search.antt =====
-- Which end record `findEndOfCentralDirectory` answers.
use share_slices.Base.{
  ℕ, zero, suc, ◌+◌, ◌-◌, ◌≤◌, ◌<◌, ◌≡◌, refl, subst, ◌≢◌, ◌⊎◌, inl, inr, none, some, List, arith,
  length,
}
use share_slices.Preflight.Directory.{
  read_u16, read_u32, Candidate, skip, reject, accept, candidate, search_end, search_minimum,
  find_end_of_central_directory, end_signature,
}

search_end-found :
    (bytes : List ℕ) (minimum k : ℕ) {offset : ℕ}
    → search_end bytes minimum k ≡ some offset
    → (minimum ≤ offset)
      × (offset < minimum + k)
      × (candidate bytes offset ≡ accept)
      × ((later : ℕ) → offset < later → later < minimum + k → candidate bytes later ≡ skip)
unfolding search_end
search_end-found bytes minimum zero h = cc
search_end-found bytes minimum (suc k) {offset} h =
    by_candidate (candidate bytes (minimum + k)) refl h
      (search_end-found bytes minimum k {offset = offset})
  where
    Found : ℕ → Type 0
    Found n =
        (minimum ≤ offset)
        × (offset < minimum + n)
        × (candidate bytes offset ≡ accept)
        × ((later : ℕ) → offset < later → later < minimum + n → candidate bytes later ≡ skip)

    last_round :
        (later : ℕ) → later < minimum + suc k → (later < minimum + k) ⊎ (later ≡ minimum + k)
    last_round later l = ground arith

    by_candidate :
        (o : Candidate)
        → candidate bytes (minimum + k) ≡ o
        → (elim o [
          | skip ↦ search_end bytes minimum k
          | reject ↦ none
          | accept ↦ some (minimum + k)
        ])
          ≡ some offset
        → (search_end bytes minimum k ≡ some offset → Found k)
        → Found (suc k)
    by_candidate skip e g ih =
        let (low, high, accepted, skipped) = ih g in
        (
          low,
          omega arith,
          accepted,
          (λ later a b. elim (last_round later b) [
            | inl before ↦ skipped later a before
            | inr here ↦ rw here e
          ]),
        )
    by_candidate reject e g ih = cc
    by_candidate accept e g ih =
        let same : minimum + k ≡ offset = ground arith in
        (
          omega arith,
          omega arith,
          subst (λ n. candidate bytes n ≡ accept) same e,
          (λ later a b. absurd (omega arith)),
        )

-- The end record that is found lies in the last 65,557 bytes with its 22 fixed bytes inside the
-- file, has the signature and a comment that runs exactly to the end of the file, names a single
-- disk and as many entries on it as in all; and no later offset has both that signature and a
-- comment that ends with the file.
pub find_end-last :
    (bytes : List ℕ) (offset : ℕ)
    → find_end_of_central_directory bytes ≡ some offset
    → (read_u32 bytes offset ≡ end_signature)
      × (offset + 22 + read_u16 bytes (offset + 20) ≡ length bytes)
      × (length bytes ≤ offset + 65557)
      × (read_u16 bytes (offset + 4) ≡ 0)
      × (read_u16 bytes (offset + 6) ≡ 0)
      × (read_u16 bytes (offset + 8) ≡ read_u16 bytes (offset + 10))
      × ((later : ℕ)
          → offset < later
          → later + 22 ≤ length bytes
          → read_u32 bytes later ≡ end_signature
          → later + 22 + read_u16 bytes (later + 20) ≢ length bytes)
unfolding find_end_of_central_directory candidate
find_end-last bytes offset h =
    let (low, high, accepted, skipped) =
      search_end-found bytes (search_minimum bytes) (length bytes - 21 - search_minimum bytes) h in
    (
      ground arith,
      ground arith,
      omega arith,
      ground arith,
      ground arith,
      ground arith,
      (λ later a b s e. ground (arith, skipped later a (omega arith))),
    )
