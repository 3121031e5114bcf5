-- ===== src/Base/Tables.antt =====
-- A table is the list of its rows. `select … where` keeps the rows that match, `rows[0]` of a
-- key lookup is the first of them, and `update … where` writes to every row that matches.
use Prim.Native.Nat.{ℕ, ◌+◌}
use mathlib.Core.Path.{◌≡◌, refl}
use mathlib.Core.Bool.{Bool, true, false}
use mathlib.Core.List.{List, [], ◌∷◌}
use mathlib.Core.Option
use mathlib.Core.Option.{Option, none, some}
use native.Mathlib.Omega.{arith}
use share_slices.Base.Tests.{if◌then◌else◌}

module _ {ℓ} {R : Type ℓ} where
  abbrev pub find_where : (R → Bool) → List R → Option R
  find_where p [] = none
  find_where p (r ∷ rs) = if p r then some r else find_where p rs

  abbrev pub select_where : (R → Bool) → List R → List R
  select_where p [] = []
  select_where p (r ∷ rs) = let rest = select_where p rs in if p r then r ∷ rest else rest

  abbrev pub update_where : (R → Bool) → (R → R) → List R → List R
  update_where p f [] = []
  update_where p f (r ∷ rs) = (if p r then f r else r) ∷ update_where p f rs

  abbrev pub sum_of : (R → ℕ) → List R → ℕ
  sum_of f [] = 0
  sum_of f (r ∷ rs) = f r + sum_of f rs

  -- A write that keeps the searched key changes the row that is found, if it matches.
  pub find_where-update_where :
      (p q : R → Bool) (f : R → R)
      → ((r : R) → p (f r) ≡ p r)
      → (rs : List R)
      → find_where p (update_where q f rs)
        ≡ Option.map (λ r. if q r then f r else r) (find_where p rs)
  find_where-update_where p q f keep [] = refl
  find_where-update_where p q f keep (r ∷ rs) =
      ground (arith, keep r, find_where-update_where p q f keep rs)

  -- A write that matches no row changes nothing.
  pub update_where_missing :
      (p : R → Bool) (f : R → R) (rs : List R) → find_where p rs ≡ none → update_where p f rs ≡ rs
  update_where_missing p f [] h = refl
  update_where_missing p f (r ∷ rs) h = ground (arith, update_where_missing p f rs)

  pub find_where_holds :
      (p : R → Bool) (rs : List R) (r : R) → find_where p rs ≡ some r → p r ≡ true
  find_where_holds p [] r h = cc
  find_where_holds p (x ∷ rs) r h = ground (arith, find_where_holds p rs r)

  -- A write that ends the match leaves no row that matches.
  pub find_where-update_where_self :
      (p : R → Bool) (f : R → R) (rs : List R)
      → ((r : R) → p (f r) ≡ false)
      → find_where p (update_where p f rs) ≡ none
  find_where-update_where_self p f [] ends = refl
  find_where-update_where_self p f (r ∷ rs) ends =
      ground (arith, ends r, find_where-update_where_self p f rs ends)
