-- ===== src/Base/Texts.antt =====
-- A text that the code walks is the list of its UTF-16 code units. The functions are those of
-- JavaScript's String.prototype.
use Prim.Native.Nat.{ℕ, ◌+◌}
use Prim.Native.Char.{code}
use Prim.Native.String.{String}
use mathlib.Core.Path.{◌≡◌, refl, ap, ◌∙◌}
use mathlib.Core.Logic.{◌↔◌, ◌≢◌, inl, inr}
use mathlib.Core.Bool.{Bool, true, false, ◌&&◌, ◌||◌}
use mathlib.Core.List.{List, [], ◌∷◌, ◌++◌, map}
use native.Mathlib.Omega.{arith}
use share_slices.Base.Tests.{Bool-cases, ◌==◌, leb, if◌then◌else◌}
use share_slices.Base.Lists.{All, some_of}

abbrev pub Text : Type 0
Text = List ℕ

-- A literal; the literals of the development are ASCII.
abbrev pub units : String → Text
units String.[] = []
units (String.◌∷◌ c s) = code c ∷ units s

unfoldable pub text_eq : Text → Text → Bool
text_eq [] [] = true
text_eq (x ∷ xs) (y ∷ ys) = x == y && text_eq xs ys
text_eq _ _ = false

pub text_eq_iff : (s t : Text) → (text_eq s t ≡ true) ↔ (s ≡ t)
unfolding text_eq
text_eq_iff [] [] = ground arith
text_eq_iff [] (y ∷ ys) = ground arith
text_eq_iff (x ∷ xs) [] = ground arith
text_eq_iff (x ∷ xs) (y ∷ ys) = ground (arith, text_eq_iff xs ys)

pub text_eq_refl : (t : Text) → text_eq t t ≡ true
text_eq_refl t = (text_eq_iff t t).1 refl

-- The name of an entry of a directory: not empty, and neither a dot nor two.
abbrev pub IsName : Text → Type 0
IsName part = (part ≢ []) × (part ≢ 46 ∷ []) × (part ≢ 46 ∷ 46 ∷ [])

abbrev pub is_no_name : Text → Bool
is_no_name [] = true
is_no_name (c ∷ t) = text_eq (c ∷ t) (units ".") || text_eq (c ∷ t) (units "..")

is_no_name-IsName : (part : Text) → is_no_name part ≡ false → IsName part
is_no_name-IsName [] e = cc
is_no_name-IsName (c ∷ t) e = (
  λ k. cc (k),
  λ k. cc ((text_eq_iff (c ∷ t) (units ".")).1 k, e),
  λ k. ground (arith, (text_eq_iff (c ∷ t) (units "..")).1 k, e),
)

IsName-is_no_name : (part : Text) → IsName part → is_no_name part ≡ false
IsName-is_no_name [] h = absurd (h.0 refl)
IsName-is_no_name (c ∷ t) h = elim (Bool-cases (text_eq (c ∷ t) (units "."))) [
  | inl e ↦ absurd (h.1 ((text_eq_iff (c ∷ t) (units ".")).0 e))
  | inr a ↦ elim (Bool-cases (text_eq (c ∷ t) (units ".."))) [
    | inl e ↦ absurd (h.2 ((text_eq_iff (c ∷ t) (units "..")).0 e))
    | inr b ↦ ground (arith, a, b)
  ]
]

-- No part of a list is refused by a test that agrees with `is_no_name` exactly where all are names.
pub names_iff :
    (bad : Text → Bool) (parts : List Text)
    → ((part : Text) → bad part ≡ is_no_name part)
    → (some_of bad parts ≡ false) ↔ All IsName parts
names_iff bad [] agree = (λ e. tt, λ h. refl)
names_iff bad (part ∷ parts) agree =
    let rest = names_iff bad parts agree in
    (
      λ e. (is_no_name-IsName part (ground (arith, e, agree part)), rest.0 (ground (arith, e))),
      λ h. ground (arith, agree part, IsName-is_no_name part h.0, rest.1 h.1),
    )

unfoldable pub starts_with : Text → Text → Bool
starts_with s [] = true
starts_with [] (c ∷ p) = false
starts_with (x ∷ s) (c ∷ p) = x == c && starts_with s p

abbrev pub includes : ℕ → Text → Bool
includes c = some_of (λ x. x == c)

abbrev pub ends_with_unit : ℕ → Text → Bool
ends_with_unit c [] = false
ends_with_unit c (x ∷ []) = x == c
ends_with_unit c (x ∷ y ∷ s) = ends_with_unit c (y ∷ s)

-- One unit in front of the first part.
abbrev pub push : ℕ → List Text → List Text
push x [] = (x ∷ []) ∷ []
push x (w ∷ ws) = (x ∷ w) ∷ ws

-- `s.split(c)` for a separator of one unit; at least one part.
unfoldable pub split_on : ℕ → Text → List Text
split_on c [] = [] ∷ []
split_on c (x ∷ s) = let rest = split_on c s in if x == c then [] ∷ rest else push x rest

-- `parts.join(c)`.
unfoldable pub join_with : ℕ → List Text → Text
join_with c [] = []
join_with c (w ∷ []) = w
join_with c (w ∷ v ∷ ws) = w ++ c ∷ join_with c (v ∷ ws)

-- `parts.slice(0, -1)` and `parts.at(-1) ?? ""`.
abbrev pub without_last {ℓ} : {A : Type ℓ} → List A → List A
without_last [] = []
without_last (x ∷ []) = []
without_last (x ∷ y ∷ xs) = x ∷ without_last (y ∷ xs)

abbrev pub last_or : Text → List Text → Text
last_or d [] = d
last_or d (w ∷ []) = w
last_or d (w ∷ v ∷ ws) = last_or d (v ∷ ws)

-- `toLowerCase` as far as the comparisons with ASCII texts can see it: the only other letter whose
-- lower case is ASCII is the Kelvin sign.
abbrev pub lower_unit : ℕ → ℕ
lower_unit c = if leb b'A' c && leb c b'Z' then c + 32 else if c == 0x212A then b'k' else c

abbrev pub to_lower_case : Text → Text
to_lower_case = map lower_unit

-- No separator in a part.
abbrev pub Without : ℕ → Text → Type 0
Without c s = All (λ x. x ≢ c) s

push-Without : (c x : ℕ) (ws : List Text) → x ≢ c → All (Without c) ws → All (Without c) (push x ws)
push-Without c x [] h k = ((h, tt), tt)
push-Without c x (w ∷ ws) h k = ((h, k.0), k.1)

pub split_on-Without : (c : ℕ) (s : Text) → All (Without c) (split_on c s)
unfolding split_on
split_on-Without c [] = (tt, tt)
split_on-Without c (x ∷ s) = ground (arith, split_on-Without c s, push-Without c x (split_on c s))

push-split_on : (c x : ℕ) (s : Text) → x ≢ c → split_on c (x ∷ s) ≡ push x (split_on c s)
unfolding split_on
push-split_on c x s h = ground arith

-- Splitting a part in front of a separator, and a part alone.
pub split_on-part : (c : ℕ) (w : Text) → Without c w → split_on c w ≡ w ∷ []
unfolding split_on
split_on-part c [] h = refl
split_on-part c (x ∷ w) h = ground (arith, split_on-part c w h.1)

split_on-cons : (c : ℕ) (w s : Text) → Without c w → split_on c (w ++ c ∷ s) ≡ w ∷ split_on c s
unfolding split_on
split_on-cons c [] s h = ground arith
split_on-cons c (x ∷ w) s h = ground (arith, split_on-cons c w s h.1)

pub split_on-join_with :
    (c : ℕ) (w : Text) (ws : List Text)
    → All (Without c) (w ∷ ws)
    → split_on c (join_with c (w ∷ ws)) ≡ w ∷ ws
unfolding join_with
split_on-join_with c w [] h = split_on-part c w h.0
split_on-join_with c w (v ∷ ws) h =
    split_on-cons c w (join_with c (v ∷ ws)) h.0 ∙ ap (◌∷◌ w) (split_on-join_with c v ws h.1)

join_with-push : (c x : ℕ) (ws : List Text) → join_with c (push x ws) ≡ x ∷ join_with c ws
unfolding join_with
join_with-push c x [] = refl
join_with-push c x (w ∷ []) = refl
join_with-push c x (w ∷ v ∷ ws) = refl

pub split_on_nonempty : (c : ℕ) (s : Text) → (w : Text) × (ws : List Text) × (split_on c s ≡ w ∷ ws)
unfolding split_on
split_on_nonempty c [] = ([], [], refl)
split_on_nonempty c (x ∷ s) = shape (x == c) (split_on c s)
  where
    shape :
        (b : Bool) (rest : List Text)
        → (w : Text) × (ws : List Text) × ((if b then [] ∷ rest else push x rest) ≡ w ∷ ws)
    shape true rest = ([], rest, refl)
    shape false [] = (x ∷ [], [], refl)
    shape false (w ∷ ws) = (x ∷ w, ws, refl)

join_with-empty :
    (c : ℕ) (s : Text) → join_with c ([] ∷ split_on c s) ≡ c ∷ join_with c (split_on c s)
unfolding join_with
join_with-empty c s = let (w, ws, e) = split_on_nonempty c s in rw e refl

pub join_with-split_on : (c : ℕ) (s : Text) → join_with c (split_on c s) ≡ s
unfolding split_on
join_with-split_on c [] = unfold join_with in refl
join_with-split_on c (x ∷ s) =
    ground (arith, join_with-split_on c s, join_with-empty c s, join_with-push c x (split_on c s))

pub ends-append : (c : ℕ) (p : Text) → ends_with_unit c p ≡ true → (s : Text) × (p ≡ s ++ c ∷ [])
ends-append c [] h = cc
ends-append c (x ∷ []) h = ([], ground arith)
ends-append c (x ∷ y ∷ p) h = let (s, e) = ends-append c (y ∷ p) h in (x ∷ s, ap (◌∷◌ x) e)

pub split_on-snoc : (c : ℕ) (s : Text) → split_on c (s ++ c ∷ []) ≡ split_on c s ++ [] ∷ []
unfolding split_on
split_on-snoc c [] = ground arith
split_on-snoc c (x ∷ s) = by_parts (split_on c s) (split_on_nonempty c s) (split_on-snoc c s)
  where
    by_parts :
        (rest : List Text)
        → (w : Text) × (ws : List Text) × (rest ≡ w ∷ ws)
        → split_on c (s ++ c ∷ []) ≡ rest ++ [] ∷ []
        → (if x == c then [] ∷ split_on c (s ++ c ∷ []) else push x (split_on c (s ++ c ∷ [])))
          ≡ (if x == c then [] ∷ rest else push x rest) ++ [] ∷ []
    by_parts [] (w, ws, e) h = cc
    by_parts (v ∷ vs) (w, ws, e) h = rw h (ground arith)

pub without_last-append {ℓ} : {A : Type ℓ} (xs : List A) (a : A) → without_last (xs ++ a ∷ []) ≡ xs
without_last-append [] a = refl
without_last-append (x ∷ []) a = refl
without_last-append (x ∷ y ∷ xs) a = ap (◌∷◌ x) (without_last-append (y ∷ xs) a)

pub some_of-append {ℓ} :
    {A : Type ℓ} (p : A → Bool) (xs ys : List A)
    → some_of p (xs ++ ys) ≡ (some_of p xs || some_of p ys)
some_of-append p [] ys = refl
some_of-append p (x ∷ xs) ys = ground (arith, some_of-append p xs ys)
