-- ===== src/Base/Tables.antt =====
-- Database tables as lists of rows: UPDATE, DELETE, SELECT and COUNT with a WHERE clause.
use Prim.Native.Nat.{ℕ, suc, ◌+◌}
use mathlib.Core.Path.{◌≡◌, refl, ap, subst}
use mathlib.Core.Bool.{Bool, true, false}
use mathlib.Core.List.{List, [], ◌∷◌}
use mathlib.Core.Option.{Option, none, some, some-injective}
use mathlib.Core.Option
use native.Mathlib.Omega.{arith}
use nidora_ai_inference.Base.Tests.{leb, if◌then◌else◌}
use nidora_ai_inference.Base.Lists.{length, All}

module _ {ℓ} {A : Type ℓ} where
  abbrev pub apply_if : (A → Bool) → (A → A) → A → A
  apply_if hit set x = if hit x then set x else x

  unfoldable pub update_where : (A → Bool) → (A → A) → List A → List A
  update_where hit set [] = []
  update_where hit set (x ∷ xs) = apply_if hit set x ∷ update_where hit set xs

  unfoldable pub count_where : (A → Bool) → List A → ℕ
  count_where hit [] = 0
  count_where hit (x ∷ xs) = (if hit x then 1 else 0) + count_where hit xs

  unfoldable pub select_where : (A → Bool) → List A → List A
  select_where hit [] = []
  select_where hit (x ∷ xs) = let rest = select_where hit xs in if hit x then x ∷ rest else rest

  unfoldable pub delete_where : (A → Bool) → List A → List A
  delete_where hit [] = []
  delete_where hit (x ∷ xs) = let rest = delete_where hit xs in if hit x then rest else x ∷ rest

  -- The first row that the clause picks.
  unfoldable pub find : (A → Bool) → List A → Option A
  find hit [] = none
  find hit (x ∷ xs) = let rest = find hit xs in if hit x then some x else rest

  -- ORDER BY key ASC; rows with equal keys stay in the table's order.
  unfoldable pub insert_by : (A → ℕ) → A → List A → List A
  insert_by key x [] = x ∷ []
  insert_by key x (y ∷ ys) =
      let rest = insert_by key x ys in if leb (key x) (key y) then x ∷ y ∷ ys else y ∷ rest

  unfoldable pub order_by : (A → ℕ) → List A → List A
  unfolding insert_by
  order_by key [] = []
  order_by key (x ∷ xs) = insert_by key x (order_by key xs)

  -- ORDER BY key DESC.
  unfoldable pub insert_by_desc : (A → ℕ) → A → List A → List A
  insert_by_desc key x [] = x ∷ []
  insert_by_desc key x (y ∷ ys) =
      let rest = insert_by_desc key x ys in if leb (key y) (key x) then x ∷ y ∷ ys else y ∷ rest

  unfoldable pub order_by_desc : (A → ℕ) → List A → List A
  unfolding insert_by_desc
  order_by_desc key [] = []
  order_by_desc key (x ∷ xs) = insert_by_desc key x (order_by_desc key xs)

  -- A statement that hits no row changes nothing.
  pub update_where-miss :
      (hit : A → Bool) (set : A → A) (xs : List A)
      → count_where hit xs ≡ 0
      → update_where hit set xs ≡ xs
  unfolding update_where count_where
  update_where-miss hit set [] h = refl
  update_where-miss hit set (x ∷ xs) h = ground (arith, update_where-miss hit set xs)

  pub length-update_where :
      (hit : A → Bool) (set : A → A) (xs : List A) → length (update_where hit set xs) ≡ length xs
  unfolding update_where
  length-update_where hit set [] = refl
  length-update_where hit set (x ∷ xs) = ap suc (length-update_where hit set xs)

  -- An UPDATE that keeps the key of every row acts on a look-up by that key.
  pub find-update_where :
      (key hit : A → Bool) (set : A → A)
      → ((x : A) → key (set x) ≡ key x)
      → (xs : List A)
      → find key (update_where hit set xs) ≡ Option.map (apply_if hit set) (find key xs)
  unfolding find update_where
  find-update_where key hit set keep [] = refl
  find-update_where key hit set keep (x ∷ xs) =
      ground (arith, keep x, find-update_where key hit set keep xs)

  pub find_sound : (hit : A → Bool) (xs : List A) (x : A) → find hit xs ≡ some x → hit x ≡ true
  unfolding find
  find_sound hit [] x h = cc
  find_sound hit (y ∷ ys) x h = ground (arith, find_sound hit ys x)

module _ {ℓ κ} {A : Type ℓ} (P : A → Type κ) where
  pub All-update_where :
      (hit : A → Bool) (set : A → A)
      → ((x : A) → hit x ≡ true → P x → P (set x))
      → (xs : List A) → All P xs
      → All P (update_where hit set xs)
  unfolding update_where
  All-update_where hit set keep [] h = tt
  All-update_where hit set keep (x ∷ xs) (p, h) =
      (go (hit x) refl, All-update_where hit set keep xs h)
    where
      go : (b : Bool) → hit x ≡ b → P (if b then set x else x)
      go true e = keep x e p
      go false e = p

  pub All-delete_where : (hit : A → Bool) (xs : List A) → All P xs → All P (delete_where hit xs)
  unfolding delete_where
  All-delete_where hit [] h = tt
  All-delete_where hit (x ∷ xs) (p, h) = go (hit x) (All-delete_where hit xs h)
    where
      go :
          (b : Bool)
          → All P (delete_where hit xs)
          → All P (if b then delete_where hit xs else x ∷ delete_where hit xs)
      go true ih = ih
      go false ih = (p, ih)

  pub All-find : (hit : A → Bool) (xs : List A) (x : A) → All P xs → find hit xs ≡ some x → P x
  unfolding find
  All-find hit [] x h e = cc
  All-find hit (y ∷ ys) x (p, h) e = go (hit y) e (All-find hit ys x h)
    where
      go :
          (b : Bool)
          → (if b then some y else find hit ys) ≡ some x
          → (find hit ys ≡ some x → P x)
          → P x
      go true e' ih = subst P (some-injective _ _ e') p
      go false e' ih = ih e'

module _ {ℓ κ μ} {A : Type ℓ} (P : A → Type κ) (Q : A → Type μ) where
  -- The same with a further fact about the rows.
  pub All-update_where_if :
      (hit : A → Bool) (set : A → A)
      → ((x : A) → hit x ≡ true → Q x → P x → P (set x))
      → (xs : List A) → All Q xs
      → All P xs
      → All P (update_where hit set xs)
  unfolding update_where
  All-update_where_if hit set keep [] k h = tt
  All-update_where_if hit set keep (x ∷ xs) (q, k) (p, h) =
      (go (hit x) refl, All-update_where_if hit set keep xs k h)
    where
      go : (b : Bool) → hit x ≡ b → P (if b then set x else x)
      go true e = keep x e q p
      go false e = p
