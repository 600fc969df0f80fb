-- ===== src/Base/Selections.antt =====
-- How long a selected or an ordered table is, and what its rows meet.
use Prim.Native.Nat.{ℕ, suc}
use mathlib.Core.Path.{◌≡◌, refl, ap, ◌∙◌}
use mathlib.Core.Bool.{Bool, true, false, ◌&&◌, ◌||◌}
use mathlib.Core.List.{List, [], ◌∷◌}
use native.Mathlib.Omega.{arith}
use nidora_ai_inference.Base.Lists.{length, any, All}
use nidora_ai_inference.Base.Tests.{if-elim}
use nidora_ai_inference.Base.Tables.{
  count_where, select_where, insert_by, order_by, insert_by_desc, order_by_desc,
}

module _ {ℓ} {A : Type ℓ} where
  pub length-select_where :
      (hit : A → Bool) (xs : List A) → length (select_where hit xs) ≡ count_where hit xs
  unfolding select_where count_where
  length-select_where hit [] = refl
  length-select_where hit (x ∷ xs) = ground (arith, length-select_where hit xs)

  length-insert_by :
      (key : A → ℕ) (x : A) (xs : List A) → length (insert_by key x xs) ≡ suc (length xs)
  unfolding insert_by
  length-insert_by key x [] = refl
  length-insert_by key x (y ∷ ys) = ground (arith, length-insert_by key x ys)

  pub length-order_by : (key : A → ℕ) (xs : List A) → length (order_by key xs) ≡ length xs
  unfolding order_by
  length-order_by key [] = refl
  length-order_by key (x ∷ xs) =
      length-insert_by key x (order_by key xs) ∙ ap suc (length-order_by key xs)

  -- What some row meets, in an ordered table and in a selected one.
  pub any-insert_by_desc :
      (p : A → Bool) (key : A → ℕ) (x : A) (xs : List A)
      → any p (insert_by_desc key x xs) ≡ (p x || any p xs)
  unfolding insert_by_desc
  any-insert_by_desc p key x [] = refl
  any-insert_by_desc p key x (y ∷ ys) = ground (arith, any-insert_by_desc p key x ys)

  pub any-order_by_desc :
      (p : A → Bool) (key : A → ℕ) (xs : List A) → any p (order_by_desc key xs) ≡ any p xs
  unfolding order_by_desc
  any-order_by_desc p key [] = refl
  any-order_by_desc p key (x ∷ xs) =
      any-insert_by_desc p key x (order_by_desc key xs)
      ∙ ap (◌||◌ (p x)) (any-order_by_desc p key xs)

  pub any-select_where :
      (p hit : A → Bool) (xs : List A) → any p (select_where hit xs) ≡ any (λ x. p x && hit x) xs
  unfolding select_where
  any-select_where p hit [] = refl
  any-select_where p hit (x ∷ xs) = ground (arith, any-select_where p hit xs)

  pub any-false :
      (p q : A → Bool) (xs : List A) → any p xs ≡ false → any (λ x. p x && q x) xs ≡ false
  any-false p q [] h = refl
  any-false p q (x ∷ xs) h = ground (arith, any-false p q xs)

-- What the rows meet, the selected ones meet, and the clause.
module _ {A : Type 0} (P : A → Type 0) where
  pub select_where-meets :
      (hit : A → Bool) (xs : List A)
      → All P xs
      → All (λ x. P x × (hit x ≡ true)) (select_where hit xs)
  unfolding select_where
  select_where-meets hit [] h = tt
  select_where-meets hit (x ∷ xs) (p, h) =
      if-elim (All (λ y. P y × (hit y ≡ true))) (hit x) _ _
        (λ e. ((p, e), select_where-meets hit xs h)) (λ e. select_where-meets hit xs h)
