-- ===== src/Base/Orders.antt =====
-- ORDER BY: ordered tables, and a WHERE on the key that commutes with it.
use Prim.Native.Nat.{ℕ, ◌≤◌}
use mathlib.Core.Path.{◌≡◌, refl, ◌∙◌}
use mathlib.Core.Bool.{Bool}
use mathlib.Core.List.{List, [], ◌∷◌}
use native.Mathlib.Omega.{arith}
use nidora_ai_inference.Base.Tests.{leb, if◌then◌else◌, if-elim}
use nidora_ai_inference.Base.Lists.{All}
use nidora_ai_inference.Base.Tables.{
  select_where, insert_by, order_by, insert_by_desc, order_by_desc,
}

module _ {A : Type 0} (key : A → ℕ) where
  -- The oldest first.
  abbrev pub Rising : List A → Type 0
  Rising [] = Unit
  Rising (x ∷ xs) = All (λ y. key x ≤ key y) xs × Rising xs

  -- The newest first.
  abbrev pub Falling : List A → Type 0
  Falling [] = Unit
  Falling (x ∷ xs) = All (λ y. key y ≤ key x) xs × Falling xs

  All-insert_by_desc :
      (k : ℕ) (x : A) (xs : List A)
      → key x ≤ k
      → All (λ y. key y ≤ k) xs
      → All (λ y. key y ≤ k) (insert_by_desc key x xs)
  unfolding insert_by_desc
  All-insert_by_desc k x [] le h = (le, tt)
  All-insert_by_desc k x (y ∷ ys) le (h, hs) =
      if-elim (All (λ z. key z ≤ k)) (leb (key y) (key x)) _ _ (λ e. (le, (h, hs)))
        (λ e. (h, All-insert_by_desc k x ys le hs))

  All-weaken_desc :
      (j k : ℕ) (xs : List A) → j ≤ k → All (λ y. key y ≤ j) xs → All (λ y. key y ≤ k) xs
  All-weaken_desc j k [] le h = tt
  All-weaken_desc j k (x ∷ xs) le (h, hs) = (omega arith, All-weaken_desc j k xs le hs)

  insert_by_desc-Falling : (x : A) (xs : List A) → Falling xs → Falling (insert_by_desc key x xs)
  unfolding insert_by_desc
  insert_by_desc-Falling x [] f = (tt, tt)
  insert_by_desc-Falling x (y ∷ ys) (h, hs) =
      if-elim Falling (leb (key y) (key x)) _ _
        (λ e. ((ground arith, All-weaken_desc (key y) (key x) ys (ground arith) h), (h, hs)))
        (λ e. (All-insert_by_desc (key y) x ys (ground arith) h, insert_by_desc-Falling x ys hs))

  order_by_desc-Falling : (xs : List A) → Falling (order_by_desc key xs)
  unfolding order_by_desc
  order_by_desc-Falling [] = tt
  order_by_desc-Falling (x ∷ xs) =
      insert_by_desc-Falling x (order_by_desc key xs) (order_by_desc-Falling xs)

  -- What is newer than a time, in a list where all is older than a row.
  module _ (since : ℕ) where
    abbrev recent : A → Bool
    recent x = leb since (key x)

    All-recent :
        (k : ℕ) (xs : List A)
        → All (λ y. key y ≤ k) xs
        → All (λ y. key y ≤ k) (select_where recent xs)
    unfolding select_where
    All-recent k [] h = tt
    All-recent k (x ∷ xs) (h, hs) =
        if-elim (All (λ y. key y ≤ k)) (recent x) _ _ (λ e. (h, All-recent k xs hs))
          (λ e. All-recent k xs hs)

    insert_by_desc-first :
        (x : A) (xs : List A) → All (λ y. key y ≤ key x) xs → insert_by_desc key x xs ≡ x ∷ xs
    unfolding insert_by_desc
    insert_by_desc-first x [] h = refl
    insert_by_desc-first x (y ∷ ys) (h, hs) = ground arith

    select_where-insert_by_desc :
        (x : A) (xs : List A)
        → Falling xs
        → select_where recent (insert_by_desc key x xs) ≡ (
            if recent x
            then insert_by_desc key x (select_where recent xs)
            else select_where recent xs)
    unfolding select_where insert_by_desc
    select_where-insert_by_desc x [] f = ground arith
    select_where-insert_by_desc x (y ∷ ys) (h, hs) = ground (
      arith,
      select_where-insert_by_desc x ys hs,
      λ (le : key y ≤ key x).
          insert_by_desc-first x (select_where recent ys)
            (All-recent (key x) ys (All-weaken_desc (key y) (key x) ys le h)),
    )

    -- The recent rows of an ordered table, and the ordered recent rows of the table.
    pub select_where-order_by_desc :
        (xs : List A)
        → select_where recent (order_by_desc key xs) ≡ order_by_desc key (select_where recent xs)
    unfolding select_where order_by_desc
    select_where-order_by_desc [] = refl
    select_where-order_by_desc (x ∷ xs) =
        select_where-insert_by_desc x (order_by_desc key xs) (order_by_desc-Falling xs)
        ∙ ground (arith, select_where-order_by_desc xs)

  All-insert_by :
      (k : ℕ) (x : A) (xs : List A)
      → k ≤ key x
      → All (λ y. k ≤ key y) xs
      → All (λ y. k ≤ key y) (insert_by key x xs)
  unfolding insert_by
  All-insert_by k x [] le h = (le, tt)
  All-insert_by k x (y ∷ ys) le (h, hs) =
      if-elim (All (λ z. k ≤ key z)) (leb (key x) (key y)) _ _ (λ e. (le, (h, hs)))
        (λ e. (h, All-insert_by k x ys le hs))

  All-weaken : (j k : ℕ) (xs : List A) → j ≤ k → All (λ y. k ≤ key y) xs → All (λ y. j ≤ key y) xs
  All-weaken j k [] le h = tt
  All-weaken j k (x ∷ xs) le (h, hs) = (omega arith, All-weaken j k xs le hs)

  insert_by-Rising : (x : A) (xs : List A) → Rising xs → Rising (insert_by key x xs)
  unfolding insert_by
  insert_by-Rising x [] f = (tt, tt)
  insert_by-Rising x (y ∷ ys) (h, hs) =
      if-elim Rising (leb (key x) (key y)) _ _
        (λ e. ((ground arith, All-weaken (key x) (key y) ys (ground arith) h), (h, hs)))
        (λ e. (All-insert_by (key y) x ys (ground arith) h, insert_by-Rising x ys hs))

  pub order_by-Rising : (xs : List A) → Rising (order_by key xs)
  unfolding order_by
  order_by-Rising [] = tt
  order_by-Rising (x ∷ xs) = insert_by-Rising x (order_by key xs) (order_by-Rising xs)

  -- What every row of an ordered table meets, every row of the table meets.
  module _ (P : A → Type 0) where
    insert_by-All : (x : A) (xs : List A) → All P (insert_by key x xs) → P x × All P xs
    unfolding insert_by
    insert_by-All x [] h = h
    insert_by-All x (y ∷ ys) h =
        if-elim (λ zs. All P zs → P x × All P (y ∷ ys)) (leb (key x) (key y)) _ _ (λ e k. k)
          (λ e k. let (p, ps) = insert_by-All x ys k.1 in (p, (k.0, ps))) h

    pub order_by-All : (xs : List A) → All P (order_by key xs) → All P xs
    unfolding order_by
    order_by-All [] h = tt
    order_by-All (x ∷ xs) h =
        let (p, ps) = insert_by-All x (order_by key xs) h in (p, order_by-All xs ps)

    insert_by-meets : (x : A) (xs : List A) → P x → All P xs → All P (insert_by key x xs)
    unfolding insert_by
    insert_by-meets x [] p h = (p, tt)
    insert_by-meets x (y ∷ ys) p (h, hs) =
        if-elim (All P) (leb (key x) (key y)) _ _ (λ e. (p, (h, hs)))
          (λ e. (h, insert_by-meets x ys p hs))

    pub order_by-meets : (xs : List A) → All P xs → All P (order_by key xs)
    unfolding order_by
    order_by-meets [] h = tt
    order_by-meets (x ∷ xs) (p, ps) = insert_by-meets x (order_by key xs) p (order_by-meets xs ps)
