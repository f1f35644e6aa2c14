-- ===== src/Prelude/Order.antt =====
-- Lists in a descending order, and what ordering one by a number does.
use mathlib.Core.List.{Memᴰ}
use vibe_ocpp.Prelude.{
  ℕ, ◌≤◌, ◌≡◌, refl, Bool, true, List, [], ◌∷◌, All, some, first, order_by, insert_by, leb, arith,
  Bool-cases, inl, inr,
}

module _ {A : Type 0} where
  insert_by-All :
      (before : A → A → Bool) (P : A → Type 0) (x : A) (xs : List A)
      → P x
      → All P xs
      → All P (insert_by before x xs)
  unfolding insert_by
  insert_by-All before P x [] p h = (p, tt)
  insert_by-All before P x (y ∷ ys) p (q, h) = elim (Bool-cases (before x y)) [
    | inl e ↦ rw e (p, (q, h))
    | inr e ↦ rw e (q, insert_by-All before P x ys p h)
  ]

  pub order_by-All :
      (before : A → A → Bool) (P : A → Type 0) (xs : List A) → All P xs → All P (order_by before xs)
  unfolding order_by
  order_by-All before P [] h = tt
  order_by-All before P (x ∷ xs) (p, h) = insert_by-All before P x _ p (order_by-All before P xs h)

  pub All-map : {P Q : A → Type 0} → ((x : A) → P x → Q x) → (xs : List A) → All P xs → All Q xs
  All-map f [] h = tt
  All-map f (x ∷ xs) (p, h) = (f x p, All-map f xs h)

  insert_by-head : (before : A → A → Bool) (x : A) (xs : List A) → Memᴰ x (insert_by before x xs)
  unfolding insert_by
  insert_by-head before x [] = Memᴰ.head refl
  insert_by-head before x (y ∷ ys) = elim (Bool-cases (before x y)) [
    | inl e ↦ rw e (Memᴰ.head refl)
    | inr e ↦ rw e (Memᴰ.tail (insert_by-head before x ys))
  ]

  insert_by-tail :
      (before : A → A → Bool) (a x : A) (xs : List A) → Memᴰ a xs → Memᴰ a (insert_by before x xs)
  unfolding insert_by
  insert_by-tail before a x [] m = elim m [ ]
  insert_by-tail before a x (y ∷ ys) m = elim (Bool-cases (before x y)) [
    | inl e ↦ rw e (Memᴰ.tail m)
    | inr e ↦ elim m [
      | Memᴰ.head q ↦ rw e (Memᴰ.head q)
      | Memᴰ.tail q ↦ rw e (Memᴰ.tail (insert_by-tail before a x ys q))
    ]
  ]

  pub order_by-Mem :
      (before : A → A → Bool) (a : A) (xs : List A) → Memᴰ a xs → Memᴰ a (order_by before xs)
  unfolding order_by
  order_by-Mem before a [] m = elim m [ ]
  order_by-Mem before a (x ∷ xs) (Memᴰ.head q) = rw q (insert_by-head before x (order_by before xs))
  order_by-Mem before a (x ∷ xs) (Memᴰ.tail q) =
      insert_by-tail before a x (order_by before xs) (order_by-Mem before a xs q)

  pub All-Mem : (P : A → Type 0) (a : A) (xs : List A) → All P xs → Memᴰ a xs → P a
  All-Mem P a [] h m = elim m [ ]
  All-Mem P a (x ∷ xs) (p, h) (Memᴰ.head q) = rw q p
  All-Mem P a (x ∷ xs) (p, h) (Memᴰ.tail q) = All-Mem P a xs h q

  pub first-Mem : (p : A → Bool) (a : A) (xs : List A) → first p xs ≡ some a → Memᴰ a xs
  first-Mem p a [] h = cc
  first-Mem p a (x ∷ xs) h = elim (Bool-cases (p x)) [
    | inl e ↦ Memᴰ.head (ground (arith, h, e))
    | inr e ↦ Memᴰ.tail (first-Mem p a xs (ground (arith, h, e)))
  ]

  module _ (m : A → ℕ) where
    -- No element of the list is greater than one before it.
    abbrev pub IsDescending : List A → Type 0
    IsDescending [] = Unit
    IsDescending (x ∷ xs) = All (λ y. m y ≤ m x) xs × IsDescending xs

    lower_bounds :
        (x y : A) (ys : List A) → m y ≤ m x → All (λ z. m z ≤ m y) ys → All (λ z. m z ≤ m x) ys
    lower_bounds x y [] h a = tt
    lower_bounds x y (z ∷ zs) h (b, a) = (omega (arith, h, b), lower_bounds x y zs h a)

    insert_by-IsDescending :
        (x : A) (xs : List A)
        → IsDescending xs
        → IsDescending (insert_by (λ r s. leb (m s) (m r)) x xs)
    unfolding insert_by
    insert_by-IsDescending x [] h = (tt, tt)
    insert_by-IsDescending x (y ∷ ys) (h, hs) = elim (Bool-cases (leb (m y) (m x))) [
      | inl e ↦
          let below : m y ≤ m x = ground (arith, e) in
          rw e ((below, lower_bounds x y ys below h), (h, hs))
      | inr e ↦ rw e (
        insert_by-All (λ r s. leb (m s) (m r)) (λ z. m z ≤ m y) x ys (ground (arith, e)) h,
        insert_by-IsDescending x ys hs,
      )
    ]

    pub order_by-IsDescending : (xs : List A) → IsDescending (order_by (λ r s. leb (m s) (m r)) xs)
    unfolding order_by
    order_by-IsDescending [] = tt
    order_by-IsDescending (x ∷ xs) = insert_by-IsDescending x _ (order_by-IsDescending xs)

    -- The first of a descending list with a property is as great as any with it.
    pub first_greatest :
        (p : A → Bool) (a : A) (xs : List A)
        → IsDescending xs
        → Memᴰ a xs
        → p a ≡ true
        → (b : A) × (first p xs ≡ some b) × (p b ≡ true) × (m a ≤ m b)
    first_greatest p a [] h n q = elim n [ ]
    first_greatest p a (x ∷ xs) (h, hs) n q = elim (Bool-cases (p x)) [
      | inl e ↦ elim n [
        | Memᴰ.head same ↦ (x, rw e refl, e, rw same (omega arith))
        | Memᴰ.tail further ↦ (x, rw e refl, e, All-Mem (λ y. m y ≤ m x) a xs h further)
      ]
      | inr e ↦ elim n [
        | Memᴰ.head same ↦ cc (rw same at q)
        | Memᴰ.tail further ↦
            let (b, f, t, le) = first_greatest p a xs hs further q in (b, rw e f, t, le)
      ]
    ]
