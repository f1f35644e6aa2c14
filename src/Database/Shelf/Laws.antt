-- ===== src/Database/Shelf/Laws.antt =====
-- The table of `Shelf` keeps the laws of `TableLaws`.
use mathlib.Core.List.{Memᴰ}
use mathlib.Core.Option
use vibe_ocpp.Prelude.{
  ℕ, ◌≤◌, String, ◌≡◌, refl, Bool, true, false, not, Option, none, some, List, [], ◌∷◌, arith, All,
  ◌==◌, if◌then◌else◌, Option-cases, inl, inr, Bool-cases, eq_of_test,
}
use vibe_ocpp.Database.{TableLaws, keep}
use vibe_ocpp.Database.Shelf.{
  Shelf, shelf, visible, get, orelse, find_in, find, lesser, least_in, find_least, push, list_in,
  list, create, update, update_many, remove,
}

module _ {Row : Type 0} (id : Row → String) where
  visible_id :
      (o : Option Row) (k : String) (ks : List String) (r : Row)
      → visible id o k ks ≡ some r
      → (id r ≡ k) × (o ≡ some r)
  unfolding visible
  visible_id o k [] r h = ground arith
  visible_id none k (j ∷ ks) r h = ground (arith, visible_id none k ks r)
  visible_id (some q) k (j ∷ ks) r h = ground (arith, visible_id (some q) k ks r)

  get_id_lem : (k : String) (s : Shelf Row) (r : Row) → get id k s ≡ some r → id r ≡ k
  unfolding get
  get_id_lem k s r h = (visible_id (s.row k) k s.keys r h).0

  find_in_sound :
      (p : Row → Bool) (s : Shelf Row) (ks : List String) (r : Row)
      → find_in id p s ks ≡ some r
      → (p r ≡ true) × (get id (id r) s ≡ some r)
  unfolding find_in orelse
  find_in_sound p s [] r h = ground arith
  find_in_sound p s (k ∷ ks) r h = ground (arith, find_in_sound p s ks r, get_id_lem k s r)

  find_in_complete :
      (p : Row → Bool) (s : Shelf Row) (ks : List String) (k : String) (r : Row)
      → find_in id p s ks ≡ none
      → visible id (s.row k) k ks ≡ some r
      → get id k s ≡ some r
      → p r ≡ false
  unfolding find_in orelse visible
  find_in_complete p s [] k r n v g = ground arith
  find_in_complete p s (j ∷ ks) k r n v g = ground (arith, find_in_complete p s ks k r)

  least_in_sound :
      (p : Row → Bool) (m : Row → ℕ) (s : Shelf Row) (ks : List String) (r : Row)
      → least_in id p m s ks ≡ some r
      → (p r ≡ true) × (get id (id r) s ≡ some r)
  unfolding least_in lesser
  least_in_sound p m s [] r h = ground arith
  least_in_sound p m s (k ∷ ks) r h = ground (arith, least_in_sound p m s ks r, get_id_lem k s r)

  least_in_complete :
      (p : Row → Bool) (m : Row → ℕ) (s : Shelf Row) (ks : List String) (k : String) (r : Row)
      → least_in id p m s ks ≡ none
      → visible id (s.row k) k ks ≡ some r
      → get id k s ≡ some r
      → p r ≡ false
  unfolding least_in lesser visible
  least_in_complete p m s [] k r n v g = ground arith
  least_in_complete p m s (j ∷ ks) k r n v g = ground (arith, least_in_complete p m s ks k r)

  least_in_least :
      (p : Row → Bool) (m : Row → ℕ) (s : Shelf Row) (ks : List String) (r : Row) (k : String)
      (q : Row)
      → least_in id p m s ks ≡ some r
      → visible id (s.row k) k ks ≡ some q
      → get id k s ≡ some q
      → p q ≡ true
      → m r ≤ m q
  unfolding least_in lesser visible
  least_in_least p m s [] r k q h v g t = ground arith
  least_in_least p m s (j ∷ ks) r k q h v g t = elim (Option-cases (least_in id p m s ks)) [
    | inl e ↦ ground (arith, least_in_complete p m s ks k q)
    | inr (b, e) ↦ ground (arith, least_in_least p m s ks b k q)
  ]

  list_in_sound :
      (p : Row → Bool) (s : Shelf Row) (ks : List String)
      → All (λ r. (p r ≡ true) × (get id (id r) s ≡ some r)) (list_in id p s ks)
  unfolding list_in push
  list_in_sound p s [] = tt
  list_in_sound p s (k ∷ ks) = elim (Option-cases (get id k s)) [
    | inl e ↦ rw (e, push) (list_in_sound p s ks)
    | inr (r, e) ↦ ground (arith, list_in_sound p s ks, get_id_lem k s r)
  ]

  push-mem :
      (p : Row → Bool) (o : Option Row) (rs : List Row) (r : Row)
      → Memᴰ r rs
      → Memᴰ r (push id p o rs)
  unfolding push
  push-mem p none rs r m = m
  push-mem p (some q) rs r m = elim (Bool-cases (p q)) [
    | inl e ↦ rw e (Memᴰ.tail m)
    | inr e ↦ rw e m
  ]

  push-mem_self :
      (p : Row → Bool) (rs : List Row) (r : Row) → p r ≡ true → Memᴰ r (push id p (some r) rs)
  unfolding push
  push-mem_self p rs r h = rw h (Memᴰ.head refl)

  list_in_complete :
      (p : Row → Bool) (s : Shelf Row) (ks : List String) (k : String) (r : Row)
      → visible id (s.row k) k ks ≡ some r
      → get id k s ≡ some r
      → p r ≡ true
      → Memᴰ r (list_in id p s ks)
  unfolding list_in visible
  list_in_complete p s [] k r v g t = ground arith
  list_in_complete p s (j ∷ ks) k r v g t = elim (Bool-cases (j == k)) [
    | inl e ↦ rw (eq_of_test {s = j} {t = k} e, g) (push-mem_self p _ r t)
    | inr e ↦ push-mem p (get id j s) _ r (list_in_complete p s ks k r (ground arith) g t)
  ]

  get-create_lem :
      (k : String) (r : Row) (s : Shelf Row)
      → get id k (create id r s) ≡ (if id r == k then some r else get id k s)
  unfolding get create visible
  get-create_lem k r s = ground arith

  visible-update :
      (f : Row → Row) (o : Option Row) (j : String) (ks : List String)
      → ((r : Row) → id (f r) ≡ id r)
      → visible id (Option.map f o) j ks ≡ Option.map f (visible id o j ks)
  unfolding visible
  visible-update f o j [] e = refl
  visible-update f none j (k ∷ ks) e = ground (arith, visible-update f none j ks e)
  visible-update f (some r) j (k ∷ ks) e = ground (arith, e r, visible-update f (some r) j ks e)

  visible-keep :
      (p : Row → Bool) (o : Option Row) (j : String) (ks : List String)
      → visible id (keep p o) j ks ≡ keep p (visible id o j ks)
  unfolding visible
  visible-keep p o j [] = refl
  visible-keep p none j (k ∷ ks) = ground (arith, visible-keep p none j ks)
  visible-keep p (some r) j (k ∷ ks) = ground (arith, visible-keep p (some r) j ks)

  get-update_lem :
      (j k : String) (f : Row → Row) (s : Shelf Row)
      → ((r : Row) → id (f r) ≡ id r)
      → get id j (update id k f s) ≡ (if k == j then Option.map f (get id j s) else get id j s)
  unfolding get update
  get-update_lem j k f s e = elim (Bool-cases (k == j)) [
    | inl h ↦ rw h (visible-update f (s.row j) j s.keys e)
    | inr h ↦ rw h
  ]

  pub shelf-TableLaws : TableLaws (shelf id)
  unfolding get find find_least list update_many remove
  shelf-TableLaws = record {
    get_id = get_id_lem;
    find_sound = λ p s. find_in_sound p s s.keys;
    find_complete = λ p s k r n g. find_in_complete p s s.keys k r n g g;
    find_least_sound = λ p m s. least_in_sound p m s s.keys;
    find_least_least = λ p m s r k q h g. least_in_least p m s s.keys r k q h g g;
    find_least_complete = λ p m s k r n g. least_in_complete p m s s.keys k r n g g;
    list_sound = λ p s. list_in_sound p s s.keys;
    list_complete = λ p s k r g. list_in_complete p s s.keys k r g g;
    get-create = λ k r s _. get-create_lem k r s;
    get-update = get-update_lem;
    get-update_many = λ j p f s e.
        visible-update (λ r. if p r then f r else r) (s.row j) j s.keys (λ r. ground (arith, e r));
    get-remove = λ k p s. visible-keep (λ r. not (p r)) (s.row k) k s.keys;
  }
