-- ===== src/Auth/Spent.antt =====
-- The rows of refresh tokens under the writes of backend/src/auth/auth.service.ts.
use vibe_ocpp.Prelude.{
  ℕ, String, ◌≡◌, ◌≢◌, refl, sym, ◌∙◌, Bool, true, not, ◌&&◌, none, some, arith, ◌⊎◌, inl, inr,
  Option-cases, Bool-cases, ◌==◌, is_some,
}
use vibe_ocpp.Database.{Table, TableLaws}
use vibe_ocpp.Auth.Types.{RefreshToken}
use vibe_ocpp.Auth.Service.{has_hash, clashes, revoked}

module _ (Tokens : Table RefreshToken (λ t. t.id)) where
  -- The token of a hash is stored, and every row with the hash is revoked.
  pub record IsSpent (token_hash : String) (s : Tokens.Store) : Type 0 where
    pub held :
        (k : String) × (t : RefreshToken) × (Tokens.get k s ≡ some t) × (t.token_hash ≡ token_hash)
    pub dead :
        (k : String) (t : RefreshToken)
        → Tokens.get k s ≡ some t
        → t.token_hash ≡ token_hash
        → is_some t.revoked_at ≡ true

  -- No two rows have one hash.
  pub record IsDistinct (s : Tokens.Store) : Type 0 where
    pub distinct :
        (k j : String) (t u : RefreshToken)
        → Tokens.get k s ≡ some t
        → Tokens.get j s ≡ some u
        → t.token_hash ≡ u.token_hash
        → k ≡ j

  -- What the tokens of a store become: no row goes, no row is un-revoked, and a row that is new
  -- has a new hash.
  pub record Later (s s' : Tokens.Store) : Type 0 where
    pub kept :
        (k : String) (u : RefreshToken)
        → Tokens.get k s ≡ some u
        → (r : RefreshToken) × (Tokens.get k s' ≡ some r) × (r.token_hash ≡ u.token_hash)
    pub come :
        (k : String) (r : RefreshToken)
        → Tokens.get k s' ≡ some r
        → ((u : RefreshToken) × (Tokens.get k s ≡ some u)
            × (r.token_hash ≡ u.token_hash)
            × (is_some u.revoked_at ≡ true → is_some r.revoked_at ≡ true))
          ⊎ ((j : String) (u : RefreshToken)
              → Tokens.get j s ≡ some u
              → u.token_hash ≢ r.token_hash)

  pub Later-refl : (s : Tokens.Store) → Later s s
  Later-refl s = record { kept = λ k u g. (u, g, refl); come = λ k r g. inl (r, g, refl, λ h. h) }

  pub Later-trans : (s t u : Tokens.Store) → Later s t → Later t u → Later s u
  Later-trans s t u v w = record {
    kept = λ k a g.
        let (b, gb, eb) = v.kept k a g in let (c, gc, ec) = w.kept k b gb in (c, gc, ec ∙ eb);
    come = λ k c g. elim (w.come k c g) [
      | inl (b, gb, eb, rb) ↦ elim (v.come k b gb) [
        | inl (a, ga, ea, ra) ↦ inl (a, ga, eb ∙ ea, λ h. rb (ra h))
        | inr fresh ↦ inr (λ j a ga e. fresh j a ga (e ∙ eb))
      ]
      | inr fresh ↦ inr (λ j a ga e. let (b, gb, eb) = v.kept j a ga in fresh j b gb (eb ∙ e))
    ];
  }

  pub Later-IsSpent : (h : String) (s s' : Tokens.Store) → Later s s' → IsSpent h s → IsSpent h s'
  Later-IsSpent h s s' v d =
      let (k, t, g, e) = d.held in
      let (r, gr, er) = v.kept k t g in
      record {
        held = (k, r, gr, er ∙ e);
        dead = λ j q p o. elim (v.come j q p) [
          | inl (u, gu, eu, ru) ↦ ru (d.dead j u gu (sym eu ∙ o))
          | inr fresh ↦ absurd (fresh k t g (e ∙ sym o))
        ];
      }

  module _ (L : TableLaws Tokens) where
    pub no_clash :
        (t u : RefreshToken) (s : Tokens.Store) (k : String)
        → Tokens.find (clashes t) s ≡ none
        → Tokens.get k s ≡ some u
        → (k ≢ t.id) × (u.token_hash ≢ t.token_hash)
    no_clash t u s k n g = ground (arith, L.find_complete (clashes t) s k u n g, L.get_id k s u g)

    pub free_id :
        (t : RefreshToken) (s : Tokens.Store)
        → Tokens.find (clashes t) s ≡ none
        → Tokens.get t.id s ≡ none
    free_id t s n = elim (Option-cases (Tokens.get t.id s)) [
      | inl e ↦ e
      | inr (u, e) ↦ absurd ((no_clash t u s t.id n e).0 refl)
    ]

    create-held :
        (t u : RefreshToken) (s : Tokens.Store) (k : String)
        → Tokens.find (clashes t) s ≡ none
        → Tokens.get k s ≡ some u
        → Tokens.get k (Tokens.create t s) ≡ some u
    create-held t u s k n g =
        ground (arith, no_clash t u s k n g, L.get-create k t s (free_id t s n))

    pub create_origin :
        (t u : RefreshToken) (s : Tokens.Store) (k : String)
        → Tokens.find (clashes t) s ≡ none
        → Tokens.get k (Tokens.create t s) ≡ some u
        → ((k ≡ t.id) × (u ≡ t)) ⊎ (Tokens.get k s ≡ some u)
    create_origin t u s k n g = ground (arith, L.get-create k t s (free_id t s n))

    pub create-IsDistinct :
        (t : RefreshToken) (s : Tokens.Store)
        → Tokens.find (clashes t) s ≡ none
        → IsDistinct s
        → IsDistinct (Tokens.create t s)
    create-IsDistinct t s n v = record {
      distinct = λ k j r q a b c. elim (create_origin t r s k n a) [
        | inl (d, f) ↦ elim (create_origin t q s j n b) [
          | inl (x, y) ↦ ground (arith, d, x)
          | inr x ↦ absurd ((no_clash t q s j n x).1 (ground (arith, c, f)))
        ]
        | inr d ↦ elim (create_origin t q s j n b) [
          | inl (x, y) ↦ absurd ((no_clash t r s k n d).1 (ground (arith, c, y)))
          | inr x ↦ v.distinct k j r q d x c
        ]
      ];
    }

    -- `revoked` at the rows that a test picks keeps the hashes.
    abbrev pub revoking : ℕ → (RefreshToken → Bool) → Tokens.Store → Tokens.Store
    revoking now p s = Tokens.update_many p (revoked now) s

    revoking_origin :
        (now : ℕ) (p : RefreshToken → Bool) (s : Tokens.Store) (k : String) (r : RefreshToken)
        → Tokens.get k (revoking now p s) ≡ some r
        → (u : RefreshToken) × (Tokens.get k s ≡ some u)
          × (r.token_hash ≡ u.token_hash)
          × (is_some u.revoked_at ≡ true → is_some r.revoked_at ≡ true)
          × (p u ≡ true → is_some r.revoked_at ≡ true)
    revoking_origin now p s k r g = elim (Option-cases (Tokens.get k s)) [
      | inl e ↦ ground (arith, L.get-update_many k p (revoked now) s (λ _. refl))
      | inr (u, e) ↦ elim (Bool-cases (p u)) [
        | inl b ↦
            let d : r ≡ revoked now u =
              ground (arith, L.get-update_many k p (revoked now) s (λ _. refl)) in
            (u, e, rw d refl, λ _. rw d refl, λ _. rw d refl)
        | inr b ↦
            let d : r ≡ u = ground (arith, L.get-update_many k p (revoked now) s (λ _. refl)) in
            (u, e, rw d refl, λ h. rw d h, λ h. cc)
      ]
    ]

    revoking-held :
        (now : ℕ) (p : RefreshToken → Bool) (s : Tokens.Store) (k : String) (u : RefreshToken)
        → Tokens.get k s ≡ some u
        → (r : RefreshToken) × (Tokens.get k (revoking now p s) ≡ some r)
          × (r.token_hash ≡ u.token_hash)
    revoking-held now p s k u g = elim (Bool-cases (p u)) [
      | inl b ↦
          (revoked now u, ground (arith, L.get-update_many k p (revoked now) s (λ _. refl)), refl)
      | inr b ↦ (u, ground (arith, L.get-update_many k p (revoked now) s (λ _. refl)), refl)
    ]

    update_origin :
        (now : ℕ) (i : String) (s : Tokens.Store) (k : String) (r : RefreshToken)
        → Tokens.get k (Tokens.update i (revoked now) s) ≡ some r
        → (u : RefreshToken) × (Tokens.get k s ≡ some u)
          × (r.token_hash ≡ u.token_hash)
          × (is_some u.revoked_at ≡ true → is_some r.revoked_at ≡ true)
          × (i ≡ k → is_some r.revoked_at ≡ true)
    update_origin now i s k r g = elim (Option-cases (Tokens.get k s)) [
      | inl e ↦ ground (arith, L.get-update k i (revoked now) s (λ _. refl))
      | inr (u, e) ↦ elim (Bool-cases (i == k)) [
        | inl b ↦
            let d : r ≡ revoked now u =
              ground (arith, L.get-update k i (revoked now) s (λ _. refl)) in
            (u, e, rw d refl, λ _. rw d refl, λ _. rw d refl)
        | inr b ↦
            let d : r ≡ u = ground (arith, L.get-update k i (revoked now) s (λ _. refl)) in
            (u, e, rw d refl, λ h. rw d h, λ h. ground arith)
      ]
    ]

    update-held :
        (now : ℕ) (i : String) (s : Tokens.Store) (k : String) (u : RefreshToken)
        → Tokens.get k s ≡ some u
        → (r : RefreshToken) × (Tokens.get k (Tokens.update i (revoked now) s) ≡ some r)
          × (r.token_hash ≡ u.token_hash)
    update-held now i s k u g = elim (Bool-cases (i == k)) [
      | inl b ↦ (revoked now u, ground (arith, L.get-update k i (revoked now) s (λ _. refl)), refl)
      | inr b ↦ (u, ground (arith, L.get-update k i (revoked now) s (λ _. refl)), refl)
    ]

    pub create-Later :
        (t : RefreshToken) (s : Tokens.Store)
        → Tokens.find (clashes t) s ≡ none
        → Later s (Tokens.create t s)
    create-Later t s n = record {
      kept = λ k u g. (u, create-held t u s k n g, refl);
      come = λ k r g. elim (create_origin t r s k n g) [
        | inl (_, e) ↦ inr (λ j u gu q. (no_clash t u s j n gu).1 (ground (arith, q, e)))
        | inr e ↦ inl (r, e, refl, λ h. h)
      ];
    }

    pub revoking-Later :
        (now : ℕ) (p : RefreshToken → Bool) (s : Tokens.Store) → Later s (revoking now p s)
    revoking-Later now p s = record {
      kept = λ k u g. revoking-held now p s k u g;
      come = λ k r g. let (u, gu, e, d, _) = revoking_origin now p s k r g in inl (u, gu, e, d);
    }

    pub update-Later :
        (now : ℕ) (i : String) (s : Tokens.Store) → Later s (Tokens.update i (revoked now) s)
    update-Later now i s = record {
      kept = λ k u g. update-held now i s k u g;
      come = λ k r g. let (u, gu, e, d, _) = update_origin now i s k r g in inl (u, gu, e, d);
    }

    pub revoking-IsDistinct :
        (now : ℕ) (p : RefreshToken → Bool) (s : Tokens.Store)
        → IsDistinct s
        → IsDistinct (revoking now p s)
    revoking-IsDistinct now p s v = record {
      distinct = λ k j t u a b c.
          let (t', ga, ea, _, _) = revoking_origin now p s k t a in
          let (u', gb, eb, _, _) = revoking_origin now p s j u b in
          v.distinct k j t' u' ga gb (sym ea ∙ c ∙ eb);
    }

    pub update-IsDistinct :
        (now : ℕ) (i : String) (s : Tokens.Store)
        → IsDistinct s
        → IsDistinct (Tokens.update i (revoked now) s)
    update-IsDistinct now i s v = record {
      distinct = λ k j t u a b c.
          let (t', ga, ea, _, _) = update_origin now i s k t a in
          let (u', gb, eb, _, _) = update_origin now i s j u b in
          v.distinct k j t' u' ga gb (sym ea ∙ c ∙ eb);
    }

    -- The row of a hash is the only one, so revoking it spends the hash.
    pub update-IsSpent :
        (now : ℕ) (s : Tokens.Store) (t : RefreshToken)
        → IsDistinct s
        → Tokens.get t.id s ≡ some t
        → IsSpent t.token_hash (Tokens.update t.id (revoked now) s)
    update-IsSpent now s t v g =
        let (r, gr, er) = update-held now t.id s t.id t g in
        record {
          held = (t.id, r, gr, er);
          dead = λ k q p o.
              let (u, gu, eu, _, d) = update_origin now t.id s k q p in
              d (v.distinct t.id k t u g gu (sym o ∙ eu));
        }

    pub revoking-IsSpent :
        (now : ℕ) (h : String) (s : Tokens.Store) (k : String) (t : RefreshToken)
        → Tokens.get k s ≡ some t
        → t.token_hash ≡ h
        → IsSpent h (revoking now (λ u. has_hash h u && not (is_some u.revoked_at)) s)
    revoking-IsSpent now h s k t g e =
        let p : RefreshToken → Bool = λ u. has_hash h u && not (is_some u.revoked_at) in
        let (r, gr, er) = revoking-held now p s k t g in
        record {
          held = (k, r, gr, er ∙ e);
          dead = λ j q a o.
              let (u, gu, eu, d, f) = revoking_origin now p s j q a in
              elim (Bool-cases (is_some u.revoked_at)) [
                | inl b ↦ d b
                | inr b ↦ f (ground (arith, eu, o, b))
              ];
        }
