-- ===== src/Testsuite/World/Following.antt =====
-- What others may do to the world, one after the other.
use vibe_ocpp.Prelude.{String, ◌≡◌, refl, ap, ◌∙◌, true, inl, inr, arith, ◌==◌, Bool-cases}
use vibe_ocpp.Database.{TableLaws}
use vibe_ocpp.Testsuite.Rows.{Step, settled}
use vibe_ocpp.Testsuite.World.{Tables, World, Follows, Continues}

module _ (T : Tables) where
  open T use {Steps}

  pub Follows-refl : (w : World T) → Follows T w w
  Follows-refl w = record { later = omega arith; kept = λ k s g. (s, g, inl refl) }

  continue : (r s t : Step) → Continues T r s → Continues T s t → Continues T r t
  continue r s t (inl p) (inl q) = inl (q ∙ p)
  continue r s t (inr p) (inl q) = inr (ap settled q ∙ p)
  continue r s t p (inr q) = inr q

  pub Follows-trans : (u v w : World T) → Follows T u v → Follows T v w → Follows T u w
  Follows-trans u v w f g = record {
    later = omega (arith, f.later, g.later);
    kept = λ k s h.
        let (s1, h1, c1) = f.kept k s h in
        let (s2, h2, c2) = g.kept k s1 h1 in (s2, h2, continue s s1 s2 c1 c2);
  }

  pub update-Follows :
      (L : TableLaws Steps) (j : String) (f : Step → Step) (w : World T)
      → ((r : Step) → (f r).id ≡ r.id)
      → ((r : Step) → settled (f r).status ≡ true)
      → Follows T w (record w { steps = Steps.update j f w.steps })
  update-Follows L j f w same done = record {
    later = omega arith;
    kept = λ k s h. elim (Bool-cases (j == k)) [
      | inl e ↦ (f s, ground (arith, h, e, L.get-update k j f w.steps same), inr (done s))
      | inr e ↦ (s, ground (arith, h, e, L.get-update k j f w.steps same), inl refl)
    ];
  }
