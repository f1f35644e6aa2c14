-- ===== src/Testsuite/Runs/Matrix.antt =====
-- The selection of `compatibilityMatrix` of backend/src/testsuite/testsuite-run.service.ts.
use vibe_ocpp.Prelude.{
  String, ◌≡◌, refl, Bool, false, List, [], ◌∷◌, arith, any, first, map, ok, All, ◌==◌, Bool-cases,
  inl, inr, true, get_or, Option, none, some, is_some, ◌≤◌, sym, ◌∙◌, eq_of_test, eq_refl, ◌&&◌,
}
use mathlib.Core.List.{Memᴰ}
use vibe_ocpp.Prelude.Text.{◌+++◌}
use vibe_ocpp.Prelude.Order.{
  order_by-All, order_by-Mem, All-map, All-Mem, first-Mem, IsDescending, order_by-IsDescending,
  first_greatest,
}
use vibe_ocpp.Database.{TableLaws}
use vibe_ocpp.Testsuite.Rows.{Run}
use vibe_ocpp.Testsuite.Runs.{
  RunWithSteps, or_null, matrix_key, latest_by_key, add_steps, known_runs, compatibility_matrix,
}
use vibe_ocpp.Testsuite.World.{Tables, World, Services}

abbrev pub has_matrix_key : String → Run → Bool
has_matrix_key k r = matrix_key r == k

abbrev taken : String → List String → Bool
taken k seen = any (λ j. j == k) seen

first-latest_by_key :
    (k : String) (seen : List String) (rs : List Run)
    → taken k seen ≡ false
    → first (has_matrix_key k) (latest_by_key seen rs) ≡ first (has_matrix_key k) rs
unfolding latest_by_key
first-latest_by_key k seen [] h = refl
first-latest_by_key k seen (r ∷ rs) h = elim (Bool-cases (matrix_key r == k)) [
  | inl e ↦ ground (arith, e, h)
  | inr e ↦ elim (Bool-cases (taken (matrix_key r) seen)) [
    | inl t ↦ rw (t, e) (first-latest_by_key k seen rs h)
    | inr t ↦ rw (t, e) (first-latest_by_key k (matrix_key r ∷ seen) rs (rw e h))
  ]
]

-- No two runs of a list have the same key.
abbrev pub IsOnePerKey : (Run → String) → List Run → Type 0
IsOnePerKey key [] = Unit
IsOnePerKey key (r ∷ rs) = All (λ q. (key r == key q) ≡ false) rs × IsOnePerKey key rs

untaken-cons :
    (j : String) (seen : List String) (rs : List Run)
    → All (λ q. taken (matrix_key q) (j ∷ seen) ≡ false) rs
    → All (λ q. (j == matrix_key q) ≡ false) rs × All (λ q. taken (matrix_key q) seen ≡ false) rs
untaken-cons j seen [] h = (tt, tt)
untaken-cons j seen (r ∷ rs) (h, hs) =
    let (a, b) = untaken-cons j seen rs hs in ((ground (arith, h), a), (ground (arith, h), b))

latest_by_key-untaken :
    (seen : List String) (rs : List Run)
    → All (λ q. taken (matrix_key q) seen ≡ false) (latest_by_key seen rs)
unfolding latest_by_key
latest_by_key-untaken seen [] = tt
latest_by_key-untaken seen (r ∷ rs) = elim (Bool-cases (taken (matrix_key r) seen)) [
  | inl t ↦ rw t (latest_by_key-untaken seen rs)
  | inr t ↦
      rw t
        (t, (untaken-cons (matrix_key r) seen _ (latest_by_key-untaken (matrix_key r ∷ seen) rs)).1)
]

latest_by_key-IsOnePerKey :
    (seen : List String) (rs : List Run) → IsOnePerKey matrix_key (latest_by_key seen rs)
unfolding latest_by_key
latest_by_key-IsOnePerKey seen [] = tt
latest_by_key-IsOnePerKey seen (r ∷ rs) = elim (Bool-cases (taken (matrix_key r) seen)) [
  | inl t ↦ rw t (latest_by_key-IsOnePerKey seen rs)
  | inr t ↦ rw t (
    (untaken-cons (matrix_key r) seen _ (latest_by_key-untaken (matrix_key r ∷ seen) rs)).0,
    latest_by_key-IsOnePerKey (matrix_key r ∷ seen) rs,
  )
]

-- The four parts joined, as text; a part that is missing is "null".
abbrev pub combination : Run → String
combination r =
    get_or r.manufacturer "null"
    +++ "::"
    +++ get_or r.model "null"
    +++ "::"
    +++ get_or r.firmware_version "null"
    +++ "::"
    +++ r.ocpp_version

or_null-get_or : (o : Option String) → or_null o ≡ get_or o "null"
unfolding or_null
or_null-get_or none = refl
or_null-get_or (some s) = refl

matrix_key-combination : (r : Run) → matrix_key r ≡ combination r
unfolding matrix_key
matrix_key-combination r =
    rw (or_null-get_or r.manufacturer, or_null-get_or r.model, or_null-get_or r.firmware_version)
      refl

combined :
    (r : Run) (rs : List Run)
    → All (λ q. (matrix_key r == matrix_key q) ≡ false) rs
    → All (λ q. (combination r == combination q) ≡ false) rs
combined r [] h = tt
combined r (q ∷ qs) (h, hs) =
    (rw (matrix_key-combination r, matrix_key-combination q) at h, combined r qs hs)

combinations : (rs : List Run) → IsOnePerKey matrix_key rs → IsOnePerKey combination rs
combinations [] h = tt
combinations (r ∷ rs) (h, hs) = (combined r rs h, combinations rs hs)

module _ (T : Tables) (S : Services T) where
  -- A run of the tenant in the database, whose manufacturer and model are known.
  abbrev pub Stored : String → World T → Run → Type 0
  Stored tenant_id w q =
      (T.Runs.get q.id w.runs ≡ some q)
      × (q.tenant_id ≡ tenant_id)
      × (is_some q.manufacturer ≡ true)
      × (is_some q.model ≡ true)

  map-add_steps : (w : World T) (rs : List Run) → map (λ x. x.run) (add_steps T S w rs) ≡ rs
  unfolding add_steps
  map-add_steps w [] = refl
  map-add_steps w (r ∷ rs) = rw (map-add_steps w rs) refl

  known_runs-Stored :
      (L : TableLaws T.Runs) (tenant_id : String) (w : World T)
      → All (Stored tenant_id w) (known_runs T S tenant_id w)
  unfolding known_runs
  known_runs-Stored L tenant_id w = order_by-All _ (Stored tenant_id w) _ (
      All-map (λ q h. ground (arith, h)) _
        (L.list_sound (λ r. r.tenant_id == tenant_id && is_some r.manufacturer && is_some r.model)
          w.runs))

  known_runs-Mem :
      (L : TableLaws T.Runs) (tenant_id : String) (w : World T) (k : String) (r : Run)
      → T.Runs.get k w.runs ≡ some r
      → r.tenant_id ≡ tenant_id
      → is_some r.manufacturer ≡ true
      → is_some r.model ≡ true
      → Memᴰ r (known_runs T S tenant_id w)
  unfolding known_runs
  known_runs-Mem L tenant_id w k r stored owner maker kind = order_by-Mem _ r _ (
      L.list_complete (λ r. r.tenant_id == tenant_id && is_some r.manufacturer && is_some r.model)
        w.runs k r stored (ground (arith, owner, maker, kind)))

  known_runs-IsDescending :
      (tenant_id : String) (w : World T)
      → IsDescending (λ r. r.started_at) (known_runs T S tenant_id w)
  unfolding known_runs
  known_runs-IsDescending tenant_id w =
      order_by-IsDescending (λ (r : Run). r.started_at)
        (T.Runs.list (λ r. r.tenant_id == tenant_id && is_some r.manufacturer && is_some r.model)
          w.runs)

  represented :
      (L : TableLaws T.Runs) (tenant_id : String) (w : World T) (k : String) (r : Run)
      → T.Runs.get k w.runs ≡ some r
      → r.tenant_id ≡ tenant_id
      → is_some r.manufacturer ≡ true
      → is_some r.model ≡ true
      → (q : Run) × Memᴰ q (latest_by_key [] (known_runs T S tenant_id w))
        × (combination q ≡ combination r)
        × (r.started_at ≤ q.started_at)
        × Stored tenant_id w q
  represented L tenant_id w k r stored owner maker kind =
      let (q, found, same, later) =
        first_greatest (λ r. r.started_at) (has_matrix_key (matrix_key r)) r
          (known_runs T S tenant_id w) (known_runs-IsDescending tenant_id w)
          (known_runs-Mem L tenant_id w k r stored owner maker kind) (eq_refl (matrix_key r)) in
      (
        q,
        first-Mem (has_matrix_key (matrix_key r)) q _
            (first-latest_by_key (matrix_key r) [] (known_runs T S tenant_id w) refl ∙ found),
        sym (matrix_key-combination q) ∙ eq_of_test same ∙ matrix_key-combination r,
        later,
        All-Mem (Stored tenant_id w) q (known_runs T S tenant_id w)
            (known_runs-Stored L tenant_id w) (first-Mem (has_matrix_key (matrix_key r)) q _ found),
      )

  -- The matrix has at most one run for each combination of manufacturer, model, firmware and
  -- version, where combinations are told apart by the four texts joined with `::`; and each run
  -- of the tenant whose manufacturer and model are known is represented in it, by a run of the
  -- same combination that started no earlier and is stored for this tenant with a manufacturer
  -- and a model itself.
  pub compatibility_matrix_lem :
      (L : TableLaws T.Runs) (tenant_id : String) (w : World T) (k : String) (r : Run)
      → T.Runs.get k w.runs ≡ some r
      → r.tenant_id ≡ tenant_id
      → is_some r.manufacturer ≡ true
      → is_some r.model ≡ true
      → (rows : List RunWithSteps) × (compatibility_matrix T S tenant_id w ≡ (ok rows, w))
        × IsOnePerKey combination (map (λ x. x.run) rows)
        × ((q : Run) × Memᴰ q (map (λ x. x.run) rows)
            × (combination q ≡ combination r)
            × (r.started_at ≤ q.started_at)
            × Stored tenant_id w q)
  unfolding compatibility_matrix known_runs
  compatibility_matrix_lem L tenant_id w k r stored owner maker kind = (
    add_steps T S w (latest_by_key [] (known_runs T S tenant_id w)),
    refl,
    rw (map-add_steps w (latest_by_key [] (known_runs T S tenant_id w)))
        (combinations _ (latest_by_key-IsOnePerKey [] (known_runs T S tenant_id w))),
    rw (map-add_steps w (latest_by_key [] (known_runs T S tenant_id w)))
        (represented L tenant_id w k r stored owner maker kind),
  )
