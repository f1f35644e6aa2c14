-- ===== src/Citrineos/Http/Retry.antt =====
-- How often a call of CitrineOS is sent.
use vibe_ocpp.Prelude.{
  String, ◌≡◌, refl, Bool, true, false, not, Option, none, some, List, ◌∷◌, is_some, arith, ◌⊎◌,
  inl, inr, Option-cases,
}
use vibe_ocpp.Citrineos.Http.{
  Web, RequestOptions, Sent, Fetched, network_failure, aborted, responded, Outcome, thrown, other,
  conclude, sent, build_url, attempt, retried, request,
}

-- Whether no whole response came: none at all, or one whose body broke off.
abbrev pub cut_off : Fetched → Bool
cut_off (network_failure text) = true
cut_off aborted = false
cut_off (responded r) = not (is_some r.text)

module _ (N : Web) where
  abbrev pub sends : String → Sent → List Sent → Bool → Outcome × List Sent
  sends url r s true = (conclude N url (N.fetch (r ∷ s) r), r ∷ r ∷ s)
  sends url r s false = (conclude N url (N.fetch s r), r ∷ s)

  read_cases :
      (url : String) (options : RequestOptions) (s : List Sent) (f : Fetched)
      → N.fetch s (sent N url options) ≡ f
      → retried N url options (attempt N url options s)
        ≡ sends url (sent N url options) s (cut_off f)
  unfolding retried attempt conclude
  read_cases url options s (network_failure text) h = rw h refl
  read_cases url options s aborted h = rw h refl
  read_cases url options s (responded r) h = body_cases r.text refl
    where
      body_cases :
          (t : Option String)
          → r.text ≡ t
          → retried N url options (attempt N url options s)
            ≡ sends url (sent N url options) s (not (is_some r.text))
      body_cases none e = ground (arith, h, e)
      body_cases (some t) e = ground (arith, h, e)

  -- A call whose URL cannot be made throws and is not sent. Any other is sent once, or a second
  -- time the same and never a third: again exactly where the first came to no whole response,
  -- which is so too where a response came and its body broke off; the answer is that of the last
  -- sending. A timeout or an answered error is not repeated.
  pub request_lem :
      (base_url : String) (options : RequestOptions) (s : List Sent)
      → ((build_url N base_url options.path options.query ≡ none)
          × (request N base_url options s ≡ (thrown (other "Invalid URL"), s)))
        ⊎ ((url : String) × (build_url N base_url options.path options.query ≡ some url)
            × (request N base_url options s
                ≡ sends url (sent N url options) s (cut_off (N.fetch s (sent N url options)))))
  unfolding request
  request_lem base_url options s =
      elim (Option-cases (build_url N base_url options.path options.query)) [
        | inl e ↦ inl (e, rw e refl)
        | inr (url, e) ↦ inr (url, e, rw e (read_cases url options s _ refl))
      ]
