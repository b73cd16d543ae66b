-- ===== src/Service/Session/Tokens.antt =====
-- src/service/session.hpp: what `authTokens` finds after an entry has been added.
use obmc_webapp.Prelude.{
  String, ◌≡◌, ◌≢◌, refl, sym, ◌∙◌, Bool-cases, inl, inr, none, some, List, [], ◌∷◌, All,
}
use obmc_webapp.Helpers.Compare.{
  OpenSsl, constant_time_string_compare, constant_time_string_compare_iff,
}
use obmc_webapp.Service.Session.User.{UserSession}
use obmc_webapp.Service.Session.Store.{find_token, emplace_token}

module _ (ssl : OpenSsl) where
  pub find_token-empty :
      (entries : List (String × UserSession)) → All (λ e. find_token ssl e.0 [] ≡ none) entries
  unfolding find_token
  find_token-empty [] = tt
  find_token-empty (e ∷ rest) = (refl, find_token-empty rest)

  pub find_token-cons :
      (k token : String) (u : UserSession) (entries : List (String × UserSession))
      → k ≢ token
      → find_token ssl token ((k, u) ∷ entries) ≡ find_token ssl token entries
  unfolding find_token
  find_token-cons k token u entries other =
      elim (Bool-cases (constant_time_string_compare ssl k token)) [
        | inl same ↦ absurd (other ((constant_time_string_compare_iff ssl k token).0 same))
        | inr differs ↦ rw differs
      ]

  pub find_token-head :
      (token : String) (u : UserSession) (entries : List (String × UserSession))
      → find_token ssl token ((token, u) ∷ entries) ≡ some u
  unfolding find_token
  find_token-head token u entries = rw ((constant_time_string_compare_iff ssl token token).1 refl)

  pub emplace_token-new :
      (token : String) (u : UserSession) (entries : List (String × UserSession))
      → find_token ssl token entries ≡ none
      → emplace_token ssl token u entries ≡ (token, u) ∷ entries
  unfolding emplace_token
  emplace_token-new token u entries h = rw (h, emplace_token)

  pub still_new :
      (key : String) (u : UserSession) (tokens rest : List (String × UserSession))
      → All (λ f. f.0 ≢ key) rest
      → All (λ f. find_token ssl f.0 tokens ≡ none) rest
      → All (λ f. find_token ssl f.0 ((key, u) ∷ tokens) ≡ none) rest
  still_new key u tokens [] other new = tt
  still_new key u tokens ((token, _) ∷ rest) (apart, other) (none_here, new) = (
    find_token-cons key token u tokens (λ e. apart (sym e)) ∙ none_here,
    still_new key u tokens rest other new,
  )
