-- ===== src/Auth/Tests.antt =====
-- The authenticator with two configured keys.
use toxicjoin.Prelude.{
  ◌≡◌, refl, inl, inr, String, String_eq, true, none, some, List, [], ◌∷◌, any, ok, from_keys,
}
use mathlib.Core.Bool.{decide}
use toxicjoin.Auth.{
  analyze, execute, ApiKeyCredentialConfig, StoredCredential, is_session, is_session_rest,
  stored_of, identify, new_authenticator, store_all, matched_from, authenticate, require_scope,
  AuthScope-discrete,
}
use toxicjoin.Auth.Keys.{grants, IsConfigured, authenticate-configured, require_scope-grants}

-- A digest for the example.
abbrev digest : String → String
digest s = s

abbrev alice : ApiKeyCredentialConfig
alice = record {
  credential_id = "c1";
  api_key = "alice-key";
  principal_id = "alice";
  scopes = analyze ∷ [];
  agent_id = none;
}

abbrev bob : ApiKeyCredentialConfig
bob = record alice {
  credential_id = "c2";
  api_key = "bob-key";
  principal_id = "bob";
  scopes = analyze ∷ execute ∷ [];
}

abbrev stored : List StoredCredential
stored = stored_of digest alice ∷ stored_of digest bob ∷ []

built : new_authenticator digest (alice ∷ bob ∷ []) ≡ ok stored
unfolding new_authenticator store_all decide
built = refl

authenticate_example :
    authenticate digest stored "bob-key" (some "s-1")
    ≡ ok (identify (stored_of digest bob) (some "s-1"))
unfolding is_session is_session_rest IsConfigured
authenticate_example =
    authenticate-configured digest (alice ∷ bob ∷ []) stored built bob (some "s-1") (inr (inl refl))
      refl refl

require_scope_example :
    any (grants digest "bob-key" execute (identify (stored_of digest bob) none)) (alice ∷ bob ∷ [])
    ≡ true
unfolding require_scope authenticate decide matched_from from_keys AuthScope-discrete
require_scope_example =
    require_scope-grants digest (alice ∷ bob ∷ []) stored built "bob-key" execute none
      (identify (stored_of digest bob) none) refl
