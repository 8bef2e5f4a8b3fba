-- ===== src/Auth.antt =====
-- src/toxicjoin/auth.py: the configured API keys, and the identity that a presented key gets.
-- The keyed hash of a key, `_sha256_text`, is a parameter: the HMAC of the standard library under a
-- random pepper.
pub mod Keys
mod Tests
use Prim.Native.Char.{code}
use toxicjoin.Prelude.{
  ℕ, zero, suc, String, String_eq, Bool, true, false, ◌&&◌, ◌||◌, not, is_empty, Option, none, some,
  List, [], ◌∷◌, Eq, eq_of, leb, nat_eq, ◌==◌, contains, from_keys, Result, ok, raise, require,
  ◌>>=◌, ◌>>◌, if◌then◌else◌,
}

pub data AuthScope : Type 0 where
  analyze : AuthScope
  execute : AuthScope
  receipts_read : AuthScope
  system_read : AuthScope

unfoldable pub AuthScope-discrete : Discrete AuthScope
AuthScope-discrete = hlevel

instance abbrev pub AuthScope_eq : Eq AuthScope
AuthScope_eq = eq_of AuthScope-discrete

pub record RequestIdentity : Type 0 where
  pub principal_id : String
  pub credential_id : String
  pub agent_id : Option String
  pub session_id : Option String

pub record AuthenticatedRequest : Type 0 where
  pub identity : RequestIdentity
  pub scopes : List AuthScope

pub record ApiKeyCredentialConfig : Type 0 where
  pub credential_id : String
  pub api_key : String
  pub principal_id : String
  pub scopes : List AuthScope
  pub agent_id : Option String

pub record StoredCredential : Type 0 where
  pub credential_id : String
  pub key_sha256 : String
  pub principal_id : String
  pub scopes : List AuthScope
  pub agent_id : Option String

-- The errors of the constructor.
pub data ConfigError : Type 0 where
  no_credential : ConfigError
  duplicate_credential_id : ConfigError
  duplicate_key_material : ConfigError
  no_scope : ConfigError

-- The codes of `AuthenticationError` and `AuthorizationError`.
pub data AuthError : Type 0 where
  missing_api_key : AuthError
  invalid_api_key : AuthError
  invalid_session : AuthError
  insufficient_scope : AuthError

abbrev is_alphanumeric : ℕ → Bool
is_alphanumeric c =
    (leb b'0' c && leb c b'9') || (leb b'A' c && leb c b'Z') || (leb b'a' c && leb c b'z')

abbrev is_session_char : ℕ → Bool
is_session_char c =
    is_alphanumeric c || nat_eq c b'.' || nat_eq c b'_' || nat_eq c b':' || nat_eq c b'-'

-- At most n characters, all of the session's alphabet.
pub is_session_rest : ℕ → String → Bool
is_session_rest n String.[] = true
is_session_rest zero (String.◌∷◌ c s) = false
is_session_rest (suc n) (String.◌∷◌ c s) = is_session_char (code c) && is_session_rest n s

-- `_SESSION_PATTERN`
pub is_session : String → Bool
is_session String.[] = false
is_session (String.◌∷◌ c s) = is_alphanumeric (code c) && is_session_rest 127 s

abbrev pub is_valid_session : Option String → Bool
is_valid_session none = true
is_valid_session (some s) = is_session s

abbrev pub stored_of : (String → String) → ApiKeyCredentialConfig → StoredCredential
stored_of digest c = record {
  credential_id = c.credential_id;
  key_sha256 = digest c.api_key;
  principal_id = c.principal_id;
  scopes = from_keys [] c.scopes;
  agent_id = c.agent_id;
}

-- The loop of the constructor, by the identifiers and hashes that it has seen.
pub store_all :
    (String → String)
    → List String
    → List String
    → List ApiKeyCredentialConfig
    → Result ConfigError (List StoredCredential)
store_all digest ids hashes [] = ok []
store_all digest ids hashes (c ∷ cs) =
    let rest = store_all digest (c.credential_id ∷ ids) (digest c.api_key ∷ hashes) cs in
    do
      require (not (contains c.credential_id ids)) duplicate_credential_id
      require (not (contains (digest c.api_key) hashes)) duplicate_key_material
      require (not (is_empty c.scopes)) no_scope
      stored ← rest
      ok (stored_of digest c ∷ stored)

-- The constructor
pub new_authenticator :
    (String → String) → List ApiKeyCredentialConfig → Result ConfigError (List StoredCredential)
new_authenticator digest credentials =
    require (not (is_empty credentials)) no_credential >>= λ _. store_all digest [] [] credentials

-- The loop of `authenticate`: it goes through every credential, and the last match stays.
pub matched_from :
    Option StoredCredential → String → List StoredCredential → Option StoredCredential
matched_from matched presented [] = matched
matched_from matched presented (c ∷ cs) =
    matched_from (if c.key_sha256 == presented then some c else matched) presented cs

abbrev pub identify : StoredCredential → Option String → AuthenticatedRequest
identify c session_id = record {
  identity = record {
    principal_id = c.principal_id;
    credential_id = c.credential_id;
    agent_id = c.agent_id;
    session_id = session_id;
  };
  scopes = c.scopes;
}

-- `authenticate`
pub authenticate :
    (String → String)
    → List StoredCredential
    → String
    → Option String
    → Result AuthError AuthenticatedRequest
authenticate digest credentials api_key session_id =
    require (not (api_key == "")) missing_api_key >>= λ _.
    elim (matched_from none (digest api_key) credentials) [
      | none ↦ raise invalid_api_key
      | some c ↦
          require (is_valid_session session_id) invalid_session >>= λ _. ok (identify c session_id)
    ]

-- `require_scope`
pub require_scope :
    (String → String)
    → List StoredCredential
    → String
    → AuthScope
    → Option String
    → Result AuthError AuthenticatedRequest
require_scope digest credentials api_key scope session_id = do
  authenticated ← authenticate digest credentials api_key session_id
  require (contains scope authenticated.scopes) insufficient_scope
  ok authenticated
