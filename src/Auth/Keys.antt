-- ===== src/Auth/Keys.antt =====
-- Which requests the configured keys authenticate, of src/toxicjoin/auth.py.
use toxicjoin.Prelude.{
  ◌≡◌, ◌⊎◌, inl, inr, refl, sym, ap, ◌∙◌, String, String_eq, Bool, true, false, ◌&&◌, not, is_empty,
  Option, none, some, List, [], ◌∷◌, arith, ◌==◌, ==_self, ==_false, false≢true, any, contains,
  contains-from_keys, ok, require, >>=-eq-ok, require-eq-ok, ok-injective, if◌then◌else◌,
  Option-cases, Bool-cases,
}
use mathlib.Core.Option.{some-injective, none-ne-some}
use toxicjoin.Auth.{
  AuthScope, AuthScope_eq, AuthenticatedRequest, ApiKeyCredentialConfig, StoredCredential,
  duplicate_credential_id, duplicate_key_material, no_scope, no_credential, missing_api_key,
  invalid_session, insufficient_scope, is_valid_session, stored_of, store_all, new_authenticator,
  matched_from, identify, authenticate, require_scope,
}

-- The key is configured for the principal of the request, with the scope.
pub grants :
    (String → String) → String → AuthScope → AuthenticatedRequest → ApiKeyCredentialConfig → Bool
grants digest api_key scope request c =
    digest c.api_key == digest api_key
    && (contains scope c.scopes
        && (c.principal_id == request.identity.principal_id
            && c.credential_id == request.identity.credential_id))

unfoldable pub IsConfigured : ApiKeyCredentialConfig → List ApiKeyCredentialConfig → Type 0
IsConfigured c [] = ⊥
IsConfigured c (x ∷ xs) = (c ≡ x) ⊎ IsConfigured c xs

-- A match is the one that was carried in or is among the credentials.
matched_from-any :
    (p : StoredCredential → Bool) (m : Option StoredCredential) (h : String)
    (ss : List StoredCredential) (s : StoredCredential)
    → p s ≡ true
    → matched_from m h ss ≡ some s
    → (m ≡ some s) ⊎ (any (λ c. c.key_sha256 == h && p c) ss ≡ true)
unfolding matched_from
matched_from-any p m h [] s good e = inl e
matched_from-any p m h (c ∷ cs) s good e =
    elim (matched_from-any p (if c.key_sha256 == h then some c else m) h cs s good e) [
      | inr later ↦ inr (ground (arith, later))
      | inl here ↦ elim (Bool-cases (c.key_sha256 == h)) [
        | inl hit ↦
            let same : c ≡ s = some-injective c s (sym (rw hit refl) ∙ here) in
            inr (rw (hit, same, good) refl)
        | inr miss ↦ inl (sym (rw miss refl) ∙ here)
      ]
    ]

module _ (digest : String → String) where
  store_all-parts :
      (ids hashes : List String) (c : ApiKeyCredentialConfig) (cs : List ApiKeyCredentialConfig)
      (ss : List StoredCredential)
      → store_all digest ids hashes (c ∷ cs) ≡ ok ss
      → (contains (digest c.api_key) hashes ≡ false)
        × (rest : List StoredCredential) × (store_all digest
              (c.credential_id ∷ ids)
              (digest c.api_key ∷ hashes)
              cs
            ≡ ok rest)
        × (ss ≡ stored_of digest c ∷ rest)
  unfolding store_all
  store_all-parts ids hashes c cs ss h =
      let (u, a, h1) =
        >>=-eq-ok (require (not (contains c.credential_id ids)) duplicate_credential_id) _ h in
      let (v, b, h2) =
        >>=-eq-ok (require (not (contains (digest c.api_key) hashes)) duplicate_key_material) _
          h1 in
      let (w, d, h3) = >>=-eq-ok (require (not (is_empty c.scopes)) no_scope) _ h2 in
      let (rest, e, h4) =
        >>=-eq-ok (store_all digest (c.credential_id ∷ ids) (digest c.api_key ∷ hashes) cs) _ h3 in
      let new : not (contains (digest c.api_key) hashes) ≡ true =
        require-eq-ok _ duplicate_key_material b in
      (ground arith, rest, e, sym (ok-injective _ ss h4))

  -- What is stored is what is configured.
  store_all-any :
      (p : StoredCredential → Bool) (ids hashes : List String) (cs : List ApiKeyCredentialConfig)
      (ss : List StoredCredential)
      → store_all digest ids hashes cs ≡ ok ss
      → any p ss ≡ any (λ c. p (stored_of digest c)) cs
  unfolding store_all
  store_all-any p ids hashes [] ss h = rw (← ok-injective [] ss h) refl
  store_all-any p ids hashes (c ∷ cs) ss h =
      let (new, rest, e, split) = store_all-parts ids hashes c cs ss h in
      rw (split, store_all-any p (c.credential_id ∷ ids) (digest c.api_key ∷ hashes) cs rest e) refl

  -- A hash that was seen before matches nothing behind it.
  matched_from-seen :
      (m : Option StoredCredential) (h : String) (ids hashes : List String)
      (cs : List ApiKeyCredentialConfig) (ss : List StoredCredential)
      → contains h hashes ≡ true
      → store_all digest ids hashes cs ≡ ok ss
      → matched_from m h ss ≡ m
  unfolding matched_from store_all
  matched_from-seen m h ids hashes [] ss seen e = rw (← ok-injective [] ss e) refl
  matched_from-seen m h ids hashes (c ∷ cs) ss seen e =
      let (new, rest, more, split) = store_all-parts ids hashes c cs ss e in
      let miss : (digest c.api_key == h) ≡ false =
        ==_false (digest c.api_key) h
          (λ q. false≢true (sym new ∙ ap (λ x. contains x hashes) q ∙ seen)) in
      rw (split, matched_from, miss)
        (matched_from-seen m h (c.credential_id ∷ ids) (digest c.api_key ∷ hashes) cs rest
          (ground (arith, seen)) more)

  matched_from-configured :
      (c : ApiKeyCredentialConfig) (ids hashes : List String) (m : Option StoredCredential)
      (cs : List ApiKeyCredentialConfig) (ss : List StoredCredential)
      → IsConfigured c cs
      → store_all digest ids hashes cs ≡ ok ss
      → matched_from m (digest c.api_key) ss ≡ some (stored_of digest c)
  unfolding IsConfigured matched_from
  matched_from-configured c ids hashes m [] ss among e = absurd among
  matched_from-configured c ids hashes m (x ∷ xs) ss among e =
      let (new, rest, more, split) = store_all-parts ids hashes x xs ss e in
      elim among [
        | inl same ↦
            rw (split, matched_from, same, ==_self (digest x.api_key))
              (matched_from-seen (some (stored_of digest x)) (digest x.api_key)
                (x.credential_id ∷ ids) (digest x.api_key ∷ hashes) xs rest
                (ground (arith, ==_self (digest x.api_key))) more)
        | inr later ↦ rw split (
            matched_from-configured c (x.credential_id ∷ ids) (digest x.api_key ∷ hashes) _ xs rest
              later more)
      ]

  module _ (configs : List ApiKeyCredentialConfig) (stored : List StoredCredential)
      (built : new_authenticator digest configs ≡ ok stored) where
    built-all : store_all digest [] [] configs ≡ ok stored
    unfolding new_authenticator
    built-all =
        let (u, some_, rest) = >>=-eq-ok (require (not (is_empty configs)) no_credential) _ built in
        rest

    -- A configured key that is not empty authenticates as its own principal and credential, with its
    -- own scopes, whatever else is configured, when the session is absent or well formed.
    pub authenticate-configured :
        (c : ApiKeyCredentialConfig) (session_id : Option String)
        → IsConfigured c configs
        → (c.api_key == "") ≡ false
        → is_valid_session session_id ≡ true
        → authenticate digest stored c.api_key session_id
          ≡ ok (identify (stored_of digest c) session_id)
    unfolding authenticate
    authenticate-configured c session_id among given valid =
        rw (given, matched_from-configured c [] [] none configs stored among built-all, valid) refl

    -- A request that passes a scope check presented a key whose hash is that of a configured key, which
    -- has the scope and belongs to the principal and the credential of the request.
    pub require_scope-grants :
        (api_key : String) (scope : AuthScope) (session_id : Option String)
        (request : AuthenticatedRequest)
        → require_scope digest stored api_key scope session_id ≡ ok request
        → any (grants digest api_key scope request) configs ≡ true
    unfolding require_scope authenticate grants
    require_scope-grants api_key scope session_id request h =
        let (req, known, h1) = >>=-eq-ok (authenticate digest stored api_key session_id) _ h in
        let (u, scoped, h2) =
          >>=-eq-ok (require (contains scope req.scopes) insufficient_scope) _ h1 in
        let (v, given, h3) = >>=-eq-ok (require (not (api_key == "")) missing_api_key) _ known in
        elim (Option-cases (matched_from none (digest api_key) stored)) [
          | inl missing ↦ absurd (ground (arith, (rw missing at h3)))
          | inr (s, found) ↦
              let h4 = rw found at h3 in
              let (w, valid, h5) =
                >>=-eq-ok (require (is_valid_session session_id) invalid_session) _ h4 in
              let who : identify s session_id ≡ request =
                ok-injective _ req h5 ∙ ok-injective req request h2 in
              let fits : StoredCredential → Bool = λ c.
                contains scope c.scopes
                && (c.principal_id == request.identity.principal_id
                    && c.credential_id == request.identity.credential_id) in
              let good : fits s ≡ true =
                let in_scope =
                  require-eq-ok (contains scope req.scopes) insufficient_scope scoped in
                let scopes : s.scopes ≡ req.scopes = ap (λ r. r.scopes) (ok-injective _ req h5) in
                rw
                  (
                    scopes,
                    in_scope,
                    (String_eq.beq_iff s.principal_id request.identity.principal_id).1
                        (ap (λ r. r.identity.principal_id) who),
                    (String_eq.beq_iff s.credential_id request.identity.credential_id).1
                        (ap (λ r. r.identity.credential_id) who),
                  )
                  refl in
              elim (matched_from-any fits none (digest api_key) stored s good found) [
                | inl e ↦ absurd (none-ne-some s e)
                | inr there ↦
                    let stored_of_configs =
                      store_all-any (λ c. c.key_sha256 == digest api_key && fits c) [] [] configs
                        stored built-all in
                    sym (simp contains-from_keys at stored_of_configs) ∙ there
              ]
        ]
