-- ===== src/Redact/Hidden.antt =====
-- The log shows no credentials, and all else.
use registry_redirect.Prelude.{
  ◌≡◌, ◌≢◌, refl, subst, ◌∙◌, true, Bool-cases, inl, inr, [], ◌∷◌, Bytes, Bytes-discrete, codes,
  arith,
}
use registry_redirect.GoMap.{lookup-insert_self, lookup-insert_ne}
use registry_redirect.Header
use registry_redirect.Header.{Header}
use registry_redirect.Redact.{redact}
use registry_redirect.Tokens.{is_nil}

is_nil-true : (s : Bytes) → is_nil s ≡ true → s ≡ []
is_nil-true [] h = refl
is_nil-true (b ∷ s) h = absurd (ground arith)

values-set_self :
    (h : Header) (k v : Bytes) → Header.values (Header.set h k v) (Header.canonical k) ≡ v ∷ []
unfolding Header.values Header.set
values-set_self h k v =
    rw (lookup-insert_self Bytes-discrete (Header.canonical k) (v ∷ []) h, Header.values) refl

values-set_ne :
    (h : Header) (q k v : Bytes)
    → q ≢ Header.canonical k
    → Header.values (Header.set h k v) q ≡ Header.values h q
unfolding Header.values Header.set
values-set_ne h q k v other =
    rw (lookup-insert_ne Bytes-discrete q (Header.canonical k) (v ∷ []) h other, Header.values) refl

canonical_authorization : Header.canonical (codes "Authorization") ≡ codes "Authorization"
unfolding Header.canonical
canonical_authorization = refl

-- Where the first value of `Authorization` is not empty, none of its values is left in a redacted header.
-- The values of every other key are as they were.
pub values-redact :
    (h : Header)
    → (Header.get h (codes "Authorization") ≢ []
        → Header.values (redact h) (codes "Authorization") ≡ codes "REDACTED" ∷ [])
      × ((k : Bytes) → k ≢ codes "Authorization" → Header.values (redact h) k ≡ Header.values h k)
unfolding redact
values-redact h = elim (Bool-cases (is_nil (Header.get h (codes "Authorization")))) [
  | inl bare ↦ (
    λ given. absurd (given (is_nil-true (Header.get h (codes "Authorization")) bare)),
    λ k other. rw (bare, redact) refl,
  )
  | inr secret ↦ (
    λ given.
        rw (secret, redact)
          (subst
            (λ x.
              Header.values (Header.set h (codes "Authorization") (codes "REDACTED")) x
              ≡ codes "REDACTED" ∷ [])
            canonical_authorization (values-set_self h (codes "Authorization") (codes "REDACTED"))),
    λ k other.
        rw (secret, redact)
          (values-set_ne h k (codes "Authorization") (codes "REDACTED")
            (λ e. other (e ∙ canonical_authorization))),
  )
]
