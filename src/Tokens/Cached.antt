-- ===== src/Tokens/Cached.antt =====
-- What may be in the token cache, and the cache's own operations.
use registry_redirect.Prelude.{
  ℕ, ◌≡◌, refl, true, Option, none, some, Bytes, arith, ◌⊎◌, inl, inr, Bool-cases, ◌≤◌,
}
use registry_redirect.Redirect.{World}
use registry_redirect.ResponseCache
use registry_redirect.ResponseCache.{Response, new_response}
use registry_redirect.ResponseCache.Bounds.{IsValid, get-IsValid, set-IsValid}
use registry_redirect.ResponseCache.Expiry.{readable, readable-get, readable-set}
use registry_redirect.Http.{Failure}
use registry_redirect.Tokens.{is_right, is_kept}

-- An answer with the status 200 and a token.
pub record IsToken (world : World) (e : Response) : Type 0 where
  pub ok : e.status ≡ 200
  pub token : Bytes
  pub decoded : world.decode_token e.body ≡ inr token

decoded_cases : (d : Failure ⊎ Bytes) → is_right d ≡ true → (t : Bytes) × (d ≡ inr t)
decoded_cases (inl f) h = absurd (ground arith)
decoded_cases (inr t) h = (t, refl)

pub is_kept-IsToken : (world : World) (e : Response) → is_kept world e ≡ true → IsToken world e
unfolding is_kept
is_kept-IsToken world e h =
    let decodes : is_right (world.decode_token e.body) ≡ true = ground arith in
    let (t, decoded) = decoded_cases (world.decode_token e.body) decodes in
    record { ok = ground arith; token = t; decoded = decoded }

module _ (world : World) where
  -- Whatever can be read from now on is good.
  pub record IsGood (now : ℕ) (c : Option ResponseCache.Cache) : Type 0 where
    pub bounded : IsValid c
    pub good :
        (t : ℕ) (key : Bytes) (e : Response) → now ≤ t → readable t key c ≡ some e → IsToken world e

  pub get-IsGood :
      (now : ℕ) (key : Bytes) (c : Option ResponseCache.Cache)
      → IsGood now c
      → IsGood now (ResponseCache.get now key c).0
  get-IsGood now key c h = record {
    bounded = get-IsValid now key c h.bounded;
    good = λ t k e later found.
        let (_, same) = readable-get now key c in
        let before = same t k later in h.good t k e later (ground arith);
  }

  pub set-IsGood :
      (now : ℕ) (key : Bytes) (e : Response) (c : Option ResponseCache.Cache)
      → IsGood now c
      → IsToken world e
      → IsGood now (ResponseCache.set now key e c).0
  set-IsGood now key e none h kept = unfold ResponseCache.set in h
  set-IsGood now key e (some c) h kept = record {
    bounded = set-IsValid now key e (some c) h.bounded;
    good = λ t k f later found.
        let (_, reads) = readable-set now key e c h.bounded in
        let after = reads t k later in
        elim (Bool-cases (ResponseCache.set now key e (some c)).1) [
          | inl stored ↦ ground (arith, h.good t k f later)
          | inr full ↦ ground (arith, h.good t k f later)
        ];
  }

  pub IsGood-later :
      (now later : ℕ) (c : Option ResponseCache.Cache) → now ≤ later → IsGood now c → IsGood later c
  IsGood-later now later c h g = record {
    bounded = g.bounded;
    good = λ t k e from found. g.good t k e (omega arith) found;
  }
