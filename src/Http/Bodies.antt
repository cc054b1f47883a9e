-- ===== src/Http/Bodies.antt =====
-- Reading a body to a limit and copying the rest gives all of it.
use registry_redirect.Prelude.{
  ℕ, zero, suc, ◌+◌, ◌≤◌, ◌≡◌, refl, ap, true, false, Option, none, some, [], ◌∷◌, ◌++◌, Bytes,
  arith, length, take, drop, ltb, Bool-cases, inl, inr, codes, ltb→lt,
}
use registry_redirect.Http.{
  Body, Read, read_failed, read_some, read_body_with_limit, Failure, backend_error_class,
  backend_error_status,
}

pub append-take-drop : (n : ℕ) (s : Bytes) → take n s ++ drop n s ≡ s
append-take-drop zero s = refl
append-take-drop (suc n) [] = refl
append-take-drop (suc n) (b ∷ s) = ap (◌∷◌ b) (append-take-drop n s)

length-take : (n : ℕ) (s : Bytes) → n ≤ length s → length (take n s) ≡ n
length-take zero s h = refl
length-take (suc n) [] h = absurd (omega arith)
length-take (suc n) (b ∷ s) h = ap suc (length-take n s (omega arith))

-- What a read to a limit can give.
pub data IsRead (body : Body) (limit : ℕ) : Read → Type 0 where
  whole :
      length body.content ≤ limit
      → body.failure ≡ none
      → IsRead body limit (read_some body.content false (record { content = []; failure = none }))
  broken :
      (f : Failure)
      → length body.content ≤ limit
      → body.failure ≡ some f
      → IsRead body limit (read_failed f)
  partial :
      (out rest : Bytes)
      → length out ≡ limit + 1
      → out ++ rest ≡ body.content
      → IsRead body limit (read_some out true (record body { content = rest }))

-- `readBodyWithLimit` gives the whole body where it is within the limit and does not fail, the error
-- where it fails within the limit, and else one byte more than the limit, with the rest left to read.
pub read_body_with_limit-IsRead :
    (body : Body) (limit : ℕ) → IsRead body limit (read_body_with_limit body limit)
unfolding read_body_with_limit
read_body_with_limit-IsRead body limit = elim (Bool-cases (ltb limit (length body.content))) [
  | inl large ↦
      let long = ltb→lt _ _ large in
      rw large (
        partial (take (limit + 1) body.content) (drop (limit + 1) body.content)
          (length-take (limit + 1) body.content (omega (arith, long)))
          (append-take-drop (limit + 1) body.content))
  | inr small ↦ rw small (within body.failure refl (ground arith))
]
  where
    within :
        (failure : Option Failure)
        → body.failure ≡ failure
        → length body.content ≤ limit
        → IsRead body limit (elim failure [
          | some f ↦ read_failed f
          | none ↦ read_some body.content false (record { content = []; failure = none })
        ])
    within none fine h = whole h fine
    within (some f) bad h = broken f h bad

-- A client gets the status 504 exactly for the errors that are a deadline or a timeout. The metrics
-- count those as timeouts, unless the request was canceled.
pub backend_error_status-class :
    (f : Failure)
    → ((backend_error_class f ≡ codes "timeout" → backend_error_status f ≡ 504)
        × (f.canceled ≡ false
            → backend_error_status f ≡ 504
            → backend_error_class f ≡ codes "timeout"))
unfolding backend_error_class backend_error_status
backend_error_status-class f = (λ h. ground arith, λ h k. ground arith)

pub read_body_with_limit_whole :
    (body : Body) (limit : ℕ)
    → length body.content ≤ limit
    → body.failure ≡ none
    → read_body_with_limit body limit
      ≡ read_some body.content false (record { content = []; failure = none })
unfolding read_body_with_limit
read_body_with_limit_whole body limit h fine =
    let small : ltb limit (length body.content) ≡ false = ground arith in
    rw (small, read_body_with_limit, fine) refl
