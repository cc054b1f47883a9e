-- ===== src/Config/Loading.antt =====
-- Every configuration file that loads is in force, and the first that does not is reported.
use registry_redirect.Prelude.{
  ◌+◌, ◌≡◌, refl, ap, subst, List, [], ◌∷◌, ◌++◌, All, Bytes, arith, inl, inr, length,
  length-append,
}
use registry_redirect.Config.{LoadError, Reader, override, load_file, load_from, load}
use registry_redirect.Config.Sound.{
  sum_cases, IsLawful, IsSound, override-IsSound, length-compile_overrides,
}
use registry_redirect.RateLimiter.Deps.{Deps}
use registry_redirect.RateLimiter.Limits.{Override, compile_overrides}

module _ (deps : Deps) (reader : Reader deps) where
  module _ (laws : IsLawful deps reader) where
    All-append :
        (l m : List (Override deps))
        → All (IsSound deps reader laws) l
        → All (IsSound deps reader laws) m
        → All (IsSound deps reader laws) (l ++ m)
    All-append [] m h k = k
    All-append (o ∷ l) m (sound, h) k = (sound, All-append l m h k)

    load_file-IsSound :
        (path : Bytes) (l : List (Override deps))
        → load_file deps reader path ≡ inr l
        → All (IsSound deps reader laws) l × (length l ≡ 1)
    unfolding load_file
    load_file-IsSound path l h = elim (sum_cases (reader.read_config path)) [
      | inl (t, bad) ↦ absurd (ground arith)
      | inr (c, decoded) ↦ elim (sum_cases (override deps reader c)) [
        | inl (e, bad) ↦ absurd (ground arith)
        | inr (o, good) ↦
            let same : o ∷ [] ≡ l = ground arith in
            subst (λ x. All (IsSound deps reader laws) x × (length x ≡ 1)) same
              ((override-IsSound deps reader laws c o good, tt), refl)
      ]
    ]

    load_from-IsSound :
        (before : List (Override deps)) (paths : List Bytes) (l : List (Override deps))
        → load_from deps reader before paths ≡ inr l
        → All (IsSound deps reader laws) before
        → All (IsSound deps reader laws) l × (length l ≡ length before + length paths)
    unfolding load_from
    load_from-IsSound before [] l h k =
        let same : before ≡ l = ground arith in
        subst (λ x. All (IsSound deps reader laws) x × (length x ≡ length before + 0)) same
          (k, omega arith)
    load_from-IsSound before (path ∷ paths) l h k = elim (sum_cases (load_file deps reader path)) [
      | inl (e, bad) ↦ absurd (ground arith)
      | inr (loaded, good) ↦
          let (sound, one) = load_file-IsSound path loaded good in
          let (all, len) =
            load_from-IsSound (before ++ loaded) paths l (ground arith)
              (All-append before loaded k sound) in
          (all, omega (arith, len, length-append before loaded, one))
    ]

    -- If the prefixes that netip parses are valid, and netipx makes a set that is not empty of
    -- valid prefixes, then the limiter takes every override of the files that load, and there is
    -- one for each path.
    pub compile_overrides-load :
        (paths : List Bytes) (l : List (Override deps))
        → load deps reader paths ≡ inr l
        → length (compile_overrides deps l) ≡ length paths
    unfolding load
    compile_overrides-load paths l h =
        let (sound, len) = load_from-IsSound [] paths l h tt in
        omega (arith, length-compile_overrides deps reader laws l sound, len)

  -- The file that an error is about: it does not load, and all files before it do.
  pub record IsFirstError (paths : List Bytes) (e : LoadError) : Type 0 where
    pub before : List Bytes
    pub path : Bytes
    pub after : List Bytes
    pub split : paths ≡ before ++ (path ∷ after)
    pub loaded : All (λ p. (l : List (Override deps)) × (load_file deps reader p ≡ inr l)) before
    pub reason : load_file deps reader path ≡ inl e

  load_from-IsFirstError :
      (done : List (Override deps)) (paths : List Bytes) (e : LoadError)
      → load_from deps reader done paths ≡ inl e
      → IsFirstError paths e
  unfolding load_from
  load_from-IsFirstError done [] e h = absurd (ground arith)
  load_from-IsFirstError done (path ∷ paths) e h = elim (sum_cases (load_file deps reader path)) [
    | inl (f, bad) ↦ record {
      before = [];
      path = path;
      after = paths;
      split = refl;
      loaded = tt;
      reason = ground arith;
    }
    | inr (loaded, good) ↦
        let r = load_from-IsFirstError (done ++ loaded) paths e (ground arith) in
        record {
          before = path ∷ r.before;
          path = r.path;
          after = r.after;
          split = ap (◌∷◌ path) r.split;
          loaded = ((loaded, good), r.loaded);
          reason = r.reason;
        }
  ]

  -- Where the files do not load, the error is that of the first file that does not: all files
  -- before it load.
  pub load-IsFirstError :
      (paths : List Bytes) (e : LoadError) → load deps reader paths ≡ inl e → IsFirstError paths e
  unfolding load
  load-IsFirstError paths e h = load_from-IsFirstError [] paths e h
