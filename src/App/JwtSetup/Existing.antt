-- ===== src/App/JwtSetup/Existing.antt =====
-- Key files that exist are not touched, and a set-up that returned does nothing when it runs again.
use merch.Base.{String, ◌≡◌, refl, sym, ap, ◌∙◌, ◌⊎◌, inl, inr, Bool, true, false, arith}
use merch.Go.Errors.{Result, ok, err, panic, wrap_result}
use merch.Postgres.Schema.{Bytes}
use merch.App.Files.{
  FileSystem, FileAction, wrapped, continue, ◌>>=◌, wrapped-eq-ok, err_ne_ok, panic_ne_ok,
}
use merch.App.Keys.{KeyFormats}
use merch.App.JwtSetup.{exists_of, file_exists, create_keys, unless_exists, setup_jwt}

module _ {S : Type 0} (fs : FileSystem S) (kf : KeyFormats) (pub_file priv_file : String) where
  module _ (generated : Result (Bytes × Bytes)) where
    abbrev unless : Bool → Bool → FileAction S Unit
    unless = unless_exists fs kf generated pub_file priv_file

    -- the two tests of existence, and what follows
    abbrev staged : Result Bool → Result Bool → S → Result Unit × S
    staged x y s =
        continue (wrap_result "app.SetupJWT" x, s)
          (λ a _. continue (wrap_result "app.SetupJWT" y, s) (unless a))

    setup_jwt-staged :
        (s : S)
        → setup_jwt fs kf generated pub_file priv_file s
          ≡ staged (exists_of (fs.stat pub_file s)) (exists_of (fs.stat priv_file s)) s
    unfolding setup_jwt file_exists wrap_result
    setup_jwt-staged s = go (exists_of (fs.stat pub_file s))
      where
        go :
            (x : Result Bool)
            → continue
                (wrap_result "app.SetupJWT" x, s)
                (λ a. wrapped "app.SetupJWT" (file_exists fs priv_file) >>= unless a)
              ≡ staged x (exists_of (fs.stat priv_file s)) s
        go (ok a) = refl
        go (err e) = refl
        go panic = refl

    kept_with_public : (y : Result Bool) (s : S) → (staged (ok true) y s).1 ≡ s
    unfolding unless_exists wrap_result
    kept_with_public (ok true) s = refl
    kept_with_public (ok false) s = refl
    kept_with_public (err e) s = refl
    kept_with_public panic s = refl

    kept_with_private : (x : Result Bool) (s : S) → (staged x (ok true) s).1 ≡ s
    unfolding unless_exists wrap_result
    kept_with_private (ok true) s = refl
    kept_with_private (ok false) s = refl
    kept_with_private (err e) s = refl
    kept_with_private panic s = refl

    -- If at least one of the two key files exists, then SetupJWT leaves the file system as it is,
    -- whatever it returns.
    pub setup_jwt-kept :
        (s : S)
        → (fs.stat pub_file s ≡ ok tt) ⊎ (fs.stat priv_file s ≡ ok tt)
        → (setup_jwt fs kf generated pub_file priv_file s).1 ≡ s
    setup_jwt-kept s (inl e) =
        ap (λ x. x.1) (setup_jwt-staged s)
        ∙ ap (λ r. (staged (exists_of r) (exists_of (fs.stat priv_file s)) s).1) e
        ∙ kept_with_public (exists_of (fs.stat priv_file s)) s
    setup_jwt-kept s (inr e) =
        ap (λ x. x.1) (setup_jwt-staged s)
        ∙ ap (λ r. (staged (exists_of (fs.stat pub_file s)) (exists_of r) s).1) e
        ∙ kept_with_private (exists_of (fs.stat pub_file s)) s

    pub setup_jwt-both :
        (s : S)
        → fs.stat pub_file s ≡ ok tt
        → fs.stat priv_file s ≡ ok tt
        → setup_jwt fs kf generated pub_file priv_file s ≡ (ok tt, s)
    unfolding unless_exists wrap_result
    setup_jwt-both s e f = setup_jwt-staged s ∙ rw (e, f) refl

    -- What a run that returned has done.
    pub data Ran (s s' : S) : Type 0 where
      nothing : fs.stat pub_file s ≡ ok tt → fs.stat priv_file s ≡ ok tt → s' ≡ s → Ran s s'
      created : create_keys fs kf generated pub_file priv_file s ≡ (ok tt, s') → Ran s s'

    abbrev Cases : Result Bool → Result Bool → S → S → Type 0
    Cases x y s s' =
        ((x ≡ ok true) × (y ≡ ok true) × (s' ≡ s))
        ⊎ (create_keys fs kf generated pub_file priv_file s ≡ (ok tt, s'))

    unless-Cases : (a b : Bool) (s s' : S) → unless a b s ≡ (ok tt, s') → Cases (ok a) (ok b) s s'
    unfolding unless_exists
    unless-Cases true true s s' e = inl (refl, refl, sym (ap (λ x. x.1) e))
    unless-Cases true false s s' e = absurd (err_ne_ok _ tt (ap (λ x. x.0) e))
    unless-Cases false true s s' e = absurd (err_ne_ok _ tt (ap (λ x. x.0) e))
    unless-Cases false false s s' e =
        inr
          (wrapped-eq-ok "app.SetupJWT" (create_keys fs kf generated pub_file priv_file) tt s s' e)

    staged-Cases : (x y : Result Bool) (s s' : S) → staged x y s ≡ (ok tt, s') → Cases x y s s'
    unfolding wrap_result
    staged-Cases (ok a) (ok b) s s' e = unless-Cases a b s s' e
    staged-Cases (ok a) (err x) s s' e = absurd (err_ne_ok _ tt (ap (λ x. x.0) e))
    staged-Cases (ok a) panic s s' e = absurd (panic_ne_ok tt (ap (λ x. x.0) e))
    staged-Cases (err x) y s s' e = absurd (err_ne_ok _ tt (ap (λ x. x.0) e))
    staged-Cases panic y s s' e = absurd (panic_ne_ok tt (ap (λ x. x.0) e))

    exists_true : (r : Result Unit) → exists_of r ≡ ok true → r ≡ ok tt
    exists_true (ok _) e = refl
    exists_true (err x) e = ground (arith, e)
    exists_true panic e = cc

    pub setup_jwt-Ran :
        (s s' : S) → setup_jwt fs kf generated pub_file priv_file s ≡ (ok tt, s') → Ran s s'
    setup_jwt-Ran s s' e = elim (staged-Cases _ _ s s' (sym (setup_jwt-staged s) ∙ e)) [
      | inl (p, q, same) ↦ nothing (exists_true _ p) (exists_true _ q) same
      | inr made ↦ created made
    ]
