-- ===== src/App/JwtSetup/KeyPair.antt =====
-- The key files that a set-up writes.
use merch.Base.{String, ◌≡◌, refl, sym, ap, ◌∙◌, subst, ◌⊎◌, inl, inr, false}
use merch.Go.Errors.{Result, ok, wrap_result}
use merch.Go.Results
use merch.Postgres.Schema.{Bytes}
use merch.App.Files.{FileSystem, lift, >>=-eq-ok}
use merch.App.Keys.{KeyFormats, read_file_ed25519_public_key, read_file_ed25519_private_key}
use merch.App.JwtSetup.{
  create_keys, setup_jwt, pem_encode_ed25519_public_key, pem_encode_ed25519_private_key,
}
use merch.App.JwtSetup.Existing.{nothing, created, setup_jwt-Ran, setup_jwt-both}

module _ {S : Type 0} (fs : FileSystem S) (kf : KeyFormats) (pub_file priv_file : String) where
  -- The last two steps but one: what is written, and where the files are then.
  pub record AreWritten (generated : Result (Bytes × Bytes)) (s' : S) : Type 0 where
    pub key : Bytes
    pub priv : Bytes
    pub pub_pem : Bytes
    pub priv_pem : Bytes
    pub made : generated ≡ ok (key, priv)
    pub pub_encoded : pem_encode_ed25519_public_key kf key ≡ ok pub_pem
    pub priv_encoded : pem_encode_ed25519_private_key kf priv ≡ ok priv_pem
    pub pub_read : fs.read_file pub_file s' ≡ ok pub_pem
    pub priv_read : fs.read_file priv_file s' ≡ ok priv_pem
    pub pub_there : fs.stat pub_file s' ≡ ok tt
    pub priv_there : fs.stat priv_file s' ≡ ok tt

  lift_parts :
      {A : Type 0} (r : Result A) (a : A) (s t : S) → lift r s ≡ (ok a, t) → (r ≡ ok a) × (t ≡ s)
  lift_parts r a s t e = (ap (λ x. x.0) e, sym (ap (λ x. x.1) e))

  module _ (apart : fs.same_file priv_file pub_file ≡ false) where
    -- The public key's file is not touched by the steps after its writing.
    survives :
        (pub_pem priv_pem : Bytes) (d : String) (s4 s5 s6 s' : S)
        → fs.write_file pub_file pub_pem s4 ≡ (ok tt, s5)
        → fs.mkdir_all d s5 ≡ (ok tt, s6)
        → fs.write_file priv_file priv_pem s6 ≡ (ok tt, s')
        → (fs.read_file pub_file s' ≡ ok pub_pem) × (fs.stat pub_file s' ≡ ok tt)
    survives pub_pem priv_pem d s4 s5 s6 s' e5 e6 f6 =
        let to_s' = ap (λ x. x.1) f6 in
        let to_s6 = ap (λ x. x.1) e6 in
        let there =
          subst (λ x. fs.stat pub_file x ≡ ok tt) to_s6
            (fs.stat-mkdir_all d pub_file s5 (fs.stat-write pub_file pub_pem s4 s5 e5)) in
        let readable =
          subst (λ x. fs.read_file pub_file x ≡ ok pub_pem) to_s6
            (fs.read-mkdir_all d pub_file pub_pem s5 (fs.read-write pub_file pub_pem s4 s5 e5)) in
        (
          ap (fs.read_file pub_file) (sym to_s')
              ∙ fs.read-write-other priv_file pub_file priv_pem pub_pem s6 apart readable,
          ap (fs.stat pub_file) (sym to_s')
              ∙ fs.stat-write-other priv_file pub_file priv_pem s6 apart there,
        )

    create_keys-AreWritten :
        (generated : Result (Bytes × Bytes)) (s s' : S)
        → create_keys fs kf generated pub_file priv_file s ≡ (ok tt, s')
        → AreWritten generated s'
    unfolding create_keys
    create_keys-AreWritten generated s s' e =
        let (keys, s1, e1, f1) = >>=-eq-ok (lift generated) _ tt s s' e in
        let (pub_pem, s2, e2, f2) =
          >>=-eq-ok (lift (pem_encode_ed25519_public_key kf keys.0)) _ tt s1 s' f1 in
        let (priv_pem, s3, e3, f3) =
          >>=-eq-ok (lift (pem_encode_ed25519_private_key kf keys.1)) _ tt s2 s' f2 in
        let (_, s4, e4, f4) = >>=-eq-ok (fs.mkdir_all (fs.dir pub_file)) _ tt s3 s' f3 in
        let (_, s5, e5, f5) = >>=-eq-ok (fs.write_file pub_file pub_pem) _ tt s4 s' f4 in
        let (_, s6, e6, f6) = >>=-eq-ok (fs.mkdir_all (fs.dir priv_file)) _ tt s5 s' f5 in
        let (pub_read, pub_there) =
          survives pub_pem priv_pem (fs.dir priv_file) s4 s5 s6 s' e5 e6 f6 in
        record {
          key = keys.0;
          priv = keys.1;
          pub_pem = pub_pem;
          priv_pem = priv_pem;
          made = (lift_parts generated keys s s1 e1).0;
          pub_encoded = (lift_parts (pem_encode_ed25519_public_key kf keys.0) pub_pem s1 s2 e2).0;
          priv_encoded =
              (lift_parts (pem_encode_ed25519_private_key kf keys.1) priv_pem s2 s3 e3).0;
          pub_read = pub_read;
          priv_read = fs.read-write priv_file priv_pem s6 s' f6;
          pub_there = pub_there;
          priv_there = fs.stat-write priv_file priv_pem s6 s' f6;
        }

    read_files :
        (generated : Result (Bytes × Bytes)) (s' : S) (w : AreWritten generated s')
        → (read_file_ed25519_public_key fs kf pub_file s' ≡ ok w.key)
          × (read_file_ed25519_private_key fs kf priv_file s' ≡ ok w.priv)
    unfolding read_file_ed25519_public_key read_file_ed25519_private_key
        pem_encode_ed25519_public_key pem_encode_ed25519_private_key wrap_result
    read_files generated s' w =
        let (der, d0, d1) =
          Results.>>=-eq-ok (kf.marshal_pkix_public_key w.key) (kf.pem_encode "PUBLIC KEY")
            w.pub_pem w.pub_encoded in
        let (der', d2, d3) =
          Results.>>=-eq-ok (kf.marshal_pkcs8_private_key w.priv) (kf.pem_encode "PRIVATE KEY")
            w.priv_pem w.priv_encoded in
        (
          rw
              (
                w.pub_read,
                wrap_result,
                kf.pem_decode-encode "PUBLIC KEY" der w.pub_pem d1,
                kf.parse-marshal-public w.key der d0,
              )
              refl,
          rw
              (
                w.priv_read,
                wrap_result,
                kf.pem_decode-encode "PRIVATE KEY" der' w.priv_pem d3,
                kf.parse-marshal-private w.priv der' d2,
              )
              refl,
        )

    -- If the two paths lead to two files, of which at least one does not exist, and SetupJWT
    -- returns without an error, then ReadFileED25519PublicKey reads from the one and
    -- ReadFileED25519PrivateKey from the other the keys of the pair that was generated.
    pub setup_jwt-reads :
        (key priv : Bytes) (s s' : S)
        → ¬ (fs.stat pub_file s ≡ ok tt) ⊎ ¬ (fs.stat priv_file s ≡ ok tt)
        → setup_jwt fs kf (ok (key, priv)) pub_file priv_file s ≡ (ok tt, s')
        → (read_file_ed25519_public_key fs kf pub_file s' ≡ ok key)
          × (read_file_ed25519_private_key fs kf priv_file s' ≡ ok priv)
    setup_jwt-reads key priv s s' missing e =
        elim (setup_jwt-Ran fs kf pub_file priv_file (ok (key, priv)) s s' e) [
          | nothing p q same ↦
              absurd (elim missing [ inl absent ↦ absent p | inr absent ↦ absent q ])
          | created made ↦
              let w = create_keys-AreWritten (ok (key, priv)) s s' made in
              let keys = Results.ok_value w.made in
              let (reads, reads') = read_files (ok (key, priv)) s' w in
              (reads ∙ ap (λ k. ok k.0) (sym keys), reads' ∙ ap (λ k. ok k.1) (sym keys))
        ]

    -- If the two paths lead to two files and SetupJWT has returned without an error, then it
    -- returns without an error when it runs again, and changes nothing.
    pub setup_jwt-again :
        (generated generated' : Result (Bytes × Bytes)) (s s' : S)
        → setup_jwt fs kf generated pub_file priv_file s ≡ (ok tt, s')
        → setup_jwt fs kf generated' pub_file priv_file s' ≡ (ok tt, s')
    setup_jwt-again generated generated' s s' e =
        elim (setup_jwt-Ran fs kf pub_file priv_file generated s s' e) [
          | nothing p q same ↦
              setup_jwt-both fs kf pub_file priv_file generated' s' (ap (fs.stat pub_file) same ∙ p)
                (ap (fs.stat priv_file) same ∙ q)
          | created made ↦
              let w = create_keys-AreWritten generated s s' made in
              setup_jwt-both fs kf pub_file priv_file generated' s' w.pub_there w.priv_there
        ]
