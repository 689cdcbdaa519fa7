-- ===== src/Setup/Apptest/Outcome.antt =====
-- What a run of SetupApptest that returned leaves in the files.
use merch.Base.{ℕ, ◌+◌, ◌*◌, ◌^◌, ◌<◌, ◌≤◌, String, ◌≡◌, sym, ap, ◌∙◌, subst, true, false, List, []}
use merch.Base.Int.{pos}
use merch.Go.Errors.{Result, ok}
use merch.Go.Results.{ok_value}
use merch.Postgres.Schema.{Uuid, Time, Bytes}
use merch.Postgres.Session.{Env, World, Action}
use merch.Postgres.Splitting.{Splits, Anything}
use merch.App.Files.{FileSystem, FileAction, lift, ◌>>=◌, ◌>>◌, >>=-eq-ok, wrapped-eq-ok}
use merch.App.Keys.{KeyFormats, read_file_ed25519_private_key}
use merch.Users.Argon2.{Cryptography}
use merch.Users.Creator.{RowOrder}
use merch.Auth.Claims.{Libraries}
use merch.Auth.Tokens.{hour, numeric_date}
use merch.Setup.Users.{SetupUser, generate_users}
use merch.Setup.Users.Generation.{AreGenerated, generate_users-Splits}
use merch.Setup.Tokens.{generate_auth_tokens, AreTokensOf, generate_auth_tokens-AreTokensOf}
use merch.Setup.Apptest.{
  SetupApptestParams, JsonEncoding, write_file_json, in_database, in_files, setup_apptest,
}

lift_parts :
    {S A : Type 0} (r : Result A) (a : A) (s t : S) → lift r s ≡ (ok a, t) → (r ≡ ok a) × (t ≡ s)
lift_parts r a s t e = (ap (λ x. x.0) e, sym (ap (λ x. x.1) e))

Splits-ok :
    {A : Type 0} (Q : A → World → Type 0) (r : Result A × World) (a : A) (v : World)
    → Splits Q Anything r
    → r ≡ (ok a, v)
    → Q a v
Splits-ok Q r a v h e = subst (Splits Q Anything) e h

module _ {S : Type 0} (fs : FileSystem S) where
  in_files_parts :
      {A : Type 0} (m : FileAction S A) (a : A) (x y : World × S)
      → in_files fs m x ≡ (ok a, y)
      → (m x.1 ≡ (ok a, y.1)) × (y.0 ≡ x.0)
  in_files_parts m a x y e = (λ i. ((e i).0, (e i).1.1), sym (ap (λ r. r.1.0) e))

  in_database_parts :
      {A : Type 0} (m : Action A) (a : A) (x y : World × S)
      → in_database fs m x ≡ (ok a, y)
      → (m x.0 ≡ (ok a, y.0)) × (y.1 ≡ x.1)
  in_database_parts m a x y e = (λ i. ((e i).0, (e i).1.0), sym (ap (λ r. r.1.1) e))

  -- A file that WriteFileJSON has written has the encoding of the value.
  abbrev pub IsWritten : String → Result Bytes → S → Type 0
  IsWritten name encoded s =
      (content : Bytes) × (encoded ≡ ok content) × (fs.read_file name s ≡ ok content)

  write_file_json-IsWritten :
      (name : String) (encoded : Result Bytes) (s s' : S)
      → write_file_json fs name encoded s ≡ (ok tt, s')
      → IsWritten name encoded s'
  unfolding write_file_json
  write_file_json-IsWritten name encoded s s' e =
      let steps = fs.create name >> (lift encoded >>= fs.append name) in
      let (_, s1, e1, f1) =
        >>=-eq-ok (fs.create name) (λ _. lift encoded >>= fs.append name) tt s s'
          (wrapped-eq-ok "WriteFileJSON" steps tt s s' e) in
      let (content, s2, e2, f2) = >>=-eq-ok (lift encoded) (fs.append name) tt s1 s' f1 in
      let (encodes, same) = lift_parts encoded content s1 s2 e2 in
      let empty = ap (fs.read_file name) same ∙ fs.read-create name s s1 e1 in
      (content, encodes, fs.read-append name [] content s2 s' f2 empty)

  -- It touches no other file.
  read-write_file_json :
      (name other : String) (encoded : Result Bytes) (old : Bytes) (s s' : S)
      → fs.same_file name other ≡ false
      → write_file_json fs name encoded s ≡ (ok tt, s')
      → fs.read_file other s ≡ ok old
      → fs.read_file other s' ≡ ok old
  unfolding write_file_json
  read-write_file_json name other encoded old s s' apart e reads =
      let steps = fs.create name >> (lift encoded >>= fs.append name) in
      let (_, s1, e1, f1) =
        >>=-eq-ok (fs.create name) (λ _. lift encoded >>= fs.append name) tt s s'
          (wrapped-eq-ok "WriteFileJSON" steps tt s s' e) in
      let (content, s2, e2, f2) = >>=-eq-ok (lift encoded) (fs.append name) tt s1 s' f1 in
      let same = (lift_parts encoded content s1 s2 e2).1 in
      let created =
        subst (λ x. fs.read_file other x.1 ≡ ok old) e1
          (fs.read-create-other name other old s apart reads) in
      ap (λ x. fs.read_file other x.1) (sym f2)
      ∙ fs.read-append-other name other content old s2 apart
          (ap (fs.read_file other) same ∙ created)

  -- A directory and a file in it, in the command's state.
  abbrev write_in_dir : String → Result Bytes → FileAction (World × S) Unit
  write_in_dir name encoded = do
    in_files fs (fs.mkdir_all (fs.dir name))
    in_files fs (write_file_json fs name encoded)

  write_in_dir-IsWritten :
      (name : String) (encoded : Result Bytes) (x y : World × S)
      → write_in_dir name encoded x ≡ (ok tt, y)
      → IsWritten name encoded y.1 × (y.0 ≡ x.0)
  write_in_dir-IsWritten name encoded x y e =
      let (_, z, e1, e2) =
        >>=-eq-ok (in_files fs (fs.mkdir_all (fs.dir name)))
          (λ _. in_files fs (write_file_json fs name encoded)) tt x y e in
      let (made, same) = in_files_parts (fs.mkdir_all (fs.dir name)) tt x z e1 in
      let (wrote, same') = in_files_parts (write_file_json fs name encoded) tt z y e2 in
      (write_file_json-IsWritten name encoded z.1 y.1 wrote, same' ∙ same)

  write_in_dir-keeps :
      (name other : String) (encoded encoded' : Result Bytes) (x y : World × S)
      → fs.same_file name other ≡ false
      → write_in_dir name encoded x ≡ (ok tt, y)
      → IsWritten other encoded' x.1
      → IsWritten other encoded' y.1
  write_in_dir-keeps name other encoded encoded' x y apart e (content, encodes, reads) =
      let (_, z, e1, e2) =
        >>=-eq-ok (in_files fs (fs.mkdir_all (fs.dir name)))
          (λ _. in_files fs (write_file_json fs name encoded)) tt x y e in
      let (made, _) = in_files_parts (fs.mkdir_all (fs.dir name)) tt x z e1 in
      let (wrote, _) = in_files_parts (write_file_json fs name encoded) tt z y e2 in
      (
        content,
        encodes,
        read-write_file_json name other encoded content z.1 y.1 apart wrote (
            ap (λ r. fs.read_file other r.1) (sym made)
            ∙ fs.read-mkdir_all (fs.dir name) other content x.1 reads),
      )

  module _ (kf : KeyFormats) (js : JsonEncoding) (c : Cryptography) (lib : Libraries) (env : Env)
      (order : RowOrder) (uuid_new : ℕ → Uuid) (time_now : ℕ → Time)
      (params : SetupApptestParams) where
    -- The users are in the tables and in their file; the tokens are in theirs, and are the users'.
    pub record IsSetUp (n : ℕ) (key verification_key : Bytes) (t : Time) (y : World × S)
        : Type 0 where
      pub users : List SetupUser
      pub auth_tokens : List Bytes
      pub generated : AreGenerated c n users y.0
      pub issued : AreTokensOf lib key uuid_new time_now verification_key t users auth_tokens
      pub users_written : IsWritten params.user_file (js.encode_users users) y.1
      pub auth_tokens_written : IsWritten params.auth_token_file (js.encode_tokens auth_tokens) y.1

    module _ (apart : fs.same_file params.auth_token_file params.user_file ≡ false) where
      -- from `app.ReadFileED25519PrivateKey` on, after the key has been read
      abbrev with_key : Bytes → FileAction (World × S) Unit
      with_key key = do
        users ← in_database fs (generate_users c env order params.user_count)
        in_files fs (fs.mkdir_all (fs.dir params.user_file))
        in_files fs (write_file_json fs params.user_file (js.encode_users users))
        auth_tokens ← lift (generate_auth_tokens lib key uuid_new time_now users)
        in_files fs (fs.mkdir_all (fs.dir params.auth_token_file))
        in_files fs (write_file_json fs params.auth_token_file (js.encode_tokens auth_tokens))

      with_key-IsSetUp :
          (n : ℕ) (key verification_key : Bytes) (start t : Time) (x y : World × S)
          → params.user_count ≡ pos n
          → lib.is_key_pair verification_key key ≡ true
          → ((i : ℕ) → start ≤ time_now i)
          → t < numeric_date (start + hour) * 10 ^ 9
          → with_key key x ≡ (ok tt, y)
          → IsSetUp n key verification_key t y
      with_key-IsSetUp n key verification_key start t x y count pair clock in_time e =
          let (users, x1, e1, f1) =
            >>=-eq-ok (in_database fs (generate_users c env order params.user_count)) _ tt x y e in
          let (_, x2, e2, f2) =
            >>=-eq-ok (in_files fs (fs.mkdir_all (fs.dir params.user_file))) _ tt x1 y f1 in
          let (_, x3, e3, f3) =
            >>=-eq-ok (in_files fs (write_file_json fs params.user_file (js.encode_users users))) _
              tt x2 y f2 in
          let (auth_tokens, x4, e4, f4) =
            >>=-eq-ok (lift (generate_auth_tokens lib key uuid_new time_now users)) _ tt x3 y f3 in
          let (ran, _) =
            in_database_parts (generate_users c env order params.user_count) users x x1 e1 in
          let (_, w2) = in_files_parts (fs.mkdir_all (fs.dir params.user_file)) tt x1 x2 e2 in
          let (wrote, w3) =
            in_files_parts (write_file_json fs params.user_file (js.encode_users users)) tt x2 x3
              e3 in
          let (issues, same) = lift_parts _ auth_tokens x3 x4 e4 in
          let (tokens_file, w5) =
            write_in_dir-IsWritten params.auth_token_file (js.encode_tokens auth_tokens) x4 y f4 in
          let to_y : y.0 ≡ x1.0 = w5 ∙ ap (λ z. z.0) same ∙ w3 ∙ w2 in
          let users_file =
            write_file_json-IsWritten params.user_file (js.encode_users users) x2.1 x3.1 wrote in
          let made =
            Splits-ok (AreGenerated c n) (generate_users c env order params.user_count x.0) users
              x1.0 (rw count (generate_users-Splits c env order n x.0)) ran in
          record {
            users = users;
            auth_tokens = auth_tokens;
            generated = subst (AreGenerated c n users) (sym to_y) made;
            issued =
                generate_auth_tokens-AreTokensOf lib key uuid_new time_now verification_key start t
                  pair clock in_time users auth_tokens issues;
            users_written =
                write_in_dir-keeps params.auth_token_file params.user_file
                  (js.encode_tokens auth_tokens) (js.encode_users users) x4 y apart f4
                  (subst (λ z. IsWritten params.user_file (js.encode_users users) z.1) (sym same)
                    users_file);
            auth_tokens_written = tokens_file;
          }

      -- If SetupApptest returns without an error, for a count that is not negative, with the user
      -- file and the token file two files, and with the private key of a pair in the signature
      -- key's file, then the users that GenerateUsers made are in the tables, so many, with the
      -- names "u0", "u1" and so on in some order, each with a hash against which its password
      -- verifies; the user file has their encoding; and the token file has the encoding of tokens
      -- of which AuthenticateToken accepts each, with the other key, as that of the user at its
      -- index, at every time before the second to which an hour after the start of the run was cut.
      pub setup_apptest-IsSetUp :
          (connect : Bytes → Result Unit) (n : ℕ) (key verification_key : Bytes) (start t : Time)
          (x y : World × S)
          → params.user_count ≡ pos n
          → read_file_ed25519_private_key fs kf params.jwt_signature_key_file x.1 ≡ ok key
          → lib.is_key_pair verification_key key ≡ true
          → ((i : ℕ) → start ≤ time_now i)
          → t < numeric_date (start + hour) * 10 ^ 9
          → setup_apptest fs kf js c lib env order uuid_new time_now connect params x ≡ (ok tt, y)
          → IsSetUp n key verification_key t y
      unfolding setup_apptest
      setup_apptest-IsSetUp connect n key verification_key start t x y count reads pair clock
            in_time e =
          let read_key : FileAction (World × S) Bytes =
            (λ x. (read_file_ed25519_private_key fs kf params.jwt_signature_key_file x.1, x)) in
          let (_, x1, e1, f1) = >>=-eq-ok (lift (connect params.postgres_url)) _ tt x y e in
          let (key', x2, e2, f2) = >>=-eq-ok read_key with_key tt x1 y f1 in
          let same = sym (ap (λ r. r.1) e1) in
          let same' = sym (ap (λ r. r.1) e2) in
          let read' = ap (λ r. r.0) e2 in
          let keys : key' ≡ key = ok_value (sym read' ∙ ap (λ z. (read_key z).0) same ∙ reads) in
          with_key-IsSetUp n key verification_key start t x2 y count pair clock in_time
            (subst (λ k. with_key k x2 ≡ (ok tt, y)) keys f2)
