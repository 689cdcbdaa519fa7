-- ===== src/Tests/Files.antt =====
-- A file system in memory, key formats that can be run, and a set-up of keys.
use merch.Base.{
  String, str_eq, eq_iff, ◌≡◌, ◌≢◌, refl, sym, ap, ◌∙◌, Option, none, some, [], ◌∷◌, ◌++◌, inl, inr,
  if◌then◌else◌,
}
use merch.Go.Errors.{sentinel, file_not_exist, Result, ok, err, wrap_result, errors_is}
use merch.Go.Results.{ok_value}
use merch.Postgres.Schema.{Bytes}
use merch.App.Files.{FileSystem}
use merch.App.Keys.{
  KeyFormats, ed25519_key, read_file_ed25519_public_key, read_file_ed25519_private_key,
}
use merch.App.JwtSetup.{
  setup_jwt, file_exists, unless_exists, create_keys, pem_encode_ed25519_public_key,
  pem_encode_ed25519_private_key,
}
use merch.App.JwtSetup.Existing.{setup_jwt-kept}
use merch.App.JwtSetup.KeyPair.{setup_jwt-reads, setup_jwt-again}

abbrev pub Disk : Type 0
Disk = String → Option Bytes

abbrev pub content_of : Option Bytes → Result Bytes
content_of none = err (sentinel file_not_exist)
content_of (some b) = ok b

abbrev pub found : Option Bytes → Result Unit
found none = err (sentinel file_not_exist)
found (some b) = ok tt

abbrev pub written : String → Bytes → Disk → Disk
written name content s other = if str_eq name other then some content else s other

pub at_name :
    (name : String) (content : Bytes) (s s' : Disk)
    → ◌≡◌ {A = Result Unit × Disk} (ok tt, written name content s) (ok tt, s')
    → s' name ≡ some content
at_name name content s s' e =
    ap (λ x. x.1 name) (sym e)
    ∙ ap (λ b. if b then some content else s name) ((eq_iff name name).1 refl)

abbrev pub so_far : Option Bytes → Bytes
so_far none = []
so_far (some b) = b

pub so_far_lem : (o : Option Bytes) (old : Bytes) → content_of o ≡ ok old → so_far o ≡ old
so_far_lem none old e = cc
so_far_lem (some b) old e = ok_value e

abbrev pub disk : FileSystem Disk
disk = record {
  stat = λ name s. found (s name);
  read_file = λ name s. content_of (s name);
  write_file = λ name content s. (ok tt, written name content s);
  mkdir_all = λ name s. (ok tt, s);
  dir = λ name. name;
  same_file = str_eq;
  read-write = λ name content s s' e. ap content_of (at_name name content s s' e);
  stat-write = λ name content s s' e. ap found (at_name name content s s' e);
  read-write-other = λ name other content old s apart reads.
      ap (λ b. content_of (if b then some content else s other)) apart ∙ reads;
  stat-write-other = λ name other content s apart there.
      ap (λ b. found (if b then some content else s other)) apart ∙ there;
  stat-mkdir_all = λ name other s e. e;
  read-mkdir_all = λ name other old s reads. reads;
  create = λ name s. (ok tt, written name [] s);
  append = λ name content s. (ok tt, written name (so_far (s name) ++ content) s);
  read-create = λ name s s' e. ap content_of (at_name name [] s s' e);
  read-append = λ name old content s s' e reads.
      ap content_of (at_name name (so_far (s name) ++ content) s s' e)
      ∙ ap (λ b. ok (b ++ content)) (so_far_lem (s name) old reads);
  read-create-other = λ name other old s apart reads.
      ap (λ b. content_of (if b then some [] else s other)) apart ∙ reads;
  read-append-other = λ name other content old s apart reads.
      ap (λ b. content_of (if b then some (so_far (s name) ++ content) else s other)) apart ∙ reads;
}

abbrev pub without_mark : Bytes → Option Bytes
without_mark [] = none
without_mark (c ∷ s) = some s

-- A block of PEM is its bytes behind a mark.
abbrev pub marked : KeyFormats
marked = record {
  marshal_pkix_public_key = λ k. ok k;
  marshal_pkcs8_private_key = λ k. ok k;
  parse_pkix_public_key = λ b. ok (ed25519_key b);
  parse_pkcs8_private_key = λ b. ok (ed25519_key b);
  pem_encode = λ label b. ok (45 ∷ b);
  pem_decode = without_mark;
  pem_decode-encode = λ label b x e. ap without_mark (sym (ok_value e));
  parse-marshal-public = λ k b e. ap (λ x. ok (ed25519_key x)) (sym (ok_value e));
  parse-marshal-private = λ k b e. ap (λ x. ok (ed25519_key x)) (sym (ok_value e));
}

abbrev pub blank : Disk
blank name = none

abbrev pub with_keys : Disk
with_keys = written "priv.pem" (45 ∷ 8 ∷ []) (written "pub.pem" (45 ∷ 9 ∷ []) blank)

pub set_up :
    setup_jwt disk marked (ok (9 ∷ [], 8 ∷ [])) "pub.pem" "priv.pem" blank ≡ (ok tt, with_keys)
unfolding setup_jwt wrap_result file_exists errors_is unless_exists create_keys
    pem_encode_ed25519_public_key pem_encode_ed25519_private_key
set_up = refl

pub no_file : err (sentinel file_not_exist) ≢ ok tt
no_file e = cc

setup_jwt-reads_example :
    (read_file_ed25519_public_key disk marked "pub.pem" with_keys ≡ ok (9 ∷ []))
    × (read_file_ed25519_private_key disk marked "priv.pem" with_keys ≡ ok (8 ∷ []))
setup_jwt-reads_example =
    setup_jwt-reads disk marked "pub.pem" "priv.pem" refl (9 ∷ []) (8 ∷ []) blank with_keys
      (inl no_file) set_up

setup_jwt-again_example :
    setup_jwt disk marked (ok (7 ∷ [], 6 ∷ [])) "pub.pem" "priv.pem" with_keys ≡ (ok tt, with_keys)
setup_jwt-again_example =
    setup_jwt-again disk marked "pub.pem" "priv.pem" refl (ok (9 ∷ [], 8 ∷ []))
      (ok (7 ∷ [], 6 ∷ [])) blank with_keys set_up

abbrev half : Disk
half = written "priv.pem" (1 ∷ []) blank

setup_jwt-kept_example :
    (setup_jwt disk marked (ok (9 ∷ [], 8 ∷ [])) "pub.pem" "priv.pem" half).1 ≡ half
setup_jwt-kept_example =
    setup_jwt-kept disk marked "pub.pem" "priv.pem" (ok (9 ∷ [], 8 ∷ [])) half (inr refl)
