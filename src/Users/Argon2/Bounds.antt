-- ===== src/Users/Argon2/Bounds.antt =====
-- What the parser accepts.
use merch.Base.{
  ℕ, ◌<◌, ◌^◌, ◌≡◌, subst, Option, none, some, List, [], ◌∷◌, ◌++◌, Bool-cases, inl, inr, arith,
}
use merch.Base.Int.{pos}
use merch.Base.Lists.{length}
use merch.Go.Errors.{wrap_result, ok}
use merch.Go.Results.{>>=-eq-ok, wrap_result-eq-ok, ok_value}
use merch.Go.Strings.{codes, bytes_eq, cut_dollar, split}
use merch.Go.Decimal.{itoa}
use merch.Go.Base64.{decode}
use merch.Go.Scan.{scan_uint, scan_uint-lt, scan_text}
use merch.Users.Argon2.{
  Parsed, int_to_uint32, scan_params, all_read, parse_rest, parse_fields, after_prefix,
  parse_password_hash_argon2_id,
}
use merch.Users.Argon2.Format.{AreWords}
use merch.Postgres.Schema.{Bytes}

pub record IsWellSized (p : Parsed) : Type 0 where
  pub words : AreWords p.params
  pub salt_size : length p.salt ≡ p.params.salt_len
  pub hash_size : length p.hash ≡ p.params.hash_len

int_to_uint32_value : (n k : ℕ) → int_to_uint32 (pos n) ≡ ok k → (n ≡ k) × (k < 2 ^ 32)
unfolding int_to_uint32
int_to_uint32_value n k e = ground arith

abbrev FitWords : ℕ × ℕ × ℕ × Bytes → Type 0
FitWords (m, t, p, rest) = (m < 2 ^ 32) × (t < 2 ^ 32) × (p < 2 ^ 8)

scan_params-FitWords : (s : Bytes) (x : ℕ × ℕ × ℕ × Bytes) → scan_params s ≡ ok x → FitWords x
unfolding scan_params
scan_params-FitWords s x e =
    let (s1, _, e1) = >>=-eq-ok (scan_text (codes "m=") s) _ x e in
    let ((m, s2), em, e2) = >>=-eq-ok (scan_uint 32 s1) _ x e1 in
    let (s3, _, e3) = >>=-eq-ok (scan_text (codes ",t=") s2) _ x e2 in
    let ((t, s4), et, e4) = >>=-eq-ok (scan_uint 32 s3) _ x e3 in
    let (s5, _, e5) = >>=-eq-ok (scan_text (codes ",p=") s4) _ x e4 in
    let ((p, s6), ep, e6) = >>=-eq-ok (scan_uint 8 s5) _ x e5 in
    subst FitWords (ok_value e6)
      (scan_uint-lt 32 s1 m s2 em, scan_uint-lt 32 s3 t s4 et, scan_uint-lt 8 s5 p s6 ep)

parse_rest-IsWellSized : (f s h : Bytes) (x : Parsed) → parse_rest f s h ≡ ok x → IsWellSized x
unfolding parse_rest
parse_rest-IsWellSized f s h x e =
    let ((m, t, p, rest), em, e1) = >>=-eq-ok (wrap_result "params" (scan_params f)) _ x e in
    let (_, _, e2) = >>=-eq-ok (all_read rest) _ x e1 in
    let (salt, _, e3) = >>=-eq-ok (wrap_result "salt" (decode s)) _ x e2 in
    let (salt_len, es, e4) =
      >>=-eq-ok (wrap_result "salt" (int_to_uint32 (pos (length salt)))) _ x e3 in
    let (hash, _, e5) = >>=-eq-ok (wrap_result "hash" (decode h)) _ x e4 in
    let (hash_len, eh, e6) =
      >>=-eq-ok (wrap_result "hash" (int_to_uint32 (pos (length hash)))) _ x e5 in
    let (mb, tb, pb) = scan_params-FitWords f (m, t, p, rest) (wrap_result-eq-ok "params" _ _ em) in
    let (sl, sb) = int_to_uint32_value (length salt) salt_len (wrap_result-eq-ok "salt" _ _ es) in
    let (hl, hb) = int_to_uint32_value (length hash) hash_len (wrap_result-eq-ok "hash" _ _ eh) in
    subst IsWellSized (ok_value e6) (record {
      words = record { memory = mb; time = tb; parallelism = pb; salt_len = sb; hash_len = hb };
      salt_size = sl;
      hash_size = hl;
    })

parse_fields-IsWellSized : (fs : List Bytes) (x : Parsed) → parse_fields fs ≡ ok x → IsWellSized x
unfolding parse_fields
parse_fields-IsWellSized [] x e = cc
parse_fields-IsWellSized (a ∷ []) x e = cc
parse_fields-IsWellSized (a ∷ b ∷ []) x e = cc
parse_fields-IsWellSized (a ∷ b ∷ c ∷ []) x e = cc
parse_fields-IsWellSized (a ∷ b ∷ c ∷ d ∷ []) x e = cc
parse_fields-IsWellSized (a ∷ b ∷ c ∷ d ∷ h ∷ []) x e =
    parse_rest-IsWellSized c d h x (elim (Bool-cases (bytes_eq a (codes "argon2id"))) [
      | inr other ↦ ground (arith, other)
      | inl same ↦ elim (Bool-cases (bytes_eq b (codes "v=" ++ itoa 19))) [
        | inr old ↦ ground (arith, same, old)
        | inl current ↦ ground (arith, same, current)
      ]
    ])
parse_fields-IsWellSized (a ∷ b ∷ c ∷ d ∷ h ∷ i ∷ fs) x e = cc

after_prefix-IsWellSized : (o : Option Bytes) (x : Parsed) → after_prefix o ≡ ok x → IsWellSized x
after_prefix-IsWellSized none x e = cc
after_prefix-IsWellSized (some s) x e = parse_fields-IsWellSized (split s) x e

-- If a hash parses, then its memory, time and lengths are below 2^32 and its parallelism below 2^8,
-- and the lengths are those of the salt and the key that were decoded.
pub parse-IsWellSized :
    (h : Bytes) (x : Parsed) → parse_password_hash_argon2_id h ≡ ok x → IsWellSized x
unfolding parse_password_hash_argon2_id
parse-IsWellSized h x e = after_prefix-IsWellSized (cut_dollar h) x e
