-- ===== src/Users/Argon2/Format.antt =====
-- The parser reads what the formatter writes.
use merch.Base.{ℕ, ◌^◌, ◌<◌, ◌≡◌, refl, [], ◌∷◌, ◌++◌, arith}
use mathlib.Core.List.{append_assoc, append-nil}
use merch.Base.Int.{pos}
use merch.Base.Lists.{length}
use merch.Go.Errors.{ok, wrap_result}
use merch.Go.Strings.{codes, bytes_eq_refl, cut_dollar, split_field, split_last, IsPlain, dollar}
use merch.Go.Decimal.{itoa, AreDigits, itoa-AreDigits}
use merch.Go.Scan.{scan_text_lem, scan_uint-itoa}
use merch.Go.Base64.{AreBytes, encode}
use merch.Go.Base64.RoundTrip.{decode-encode, encode-IsPlain}
use merch.Users.Argon2.{
  Argon2IdParams, Parsed, format_password_hash_argon2_id, int_to_uint32, scan_params, parse_rest,
  parse_fields, parse_password_hash_argon2_id,
}
use merch.Postgres.Schema.{Bytes}

-- what the fields of Go's struct can hold
pub record AreWords (p : Argon2IdParams) : Type 0 where
  pub memory : p.memory < 2 ^ 32
  pub time : p.time < 2 ^ 32
  pub parallelism : p.parallelism < 2 ^ 8
  pub salt_len : p.salt_len < 2 ^ 32
  pub hash_len : p.hash_len < 2 ^ 32

-- "m=…,t=…,p=…"
params_text : Argon2IdParams → Bytes
params_text p =
    codes "m="
    ++ (itoa p.memory
        ++ (codes ",t=" ++ (itoa p.time ++ (codes ",p=" ++ (itoa p.parallelism ++ [])))))

scan_params_lem :
    (p : Argon2IdParams)
    → AreWords p
    → scan_params (params_text p) ≡ ok (p.memory, p.time, p.parallelism, [])
unfolding scan_params params_text
scan_params_lem p w =
    rw
      (
        scan_text_lem,
        scan_uint-itoa 32 p.memory _ w.memory refl,
        scan_text_lem,
        scan_uint-itoa 32 p.time _ w.time refl,
        scan_text_lem,
        scan_uint-itoa 8 p.parallelism [] w.parallelism tt,
      )
      refl

int_to_uint32_lem : (n : ℕ) → n < 2 ^ 32 → int_to_uint32 (pos n) ≡ ok n
unfolding int_to_uint32
int_to_uint32_lem n h = ground arith

abbrev parsed_of : Bytes → Bytes → Argon2IdParams → Parsed
parsed_of hash salt p = record { hash = hash; salt = salt; params = p }

parse_rest_lem :
    (hash salt : Bytes) (p : Argon2IdParams)
    → AreBytes hash
    → AreBytes salt
    → AreWords p
    → length hash ≡ p.hash_len
    → length salt ≡ p.salt_len
    → parse_rest (params_text p) (encode salt) (encode hash) ≡ ok (parsed_of hash salt p)
unfolding parse_rest wrap_result
parse_rest_lem hash salt p hb sb w hl sl =
    rw
      (
        scan_params_lem p w,
        wrap_result,
        decode-encode salt sb,
        sl,
        int_to_uint32_lem p.salt_len w.salt_len,
        decode-encode hash hb,
        hl,
        int_to_uint32_lem p.hash_len w.hash_len,
      )
      refl

-- The five fields, and no dollar in any.
format_shape :
    (hash salt : Bytes) (p : Argon2IdParams)
    → format_password_hash_argon2_id hash salt p
      ≡ dollar
        ∷ (codes "argon2id"
            ++ (dollar
                ∷ ((codes "v=" ++ itoa 19)
                    ++ (dollar
                        ∷ (params_text p ++ (dollar ∷ (encode salt ++ (dollar ∷ encode hash))))))))
unfolding format_password_hash_argon2_id params_text
format_shape hash salt p = simp (append_assoc, append-nil)

IsPlain-append : (x y : Bytes) → IsPlain x → IsPlain y → IsPlain (x ++ y)
IsPlain-append [] y h k = k
IsPlain-append (c ∷ x) y h k = (h.0, IsPlain-append x y h.1 k)

digits-IsPlain : (d : Bytes) → AreDigits d → IsPlain d
digits-IsPlain [] h = tt
digits-IsPlain (c ∷ d) h = (ground arith, digits-IsPlain d h.1)

itoa-IsPlain : (n : ℕ) → IsPlain (itoa n)
itoa-IsPlain n = digits-IsPlain (itoa n) (itoa-AreDigits n)

params_text-IsPlain : (p : Argon2IdParams) → IsPlain (params_text p)
unfolding params_text
params_text-IsPlain p =
    let p_plain = IsPlain-append (itoa p.parallelism) [] (itoa-IsPlain p.parallelism) tt in
    let t_plain =
      IsPlain-append (itoa p.time) (codes ",p=" ++ (itoa p.parallelism ++ [])) (itoa-IsPlain p.time)
        (omega arith, (omega arith, (omega arith, p_plain))) in
    (
      omega arith,
      (
        omega arith,
        IsPlain-append (itoa p.memory)
            (codes ",t=" ++ (itoa p.time ++ (codes ",p=" ++ (itoa p.parallelism ++ []))))
            (itoa-IsPlain p.memory) (omega arith, (omega arith, (omega arith, t_plain))),
      ),
    )

version_field-IsPlain : IsPlain (codes "v=" ++ itoa 19)
version_field-IsPlain = (omega arith, (omega arith, itoa-IsPlain 19))

id_field-IsPlain : IsPlain (codes "argon2id")
id_field-IsPlain = omega arith

-- The parser of hashes returns the key, the salt and the parameters that the formatter wrote, if
-- the parameters fit the fields of Argon2IDParams and the lengths of key and salt are the ones that
-- they name.
pub parse-format :
    (hash salt : Bytes) (p : Argon2IdParams)
    → AreBytes hash
    → AreBytes salt
    → AreWords p
    → length hash ≡ p.hash_len
    → length salt ≡ p.salt_len
    → parse_password_hash_argon2_id (format_password_hash_argon2_id hash salt p)
      ≡ ok (record { hash = hash; salt = salt; params = p })
unfolding parse_password_hash_argon2_id cut_dollar parse_fields
parse-format hash salt p hb sb w hl sl =
    rw
      (
        format_shape hash salt p,
        split_field (codes "argon2id") _ id_field-IsPlain,
        split_field (codes "v=" ++ itoa 19) _ version_field-IsPlain,
        split_field (params_text p) _ (params_text-IsPlain p),
        split_field (encode salt) _ (encode-IsPlain salt),
        split_last (encode hash) (encode-IsPlain hash),
        bytes_eq_refl (codes "argon2id"),
        bytes_eq_refl (codes "v=" ++ itoa 19),
      )
      (parse_rest_lem hash salt p hb sb w hl sl)
