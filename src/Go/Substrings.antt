-- ===== src/Go/Substrings.antt =====
-- What api/merch/merch.gen.go uses of the package strings, on the bytes of a text.
use merch.Base.{ℕ, ◌≡◌, refl, Bool, true, false, ◌&&◌, ◌||◌, [], ◌∷◌, ◌++◌, ◌==◌}
use merch.Postgres.Schema.{Bytes}

-- strings.HasPrefix(s, prefix)
unfoldable pub has_prefix : Bytes → Bytes → Bool
has_prefix s [] = true
has_prefix [] (p ∷ ps) = false
has_prefix (c ∷ s) (p ∷ ps) = c == p && has_prefix s ps

-- strings.Contains(s, substr)
unfoldable pub contains : Bytes → Bytes → Bool
unfolding has_prefix
contains [] substr = has_prefix [] substr
contains (c ∷ s) substr = has_prefix (c ∷ s) substr || contains s substr

-- "/"
abbrev pub slash : ℕ
slash = 47

-- strings.HasSuffix(s, "/")
unfoldable pub ends_in_slash : Bytes → Bool
ends_in_slash [] = false
ends_in_slash (c ∷ []) = c == slash
ends_in_slash (c ∷ d ∷ s) = ends_in_slash (d ∷ s)

pub ends_in_slash-append : (s : Bytes) → ends_in_slash (s ++ (slash ∷ [])) ≡ true
unfolding ends_in_slash
ends_in_slash-append [] = refl
ends_in_slash-append (c ∷ []) = refl
ends_in_slash-append (c ∷ d ∷ s) = ends_in_slash-append (d ∷ s)
