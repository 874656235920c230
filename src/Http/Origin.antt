-- ===== src/Http/Origin.antt =====
-- Origins in yugo/http_tools.py: `Origin`, `_authority`, `_blocked_name`, `parse_authority` and
-- `Credential`. `lower` stands for `str.lower` on ASCII text.
use yugo.Base.{
  ℕ, Text, codes, text_eq, text_eq_iff, text_eq_refl, ◌≡◌, Bool, true, false, ◌&&◌, ◌||◌, ◌==◌,
  ==_iff, Option, none, some, List, [], ◌∷◌, ◌++◌, if◌then◌else◌, ends_with, arith, reverse,
}

pub data HttpGetError : Type 0 where
  invalid_url url_too_long bad_redirect bad_redirect_scheme blocked_address timeout
        transport_error :
      HttpGetError
  redirect_cap size_cap unsupported_content unsupported_encoding invalid_encoding : HttpGetError

pub data Checked {ℓ} (A : Type ℓ) : Type ℓ where
  refused : HttpGetError → Checked A
  passed : A → Checked A

pub record Origin : Type 0 where
  pub scheme : Text
  pub host : Text
  pub port : ℕ

unfoldable pub origin_eq : Origin → Origin → Bool
origin_eq a b = text_eq a.scheme b.scheme && (text_eq a.host b.host && a.port == b.port)

pub origin_eq_sound : (a b : Origin) → origin_eq a b ≡ true → a ≡ b
unfolding origin_eq
origin_eq_sound a b h =
    let s = (text_eq_iff a.scheme b.scheme).0 (ground arith) in
    let t = (text_eq_iff a.host b.host).0 (ground arith) in
    let p = (==_iff a.port b.port).0 (ground arith) in cc

pub origin_eq_refl : (a : Origin) → origin_eq a a ≡ true
unfolding origin_eq
origin_eq_refl a = ground (arith, text_eq_refl a.scheme, text_eq_refl a.host)

abbrev pub https : Text
https = codes "https"

unfoldable pub has_char : ℕ → Text → Bool
has_char c [] = false
has_char c (x ∷ t) = x == c || has_char c t

abbrev bare : Text → Text
bare host = if has_char b':' host then codes "[" ++ (host ++ codes "]") else host

abbrev pub default_port : Text → ℕ
default_port scheme = if text_eq scheme https then 443 else 80

-- `decimal` is `str` of a number.
unfoldable pub authority : (ℕ → Text) → Text → Text → ℕ → Text
authority decimal scheme host port =
    if port == default_port scheme then bare host else bare host ++ (codes ":" ++ decimal port)

unfoldable pub rendered : (ℕ → Text) → Origin → Text
rendered decimal o = o.scheme ++ (codes "://" ++ (bare o.host ++ (codes ":" ++ decimal o.port)))

pub record Credential : Type 0 where
  pub id : Text
  pub origin : Origin
  pub header : Text
  pub secret : Text

abbrev pub blocked_names : List Text
blocked_names =
    codes "internal"
    ∷ codes "local"
    ∷ codes "localhost"
    ∷ codes "home.arpa"
    ∷ codes "home"
    ∷ codes "lan"
    ∷ codes "test"
    ∷ codes "invalid"
    ∷ codes "onion"
    ∷ []

abbrev drop_dot : Text → Text
drop_dot [] = []
drop_dot (c ∷ t) = if c == b'.' then t else c ∷ t

-- `t.removesuffix(".")`
abbrev pub without_dot : Text → Text
without_dot t = reverse (drop_dot (reverse t))

abbrev pub is_under : Text → Text → Bool
is_under name host = text_eq host name || ends_with (codes "." ++ name) host

unfoldable pub first_under : List Text → Text → Option Text
first_under [] host = none
first_under (n ∷ ns) host = if is_under n host then some n else first_under ns host

unfoldable pub blocked_name : (Text → Text) → Text → Option Text
blocked_name lower host = first_under blocked_names (without_dot (lower host))
