-- ===== src/Http/Url.antt =====
-- `_out_of_repertoire` and `_normalize_url` of yugo/http_tools.py. The record `Urls` holds what is
-- taken from `urllib.parse` and from the codecs.
use yugo.Base.{
  ℕ, Text, codes, text_eq, Bool, true, false, ◌||◌, ◌==◌, leb, ltb, Option, none, some, List, [],
  ◌∷◌, if◌then◌else◌, length, ends_with,
}
use yugo.Http.Origin.{
  HttpGetError, invalid_url, url_too_long, bad_redirect, bad_redirect_scheme, blocked_address,
  Checked, refused, passed, Origin, https, default_port, authority, blocked_name,
}

-- A `SplitResult`. `port` raises or is absent.
pub record Parts : Type 0 where
  pub scheme : Text
  pub userinfo : Bool
  pub hostname : Option Text
  pub port : Option (Option ℕ)
  pub path : Text
  pub query : Text

pub record Urls : Type 0 where
  -- The bytes of a text in UTF-8, unless it has a lone surrogate.
  pub utf8 : Text → Option (List ℕ)
  pub urlsplit : Text → Option Parts
  -- The IDNA codec.
  pub idna : Text → Option Text
  pub lower : Text → Text
  pub decimal : ℕ → Text
  -- `urlunsplit((scheme, netloc, path, query, ""))`
  pub urlunsplit : Text → Text → Text → Text → Text
  pub urljoin : Text → Text → Text

-- What a hop is made of: the URL, its origin, and the path and query of the request target.
pub record Target : Type 0 where
  pub url : Text
  pub origin : Origin
  pub path : Text
  pub query : Text

abbrev pub max_url_bytes : ℕ
max_url_bytes = 8192

unfoldable pub out_of_repertoire : List ℕ → Bool
out_of_repertoire [] = false
out_of_repertoire (b ∷ bs) = (leb b 32 || b == 127) || out_of_repertoire bs

-- `parts.path or "/"`
abbrev or_slash : Text → Text
or_slash [] = codes "/"
or_slash (c ∷ t) = c ∷ t

-- `parts.port or (443 if scheme == "https" else 80)`
abbrev pub or_default_port : Text → Option ℕ → ℕ
or_default_port scheme none = default_port scheme
or_default_port scheme (some n) = if n == 0 then default_port scheme else n

module _ (u : Urls) (redirect : Bool) where
  abbrev pub bad : HttpGetError
  bad = if redirect then bad_redirect else invalid_url

  -- The text was built of parts of one that has a UTF-8 form, so `none` does not come about.
  abbrev pub bounded : Target → Option (List ℕ) → Checked Target
  bounded t none = refused bad
  bounded t (some bs) = if ltb max_url_bytes (length bs) then refused url_too_long else passed t

  abbrev pub joined : Text → Text → ℕ → Parts → Target
  joined scheme host port parts = record {
    url =
        u.urlunsplit scheme (authority u.decimal scheme host port) (or_slash parts.path)
          parts.query;
    origin = record { scheme = scheme; host = host; port = port };
    path = or_slash parts.path;
    query = parts.query;
  }

  abbrev pub unless_blocked : Option Text → Checked Target → Checked Target
  unless_blocked (some name) r = refused blocked_address
  unless_blocked none r = r

  abbrev pub of_host : Text → Text → ℕ → Parts → Checked Target
  of_host scheme host port parts = unless_blocked (blocked_name u.lower host) (
      if ends_with (codes ".") host
      then refused bad
      else bounded (joined scheme host port parts) (u.utf8 (joined scheme host port parts).url))

  abbrev pub of_authority : Text → Option Text → Option (Option ℕ) → Parts → Checked Target
  of_authority scheme none port parts = refused bad
  of_authority scheme (some host) none parts = refused bad
  of_authority scheme (some host) (some port) parts =
      of_host scheme (u.lower host) (or_default_port scheme port) parts

  abbrev pub of_hostname : Text → Option Text → Parts → Checked Target
  of_hostname scheme none parts = refused bad
  of_hostname scheme (some []) parts = refused bad
  of_hostname scheme (some (c ∷ t)) parts = of_authority scheme (u.idna (c ∷ t)) parts.port parts

  abbrev pub unless_userinfo : Bool → Checked Target → Checked Target
  unless_userinfo true r = refused bad
  unless_userinfo false r = r

  abbrev pub of_parts : Option Parts → Checked Target
  of_parts none = refused bad
  of_parts (some parts) =
      if text_eq (u.lower parts.scheme) (codes "http") || text_eq (u.lower parts.scheme) https
      then unless_userinfo parts.userinfo (of_hostname (u.lower parts.scheme) parts.hostname parts)
      else refused (if redirect then bad_redirect_scheme else bad)

  abbrev pub of_bytes : Text → Option (List ℕ) → Checked Target
  of_bytes raw none = refused bad
  of_bytes raw (some bs) =
      if ltb max_url_bytes (length bs)
      then refused url_too_long
      else if out_of_repertoire bs
      then refused bad
      else of_parts (u.urlsplit raw)

  unfoldable pub normalize_url : Text → Checked Target
  normalize_url raw = of_bytes raw (u.utf8 raw)
