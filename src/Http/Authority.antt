-- ===== src/Http/Authority.antt =====
-- `parse_authority` and `_field_value_fault` of yugo/http_tools.py, and the header token.
-- `lower` stands for `str.lower` and `is_ip` for whether `ipaddress.ip_address` takes the text.
use yugo.Base.{
  ℕ, ◌+◌, ◌-◌, ◌*◌, Text, codes, text_eq, strip, Bool, true, false, not, ◌&&◌, ◌||◌, ◌==◌, leb, ltb,
  Option, none, some, [], ◌∷◌, if◌then◌else◌, length, all_of, count_where, starts_with, ends_with,
  split_on, reverse,
}
use yugo.Http.Origin.{Origin, https, blocked_name, has_char}

abbrev is_digit : ℕ → Bool
is_digit c = leb b'0' c && leb c b'9'

abbrev is_ascii_alnum : ℕ → Bool
is_ascii_alnum c = is_digit c || ((leb b'A' c && leb c b'Z') || (leb b'a' c && leb c b'z'))

abbrev is_label_char : ℕ → Bool
is_label_char c = is_ascii_alnum c || c == b'-'

abbrev starts_alnum : Text → Bool
starts_alnum [] = false
starts_alnum (c ∷ t) = is_ascii_alnum c

-- `_HOST_LABEL.fullmatch`
unfoldable pub is_host_label : Text → Bool
is_host_label t =
    leb (length t) 63 && (starts_alnum t && (starts_alnum (reverse t) && all_of is_label_char t))

abbrev is_token_char : ℕ → Bool
is_token_char c = is_ascii_alnum c || has_char c (codes "!#$%&'*+-.^_`|~")

abbrev is_filled : Text → Bool
is_filled [] = false
is_filled (c ∷ t) = true

-- `_HEADER_TOKEN.fullmatch`
unfoldable pub is_header_token : Text → Bool
is_header_token t = is_filled t && all_of is_token_char t

abbrev is_field_char : ℕ → Bool
is_field_char c = c == 9 || (leb 32 c && leb c 126)

-- Is it a value that `_field_value_fault` finds no fault with?
unfoldable pub is_field_value : Text → Bool
is_field_value t = all_of is_field_char t && text_eq t (strip t)

-- `int` of decimal digits, without CPython's limit on their number.
unfoldable pub decimal_value : ℕ → Text → ℕ
decimal_value n [] = n
decimal_value n (c ∷ t) = decimal_value (n * 10 + (c - b'0')) t

-- `value.partition(":")`: what stands before the colon, and what after it if there is one.
abbrev before_colon : ℕ → Text × Option Text → Text × Option Text
before_colon c (host, port) = (c ∷ host, port)

unfoldable pub partition_colon : Text → Text × Option Text
partition_colon [] = ([], none)
partition_colon (c ∷ t) =
    let rest = partition_colon t in if c == b':' then ([], some t) else before_colon c rest

abbrev port_in_range : ℕ → Option ℕ
port_in_range n = if leb 1 n && leb n 65535 then some n else none

unfoldable pub parse_port : Option Text → Option ℕ
parse_port none = some 443
parse_port (some t) =
    if not (is_filled t) || not (all_of is_digit t)
    then none
    else if ltb 1 (length t) && starts_with (codes "0") t
    then none
    else port_in_range (decimal_value 0 t)

module _ (lower : Text → Text) (is_ip : Text → Bool) where
  abbrev pub is_host : Text → Bool
  is_host host =
      leb (length host) 253
      && (is_filled host
          && (ltb 1 (length (split_on b'.' host))
              && (all_of is_host_label (split_on b'.' host) && not (is_ip host))))

  abbrev pub unless_under : Option Text → Text → ℕ → Option Origin
  unless_under (some name) host port = none
  unless_under none host port = some (record { scheme = https; host = host; port = port })

  abbrev pub with_port : Text → Option ℕ → Option Origin
  with_port host none = none
  with_port host (some port) =
      if is_host host
      then unless_under (blocked_name lower (lower host)) (lower host) port
      else none

  abbrev pub of_partition : Text × Option Text → Option Origin
  of_partition (host, port) = with_port host (parse_port port)

  abbrev pub is_plain : Text → Bool
  is_plain value =
      is_filled value
      && (all_of (λ c. ltb c 128) value
          && (not (ends_with (codes ".") value)
              && (not (starts_with (codes "[") value)
                  && leb (count_where (λ c. c == b':') value) 1)))

  -- `none` is the HttpStartupError.
  unfoldable pub parse_authority : Text → Option Origin
  parse_authority value = if is_plain value then of_partition (partition_colon value) else none
