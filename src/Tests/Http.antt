-- ===== src/Tests/Http.antt =====
-- The chain of redirects and the credentials file at concrete inputs.
use yugo.Base.{
  ◌*◌, ◌^◌, ℕ, ◌≤◌, Text, codes, text_eq, ends_with, starts_with, count_where, split_on, all_of,
  strip, lstrip, is_space, find_offset, ◌≡◌, ◌↔◌, refl, true, false, ◌&&◌, leb, ◌+◌, map, Option,
  none, some, List, [], ◌∷◌, ◌++◌, if◌then◌else◌, length,
}
use yugo.Base.Int.{pos, is_int}
use yugo.Json.{Value, int, str, arr, obj, nil, cons, empty, entry, has, get, lookup}
use yugo.Http.Origin.{
  Credential, blocked_name, blocked_names, without_dot, https, authority, has_char, first_under,
  origin_eq, rendered,
}
use yugo.Http.Url.{Urls, Parts, normalize_url, out_of_repertoire}
use yugo.Http.Address.{
  v4, Ipaddress, Info, infos, approved_addresses, collect, is_listed, is_blocked, reached,
}
use yugo.Http.Headers.{reject_repeated_fields, first_repeated, header_value}
use yugo.Http.Headers.{content_type, charsets, split_eq, encoding, faulty}
use yugo.Http.Origin.{invalid_encoding, unsupported_encoding}
use yugo.Http.Address.{v6}
use yugo.Http.Chain.{
  Sent, Reply, reply, Network, Ending, http_get, find_credential, follow, hop, select, redirect,
  is_redirect,
}
use yugo.Http.Confined.{IsConfined}
use yugo.Http.Bounded.{http_get-IsConfined}
use yugo.Http.Authority.{
  parse_authority, partition_colon, parse_port, is_host_label, is_header_token, is_field_value,
  decimal_value,
}
use yugo.Http.Credentials.{
  loaded, present, load_credentials, has_id, has_origin, load_entries, all_keys,
}
use yugo.Http.Loading.{IsSound, load_credentials-IsSound}
use yugo.Http.Labels.{AllOutside, blocked_name-AllOutside}

abbrev lower : Text → Text
lower t = map (λ (c : ℕ). if leb b'A' c && leb c b'Z' then c + 32 else c) t

abbrev api : Text
api = codes "https://api.example.com/v1"

abbrev cdn : Text
cdn = codes "http://cdn.example.net/x"

abbrev split : Text → Option Parts
split t =
    if text_eq t api
    then some (record {
      scheme = codes "https";
      userinfo = false;
      hostname = some (codes "api.example.com");
      port = some none;
      path = codes "/v1";
      query = [];
    })
    else if text_eq t cdn
    then some (record {
      scheme = codes "http";
      userinfo = false;
      hostname = some (codes "cdn.example.net");
      port = some none;
      path = codes "/x";
      query = [];
    })
    else none

abbrev urls : Urls
urls = record {
  utf8 = λ t. some t;
  urlsplit = split;
  idna = λ t. some t;
  lower = lower;
  decimal = λ n. n ∷ [];
  urlunsplit = λ s n p q. s ++ (codes "://" ++ (n ++ p));
  urljoin = λ base l. l;
}

abbrev ipaddress : Ipaddress
ipaddress = record { is_multicast = λ ip. false; is_global = λ ip. true }

abbrev info : Info
info = record {
  family = 2;
  kind = 1;
  proto = 6;
  ip = some (v4 0x08080808);
  sockaddr = (codes "8.8.8.8", 443);
}

-- The first server redirects to the other, and that one answers.
abbrev answer : Sent → Reply
answer (r ∷ []) = reply 302 ((codes "location", cdn) ∷ [])
answer tr = reply 200 ((codes "content-type", codes "text/plain") ∷ [])

abbrev network : Network
network = record {
  resolve = λ tr o. infos (info ∷ []);
  connect = λ tr o is. none;
  respond = answer;
}

abbrev token : Credential
token = record {
  id = codes "api";
  origin = record { scheme = https; host = codes "api.example.com"; port = 443 };
  header = codes "Authorization";
  secret = codes "s3cret";
}

abbrev fetched : Ending × Sent
fetched = http_get urls ipaddress (λ i j. true) network (token ∷ []) 3 api

http_get-IsConfined_example :
    IsConfined urls ipaddress (token ∷ []) fetched.1 × (length fetched.1 ≤ 4)
http_get-IsConfined_example =
    http_get-IsConfined urls ipaddress (λ i j. true) network (token ∷ []) 3 api

abbrev carried : Sent → List (Option Credential)
carried [] = []
carried (r ∷ tr) = r.credential ∷ carried tr

-- The redirect to another origin drops the credential.
dropped : carried fetched.1 ≡ none ∷ some token ∷ []
unfolding text_eq http_get follow hop normalize_url out_of_repertoire authority has_char
    blocked_name first_under ends_with starts_with approved_addresses collect is_listed is_blocked
    reached select redirect find_credential origin_eq reject_repeated_fields first_repeated
    count_where header_value is_redirect rendered load_credentials load_entries all_keys has get
    lookup parse_authority partition_colon parse_port split_on all_of is_host_label is_header_token
    is_field_value strip lstrip is_space find_offset has_id has_origin decimal_value is_int
dropped = refl

abbrev document : Value
document = obj (
    entry "version" (int (pos 1)) (
      entry "credentials"
        (arr (
          cons
            (obj (
              entry "id" (str (codes "api")) (
                entry "host" (str (codes "API.example.com")) (
                  entry "header" (str (codes "Authorization"))
                    (entry "value" (str (codes "s3cret")) empty)))))
            nil))
        empty))

loads :
    load_credentials (parse_authority lower (λ t. false)) (present 0o600 (loaded document))
    ≡ loaded (token ∷ [])
unfolding text_eq http_get follow hop normalize_url out_of_repertoire authority has_char
    blocked_name first_under ends_with starts_with approved_addresses collect is_listed is_blocked
    reached select redirect find_credential origin_eq reject_repeated_fields first_repeated
    count_where header_value is_redirect rendered load_credentials load_entries all_keys has get
    lookup parse_authority partition_colon parse_port split_on all_of is_host_label is_header_token
    is_field_value strip lstrip is_space find_offset has_id has_origin decimal_value is_int
loads = refl

load_credentials-IsSound_example :
    IsSound lower (λ t. false) token
    × (has_id (codes "api") [] ≡ false)
    × (find_credential token.origin (token ∷ []) ≡ some token)
load_credentials-IsSound_example =
    load_credentials-IsSound lower (λ t. false) (present 0o600 (loaded document)) [] [] token loads

blocked_name-AllOutside_example :
    (blocked_name lower (codes "Printer.Local.") ≡ none)
    ↔ AllOutside blocked_names (without_dot (lower (codes "Printer.Local.")))
blocked_name-AllOutside_example = blocked_name-AllOutside lower (codes "Printer.Local.")

printer : blocked_name lower (codes "Printer.Local.") ≡ some (codes "local")
unfolding text_eq http_get follow hop normalize_url out_of_repertoire authority has_char
    blocked_name first_under ends_with starts_with approved_addresses collect is_listed is_blocked
    reached select redirect find_credential origin_eq reject_repeated_fields first_repeated
    count_where header_value is_redirect rendered load_credentials load_entries all_keys has get
    lookup parse_authority partition_colon parse_port split_on all_of is_host_label is_header_token
    is_field_value strip lstrip is_space find_offset has_id has_origin decimal_value is_int
printer = refl

mylocal : blocked_name lower (codes "mylocal.example.com") ≡ none
unfolding text_eq http_get follow hop normalize_url out_of_repertoire authority has_char
    blocked_name first_under ends_with starts_with approved_addresses collect is_listed is_blocked
    reached select redirect find_credential origin_eq reject_repeated_fields first_repeated
    count_where header_value is_redirect rendered load_credentials load_entries all_keys has get
    lookup parse_authority partition_colon parse_port split_on all_of is_host_label is_header_token
    is_field_value strip lstrip is_space find_offset has_id has_origin decimal_value is_int
mylocal = refl

accepts :
    content_type lower ((codes "content-type", codes "Text/HTML; charset=\"UTF-8\"") ∷ []) ≡ none
unfolding content_type charsets split_eq header_value split_on strip lstrip is_space text_eq
    starts_with
accepts = refl

two_charsets :
    content_type lower
      ((codes "content-type", codes "text/html; charset=utf-8; charset=utf-8") ∷ [])
    ≡ some invalid_encoding
unfolding content_type charsets split_eq header_value split_on strip lstrip is_space text_eq
    starts_with
two_charsets = refl

stacked :
    encoding lower ((codes "content-encoding", codes "gzip, gzip") ∷ [])
    ≡ faulty unsupported_encoding
unfolding encoding header_value has_char strip lstrip is_space text_eq
stacked = refl

-- 10.0.0.1 behind a NAT64 gateway.
translated : reached (v6 (0x64ff9b0000000000000000 * 2 ^ 32 + 0x0a000001)) ≡ some (v4 0x0a000001)
unfolding reached
translated = refl
