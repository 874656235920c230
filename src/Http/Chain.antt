-- ===== src/Http/Chain.antt =====
-- `http_get` of yugo/http_tools.py up to the response that ends the chain of redirects. The network
-- answers each call as it likes, and may look at all that was sent before.
use yugo.Base.{
  ℕ, zero, suc, Text, codes, text_eq, Bool, true, false, not, ◌&&◌, ◌||◌, ◌==◌, Option, none, some,
  List, [], ◌∷◌, if◌then◌else◌,
}
use yugo.Http.Origin.{
  HttpGetError, bad_redirect, redirect_cap, Checked, refused, passed, Origin, origin_eq, https,
  Credential, rendered,
}
use yugo.Http.Url.{Urls, Target, normalize_url, out_of_repertoire}
use yugo.Http.Address.{Ipaddress, Info, Resolved, approved_addresses}
use yugo.Http.Headers.{Headers, header_value, reject_repeated_fields}

-- A request as it was sent: over a connection to one of the addresses.
pub record Request : Type 0 where
  pub target : Target
  pub addresses : List Info
  pub credential : Option Credential

abbrev pub Sent : Type 0
Sent = List Request

pub data Reply : Type 0 where
  no_reply : HttpGetError → Reply
  reply : ℕ → Headers → Reply

pub record Network : Type 0 where
  pub resolve : Sent → Origin → Resolved
  -- What `_connect` raises, if anything.
  pub connect : Sent → Origin → List Info → Option HttpGetError
  -- To the newest request; its lines are parsed.
  pub respond : Sent → Reply

-- The variables of the loop.
pub record Hop : Type 0 where
  pub target : Target
  pub selected : Option Credential
  pub forwarding : Bool
  pub first_hop : Bool
  -- `dropped_at`, the origin rendered
  pub dropped_at : Option Text
  pub sent : Sent

-- How the loop ends: with an error, or with the status and the headers of the last response.
pub data Ending : Type 0 where
  raised : HttpGetError → Ending
  final : ℕ → Headers → Ending

unfoldable pub is_redirect : ℕ → Bool
is_redirect status =
    status == 301 || (status == 302 || (status == 303 || (status == 307 || status == 308)))

unfoldable pub find_credential : Origin → List Credential → Option Credential
find_credential o [] = none
find_credential o (c ∷ cs) = if origin_eq c.origin o then some c else find_credential o cs

abbrev pub is_selected {ℓ} : {A : Type ℓ} → Option A → Bool
is_selected none = false
is_selected (some a) = true

abbrev pub pick : Bool → Origin → List Credential → Option Credential
pick true o credentials = find_credential o credentials
pick false o credentials = none

abbrev pub select_if : Bool → List Credential → Hop → Hop
select_if false credentials h = h
select_if true credentials h = record h {
  selected = pick (text_eq h.target.origin.scheme https) h.target.origin credentials;
  forwarding =
      is_selected (pick (text_eq h.target.origin.scheme https) h.target.origin credentials);
  first_hop = false;
}

-- The selection, on the first hop only.
unfoldable pub select : List Credential → Hop → Hop
select credentials h = select_if h.first_hop credentials h

-- `hop_attached`, with the credential
abbrev pub attached : Bool → Option Credential → Option Credential
attached true c = c
attached false c = none

abbrev pub send : List Info → Hop → Hop
send addresses h = record h {
  sent =
      record {
        target = h.target;
        addresses = addresses;
        credential = attached h.forwarding h.selected;
      }
      ∷ h.sent;
}

abbrev pub leaves : Option Credential → Origin → Bool
leaves none o = false
leaves (some c) o = not (origin_eq o c.origin)

abbrev pub redirect_if : Bool → (ℕ → Text) → Target → Hop → Hop
redirect_if true decimal t h = record h {
  target = t;
  forwarding = false;
  dropped_at = some (rendered decimal t.origin);
}
redirect_if false decimal t h = record h { target = t }

-- The next hop, from the target that `Location` names.
unfoldable pub redirect : (ℕ → Text) → Target → Hop → Hop
redirect decimal t h = redirect_if (h.forwarding && leaves h.selected t.origin) decimal t h

module _ (u : Urls) (k : Ipaddress) (same : Info → Info → Bool) (net : Network)
    (credentials : List Credential) where
  -- The target of a redirect, up to the check of `max_redirects` and past it.
  abbrev pub location_of : Option Text → Option HttpGetError × Text
  location_of none = (some bad_redirect, [])
  location_of (some l) = elim (u.utf8 l) [
    | none ↦ (some bad_redirect, l)
    | some bs ↦ if out_of_repertoire bs then (some bad_redirect, l) else (none, l)
  ]

  abbrev pub on_target : (Hop → Ending × Hop) → Hop → Checked Target → Ending × Hop
  on_target go h (refused e) = (raised e, h)
  on_target go h (passed t) = go (redirect u.decimal t h)

  abbrev pub on_location :
      Option (Hop → Ending × Hop) → Hop → Option HttpGetError × Text → Ending × Hop
  on_location go h (some e, l) = (raised e, h)
  on_location none h (none, l) = (raised redirect_cap, h)
  on_location (some go) h (none, l) =
      on_target go h (normalize_url u true (u.urljoin h.target.url l))

  abbrev pub by_status : Bool → Option (Hop → Ending × Hop) → Hop → ℕ → Headers → Ending × Hop
  by_status true go h status hs =
      on_location go h (location_of (header_value (codes "location") hs))
  by_status false go h status hs = (final status hs, h)

  abbrev pub on_fields :
      Option (Hop → Ending × Hop) → Hop → ℕ → Headers → Option HttpGetError → Ending × Hop
  on_fields go h status hs (some e) = (raised e, h)
  on_fields go h status hs none = by_status (is_redirect status) go h status hs

  abbrev pub on_reply : Option (Hop → Ending × Hop) → Hop → Reply → Ending × Hop
  on_reply go h (no_reply e) = (raised e, h)
  on_reply go h (reply status hs) = on_fields go h status hs (reject_repeated_fields hs)

  abbrev pub on_connect :
      Option (Hop → Ending × Hop) → List Info → Hop → Option HttpGetError → Ending × Hop
  on_connect go addresses h (some e) = (raised e, h)
  on_connect go addresses h none =
      on_reply go (send addresses h) (net.respond (send addresses h).sent)

  abbrev pub on_addresses : Option (Hop → Ending × Hop) → Hop → Checked (List Info) → Ending × Hop
  on_addresses go h (refused e) = (raised e, h)
  on_addresses go h (passed addresses) =
      on_connect go addresses (select credentials h) (net.connect h.sent h.target.origin addresses)

  -- One round of the loop: `go` is the next, `none` where `redirects >= max_redirects`.
  unfoldable pub hop : Option (Hop → Ending × Hop) → Hop → Ending × Hop
  hop go h = on_addresses go h (approved_addresses k same (net.resolve h.sent h.target.origin))

  -- The loop, with the redirects that are left.
  unfoldable pub follow : ℕ → Hop → Ending × Hop
  follow zero h = hop none h
  follow (suc n) h = hop (some (λ h'. follow n h')) h

  abbrev pub first : Target → Hop
  first t = record {
    target = t;
    selected = none;
    forwarding = false;
    first_hop = true;
    dropped_at = none;
    sent = [];
  }

  abbrev pub from_target : ℕ → Checked Target → Ending × Sent
  from_target max_redirects (refused e) = (raised e, [])
  from_target max_redirects (passed t) =
      ((follow max_redirects (first t)).0, (follow max_redirects (first t)).1.sent)

  unfoldable pub http_get : ℕ → Text → Ending × Sent
  http_get max_redirects url = from_target max_redirects (normalize_url u false url)
