-- ===== src/Http/Bounded.antt =====
-- The loop of `http_get` in yugo/http_tools.py: its requests are confined, and few.
use yugo.Base.{
  ℕ, zero, suc, ◌+◌, ◌≤◌, Text, codes, ◌≡◌, refl, Bool, true, false, Option, none, some, List,
  length, arith,
}
use yugo.Http.Origin.{HttpGetError, Checked, refused, passed, Credential}
use yugo.Http.Url.{Urls, Target, normalize_url}
use yugo.Http.Address.{Ipaddress, Info, approved_addresses}
use yugo.Http.Headers.{Headers, header_value, reject_repeated_fields}
use yugo.Http.Destination.{AllApproved, approved-AllApproved, IsNamed, normalize_url-IsNamed}
use yugo.Http.Confined.{
  IsConfined, Invariant, select-Invariant, send-Invariant, redirect-Invariant, redirect-sent,
  select-sent,
}
use yugo.Http.Chain.{
  Reply, no_reply, reply, Network, Hop, Ending, is_redirect, select, send, redirect, location_of,
  on_target, on_location, by_status, on_fields, on_reply, on_connect, on_addresses, hop, follow,
  from_target, first, http_get,
}

module _ (u : Urls) (k : Ipaddress) (same : Info → Info → Bool) (net : Network)
    (credentials : List Credential) where
  -- What is shown of a run of the loop that may send `most` requests in all.
  abbrev pub Ok : ℕ → Ending × Hop → Type 0
  Ok most r = IsConfined u k credentials r.1.sent × (length r.1.sent ≤ most)

  -- The next round does so from every hop that has sent `n` requests at most.
  abbrev Goes : ℕ → Option (Hop → Ending × Hop) → ℕ → Type 0
  Goes most none n = Unit
  Goes most (some go) n =
      (h : Hop) → Invariant u k credentials h → length h.sent ≤ n → Ok most (go h)

  on_target-Ok :
      (most n : ℕ) (go : Hop → Ending × Hop) (h : Hop) (r : Checked Target)
      → IsNamed u r
      → Invariant u k credentials h
      → length h.sent ≤ n
      → n ≤ most
      → Goes most (some go) n
      → Ok most (on_target u k same net credentials go h r)
  on_target-Ok most n go h (refused e) named i s m g = (i.0, omega arith)
  on_target-Ok most n go h (passed t) named i s m g =
      g (redirect u.decimal t h) (redirect-Invariant u k credentials u.decimal t h named i)
        (rw (redirect-sent u.decimal t h) s)

  on_location-Ok :
      (most n : ℕ) (go : Option (Hop → Ending × Hop)) (h : Hop) (l : Option HttpGetError × Text)
      → Invariant u k credentials h
      → length h.sent ≤ n
      → n ≤ most
      → Goes most go n
      → Ok most (on_location u k same net credentials go h l)
  on_location-Ok most n go h (some e, l) i s m g = (i.0, omega arith)
  on_location-Ok most n none h (none, l) i s m g = (i.0, omega arith)
  on_location-Ok most n (some go) h (none, l) i s m g =
      on_target-Ok most n go h (normalize_url u true (u.urljoin h.target.url l))
        (normalize_url-IsNamed u true (u.urljoin h.target.url l)) i s m g

  by_status-Ok :
      (most n : ℕ) (b : Bool) (go : Option (Hop → Ending × Hop)) (h : Hop) (status : ℕ)
      (hs : Headers)
      → Invariant u k credentials h
      → length h.sent ≤ n
      → n ≤ most
      → Goes most go n
      → Ok most (by_status u k same net credentials b go h status hs)
  by_status-Ok most n true go h status hs i s m g =
      on_location-Ok most n go h
        (location_of u k same net credentials (header_value (codes "location") hs)) i s m g
  by_status-Ok most n false go h status hs i s m g = (i.0, omega arith)

  on_fields-Ok :
      (most n : ℕ) (go : Option (Hop → Ending × Hop)) (h : Hop) (status : ℕ) (hs : Headers)
      (o : Option HttpGetError)
      → Invariant u k credentials h
      → length h.sent ≤ n
      → n ≤ most
      → Goes most go n
      → Ok most (on_fields u k same net credentials go h status hs o)
  on_fields-Ok most n go h status hs (some e) i s m g = (i.0, omega arith)
  on_fields-Ok most n go h status hs none i s m g =
      by_status-Ok most n (is_redirect status) go h status hs i s m g

  on_reply-Ok :
      (most n : ℕ) (go : Option (Hop → Ending × Hop)) (h : Hop) (r : Reply)
      → Invariant u k credentials h
      → length h.sent ≤ n
      → n ≤ most
      → Goes most go n
      → Ok most (on_reply u k same net credentials go h r)
  on_reply-Ok most n go h (no_reply e) i s m g = (i.0, omega arith)
  on_reply-Ok most n go h (reply status hs) i s m g =
      on_fields-Ok most n go h status hs (reject_repeated_fields hs) i s m g

  on_connect-Ok :
      (most : ℕ) (go : Option (Hop → Ending × Hop)) (addresses : List Info) (h : Hop)
      (o : Option HttpGetError)
      → Invariant u k credentials h
      → h.first_hop ≡ false
      → AllApproved k addresses
      → suc (length h.sent) ≤ most
      → Goes most go (suc (length h.sent))
      → Ok most (on_connect u k same net credentials go addresses h o)
  on_connect-Ok most go addresses h (some e) i f a m g = (i.0, omega arith)
  on_connect-Ok most go addresses h none i f a m g =
      on_reply-Ok most (suc (length h.sent)) go (send addresses h)
        (net.respond (send addresses h).sent) (send-Invariant u k credentials addresses h i f a)
        (omega arith) m g

  on_addresses-Ok :
      (most : ℕ) (go : Option (Hop → Ending × Hop)) (h : Hop) (r : Checked (List Info))
      → approved_addresses k same (net.resolve h.sent h.target.origin) ≡ r
      → Invariant u k credentials h
      → suc (length h.sent) ≤ most
      → Goes most go (suc (length h.sent))
      → Ok most (on_addresses u k same net credentials go h r)
  on_addresses-Ok most go h (refused e) r i m g = (i.0, omega arith)
  on_addresses-Ok most go h (passed addresses) r i m g =
      let (kept, started) = select-Invariant u k credentials h i in
      on_connect-Ok most go addresses (select credentials h)
        (net.connect h.sent h.target.origin addresses) kept started
        (approved-AllApproved k same (net.resolve h.sent h.target.origin) addresses r)
        (rw (select-sent credentials h) m) (rw (select-sent credentials h) g)

  hop-Ok :
      (most : ℕ) (go : Option (Hop → Ending × Hop)) (h : Hop)
      → Invariant u k credentials h
      → suc (length h.sent) ≤ most
      → Goes most go (suc (length h.sent))
      → Ok most (hop u k same net credentials go h)
  unfolding hop
  hop-Ok most go h i m g =
      on_addresses-Ok most go h (approved_addresses k same (net.resolve h.sent h.target.origin))
        refl i m g

  follow-Ok :
      (most n : ℕ) (h : Hop)
      → Invariant u k credentials h
      → length h.sent + suc n ≤ most
      → Ok most (follow u k same net credentials n h)
  unfolding follow
  follow-Ok most zero h i m = hop-Ok most none h i (omega arith) tt
  follow-Ok most (suc n) h i m =
      hop-Ok most (some (λ h'. follow u k same net credentials n h')) h i (omega arith)
        (λ h' i' s. follow-Ok most n h' i' (omega arith))

  from_target-Ok :
      (n : ℕ) (r : Checked Target)
      → IsNamed u r
      → IsConfined u k credentials (from_target u k same net credentials n r).1
        × (length (from_target u k same net credentials n r).1 ≤ suc n)
  from_target-Ok n (refused e) named = (tt, omega arith)
  from_target-Ok n (passed t) named =
      follow-Ok (suc n) n (first u k same net credentials t) (tt, named, (tt, tt), refl)
        (omega arith)

  -- Whatever the servers, the resolver and the connections answer, and however the call ends: at
  -- most one request more than `max_redirects` is sent; every request goes to approved addresses
  -- under a host of no blocked name; it carries a credential only if that is the one listed for its
  -- own origin, which is https; and if it carries one, every request before it carried the same,
  -- so a credential that was once dropped, or not selected on the first hop, never comes back.
  pub http_get-IsConfined :
      (max_redirects : ℕ) (url : Text)
      → IsConfined u k credentials (http_get u k same net credentials max_redirects url).1
        × (length (http_get u k same net credentials max_redirects url).1 ≤ suc max_redirects)
  unfolding http_get
  http_get-IsConfined max_redirects url =
      from_target-Ok max_redirects (normalize_url u false url) (normalize_url-IsNamed u false url)
