-- ===== src/Http/Destination.antt =====
-- Which destinations `_approved_addresses` and `_normalize_url` of yugo/http_tools.py let through.
use yugo.Base.{
  ℕ, Text, text_eq, ◌≡◌, inl, inr, refl, subst, Bool, true, false, Option, none, some, List, [],
  ◌∷◌, ◌++◌, length, ltb, ends_with, codes, ◌||◌, Bool-cases,
}
use yugo.Http.Origin.{Checked, refused, passed, https, blocked_name}
use yugo.Http.Url.{
  Urls, Target, normalize_url, of_bytes, of_parts, of_hostname, of_authority, of_host, bounded,
  joined, Parts, unless_blocked, unless_userinfo, out_of_repertoire, or_default_port, max_url_bytes,
}
use yugo.Http.Address.{
  Ip, Ipaddress, Info, Resolved, infos, too_late, failed, is_blocked, is_listed, add_unless,
  next_entry, collect, nonempty, approved_addresses,
}

-- Each address passes the test of `_not_global_unicast`.
abbrev pub AllApproved : Ipaddress → List Info → Type 0
AllApproved k [] = Unit
AllApproved k (i ∷ is) = ((a : Ip) × (i.ip ≡ some a) × (is_blocked k a ≡ false)) × AllApproved k is

AllApproved-append :
    (k : Ipaddress) (xs : List Info) (i : Info) (a : Ip)
    → i.ip ≡ some a
    → is_blocked k a ≡ false
    → AllApproved k xs
    → AllApproved k (xs ++ (i ∷ []))
AllApproved-append k [] i a e b h = ((a, e, b), tt)
AllApproved-append k (x ∷ xs) i a e b h = (h.0, AllApproved-append k xs i a e b h.1)

add_unless-AllApproved :
    (k : Ipaddress) (same : Info → Info → Bool) (b : Bool) (xs : List Info) (i : Info) (a : Ip)
    → i.ip ≡ some a
    → is_blocked k a ≡ false
    → AllApproved k xs
    → AllApproved k (add_unless k same b i xs)
add_unless-AllApproved k same true xs i a e b h = h
add_unless-AllApproved k same false xs i a e b h = AllApproved-append k xs i a e b h

next_entry_lem :
    (k : Ipaddress) (same : Info → Info → Bool) (o : Option Ip) (i : Info) (acc xs : List Info)
    (rest : List Info → Checked (List Info))
    → next_entry k same o i acc rest ≡ passed xs
    → (a : Ip) × (o ≡ some a)
      × (is_blocked k a ≡ false)
      × (rest (add_unless k same (is_listed k same i acc) i acc) ≡ passed xs)
next_entry_lem k same none i acc xs rest e = cc
next_entry_lem k same (some a) i acc xs rest e = elim (Bool-cases (is_blocked k a)) [
  | inl b ↦ let e' = rw b at e in cc
  | inr b ↦ (a, refl, b, rw b at e)
]

passed_lem {ℓ} : {A : Type ℓ} (x y : A) → passed x ≡ passed y → x ≡ y
passed_lem x y e = cc

collect-AllApproved :
    (k : Ipaddress) (same : Info → Info → Bool) (is acc xs : List Info)
    → AllApproved k acc
    → collect k same is acc ≡ passed xs
    → AllApproved k xs
unfolding collect
collect-AllApproved k same [] acc xs h e = subst (AllApproved k) (passed_lem acc xs e) h
collect-AllApproved k same (i ∷ is) acc xs h e =
    let (a, ip, global, later) =
      next_entry_lem k same i.ip i acc xs (λ acc'. collect k same is acc') e in
    collect-AllApproved k same is (add_unless k same (is_listed k same i acc) i acc) xs
      (add_unless-AllApproved k same (is_listed k same i acc) acc i a ip global h) later

nonempty_lem :
    (k : Ipaddress) (same : Info → Info → Bool) (r : Checked (List Info)) (xs : List Info)
    → nonempty k same r ≡ passed xs
    → r ≡ passed xs
nonempty_lem k same (refused e) xs h = cc
nonempty_lem k same (passed []) xs h = cc
nonempty_lem k same (passed (i ∷ is)) xs h = h

-- Every address that is approved passes the test of `_not_global_unicast`.
pub approved-AllApproved :
    (k : Ipaddress) (same : Info → Info → Bool) (r : Resolved) (xs : List Info)
    → approved_addresses k same r ≡ passed xs
    → AllApproved k xs
unfolding approved_addresses
approved-AllApproved k same too_late xs e = cc
approved-AllApproved k same failed xs e = cc
approved-AllApproved k same (infos is) xs e =
    collect-AllApproved k same is [] xs tt (nonempty_lem k same (collect k same is []) xs e)

-- The host of a normalized URL stands under no blocked name.
abbrev pub IsNamed : Urls → Checked Target → Type 0
IsNamed u (refused e) = Unit
IsNamed u (passed t) = blocked_name u.lower t.origin.host ≡ none

module _ (u : Urls) (r : Bool) where
  bounded-IsNamed :
      (t : Target) (o : Option (List ℕ))
      → blocked_name u.lower t.origin.host ≡ none
      → IsNamed u (bounded u r t o)
  bounded-IsNamed t none h = tt
  bounded-IsNamed t (some bs) h = elim (Bool-cases (ltb max_url_bytes (length bs))) [
    | inl y ↦ rw y tt
    | inr n ↦ rw n h
  ]

  unless_blocked-IsNamed :
      (t : Checked Target) (host : Text) (o : Option Text)
      → blocked_name u.lower host ≡ o
      → (blocked_name u.lower host ≡ none → IsNamed u t)
      → IsNamed u (unless_blocked u r o t)
  unless_blocked-IsNamed t host (some name) e h = tt
  unless_blocked-IsNamed t host none e h = h e

  of_host-IsNamed :
      (scheme host : Text) (port : ℕ) (parts : Parts)
      → IsNamed u (of_host u r scheme host port parts)
  of_host-IsNamed scheme host port parts =
      unless_blocked-IsNamed _ host (blocked_name u.lower host) refl (λ h.
        elim (Bool-cases (ends_with (codes ".") host)) [
          | inl y ↦ rw y tt
          | inr n ↦ rw n (
              bounded-IsNamed (joined u r scheme host port parts)
                (u.utf8 (joined u r scheme host port parts).url) h)
        ])

  of_authority-IsNamed :
      (scheme : Text) (host : Option Text) (port : Option (Option ℕ)) (parts : Parts)
      → IsNamed u (of_authority u r scheme host port parts)
  of_authority-IsNamed scheme none port parts = tt
  of_authority-IsNamed scheme (some host) none parts = tt
  of_authority-IsNamed scheme (some host) (some port) parts =
      of_host-IsNamed scheme (u.lower host) (or_default_port scheme port) parts

  of_hostname-IsNamed :
      (scheme : Text) (host : Option Text) (parts : Parts)
      → IsNamed u (of_hostname u r scheme host parts)
  of_hostname-IsNamed scheme none parts = tt
  of_hostname-IsNamed scheme (some []) parts = tt
  of_hostname-IsNamed scheme (some (c ∷ t)) parts =
      of_authority-IsNamed scheme (u.idna (c ∷ t)) parts.port parts

  unless_userinfo-IsNamed :
      (b : Bool) (t : Checked Target) → IsNamed u t → IsNamed u (unless_userinfo u r b t)
  unless_userinfo-IsNamed true t h = tt
  unless_userinfo-IsNamed false t h = h

  of_parts-IsNamed : (o : Option Parts) → IsNamed u (of_parts u r o)
  of_parts-IsNamed none = tt
  of_parts-IsNamed (some parts) =
      elim (Bool-cases
        (text_eq (u.lower parts.scheme) (codes "http") || text_eq (u.lower parts.scheme) https)) [
          | inl y ↦ rw y (
              unless_userinfo-IsNamed parts.userinfo _
                (of_hostname-IsNamed (u.lower parts.scheme) parts.hostname parts))
          | inr n ↦ rw n tt
        ]

  of_bytes-IsNamed : (raw : Text) (o : Option (List ℕ)) → IsNamed u (of_bytes u r raw o)
  of_bytes-IsNamed raw none = tt
  of_bytes-IsNamed raw (some bs) = elim (Bool-cases (ltb max_url_bytes (length bs))) [
    | inl y ↦ rw y tt
    | inr n ↦ elim (Bool-cases (out_of_repertoire bs)) [
      | inl y ↦ rw (n, y) tt
      | inr m ↦ rw (n, m) (of_parts-IsNamed (u.urlsplit raw))
    ]
  ]

  pub normalize_url-IsNamed : (raw : Text) → IsNamed u (normalize_url u r raw)
  unfolding normalize_url
  normalize_url-IsNamed raw = of_bytes-IsNamed raw (u.utf8 raw)
