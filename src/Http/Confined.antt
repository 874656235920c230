-- ===== src/Http/Confined.antt =====
-- Where the requests of a chain of redirects go, and what they carry, in yugo/http_tools.py.
use yugo.Base.{
  ℕ, Text, text_eq, text_eq_iff, ◌≡◌, inl, inr, refl, ap, sym, ◌∙◌, subst, Bool, true, false, ◌&&◌,
  Option, none, some, List, [], ◌∷◌, arith, Bool-cases,
}
use yugo.Http.Origin.{Origin, origin_eq, origin_eq_sound, https, Credential, blocked_name}
use yugo.Http.Url.{Urls, Target}
use yugo.Http.Address.{Ipaddress, Info}
use yugo.Http.Destination.{AllApproved}
use yugo.Http.Chain.{
  Sent, Hop, find_credential, is_selected, select, select_if, pick, redirect_if, attached, send,
  leaves, redirect,
}

-- The credential that a request to `o` carries is the one that is listed for `o`, an https origin.
abbrev pub Fits : List Credential → Option Credential → Origin → Type 0
Fits credentials none o = Unit
Fits credentials (some c) o =
    (find_credential o credentials ≡ some c) × (c.origin ≡ o) × (o.scheme ≡ https)

-- Each of the requests carried `c`.
abbrev pub AllCarry : Credential → Sent → Type 0
AllCarry c [] = Unit
AllCarry c (r ∷ tr) = (r.credential ≡ some c) × AllCarry c tr

-- If this request carries a credential, all before it carried it too.
abbrev pub Continues : Option Credential → Sent → Type 0
Continues none tr = Unit
Continues (some c) tr = AllCarry c tr

some_lem : (a b : Credential) → some a ≡ some b → a ≡ b
some_lem a b e = cc

redirect_if-sent :
    (b : Bool) (decimal : ℕ → Text) (t : Target) (h : Hop)
    → (redirect_if b decimal t h).sent ≡ h.sent
redirect_if-sent true decimal t h = refl
redirect_if-sent false decimal t h = refl

module _ (u : Urls) (k : Ipaddress) (credentials : List Credential) where
  -- Of each request: its addresses are approved, its host is under no blocked name, and its
  -- credential is that of its origin and was never dropped before.
  abbrev pub IsConfined : Sent → Type 0
  IsConfined [] = Unit
  IsConfined (r ∷ tr) =
      (AllApproved k r.addresses
        × (blocked_name u.lower r.target.origin.host ≡ none)
        × Fits credentials r.credential r.target.origin
        × Continues r.credential tr)
      × IsConfined tr

  -- What the loop may attach next.
  abbrev pub Attachable : Bool → Option Credential → Origin → Sent → Type 0
  Attachable b c o tr = Fits credentials (attached b c) o × Continues (attached b c) tr

  abbrev pub Fresh : Bool → Sent → Type 0
  Fresh true tr = tr ≡ []
  Fresh false tr = Unit

  abbrev pub Invariant : Hop → Type 0
  Invariant h =
      IsConfined h.sent
      × (blocked_name u.lower h.target.origin.host ≡ none)
      × Attachable h.forwarding h.selected h.target.origin h.sent
      × Fresh h.first_hop h.sent

  find_credential-Fits :
      (o : Origin) (cs : List Credential)
      → (c : Credential) → find_credential o cs ≡ some c
      → c.origin ≡ o
  unfolding find_credential
  find_credential-Fits o [] c e = cc
  find_credential-Fits o (d ∷ cs) c e = elim (Bool-cases (origin_eq d.origin o)) [
    | inl y ↦
        let e' = rw y at e in
        ap (λ x. x.origin) (sym (some_lem d c e')) ∙ origin_eq_sound d.origin o y
    | inr n ↦ find_credential-Fits o cs c (rw n at e)
  ]

  attached-Fits :
      (o : Origin) (c : Option Credential)
      → o.scheme ≡ https
      → find_credential o credentials ≡ c
      → Fits credentials (attached (is_selected c) c) o
  attached-Fits o none s e = tt
  attached-Fits o (some c) s e = (e, find_credential-Fits o credentials c e, s)

  attached-Continues :
      (c : Option Credential) (tr : Sent) → tr ≡ [] → Continues (attached (is_selected c) c) tr
  attached-Continues none tr e = tt
  attached-Continues (some c) tr e = rw e tt

  send-Confined :
      (addresses : List Info) (h : Hop)
      → Invariant h
      → AllApproved k addresses
      → IsConfined (send addresses h).sent
  send-Confined addresses h i a = ((a, i.1, i.2.0, i.2.1), i.0)

  pick-Attachable :
      (b : Bool) (o : Origin) (tr : Sent)
      → text_eq o.scheme https ≡ b
      → tr ≡ []
      → Attachable (is_selected (pick b o credentials)) (pick b o credentials) o tr
  pick-Attachable false o tr e h = (tt, tt)
  pick-Attachable true o tr e h = (
    attached-Fits o (find_credential o credentials) ((text_eq_iff o.scheme https).0 e) refl,
    attached-Continues (find_credential o credentials) tr h,
  )

  select_if-Invariant :
      (b : Bool) (h : Hop)
      → h.first_hop ≡ b
      → Invariant h
      → Invariant (select_if b credentials h) × ((select_if b credentials h).first_hop ≡ false)
  select_if-Invariant false h e i = (i, e)
  select_if-Invariant true h e (sent, named, ok, fresh) = (
    (
      sent,
      named,
      pick-Attachable (text_eq h.target.origin.scheme https) h.target.origin h.sent refl
          (rw e at fresh),
      tt,
    ),
    refl,
  )

  pub select-Invariant :
      (h : Hop)
      → Invariant h
      → Invariant (select credentials h) × ((select credentials h).first_hop ≡ false)
  unfolding select
  select-Invariant h i = select_if-Invariant h.first_hop h refl i

  Continues-cons :
      (c : Option Credential) (t : Target) (a : List Info) (tr : Sent)
      → Continues c tr
      → Continues c (record { target = t; addresses = a; credential = c } ∷ tr)
  Continues-cons none t a tr h = tt
  Continues-cons (some c) t a tr h = (refl, h)

  pub send-Invariant :
      (addresses : List Info) (h : Hop)
      → Invariant h
      → h.first_hop ≡ false
      → AllApproved k addresses
      → Invariant (send addresses h)
  send-Invariant addresses h i e a = (
    send-Confined addresses h i a,
    i.1,
    (i.2.0, Continues-cons (attached h.forwarding h.selected) h.target addresses h.sent i.2.1),
    rw e tt,
  )

  -- A credential that is kept over a redirect is that of the same origin.
  stays-Attachable :
      (b : Bool) (s : Option Credential) (o o' : Origin) (tr : Sent)
      → (b && leaves s o') ≡ false
      → Attachable b s o tr
      → Attachable b s o' tr
  stays-Attachable false s o o' tr e h = (tt, tt)
  stays-Attachable true none o o' tr e h = (tt, tt)
  stays-Attachable true (some c) o o' tr e h =
      let same = origin_eq_sound o' c.origin (ground arith) ∙ h.0.1 in
      (subst (λ x. Fits credentials (some c) x) (sym same) h.0, h.1)

  redirect_if-Invariant :
      (b : Bool) (decimal : ℕ → Text) (t : Target) (h : Hop)
      → (h.forwarding && leaves h.selected t.origin) ≡ b
      → blocked_name u.lower t.origin.host ≡ none
      → Invariant h
      → Invariant (redirect_if b decimal t h)
  redirect_if-Invariant true decimal t h e n (sent, named, ok, fresh) = (sent, n, (tt, tt), fresh)
  redirect_if-Invariant false decimal t h e n (sent, named, ok, fresh) = (
    sent,
    n,
    stays-Attachable h.forwarding h.selected h.target.origin t.origin h.sent e ok,
    fresh,
  )

  pub redirect-Invariant :
      (decimal : ℕ → Text) (t : Target) (h : Hop)
      → blocked_name u.lower t.origin.host ≡ none
      → Invariant h
      → Invariant (redirect decimal t h)
  unfolding redirect
  redirect-Invariant decimal t h n i =
      redirect_if-Invariant (h.forwarding && leaves h.selected t.origin) decimal t h refl n i

pub redirect-sent :
    (decimal : ℕ → Text) (t : Target) (h : Hop) → (redirect decimal t h).sent ≡ h.sent
unfolding redirect
redirect-sent decimal t h =
    redirect_if-sent (h.forwarding && leaves h.selected t.origin) decimal t h

select_if-sent :
    (b : Bool) (credentials : List Credential) (h : Hop) → (select_if b credentials h).sent ≡ h.sent
select_if-sent true credentials h = refl
select_if-sent false credentials h = refl

pub select-sent : (credentials : List Credential) (h : Hop) → (select credentials h).sent ≡ h.sent
unfolding select
select-sent credentials h = select_if-sent h.first_hop credentials h
