-- ===== src/Http/Loading.antt =====
-- What `load_credentials` of yugo/http_tools.py lets through.
use mathlib.Core.List.{append_assoc, append-nil}
use yugo.Base.{
  Text, text_eq, ◌≡◌, inl, inr, refl, sym, subst, Bool, true, false, not, ◌||◌, Option, none, some,
  List, [], ◌∷◌, ◌++◌, if◌then◌else◌, arith, Bool-cases,
}
use yugo.Json.{Value, null, bool, int, float, str, arr, obj, Items, nil, cons, get, lookup}
use yugo.Http.Origin.{Origin, origin_eq, origin_eq_refl, https, Credential, blocked_name}
use yugo.Http.Authority.{is_header_token, is_field_value, parse_authority}
use yugo.Http.Credentials.{
  Loaded, rejected, loaded, CredentialConfigError, refuse_if, has_id, has_origin, is_within,
  nonempty_text, of_origin, of_texts, of_item, and_next, load_entries, of_list, of_document,
  of_parsed, File, missing, present, load_credentials,
}
use yugo.Http.Hosts.{IsHost, parse_authority-IsHost}
use yugo.Http.Chain.{find_credential}

refuse_if_lem {ℓ} :
    {A : Type ℓ} (b : Bool) (x : CredentialConfigError) (r : Loaded A) (c : A)
    → refuse_if b x r ≡ loaded c
    → (b ≡ false) × (r ≡ loaded c)
refuse_if_lem true x r c e = cc
refuse_if_lem false x r c e = (refl, e)

loaded_lem : (a b : Credential) → loaded a ≡ loaded b → a ≡ b
loaded_lem a b e = cc

list_lem : (a b : List Credential) → loaded a ≡ loaded b → a ≡ b
list_lem a b e = cc

module _ (lower : Text → Text) (is_ip : Text → Bool) where
  -- A credential on its own: its origin is an https origin under no blocked name, its header is a
  -- token, its id and its value are HTTP field values, and the id does not show the value.
  abbrev pub IsSound : Credential → Type 0
  IsSound c =
      (c.origin.scheme ≡ https)
      × (blocked_name lower c.origin.host ≡ none)
      × (is_header_token c.header ≡ true)
      × (is_field_value c.id ≡ true)
      × (is_field_value c.secret ≡ true)
      × (is_within c.secret c.id ≡ false)

  -- And after those in `acc`: neither its origin nor its id is taken.
  abbrev pub IsNew : List Credential → Credential → Type 0
  IsNew acc c = IsSound c × (has_origin c.origin acc ≡ false) × (has_id c.id acc ≡ false)

  of_origin-IsNew :
      (o : Option Origin) (cid header secret : Text) (acc : List Credential) (c : Credential)
      → IsHost lower is_ip o
      → is_header_token header ≡ true
      → is_field_value cid ≡ true
      → is_field_value secret ≡ true
      → is_within secret cid ≡ false
      → has_id cid acc ≡ false
      → of_origin (parse_authority lower is_ip) cid header secret acc o ≡ loaded c
      → IsNew acc c
  of_origin-IsNew none cid header secret acc c h t i s w d e = cc
  of_origin-IsNew (some o) cid header secret acc c h t i s w d e =
      elim (Bool-cases (has_origin o acc)) [
        | inl y ↦ let e' = rw y at e in cc
        | inr n ↦ subst (IsNew acc) (loaded_lem _ c (rw n at e)) ((h.0, h.1, t, i, s, w), n, d)
      ]

  of_texts-IsNew :
      (cid host header secret : Option Text) (acc : List Credential) (c : Credential)
      → of_texts (parse_authority lower is_ip) cid host header secret acc ≡ loaded c
      → IsNew acc c
  of_texts-IsNew none host header secret acc c e = cc
  of_texts-IsNew (some i) none header secret acc c e = cc
  of_texts-IsNew (some i) (some h) none secret acc c e = cc
  of_texts-IsNew (some i) (some h) (some t) none acc c e = cc
  of_texts-IsNew (some i) (some h) (some t) (some s) acc c e =
      let (field, a) = refuse_if_lem (not (is_field_value i)) _ _ c e in
      let (hidden, b) = refuse_if_lem (text_eq i s || is_within s i) _ _ c a in
      let (fresh, d) = refuse_if_lem (has_id i acc) _ _ c b in
      let (token, f) = refuse_if_lem (not (is_header_token t)) _ _ c d in
      let (fit, g) = refuse_if_lem (not (is_field_value s)) _ _ c f in
      of_origin-IsNew (parse_authority lower is_ip h) i t s acc c
        (parse_authority-IsHost lower is_ip h) (ground arith) (ground arith) (ground arith)
        (ground arith) fresh g

  if_loaded {ℓ} :
      {A : Type ℓ} (b : Bool) (x : CredentialConfigError) (r : Loaded A) (c : A)
      → (if b then r else rejected x) ≡ loaded c
      → r ≡ loaded c
  if_loaded true x r c e = e
  if_loaded false x r c e = cc

  of_item-IsNew :
      (v : Value) (acc : List Credential) (c : Credential)
      → of_item (parse_authority lower is_ip) v acc ≡ loaded c
      → IsNew acc c
  of_item-IsNew (obj d) acc c e =
      of_texts-IsNew (nonempty_text (get "id" d)) (nonempty_text (get "host" d))
        (nonempty_text (get "header" d)) (nonempty_text (get "value" d)) acc c (if_loaded _ _ _ c e)
  of_item-IsNew null acc c e = cc
  of_item-IsNew (bool b) acc c e = cc
  of_item-IsNew (int n) acc c e = cc
  of_item-IsNew (float t) acc c e = cc
  of_item-IsNew (str t) acc c e = cc
  of_item-IsNew (arr vs) acc c e = cc

  -- Each credential of the list is new after those in `acc` and those before it.
  abbrev pub AllNew : List Credential → List Credential → Type 0
  AllNew acc [] = Unit
  AllNew acc (c ∷ cs) = IsNew acc c × AllNew (acc ++ (c ∷ [])) cs

  AllNew-append :
      (acc cs : List Credential) (c : Credential)
      → AllNew acc cs
      → IsNew (acc ++ cs) c
      → AllNew acc (cs ++ (c ∷ []))
  AllNew-append acc [] c h n = (subst (λ l. IsNew l c) (append-nil acc) n, tt)
  AllNew-append acc (x ∷ cs) c h n = (
    h.0,
    AllNew-append (acc ++ (x ∷ [])) cs c h.1
        (subst (λ l. IsNew l c) (sym (append_assoc acc (x ∷ []) cs)) n),
  )

  and_next-cases :
      (r : Loaded Credential) (acc cs : List Credential)
      (rest : List Credential → Loaded (List Credential))
      → and_next (parse_authority lower is_ip) r acc rest ≡ loaded cs
      → (c : Credential) × (r ≡ loaded c) × (rest (acc ++ (c ∷ [])) ≡ loaded cs)
  and_next-cases (rejected x) acc cs rest e = cc
  and_next-cases (loaded c) acc cs rest e = (c, refl, e)

  load_entries-AllNew :
      (vs : Items) (acc cs : List Credential)
      → AllNew [] acc
      → load_entries (parse_authority lower is_ip) vs acc ≡ loaded cs
      → AllNew [] cs
  unfolding load_entries
  load_entries-AllNew nil acc cs h e = subst (AllNew []) (list_lem acc cs e) h
  load_entries-AllNew (cons v vs) acc cs h e =
      let (c, item, later) =
        and_next-cases (of_item (parse_authority lower is_ip) v acc) acc cs _ e in
      load_entries-AllNew vs (acc ++ (c ∷ [])) cs
        (AllNew-append [] acc c h (of_item-IsNew v acc c item)) later

  of_list-AllNew :
      (o : Option Value) (cs : List Credential)
      → of_list (parse_authority lower is_ip) o ≡ loaded cs
      → AllNew [] cs
  of_list-AllNew none cs e = subst (AllNew []) (list_lem [] cs e) tt
  of_list-AllNew (some (arr vs)) cs e = load_entries-AllNew vs [] cs tt e
  of_list-AllNew (some null) cs e = cc
  of_list-AllNew (some (bool b)) cs e = cc
  of_list-AllNew (some (int n)) cs e = cc
  of_list-AllNew (some (float t)) cs e = cc
  of_list-AllNew (some (str t)) cs e = cc
  of_list-AllNew (some (obj d)) cs e = cc

  of_document-AllNew :
      (v : Value) (cs : List Credential)
      → of_document (parse_authority lower is_ip) v ≡ loaded cs
      → AllNew [] cs
  of_document-AllNew (obj d) cs e =
      let (keys, a) = refuse_if_lem _ _ _ cs e in
      of_list-AllNew (lookup "credentials" d) cs (if_loaded _ _ _ cs a)
  of_document-AllNew null cs e = cc
  of_document-AllNew (bool b) cs e = cc
  of_document-AllNew (int n) cs e = cc
  of_document-AllNew (float t) cs e = cc
  of_document-AllNew (str t) cs e = cc
  of_document-AllNew (arr vs) cs e = cc

  of_parsed-AllNew :
      (r : Loaded Value) (cs : List Credential)
      → of_parsed (parse_authority lower is_ip) r ≡ loaded cs
      → AllNew [] cs
  of_parsed-AllNew (rejected x) cs e = cc
  of_parsed-AllNew (loaded v) cs e = of_document-AllNew v cs e

  load_credentials-AllNew :
      (f : File) (cs : List Credential)
      → load_credentials (parse_authority lower is_ip) f ≡ loaded cs
      → AllNew [] cs
  unfolding load_credentials
  load_credentials-AllNew missing cs e = subst (AllNew []) (list_lem [] cs e) tt
  load_credentials-AllNew (present mode r) cs e = of_parsed-AllNew r cs (refuse_if_lem _ _ _ cs e).1

  AllNew-split :
      (acc xs ys : List Credential) (c : Credential)
      → AllNew acc (xs ++ (c ∷ ys))
      → IsNew (acc ++ xs) c
  AllNew-split acc [] ys c h = subst (λ l. IsNew l c) (sym (append-nil acc)) h.0
  AllNew-split acc (x ∷ xs) ys c h =
      subst (λ l. IsNew l c) (append_assoc acc (x ∷ []) xs)
        (AllNew-split (acc ++ (x ∷ [])) xs ys c h.1)

  find_credential-first :
      (xs ys : List Credential) (c : Credential)
      → has_origin c.origin xs ≡ false
      → find_credential c.origin (xs ++ (c ∷ ys)) ≡ some c
  unfolding find_credential has_origin
  find_credential-first [] ys c h = rw (origin_eq_refl c.origin) refl
  find_credential-first (x ∷ xs) ys c h = elim (Bool-cases (origin_eq x.origin c.origin)) [
    | inl y ↦ let h' = rw y at h in cc
    | inr n ↦ rw n (find_credential-first xs ys c (rw n at h))
  ]

  -- Of a file that loads, wherever a credential stands in it: its origin is an https origin under no
  -- blocked name, its header is a token, its id and its value are HTTP field values and the id does
  -- not show the value; no credential before it has its id; and `http_get`, looking for the
  -- credential of its origin, finds this one and no other.
  pub load_credentials-IsSound :
      (f : File) (xs ys : List Credential) (c : Credential)
      → load_credentials (parse_authority lower is_ip) f ≡ loaded (xs ++ (c ∷ ys))
      → IsSound c × (has_id c.id xs ≡ false) × (find_credential c.origin (xs ++ (c ∷ ys)) ≡ some c)
  load_credentials-IsSound f xs ys c e =
      let (sound, apart, fresh) =
        AllNew-split [] xs ys c (load_credentials-AllNew f (xs ++ (c ∷ ys)) e) in
      (sound, fresh, find_credential-first xs ys c apart)
