-- ===== src/Bus/Accepts.antt =====
-- `validate_envelope` accepts exactly the envelopes of the contract.
use yugo.Base.{ℕ, ◌≤◌, Text, ◌≡◌, refl, true, none, some, List, length, arith}
use yugo.Json.{Value, Dict, str, obj, put}
use yugo.Bus.Platform.{Platform, encoded_json}
use yugo.Bus.Envelope.{
  accepted, validate_envelope, allowed_from, validate_from, validate_size, validate_baton_fields,
}
use yugo.Bus.Valid.{IsEnvelope, checks, baton_ok_iff, IsEnvelope-of_checks, checks_of_IsEnvelope}

module _ (p : Platform) (allowed : List Text) (max_bytes : ℕ) where
  checks_pass :
      (d : Dict) (d' : Dict)
      → validate_envelope p allowed (obj d) max_bytes ≡ accepted d'
      → (checks p allowed d ≡ true) × (validate_from p allowed max_bytes d ≡ accepted d')
  unfolding validate_envelope
  checks_pass d d' h = ground arith

  from_passes :
      (d : Dict) (d' : Dict)
      → validate_from p allowed max_bytes d ≡ accepted d'
      → (n : Text) × (allowed_from p allowed d ≡ some n)
        × (validate_size p allowed max_bytes n d ≡ accepted d')
  unfolding validate_from
  from_passes d d' h = ground arith

  size_passes :
      (n : Text) (d : Dict) (d' : Dict)
      → validate_size p allowed max_bytes n d ≡ accepted d'
      → (b : Text) × (encoded_json p (obj d) ≡ some b)
        × (length b ≤ max_bytes)
        × (validate_baton_fields p allowed d ≡ none)
        × (d' ≡ put "from" (str n) d)
  unfolding validate_size
  size_passes n d d' h = ground arith

  -- An accepted value is an object of the contract, from a bot of the allowlist; and it comes back
  -- with the sender's name in its canonical form and nothing else changed.
  pub validate_sound :
      (v : Value) (d' : Dict)
      → validate_envelope p allowed v max_bytes ≡ accepted d'
      → (d : Dict) × (v ≡ obj d)
        × (n : Text) × (allowed_from p allowed d ≡ some n)
        × IsEnvelope p allowed max_bytes d
        × (d' ≡ put "from" (str n) d)
  validate_sound (obj d) d' h =
      let (pass, rest) = checks_pass d d' h in
      let (n, from, rest') = from_passes d d' rest in
      let (b, encoded, fits, baton, out) = size_passes n d d' rest' in
      (
        d,
        refl,
        n,
        from,
        IsEnvelope-of_checks p allowed max_bytes d b pass encoded fits
            ((baton_ok_iff p allowed d).0 baton),
        out,
      )
  validate_sound v d' h = unfold validate_envelope in cc

  -- Every object of the contract from a bot of the allowlist is accepted.
  pub validate_complete :
      (d : Dict) (n : Text)
      → allowed_from p allowed d ≡ some n
      → IsEnvelope p allowed max_bytes d
      → validate_envelope p allowed (obj d) max_bytes ≡ accepted (put "from" (str n) d)
  unfolding validate_envelope validate_from validate_size
  validate_complete d n f v =
      let (c, b) = checks_of_IsEnvelope p allowed max_bytes d v in
      ground (arith, f, v.encoded.1, v.encoded.2, (baton_ok_iff p allowed d).1 b)
