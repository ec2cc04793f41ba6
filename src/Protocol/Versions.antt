-- ===== src/Protocol/Versions.antt =====
-- `Envelope::to_cbor` and `Envelope::from_cbor` of crates/protocol/src/lib.rs. The encoding itself
-- is ciborium's, a parameter.
use saaios.Prelude.{ℕ, String, ◌≡◌, ◌≢◌, ◌↔◌, List, arith}
use saaios.Crates.{Crates}
use saaios.Protocol.{
  Envelope, Result, ok, err, ProtocolError, unsupported_version, cbor, validate, protocol_version,
}

module _ (C : Crates) where
  -- `ciborium::into_writer` and `ciborium::from_reader`, with the text of their errors.
  pub record Ciborium : Type 0 where
    pub into_writer : Envelope C → Result String (List ℕ)
    pub from_reader : List ℕ → Result String (Envelope C)

  module _ (cib : Ciborium) where
    open cib use {into_writer, from_reader}

    written : Result String (List ℕ) → Result ProtocolError (List ℕ)
    written (ok bytes) = ok bytes
    written (err e) = err (cbor e)

    unfoldable pub to_cbor : Envelope C → Result ProtocolError (List ℕ)
    unfolding validate written
    to_cbor env = elim (validate C env) [ ok _ ↦ written (into_writer env) | err e ↦ err e ]

    checked : Envelope C → Result ProtocolError (Envelope C)
    unfolding validate
    checked env = elim (validate C env) [ ok _ ↦ ok env | err e ↦ err e ]

    unfoldable pub from_cbor : List ℕ → Result ProtocolError (Envelope C)
    unfolding validate checked
    from_cbor bytes = elim (from_reader bytes) [ ok env ↦ checked env | err e ↦ err (cbor e) ]

module _ (C : Crates) (cib : Ciborium C) where
  -- Either direction lets exactly the envelopes of the current version through: an envelope has an
  -- encoding if it is of this version and the encoder gives that encoding, and bytes are decoded as an
  -- envelope if the decoder reads it from them and it is of this version; and in no other case.
  pub cbor_iff :
      (env : Envelope C) (bytes : List ℕ)
      → ((to_cbor C cib env ≡ ok bytes)
          ↔ ((env.v ≡ protocol_version) × (cib.into_writer env ≡ ok bytes)))
        × ((from_cbor C cib bytes ≡ ok env)
            ↔ ((env.v ≡ protocol_version) × (cib.from_reader bytes ≡ ok env)))
  unfolding to_cbor from_cbor validate written checked
  cbor_iff env bytes =
      ((λ h. ground arith, λ h. ground arith), (λ h. ground arith, λ h. ground arith))

  -- An envelope of another version is neither encoded nor accepted from the bytes of any encoder.
  pub other_versions :
      (env : Envelope C) (bytes : List ℕ)
      → env.v ≢ protocol_version
      → (to_cbor C cib env ≡ err (unsupported_version env.v))
        × (cib.from_reader bytes ≡ ok env → from_cbor C cib bytes ≡ err (unsupported_version env.v))
  unfolding to_cbor from_cbor validate written checked
  other_versions env bytes n = (ground arith, λ e. ground arith)
