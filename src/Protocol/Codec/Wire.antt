-- ===== src/Protocol/Codec/Wire.antt =====
-- crates/crosspuck-core/src/protocol/codec.rs: `WireEncode::to_bytes`, the interface of a payload,
-- and what makes a decoder the exact inverse of an encoder.
use crosspuck.Base.{◌≡◌, sym, ap, ◌∙◌, subst, ◌↔◌, [], Bytes, AreBytes, IsUsize, length}
use crosspuck.Base.Result.{Result, ok, err}
use crosspuck.Protocol.Frame.{MessageType}
use crosspuck.Protocol.Codec.Error.{ProtocolError}
use crosspuck.Protocol.Codec.Encoder.{Encoding}
use crosspuck.Protocol.Codec.Decoder
use crosspuck.Protocol.Codec.Decoder.{Decoding}
use crosspuck.Protocol.Codec.Reads.{Ends, run-Ends}
use crosspuck.Protocol.Codec.Whole.{run-ParsesAll, ParsesAll}

-- `WireEncode`, `WireDecode` and `WirePayload`
pub record WirePayload (A : Type 0) : Type 0 where
  pub message_type : MessageType
  pub encode : A → Encoding
  pub decode : Bytes → Result ProtocolError A

abbrev sent : Result ProtocolError (Unit {0}) × Bytes → Result ProtocolError Bytes
sent (ok _, out) = ok out
sent (err e, out) = err e

-- `WireEncode::to_bytes`: on an error the buffer is dropped.
abbrev pub to_bytes : Encoding → Result ProtocolError Bytes
to_bytes encode = sent (encode [])

-- A layout that the encoder writes, and that the fields of the decoder read, makes the two inverse.
pub exact :
    {A : Type 0} {Valid : A → Type 0} (layout : A → Bytes) (encode : A → Encoding) (m : Decoding A)
    → ((v : A) → Valid v → to_bytes (encode v) ≡ ok (layout v))
    → ((v : A) → Valid v → Ends m (layout v) v)
    → ParsesAll m (λ v bs. Valid v × (bs ≡ layout v))
    → (v : A) (input : Bytes) → AreBytes input
    → IsUsize (length input)
    → (Decoder.run m input ≡ ok v) ↔ (Valid v × (to_bytes (encode v) ≡ ok input))
exact {Valid = Valid} layout encode m written ends parses v input bytes h = (there, back)
  where
    there : Decoder.run m input ≡ ok v → Valid v × (to_bytes (encode v) ≡ ok input)
    there e =
        let (valid, same) = run-ParsesAll m input v parses bytes h e in
        (valid, written v valid ∙ ap ok (sym same))

    back : Valid v × (to_bytes (encode v) ≡ ok input) → Decoder.run m input ≡ ok v
    back (valid, e) =
        let same : layout v ≡ input = cc (written v valid, e) in
        run-Ends m input v (subst (λ bs. Ends m bs v) same (ends v valid)) h
