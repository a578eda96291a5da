-- ===== src/Protocol/Payload/Identity/Exact.antt =====
-- crates/crosspuck-core/src/protocol/payload.rs: the identity of a device on the wire.
use crosspuck.Base.{
  ◌≡◌, ℕ, ◌<◌, ◌≤◌, ◌↔◌, [], ◌∷◌, ◌++◌, append_assoc, append-nil, arith, length, All, false, not,
  ◌||◌, ltb, ◌==◌, lt→ltb, Bytes, AreBytes, IsU16, IsUsize, to_le_bytes, String,
}
use crosspuck.Base.Result.{ok}
use crosspuck.Protocol.Codec.Encoder
use crosspuck.Protocol.Codec.Encoder.{Encoding}
use crosspuck.Protocol.Codec.Decoder
use crosspuck.Protocol.Codec.Decoder.{Decoding}
use crosspuck.Protocol.Codec.Reads.{
  Reads, Ends-bind, Ends-last, Ends-finish, Ends-else, Reads-u8, Reads-u16, Reads-string,
}
use crosspuck.Protocol.Codec.Parses.{Parses-u8, Parses-u16, Parses-string, IsText}
use crosspuck.Protocol.Codec.Whole.{All-bind, All-finish, All-else}
use crosspuck.Protocol.Codec.Wire.{to_bytes, exact}
use crosspuck.Protocol.Payload.Identity.{IdentityPayload, encode_identity, decode_identity}
use crosspuck.Protocol.Payload.Identity.Collections.{
  CollectionIsValid, collections_layout, collections_written, Reads-collections, Parses-collections,
}

pub record IdentityIsValid (p : IdentityPayload) : Type 0 where
  pub vendor_fits : IsU16 p.vendor_id
  pub product_fits : IsU16 p.product_id
  pub version_fits : IsU16 p.version_number
  pub manufacturer_text : IsText p.manufacturer
  pub product_text : IsText p.product
  pub serial_text : IsText p.serial
  pub some_collection : 0 < length p.collections
  pub few_collections : length p.collections ≤ 16
  pub collections_valid : All CollectionIsValid p.collections

abbrev string_layout : Bytes → Bytes
string_layout text = to_le_bytes 2 (length text) ++ text

abbrev layout : IdentityPayload → Bytes
layout p =
    to_le_bytes 2 p.vendor_id
    ++ (to_le_bytes 2 p.product_id
        ++ (to_le_bytes 2 p.version_number
            ++ (string_layout p.manufacturer
                ++ (string_layout p.product
                    ++ (string_layout p.serial
                        ++ ((length p.collections ∷ []) ++ collections_layout p.collections))))))

Reads-text :
    (field : String) {text : Bytes}
    → IsText text
    → Reads (Decoder.string field) (string_layout text) text
Reads-text field t = Reads-string field _ t.short t.utf8

string_written :
    (text out : Bytes) → IsText text → Encoder.string text out ≡ (ok tt, out ++ string_layout text)
unfolding Encoder.string Encoder.u16 Encoder.bytes
string_written text out t = rw (lt→ltb (length text) 65536 t.short) (simp append_assoc)

count_ok : (n : ℕ) → 0 < n → n ≤ 16 → (not (ltb n 256) || (n == 0 || ltb 16 n)) ≡ false
count_ok n h k = ground arith

written : (p : IdentityPayload) → IdentityIsValid p → to_bytes (encode_identity p) ≡ ok (layout p)
unfolding encode_identity Encoder.u8 Encoder.u16
written p v = rw (count_ok (length p.collections) v.some_collection v.few_collections) (
    rw (string_written p.manufacturer _ v.manufacturer_text) (
      rw (string_written p.product _ v.product_text) (
        rw (string_written p.serial _ v.serial_text) (rw collections_written (simp append_assoc)))))

count_accepted : (n : ℕ) → 0 < n → n ≤ 16 → (n == 0 || ltb 16 n) ≡ false
count_accepted n h k = ground arith

count_inv : (n : ℕ) → (n == 0 || ltb 16 n) ≡ false → (0 < n) × (n ≤ 16)
count_inv n e = ground arith

-- `IdentityPayload::decode` accepts exactly the encodings of the identities whose numbers fit their
-- widths, whose texts are UTF-8 of at most 65535 bytes, and which have 1 to 16 collections.
pub decode_identity_iff :
    (p : IdentityPayload) (input : Bytes)
    → AreBytes input
    → IsUsize (length input)
    → (decode_identity input ≡ ok p)
      ↔ (IdentityIsValid p × (to_bytes (encode_identity p) ≡ ok input))
unfolding decode_identity
decode_identity_iff =
    exact layout encode_identity _ written
      (λ p v. Ends-bind _ _ (Reads-u16 _ _ v.vendor_fits) (
        Ends-bind _ _ (Reads-u16 _ _ v.product_fits) (
          Ends-bind _ _ (Reads-u16 _ _ v.version_fits) (
            Ends-bind _ _ (Reads-text _ v.manufacturer_text) (
              Ends-bind _ _ (Reads-text _ v.product_text) (
                Ends-bind _ _ (Reads-text _ v.serial_text) (
                  Ends-bind _ _ (Reads-u8 _ _) (
                    Ends-else _ _ (count_accepted _ v.some_collection v.few_collections) (
                      Ends-last _ _ (Reads-collections p.collections v.collections_valid)
                        (Ends-finish p))))))))))
      (All-bind _ _ (Parses-u16 _) λ vendor b1 p1. All-bind _ _ (Parses-u16 _) λ product b2 p2.
        All-bind _ _ (Parses-u16 _) λ version b3 p3.
          All-bind _ _ (Parses-string _) λ manufacturer b4 p4.
            All-bind _ _ (Parses-string _) λ name b5 p5.
              All-bind _ _ (Parses-string _) λ serial b6 p6.
                All-bind _ _ (Parses-u8 _) λ count b7 p7. All-else _ _ _ λ few.
                  All-bind _ _ (Parses-collections count) λ cs b8 p8. All-finish _ (
                    record {
                      vendor_fits = p1.0;
                      product_fits = p2.0;
                      version_fits = p3.0;
                      manufacturer_text = p4.0;
                      product_text = p5.0;
                      serial_text = p6.0;
                      some_collection = rw p8.1 (count_inv count few).0;
                      few_collections = rw p8.1 (count_inv count few).1;
                      collections_valid = p8.0;
                    },
                    simp (
                      p1.1, p2.1, p3.1, p4.1, p5.1, p6.1, p7.1, p8.2, p8.1, append-nil,
                      append_assoc,
                    ),
                  ))
