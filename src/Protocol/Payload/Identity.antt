-- ===== src/Protocol/Payload/Identity.antt =====
-- crates/crosspuck-core/src/protocol/payload.rs: `CollectionDescriptor` and `IdentityPayload`.
-- A `String` is its bytes.
pub mod Collections
pub mod Exact
use crosspuck.Base.{
  zero, suc, Option, none, some, get_elem?, ◌≡◌, refl, ℕ, ◌+◌, ◌<◌, ◌≤◌, ◌↔◌, List, [], ◌∷◌, ◌++◌,
  append_assoc, append-nil, arith, length, All, Bool, true, false, not, ◌||◌, ltb, ◌==◌, lt→ltb,
  if◌then◌else◌, Bytes, AreBytes, IsU8, IsU16, IsU32, IsU64, IsUsize, to_le_bytes, String, sym,
  subst,
}
use crosspuck.Base.Result.{Result, ok, err}
use crosspuck.Base.Action.{pure, raise, lift, ◌>>=◌, ◌>>◌}
use crosspuck.Protocol.Frame
use crosspuck.Protocol.Status.{
  StatusCode, to_u16, to_u16-IsU16, status_of_u16-to_u16, to_u16-status_of_u16,
}
use crosspuck.Protocol.Codec.Error.{ProtocolError, invalid_length, decode_status}
use crosspuck.Protocol.Codec.Encoder
use crosspuck.Protocol.Codec.Encoder.{Encoding}
use crosspuck.Protocol.Codec.Decoder
use crosspuck.Protocol.Codec.Decoder.{Decoding}
use crosspuck.Protocol.Codec.Reads.{
  Reads, Ends, Reads-bind, Reads-last, Reads-pure, Reads-lift, Ends-bind, Ends-last, Ends-finish,
  Reads-u8, Reads-u16, Reads-u32, Reads-u64, Reads-bytes, Reads-string, Reads-reserved_u8,
  Reads-reserved_u16, Reads-status,
}
use crosspuck.Protocol.Codec.Parses.{
  Parses, Parses-bind, Parses-pure, Parses-lift, Parses-if, Parses-raise, Parses-u8, Parses-u16,
  Parses-u32, Parses-u64, Parses-bytes, Parses-string, IsText, Parses-reserved_u8,
  Parses-reserved_u16, Parses-status,
}
use crosspuck.Protocol.Codec.Whole.{All-bind, All-finish, ParsesAll}
use crosspuck.Protocol.Codec.Wire.{WirePayload, to_bytes, exact}
use mathlib.Core.List.{head?}
use crosspuck.Protocol.Payload.Role.{CollectionRole, puck_main, role_id, role_of_u8}

pub record CollectionDescriptor : Type 0 where
  pub role : CollectionRole
  pub interface_number : ℕ
  pub usage_page : ℕ
  pub usage : ℕ
  pub input_report_len : ℕ
  pub output_report_len : ℕ
  pub feature_report_len : ℕ

unfoldable pub encode_collection : CollectionDescriptor → Encoding
encode_collection c = do
  Encoder.u8 (role_id c.role)
  Encoder.u8 c.interface_number
  Encoder.u16 c.usage_page
  Encoder.u16 c.usage
  Encoder.u16 c.input_report_len
  Encoder.u16 c.output_report_len
  Encoder.u16 c.feature_report_len

unfoldable pub decode_collection : Decoding CollectionDescriptor
decode_collection = do
  role_byte ← Decoder.u8 "collection.role"
  role ← lift (role_of_u8 role_byte)
  interface_number ← Decoder.u8 "collection.interface_number"
  usage_page ← Decoder.u16 "collection.usage_page"
  usage ← Decoder.u16 "collection.usage"
  input_report_len ← Decoder.u16 "collection.input_report_len"
  output_report_len ← Decoder.u16 "collection.output_report_len"
  feature_report_len ← Decoder.u16 "collection.feature_report_len"
  pure (record {
    role = role;
    interface_number = interface_number;
    usage_page = usage_page;
    usage = usage;
    input_report_len = input_report_len;
    output_report_len = output_report_len;
    feature_report_len = feature_report_len;
  })

pub record IdentityPayload : Type 0 where
  pub vendor_id : ℕ
  pub product_id : ℕ
  pub version_number : ℕ
  pub manufacturer : Bytes
  pub product : Bytes
  pub serial : Bytes
  pub collections : List CollectionDescriptor

-- The test `collection.role == CollectionRole::PuckMain`.
unfoldable pub is_puck_main : CollectionRole → Bool
is_puck_main puck_main = true
is_puck_main _ = false

unfoldable pub find_main : List CollectionDescriptor → Option CollectionDescriptor
unfolding is_puck_main
find_main [] = none
find_main (c ∷ cs) = if is_puck_main c.role then some c else find_main cs

abbrev report_len : Option CollectionDescriptor → ℕ
report_len none = 0
report_len (some c) = c.input_report_len

-- The report length of the main collection, else of the first, else 0.
unfoldable pub default_input_report_len : IdentityPayload → ℕ
unfolding find_main
default_input_report_len p = elim (find_main p.collections) [
  | some c ↦ c.input_report_len
  | none ↦ report_len (head? p.collections)
]

unfoldable pub encode_collections : List CollectionDescriptor → Encoding
encode_collections [] = pure tt
encode_collections (c ∷ cs) = do encode_collection c; encode_collections cs

unfoldable pub decode_collections : ℕ → Decoding (List CollectionDescriptor)
decode_collections zero = pure []
decode_collections (suc n) = do c ← decode_collection; cs ← decode_collections n; pure (c ∷ cs)

unfoldable pub encode_identity : IdentityPayload → Encoding
encode_identity p =
    let count = length p.collections in
    if not (ltb count 256) || (count == 0 || ltb 16 count)
    then raise (invalid_length "collection_count")
    else do
      Encoder.u16 p.vendor_id
      Encoder.u16 p.product_id
      Encoder.u16 p.version_number
      Encoder.string p.manufacturer
      Encoder.string p.product
      Encoder.string p.serial
      Encoder.u8 count
      encode_collections p.collections

unfoldable pub decode_identity : Bytes → Result ProtocolError IdentityPayload
decode_identity = Decoder.run (do
  vendor_id ← Decoder.u16 "vendor_id"
  product_id ← Decoder.u16 "product_id"
  version_number ← Decoder.u16 "version_number"
  manufacturer ← Decoder.string "manufacturer"
  product ← Decoder.string "product"
  serial ← Decoder.string "serial"
  collection_count ← Decoder.u8 "collection_count"
  if collection_count == 0 || ltb 16 collection_count
      then raise (invalid_length "collection_count")
      else do
        collections ← decode_collections collection_count
        Decoder.finish
        pure (record {
          vendor_id = vendor_id;
          product_id = product_id;
          version_number = version_number;
          manufacturer = manufacturer;
          product = product;
          serial = serial;
          collections = collections;
        }))

abbrev pub identity_wire : WirePayload IdentityPayload
identity_wire = record {
  message_type = Frame.identity;
  encode = encode_identity;
  decode = decode_identity;
}
