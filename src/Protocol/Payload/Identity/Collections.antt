-- ===== src/Protocol/Payload/Identity/Collections.antt =====
-- crates/crosspuck-core/src/protocol/payload.rs: the collections of an identity on the wire.
use crosspuck.Base.{
  ◌≡◌, refl, ℕ, zero, suc, List, [], ◌∷◌, ◌++◌, append_assoc, append-nil, arith, length, All, Bytes,
  IsU8, IsU16, to_le_bytes, ◌∙◌,
}
use crosspuck.Base.Result.{ok}
use crosspuck.Protocol.Codec.Encoder
use crosspuck.Protocol.Codec.Encoder.{Encoding}
use crosspuck.Protocol.Codec.Reads.{Reads, Reads-bind, Reads-last, Reads-pure, Reads-u8, Reads-u16}
use crosspuck.Protocol.Codec.Parses.{Parses, Parses-bind, Parses-pure, Parses-u8, Parses-u16}
use crosspuck.Protocol.Payload.Role.{role_id, Reads-role, Parses-role}
use crosspuck.Protocol.Payload.Identity.{
  CollectionDescriptor, encode_collection, decode_collection, encode_collections,
  decode_collections,
}

pub record CollectionIsValid (c : CollectionDescriptor) : Type 0 where
  pub interface_fits : IsU8 c.interface_number
  pub page_fits : IsU16 c.usage_page
  pub usage_fits : IsU16 c.usage
  pub input_fits : IsU16 c.input_report_len
  pub output_fits : IsU16 c.output_report_len
  pub feature_fits : IsU16 c.feature_report_len

abbrev pub collection_layout : CollectionDescriptor → Bytes
collection_layout c =
    (role_id c.role ∷ [])
    ++ ((c.interface_number ∷ [])
        ++ (to_le_bytes 2 c.usage_page
            ++ (to_le_bytes 2 c.usage
                ++ (to_le_bytes 2 c.input_report_len
                    ++ (to_le_bytes 2 c.output_report_len ++ to_le_bytes 2 c.feature_report_len)))))

abbrev pub collections_layout : List CollectionDescriptor → Bytes
collections_layout [] = []
collections_layout (c ∷ cs) = collection_layout c ++ collections_layout cs

pub collections_written :
    (cs : List CollectionDescriptor) (out : Bytes)
    → encode_collections cs out ≡ (ok tt, out ++ collections_layout cs)
unfolding encode_collections encode_collection Encoder.u8 Encoder.u16
collections_written [] out = rw append-nil
collections_written (c ∷ cs) out = collections_written cs _ ∙ simp append_assoc

Reads-collection :
    (c : CollectionDescriptor)
    → CollectionIsValid c
    → Reads decode_collection (collection_layout c) c
unfolding decode_collection
Reads-collection c v = Reads-bind _ _ (Reads-u8 _ _) (
    Reads-bind _ _ (Reads-role c.role) (
      Reads-bind _ _ (Reads-u8 _ _) (
        Reads-bind _ _ (Reads-u16 _ _ v.page_fits) (
          Reads-bind _ _ (Reads-u16 _ _ v.usage_fits) (
            Reads-bind _ _ (Reads-u16 _ _ v.input_fits) (
              Reads-bind _ _ (Reads-u16 _ _ v.output_fits)
                (Reads-last _ _ (Reads-u16 _ _ v.feature_fits) (Reads-pure c))))))))

pub Reads-collections :
    (cs : List CollectionDescriptor)
    → All CollectionIsValid cs
    → Reads (decode_collections (length cs)) (collections_layout cs) cs
unfolding decode_collections
Reads-collections [] v = Reads-pure []
Reads-collections (c ∷ cs) v =
    Reads-bind _ _ (Reads-collection c v.0)
      (Reads-last _ _ (Reads-collections cs v.1) (Reads-pure (c ∷ cs)))

Parses-collection :
    Parses decode_collection (λ c bs. CollectionIsValid c × (bs ≡ collection_layout c))
unfolding decode_collection
Parses-collection = Parses-bind _ _ (Parses-u8 _) λ role_byte b1 p1.
    Parses-bind _ _ (Parses-role role_byte) λ role b2 p2. Parses-bind _ _ (Parses-u8 _) λ i b3 p3.
      Parses-bind _ _ (Parses-u16 _) λ page b4 p4. Parses-bind _ _ (Parses-u16 _) λ usage b5 p5.
        Parses-bind _ _ (Parses-u16 _) λ input b6 p6. Parses-bind _ _ (Parses-u16 _) λ output b7 p7.
          Parses-bind _ _ (Parses-u16 _) λ feature b8 p8. Parses-pure _ (
            record {
              interface_fits = p3.0;
              page_fits = p4.0;
              usage_fits = p5.0;
              input_fits = p6.0;
              output_fits = p7.0;
              feature_fits = p8.0;
            },
            simp (p1.1, p2.1, ← p2.0, p3.1, p4.1, p5.1, p6.1, p7.1, p8.1, append-nil),
          )

pub Parses-collections :
    (n : ℕ)
    → Parses
        (decode_collections n)
        (λ cs bs. All CollectionIsValid cs × (length cs ≡ n) × (bs ≡ collections_layout cs))
unfolding decode_collections
Parses-collections zero = Parses-pure [] (tt, refl, refl)
Parses-collections (suc n) = Parses-bind _ _ Parses-collection λ c bs p.
    Parses-bind _ _ (Parses-collections n)
      λ cs bs' q. Parses-pure (c ∷ cs) ((p.0, q.0), omega (arith, q.1), simp (p.1, q.2, append-nil))
