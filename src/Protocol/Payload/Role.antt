-- ===== src/Protocol/Payload/Role.antt =====
-- crates/crosspuck-core/src/protocol/payload.rs: `CollectionRole`, the part that a HID collection
-- of the device plays.
use crosspuck.Base.{ℕ, ◌≡◌, refl, [], arith, ◌==◌, if◌then◌else◌}
use crosspuck.Base.Result.{Result, ok, err}
use crosspuck.Base.Action.{lift}
use crosspuck.Protocol.Codec.Error.{ProtocolError, invalid_collection_role}
use crosspuck.Protocol.Codec.Reads.{Reads, Reads-lift}
use crosspuck.Protocol.Codec.Parses.{Parses, Parses-lift}

pub data CollectionRole : Type 0 where
  puck_main puck_interface3 puck_interface4 puck_interface5 puck_vendor_dongle : CollectionRole

-- `CollectionRole::id`
unfoldable pub role_id : CollectionRole → ℕ
role_id puck_main = 1
role_id puck_interface3 = 2
role_id puck_interface4 = 3
role_id puck_interface5 = 4
role_id puck_vendor_dongle = 5

-- `TryFrom<u8> for CollectionRole`
unfoldable pub role_of_u8 : ℕ → Result ProtocolError CollectionRole
role_of_u8 value =
    if value == 1
    then ok puck_main
    else if value == 2
    then ok puck_interface3
    else if value == 3
    then ok puck_interface4
    else if value == 4
    then ok puck_interface5
    else if value == 5
    then ok puck_vendor_dongle
    else err (invalid_collection_role value)

role_of_u8-role_id : (r : CollectionRole) → role_of_u8 (role_id r) ≡ ok r
unfolding role_of_u8 role_id
role_of_u8-role_id puck_main = refl
role_of_u8-role_id _ = refl

role_id-role_of_u8 : (n : ℕ) (r : CollectionRole) → role_of_u8 n ≡ ok r → role_id r ≡ n
unfolding role_of_u8 role_id
role_id-role_of_u8 n r e = ground arith

pub Reads-role : (r : CollectionRole) → Reads (lift (role_of_u8 (role_id r))) [] r
Reads-role r = Reads-lift (role_of_u8-role_id r)

pub Parses-role : (n : ℕ) → Parses (lift (role_of_u8 n)) (λ r bs. (role_id r ≡ n) × (bs ≡ []))
Parses-role n = Parses-lift (role_of_u8 n) λ r e. (role_id-role_of_u8 n r e, refl)
