-- ===== src/Tests/Codec.antt =====
-- The theorems on headers, parameters and PDUs, at concrete inputs.
use smpp.Common.{ℕ, ◌%◌, ◌/◌, true, some, ◌<◌, ◌≡◌, refl, [], ◌∷◌, ◌++◌, drop, arith}
use smpp.Exceptions.{Bytes, ok}
use smpp.Enums.MessagingMode
use smpp.Enums.MessageType
use smpp.Enums.GsmNetworkFeatures
use smpp.Enums.SmscDeliveryReceipt
use smpp.Enums.SmeOriginatedAck
use smpp.Enums.IntermediateNotification
use smpp.Enums.Tables.{named_at, modes, types, features, receipts, acks, notifications}
use smpp.Enums.Flags.{esm_of, registered_of, flags_from_u8-enumerators}
use smpp.Header.{Header, header_length, deserialize_header, serialize_header}
use smpp.Header.RoundTrip.{deserialize_header-serialize_header, serialize_header-deserialize_header}
use smpp.Param.{
  EsmClass, esm_class_from_u8, esm_class_to_u8, RegisteredDelivery, registered_delivery_from_u8,
  registered_delivery_to_u8,
}
use smpp.Utility.ShortMessage.{has_udh}
use smpp.Oparam.{Oparam, serialize_oparam, deserialize_oparam, contains, erase_param, get_as_string}
use smpp.Oparam.{set_as_string}
use smpp.Oparam.Access.{IsOparam, get_as_string-set_as_string, erase_param_lem}
use smpp.Oparam.RoundTrip.{deserialize_oparam-serialize_oparam}
use smpp.Oparam.Total.{Outcome, deserialize_oparam-Outcome}
use smpp.Serialization.{serialize_to, deserialize, deserialize_members, deserialize_value}
use smpp.Serialization.{deserialize_c_octet_str, find_null, esm_class, flag_from_u8, flag_to_u8}
use smpp.Serialization.Rules.{flag_from_u8-flag_to_u8}
use smpp.Serialization.Pdus.{
  IsPdu, Parses, deserialize-serialize_to, deserialize-Parses, serialize_to-deserialize,
}
use smpp.Pdu.Submit.{
  SubmitSm, submit_sm, submit_sm-PduLaws, SubmitSmResp, submit_sm_resp, submit_sm_resp-PduLaws,
}
use smpp.Net.PduVariant.{submit_sm_pdu, deserialize_variant, receive_pdu}
use smpp.Net.PduVariant.Dispatch.{variant_body, deserialize_variant-variant_body}
use smpp.Net.PduVariant.Total.{Received, receive_pdu-Received}

abbrev sample_header : Header
sample_header = record {
  command_length = 16;
  command_id = 0x8000_0015;
  command_status = 0;
  sequence_number = 0x01020304;
}

deserialize_header-serialize_header_example :
    (deserialize_header (serialize_header [] sample_header) ≡ sample_header)
    × (drop header_length (serialize_header [] sample_header) ≡ [])
deserialize_header-serialize_header_example =
    deserialize_header-serialize_header [] sample_header (omega arith)

abbrev sixteen : Bytes
sixteen = 0 ∷ 0 ∷ 0 ∷ 16 ∷ 128 ∷ 0 ∷ 0 ∷ 21 ∷ 0 ∷ 0 ∷ 0 ∷ 0 ∷ 1 ∷ 2 ∷ 3 ∷ 255 ∷ []

serialize_header-deserialize_header_example :
    serialize_header sixteen (deserialize_header sixteen) ≡ sixteen
serialize_header-deserialize_header_example =
    serialize_header-deserialize_header sixteen (omega arith) (omega arith)

abbrev uhdi_receipt : EsmClass
uhdi_receipt = record { messaging_mode = 3; message_type = 0x04; gsm_network_features = 0x40 }

abbrev acked : RegisteredDelivery
acked = record {
  smsc_delivery_receipt = 1;
  sme_originated_ack = 0x0c;
  intermediate_notification = 0x10;
}

flag_from_u8-flag_to_u8_example :
    (flag_from_u8 esm_class (flag_to_u8 esm_class uhdi_receipt) ≡ uhdi_receipt)
    × (flag_to_u8 esm_class uhdi_receipt < 256)
flag_from_u8-flag_to_u8_example = flag_from_u8-flag_to_u8 esm_class uhdi_receipt (omega arith)

abbrev two_params : Oparam
two_params = (0x0005, 7 ∷ []) ∷ (0x0424, 1 ∷ 2 ∷ []) ∷ []

two_params-IsOparam : IsOparam two_params
two_params-IsOparam = omega arith

deserialize_oparam-serialize_oparam_example :
    deserialize_oparam (serialize_oparam [] two_params) ≡ ok (two_params, [])
deserialize_oparam-serialize_oparam_example =
    deserialize_oparam-serialize_oparam two_params two_params-IsOparam

deserialize_oparam-Outcome_example : Outcome (deserialize_oparam (0 ∷ 5 ∷ 0 ∷ 1 ∷ 7 ∷ 9 ∷ []))
deserialize_oparam-Outcome_example =
    deserialize_oparam-Outcome (0 ∷ 5 ∷ 0 ∷ 1 ∷ 7 ∷ 9 ∷ []) (omega arith)

get_as_string-set_as_string_example :
    (after : Oparam) × (set_as_string 0x0005 (9 ∷ []) two_params ≡ ok after)
    × (get_as_string 0x0005 after ≡ ok (9 ∷ []))
    × IsOparam after
get_as_string-set_as_string_example =
    get_as_string-set_as_string 0x0005 0x0005 (9 ∷ []) two_params (omega arith) (omega arith)
      (omega arith) two_params-IsOparam

erase_param_lem_example :
    ((erase_param 0x0005 two_params).1 ≡ contains 0x0005 two_params)
    × (contains 0x0424 (erase_param 0x0005 two_params).0 ≡ contains 0x0424 two_params)
    × (get_as_string 0x0424 (erase_param 0x0005 two_params).0 ≡ get_as_string 0x0424 two_params)
    × IsOparam (erase_param 0x0005 two_params).0
erase_param_lem_example = erase_param_lem 0x0424 0x0005 two_params two_params-IsOparam

abbrev hello : SubmitSm
hello = record (submit_sm.initial) {
  service_type = 0x43 ∷ 0x4d ∷ [];
  source_addr = 0x31 ∷ 0x32 ∷ [];
  esm_class = uhdi_receipt;
  registered_delivery = acked;
  short_message = 0x68 ∷ 0x69 ∷ [];
  oparam = two_params;
}

hello-IsPdu : IsPdu submit_sm hello
hello-IsPdu = omega arith

deserialize-serialize_to_example :
    (body : Bytes) × (serialize_to (1 ∷ 2 ∷ []) hello ≡ ok ((1 ∷ 2 ∷ []) ++ body))
    × (deserialize body ≡ ok hello)
deserialize-serialize_to_example =
    deserialize-serialize_to submit_sm-PduLaws (1 ∷ 2 ∷ []) hello hello-IsPdu

deserialize-Parses_example : Parses (deserialize {S = SubmitSmResp} (0x61 ∷ 0 ∷ 0x62 ∷ []))
deserialize-Parses_example =
    deserialize-Parses submit_sm_resp-PduLaws (0x61 ∷ 0 ∷ 0x62 ∷ []) (omega arith)

abbrev one_resp : SubmitSmResp
one_resp = record { message_id = 0x61 ∷ [] }

one_id : deserialize (0x61 ∷ 0 ∷ 0x62 ∷ []) ≡ ok one_resp
unfolding deserialize deserialize_members deserialize_value deserialize_c_octet_str find_null
one_id = refl

serialize_to-deserialize_example :
    (again : Bytes) × (serialize_to [] one_resp ≡ ok again) × (deserialize again ≡ ok one_resp)
serialize_to-deserialize_example =
    serialize_to-deserialize submit_sm_resp-PduLaws (0x61 ∷ 0 ∷ 0x62 ∷ []) one_resp (omega arith)
      one_id

deserialize_variant-variant_body_example :
    deserialize_variant 0x0000_0004 (variant_body (submit_sm_pdu hello)) ≡ ok (submit_sm_pdu hello)
deserialize_variant-variant_body_example =
    deserialize_variant-variant_body (submit_sm_pdu hello) hello-IsPdu

receive_pdu-Received_example : Received (5 ∷ 6 ∷ []) (receive_pdu 0x0000_0004 (5 ∷ 6 ∷ []) (6 ∷ []))
receive_pdu-Received_example = receive_pdu-Received 0x0000_0004 (5 ∷ 6 ∷ []) (6 ∷ []) (omega arith)

abbrev esm_byte : ℕ
esm_byte =
    esm_class_to_u8
      (esm_of MessagingMode.forward MessageType.int_delivery_notif GsmNetworkFeatures.both)

abbrev registered_byte : ℕ
registered_byte = registered_delivery_to_u8 (
    registered_of SmscDeliveryReceipt.failed SmeOriginatedAck.both
      IntermediateNotification.requested)

flags_from_u8-enumerators_example :
    ((named_at modes (esm_byte % 4) ≡ some MessagingMode.forward)
      × (named_at types (esm_byte / 4 % 16) ≡ some MessageType.int_delivery_notif)
      × (named_at features (esm_byte / 64) ≡ some GsmNetworkFeatures.both)
      × (esm_class_from_u8 esm_byte
          ≡ esm_of MessagingMode.forward MessageType.int_delivery_notif GsmNetworkFeatures.both))
    × ((named_at receipts (registered_byte % 4) ≡ some SmscDeliveryReceipt.failed)
        × (named_at acks (registered_byte / 4 % 4) ≡ some SmeOriginatedAck.both)
        × (named_at notifications (registered_byte / 16) ≡ some IntermediateNotification.requested)
        × (registered_delivery_from_u8 registered_byte
            ≡ registered_of SmscDeliveryReceipt.failed SmeOriginatedAck.both
                IntermediateNotification.requested))
    × (has_udh (esm_class_from_u8 esm_byte) ≡ true)
flags_from_u8-enumerators_example =
    flags_from_u8-enumerators MessagingMode.forward MessageType.int_delivery_notif
      GsmNetworkFeatures.both SmscDeliveryReceipt.failed SmeOriginatedAck.both
      IntermediateNotification.requested
