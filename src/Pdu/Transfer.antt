-- ===== src/Pdu/Transfer.antt =====
-- include/smpp/pdu: data_sm and its response, alert_notification and generic_nack. Each record has the
-- fields of the struct, and its meta data lists them with their rules, as the code does.
use smpp.Common.{ℕ, refl, List, [], ◌∷◌, arith}
use smpp.Exceptions.{Bytes}
use smpp.CommandId
use smpp.Param.{
  EsmClass, RegisteredDelivery, data_coding_defaults, esm_class_default, npi_unknown,
  registered_delivery_default, ton_unknown,
}
use smpp.Oparam.{Oparam}
use smpp.Serialization.{c_octet_str, enum_flag, enum_u8, smart, FlagType, Member, mem, PduMeta}
use smpp.Serialization.Pdus.{PduLaws, fields_bytes-ne-nil}

-- struct data_sm
pub record DataSm : Type 0 where
  pub service_type : Bytes
  pub source_addr_ton : ℕ
  pub source_addr_npi : ℕ
  pub source_addr : Bytes
  pub dest_addr_ton : ℕ
  pub dest_addr_npi : ℕ
  pub dest_addr : Bytes
  pub esm_class : EsmClass
  pub registered_delivery : RegisteredDelivery
  pub data_coding : ℕ
  pub oparam : Oparam

abbrev data_sm_members : List Member
data_sm_members =
    mem (c_octet_str 6) "service_type"
    ∷ mem enum_u8 "source_addr_ton"
    ∷ mem enum_u8 "source_addr_npi"
    ∷ mem (c_octet_str 65) "source_addr"
    ∷ mem enum_u8 "dest_addr_ton"
    ∷ mem enum_u8 "dest_addr_npi"
    ∷ mem (c_octet_str 65) "dest_addr"
    ∷ mem (enum_flag FlagType.esm_class) "esm_class"
    ∷ mem (enum_flag FlagType.registered_delivery) "registered_delivery"
    ∷ mem enum_u8 "data_coding"
    ∷ mem smart "oparam"
    ∷ []

instance abbrev pub data_sm : PduMeta DataSm
data_sm = record {
  command_id = CommandId.data_sm;
  members = data_sm_members;
  fields = λ pdu. (
    pdu.service_type,
    (
      pdu.source_addr_ton,
      (
        pdu.source_addr_npi,
        (
          pdu.source_addr,
          (
            pdu.dest_addr_ton,
            (
              pdu.dest_addr_npi,
              (
                pdu.dest_addr,
                (pdu.esm_class, (pdu.registered_delivery, (pdu.data_coding, (pdu.oparam, tt)))),
              ),
            ),
          ),
        ),
      ),
    ),
  );
  from_fields =
      λ (
        service_type,
        (
          source_addr_ton,
          (
            source_addr_npi,
            (
              source_addr,
              (
                dest_addr_ton,
                (
                  dest_addr_npi,
                  (dest_addr, (esm_class, (registered_delivery, (data_coding, (oparam, _))))),
                ),
              ),
            ),
          ),
        ),
      ).
        record {
          service_type = service_type;
          source_addr_ton = source_addr_ton;
          source_addr_npi = source_addr_npi;
          source_addr = source_addr;
          dest_addr_ton = dest_addr_ton;
          dest_addr_npi = dest_addr_npi;
          dest_addr = dest_addr;
          esm_class = esm_class;
          registered_delivery = registered_delivery;
          data_coding = data_coding;
          oparam = oparam;
        };
  initial = record {
    service_type = [];
    source_addr_ton = ton_unknown;
    source_addr_npi = npi_unknown;
    source_addr = [];
    dest_addr_ton = ton_unknown;
    dest_addr_npi = npi_unknown;
    dest_addr = [];
    esm_class = esm_class_default;
    registered_delivery = registered_delivery_default;
    data_coding = data_coding_defaults;
    oparam = [];
  };
  from_fields-fields = λ pdu. refl;
  fields-from_fields = λ vals. refl;
}

pub data_sm-PduLaws : PduLaws data_sm
data_sm-PduLaws = record {
  smart_is_last = (tt, (tt, (tt, (tt, (tt, (tt, (tt, (tt, (tt, (tt, tt))))))))));
  initial-IsPdu = omega arith;
  blank = λ pdu e. absurd (fields_bytes-ne-nil data_sm_members (data_sm.fields pdu) tt e);
}

-- struct data_sm_resp
pub record DataSmResp : Type 0 where
  pub message_id : Bytes
  pub oparam : Oparam

abbrev data_sm_resp_members : List Member
data_sm_resp_members = mem (c_octet_str 65) "message_id" ∷ mem smart "oparam" ∷ []

instance abbrev pub data_sm_resp : PduMeta DataSmResp
data_sm_resp = record {
  command_id = CommandId.data_sm_resp;
  members = data_sm_resp_members;
  fields = λ pdu. (pdu.message_id, (pdu.oparam, tt));
  from_fields = λ (message_id, (oparam, _)). record { message_id = message_id; oparam = oparam };
  initial = record { message_id = []; oparam = [] };
  from_fields-fields = λ pdu. refl;
  fields-from_fields = λ vals. refl;
}

pub data_sm_resp-PduLaws : PduLaws data_sm_resp
data_sm_resp-PduLaws = record {
  smart_is_last = (tt, tt);
  initial-IsPdu = omega arith;
  blank = λ pdu e. absurd (fields_bytes-ne-nil data_sm_resp_members (data_sm_resp.fields pdu) tt e);
}

-- struct alert_notification
pub record AlertNotification : Type 0 where
  pub source_addr_ton : ℕ
  pub source_addr_npi : ℕ
  pub source_addr : Bytes
  pub esme_addr_ton : ℕ
  pub esme_addr_npi : ℕ
  pub esme_addr : Bytes
  pub oparam : Oparam

abbrev alert_notification_members : List Member
alert_notification_members =
    mem enum_u8 "source_addr_ton"
    ∷ mem enum_u8 "source_addr_npi"
    ∷ mem (c_octet_str 65) "source_addr"
    ∷ mem enum_u8 "esme_addr_ton"
    ∷ mem enum_u8 "esme_addr_npi"
    ∷ mem (c_octet_str 65) "esme_addr"
    ∷ mem smart "oparam"
    ∷ []

instance abbrev pub alert_notification : PduMeta AlertNotification
alert_notification = record {
  command_id = CommandId.alert_notification;
  members = alert_notification_members;
  fields = λ pdu. (
    pdu.source_addr_ton,
    (
      pdu.source_addr_npi,
      (
        pdu.source_addr,
        (pdu.esme_addr_ton, (pdu.esme_addr_npi, (pdu.esme_addr, (pdu.oparam, tt)))),
      ),
    ),
  );
  from_fields =
      λ (
        source_addr_ton,
        (
          source_addr_npi,
          (source_addr, (esme_addr_ton, (esme_addr_npi, (esme_addr, (oparam, _))))),
        ),
      ).
        record {
          source_addr_ton = source_addr_ton;
          source_addr_npi = source_addr_npi;
          source_addr = source_addr;
          esme_addr_ton = esme_addr_ton;
          esme_addr_npi = esme_addr_npi;
          esme_addr = esme_addr;
          oparam = oparam;
        };
  initial = record {
    source_addr_ton = ton_unknown;
    source_addr_npi = npi_unknown;
    source_addr = [];
    esme_addr_ton = ton_unknown;
    esme_addr_npi = npi_unknown;
    esme_addr = [];
    oparam = [];
  };
  from_fields-fields = λ pdu. refl;
  fields-from_fields = λ vals. refl;
}

pub alert_notification-PduLaws : PduLaws alert_notification
alert_notification-PduLaws = record {
  smart_is_last = (tt, (tt, (tt, (tt, (tt, (tt, tt))))));
  initial-IsPdu = omega arith;
  blank = λ pdu e.
      absurd (fields_bytes-ne-nil alert_notification_members (alert_notification.fields pdu) tt e);
}

-- struct generic_nack
pub record GenericNack : Type 0 where

abbrev generic_nack_members : List Member
generic_nack_members = []

instance abbrev pub generic_nack : PduMeta GenericNack
generic_nack = record {
  command_id = CommandId.generic_nack;
  members = generic_nack_members;
  fields = λ pdu. tt;
  from_fields = λ vals. record {};
  initial = record {};
  from_fields-fields = λ pdu. refl;
  fields-from_fields = λ vals. refl;
}

pub generic_nack-PduLaws : PduLaws generic_nack
generic_nack-PduLaws = record {
  smart_is_last = tt;
  initial-IsPdu = omega arith;
  blank = λ pdu e. refl;
}
