-- ===== src/Pdu/Replace.antt =====
-- include/smpp/pdu: replace_sm and its response. Each record has the
-- fields of the struct, and its meta data lists them with their rules, as the code does.
use smpp.Common.{ℕ, refl, List, [], ◌∷◌, arith}
use smpp.Exceptions.{Bytes}
use smpp.CommandId
use smpp.Param.{RegisteredDelivery, npi_unknown, registered_delivery_default, ton_unknown}
use smpp.Serialization.{
  c_octet_str, enum_flag, enum_u8, u8, u8_octet_str, FlagType, Member, mem, PduMeta,
}
use smpp.Serialization.Pdus.{PduLaws, fields_bytes-ne-nil}

-- struct replace_sm
pub record ReplaceSm : Type 0 where
  pub message_id : Bytes
  pub source_addr_ton : ℕ
  pub source_addr_npi : ℕ
  pub source_addr : Bytes
  pub schedule_delivery_time : Bytes
  pub validity_period : Bytes
  pub registered_delivery : RegisteredDelivery
  pub sm_default_msg_id : ℕ
  pub short_message : Bytes

abbrev replace_sm_members : List Member
replace_sm_members =
    mem (c_octet_str 65) "message_id"
    ∷ mem enum_u8 "source_addr_ton"
    ∷ mem enum_u8 "source_addr_npi"
    ∷ mem (c_octet_str 21) "source_addr"
    ∷ mem (c_octet_str 17) "schedule_delivery_time"
    ∷ mem (c_octet_str 17) "validity_period"
    ∷ mem (enum_flag FlagType.registered_delivery) "registered_delivery"
    ∷ mem u8 "sm_default_msg_id"
    ∷ mem (u8_octet_str 254) "short_message"
    ∷ []

instance abbrev pub replace_sm : PduMeta ReplaceSm
replace_sm = record {
  command_id = CommandId.replace_sm;
  members = replace_sm_members;
  fields = λ pdu. (
    pdu.message_id,
    (
      pdu.source_addr_ton,
      (
        pdu.source_addr_npi,
        (
          pdu.source_addr,
          (
            pdu.schedule_delivery_time,
            (
              pdu.validity_period,
              (pdu.registered_delivery, (pdu.sm_default_msg_id, (pdu.short_message, tt))),
            ),
          ),
        ),
      ),
    ),
  );
  from_fields =
      λ (
        message_id,
        (
          source_addr_ton,
          (
            source_addr_npi,
            (
              source_addr,
              (
                schedule_delivery_time,
                (validity_period, (registered_delivery, (sm_default_msg_id, (short_message, _)))),
              ),
            ),
          ),
        ),
      ).
        record {
          message_id = message_id;
          source_addr_ton = source_addr_ton;
          source_addr_npi = source_addr_npi;
          source_addr = source_addr;
          schedule_delivery_time = schedule_delivery_time;
          validity_period = validity_period;
          registered_delivery = registered_delivery;
          sm_default_msg_id = sm_default_msg_id;
          short_message = short_message;
        };
  initial = record {
    message_id = [];
    source_addr_ton = ton_unknown;
    source_addr_npi = npi_unknown;
    source_addr = [];
    schedule_delivery_time = [];
    validity_period = [];
    registered_delivery = registered_delivery_default;
    sm_default_msg_id = 0;
    short_message = [];
  };
  from_fields-fields = λ pdu. refl;
  fields-from_fields = λ vals. refl;
}

pub replace_sm-PduLaws : PduLaws replace_sm
replace_sm-PduLaws = record {
  smart_is_last = (tt, (tt, (tt, (tt, (tt, (tt, (tt, (tt, tt))))))));
  initial-IsPdu = omega arith;
  blank = λ pdu e. absurd (fields_bytes-ne-nil replace_sm_members (replace_sm.fields pdu) tt e);
}

-- struct replace_sm_resp
pub record ReplaceSmResp : Type 0 where

abbrev replace_sm_resp_members : List Member
replace_sm_resp_members = []

instance abbrev pub replace_sm_resp : PduMeta ReplaceSmResp
replace_sm_resp = record {
  command_id = CommandId.replace_sm_resp;
  members = replace_sm_resp_members;
  fields = λ pdu. tt;
  from_fields = λ vals. record {};
  initial = record {};
  from_fields-fields = λ pdu. refl;
  fields-from_fields = λ vals. refl;
}

pub replace_sm_resp-PduLaws : PduLaws replace_sm_resp
replace_sm_resp-PduLaws = record {
  smart_is_last = tt;
  initial-IsPdu = omega arith;
  blank = λ pdu e. refl;
}
