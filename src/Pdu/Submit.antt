-- ===== src/Pdu/Submit.antt =====
-- include/smpp/pdu: submit_sm and its response. Each record has the
-- fields of the struct, and its meta data lists them with their rules, as the code does.
use smpp.Common.{ℕ, refl, List, [], ◌∷◌, arith}
use smpp.Exceptions.{Bytes}
use smpp.CommandId
use smpp.Param.{
  EsmClass, RegisteredDelivery, data_coding_defaults, esm_class_default, gsm_non_priority,
  npi_unknown, registered_delivery_default, replace_if_present_no, ton_unknown,
}
use smpp.Oparam.{Oparam}
use smpp.Serialization.{
  c_octet_str, enum_flag, enum_u8, smart, u8, u8_octet_str, FlagType, Member, mem, PduMeta,
}
use smpp.Serialization.Pdus.{PduLaws, fields_bytes-ne-nil}

-- struct submit_sm
pub record SubmitSm : Type 0 where
  pub service_type : Bytes
  pub source_addr_ton : ℕ
  pub source_addr_npi : ℕ
  pub source_addr : Bytes
  pub dest_addr_ton : ℕ
  pub dest_addr_npi : ℕ
  pub dest_addr : Bytes
  pub esm_class : EsmClass
  pub protocol_id : ℕ
  pub priority_flag : ℕ
  pub schedule_delivery_time : Bytes
  pub validity_period : Bytes
  pub registered_delivery : RegisteredDelivery
  pub replace_if_present_flag : ℕ
  pub data_coding : ℕ
  pub sm_default_msg_id : ℕ
  pub short_message : Bytes
  pub oparam : Oparam

abbrev submit_sm_members : List Member
submit_sm_members =
    mem (c_octet_str 6) "service_type"
    ∷ mem enum_u8 "source_addr_ton"
    ∷ mem enum_u8 "source_addr_npi"
    ∷ mem (c_octet_str 21) "source_addr"
    ∷ mem enum_u8 "dest_addr_ton"
    ∷ mem enum_u8 "dest_addr_npi"
    ∷ mem (c_octet_str 21) "dest_addr"
    ∷ mem (enum_flag FlagType.esm_class) "esm_class"
    ∷ mem u8 "protocol_id"
    ∷ mem enum_u8 "priority_flag"
    ∷ mem (c_octet_str 17) "schedule_delivery_time"
    ∷ mem (c_octet_str 17) "validity_period"
    ∷ mem (enum_flag FlagType.registered_delivery) "registered_delivery"
    ∷ mem enum_u8 "replace_if_present_flag"
    ∷ mem enum_u8 "data_coding"
    ∷ mem u8 "sm_default_msg_id"
    ∷ mem (u8_octet_str 254) "short_message"
    ∷ mem smart "oparam"
    ∷ []

instance abbrev pub submit_sm : PduMeta SubmitSm
submit_sm = record {
  command_id = CommandId.submit_sm;
  members = submit_sm_members;
  fields = λ pdu. (
    pdu.service_type,
    (
      pdu.source_addr_ton,
      (
        pdu.source_addr_npi,
        (
          pdu.source_addr,
          (
            pdu.dest_addr_ton,
            (
              pdu.dest_addr_npi,
              (
                pdu.dest_addr,
                (
                  pdu.esm_class,
                  (
                    pdu.protocol_id,
                    (
                      pdu.priority_flag,
                      (
                        pdu.schedule_delivery_time,
                        (
                          pdu.validity_period,
                          (
                            pdu.registered_delivery,
                            (
                              pdu.replace_if_present_flag,
                              (
                                pdu.data_coding,
                                (pdu.sm_default_msg_id, (pdu.short_message, (pdu.oparam, tt))),
                              ),
                            ),
                          ),
                        ),
                      ),
                    ),
                  ),
                ),
              ),
            ),
          ),
        ),
      ),
    ),
  );
  from_fields =
      λ (
        service_type,
        (
          source_addr_ton,
          (
            source_addr_npi,
            (
              source_addr,
              (
                dest_addr_ton,
                (
                  dest_addr_npi,
                  (
                    dest_addr,
                    (
                      esm_class,
                      (
                        protocol_id,
                        (
                          priority_flag,
                          (
                            schedule_delivery_time,
                            (
                              validity_period,
                              (
                                registered_delivery,
                                (
                                  replace_if_present_flag,
                                  (data_coding, (sm_default_msg_id, (short_message, (oparam, _)))),
                                ),
                              ),
                            ),
                          ),
                        ),
                      ),
                    ),
                  ),
                ),
              ),
            ),
          ),
        ),
      ).
        record {
          service_type = service_type;
          source_addr_ton = source_addr_ton;
          source_addr_npi = source_addr_npi;
          source_addr = source_addr;
          dest_addr_ton = dest_addr_ton;
          dest_addr_npi = dest_addr_npi;
          dest_addr = dest_addr;
          esm_class = esm_class;
          protocol_id = protocol_id;
          priority_flag = priority_flag;
          schedule_delivery_time = schedule_delivery_time;
          validity_period = validity_period;
          registered_delivery = registered_delivery;
          replace_if_present_flag = replace_if_present_flag;
          data_coding = data_coding;
          sm_default_msg_id = sm_default_msg_id;
          short_message = short_message;
          oparam = oparam;
        };
  initial = record {
    service_type = [];
    source_addr_ton = ton_unknown;
    source_addr_npi = npi_unknown;
    source_addr = [];
    dest_addr_ton = ton_unknown;
    dest_addr_npi = npi_unknown;
    dest_addr = [];
    esm_class = esm_class_default;
    protocol_id = 0;
    priority_flag = gsm_non_priority;
    schedule_delivery_time = [];
    validity_period = [];
    registered_delivery = registered_delivery_default;
    replace_if_present_flag = replace_if_present_no;
    data_coding = data_coding_defaults;
    sm_default_msg_id = 0;
    short_message = [];
    oparam = [];
  };
  from_fields-fields = λ pdu. refl;
  fields-from_fields = λ vals. refl;
}

pub submit_sm-PduLaws : PduLaws submit_sm
submit_sm-PduLaws = record {
  smart_is_last = (
    tt,
    (
      tt,
      (tt, (tt, (tt, (tt, (tt, (tt, (tt, (tt, (tt, (tt, (tt, (tt, (tt, (tt, (tt, tt))))))))))))))),
    ),
  );
  initial-IsPdu = omega arith;
  blank = λ pdu e. absurd (fields_bytes-ne-nil submit_sm_members (submit_sm.fields pdu) tt e);
}

-- struct submit_sm_resp
pub record SubmitSmResp : Type 0 where
  pub message_id : Bytes

abbrev submit_sm_resp_members : List Member
submit_sm_resp_members = mem (c_octet_str 65) "message_id" ∷ []

instance abbrev pub submit_sm_resp : PduMeta SubmitSmResp
submit_sm_resp = record {
  command_id = CommandId.submit_sm_resp;
  members = submit_sm_resp_members;
  fields = λ pdu. (pdu.message_id, tt);
  from_fields = λ (message_id, _). record { message_id = message_id };
  initial = record { message_id = [] };
  from_fields-fields = λ pdu. refl;
  fields-from_fields = λ vals. refl;
}

pub submit_sm_resp-PduLaws : PduLaws submit_sm_resp
submit_sm_resp-PduLaws = record {
  smart_is_last = tt;
  initial-IsPdu = omega arith;
  blank =
      λ pdu e. absurd (fields_bytes-ne-nil submit_sm_resp_members (submit_sm_resp.fields pdu) tt e);
}
