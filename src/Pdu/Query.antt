-- ===== src/Pdu/Query.antt =====
-- include/smpp/pdu: query_sm, cancel_sm and their responses. Each record has the
-- fields of the struct, and its meta data lists them with their rules, as the code does.
use smpp.Common.{ℕ, refl, List, [], ◌∷◌, arith}
use smpp.Exceptions.{Bytes}
use smpp.CommandId
use smpp.Param.{message_state_unknown, npi_unknown, ton_unknown}
use smpp.Serialization.{c_octet_str, enum_u8, u8, Member, mem, PduMeta}
use smpp.Serialization.Pdus.{PduLaws, fields_bytes-ne-nil}

-- struct query_sm
pub record QuerySm : Type 0 where
  pub message_id : Bytes
  pub source_addr_ton : ℕ
  pub source_addr_npi : ℕ
  pub source_addr : Bytes

abbrev query_sm_members : List Member
query_sm_members =
    mem (c_octet_str 65) "message_id"
    ∷ mem enum_u8 "source_addr_ton"
    ∷ mem enum_u8 "source_addr_npi"
    ∷ mem (c_octet_str 21) "source_addr"
    ∷ []

instance abbrev pub query_sm : PduMeta QuerySm
query_sm = record {
  command_id = CommandId.query_sm;
  members = query_sm_members;
  fields =
      λ pdu. (pdu.message_id, (pdu.source_addr_ton, (pdu.source_addr_npi, (pdu.source_addr, tt))));
  from_fields = λ (message_id, (source_addr_ton, (source_addr_npi, (source_addr, _)))). record {
    message_id = message_id;
    source_addr_ton = source_addr_ton;
    source_addr_npi = source_addr_npi;
    source_addr = source_addr;
  };
  initial = record {
    message_id = [];
    source_addr_ton = ton_unknown;
    source_addr_npi = npi_unknown;
    source_addr = [];
  };
  from_fields-fields = λ pdu. refl;
  fields-from_fields = λ vals. refl;
}

pub query_sm-PduLaws : PduLaws query_sm
query_sm-PduLaws = record {
  smart_is_last = (tt, (tt, (tt, tt)));
  initial-IsPdu = omega arith;
  blank = λ pdu e. absurd (fields_bytes-ne-nil query_sm_members (query_sm.fields pdu) tt e);
}

-- struct query_sm_resp
pub record QuerySmResp : Type 0 where
  pub message_id : Bytes
  pub final_date : Bytes
  pub message_state : ℕ
  pub error_code : ℕ

abbrev query_sm_resp_members : List Member
query_sm_resp_members =
    mem (c_octet_str 65) "message_id"
    ∷ mem (c_octet_str 17) "final_date"
    ∷ mem enum_u8 "message_state"
    ∷ mem u8 "error_code"
    ∷ []

instance abbrev pub query_sm_resp : PduMeta QuerySmResp
query_sm_resp = record {
  command_id = CommandId.query_sm_resp;
  members = query_sm_resp_members;
  fields = λ pdu. (pdu.message_id, (pdu.final_date, (pdu.message_state, (pdu.error_code, tt))));
  from_fields = λ (message_id, (final_date, (message_state, (error_code, _)))). record {
    message_id = message_id;
    final_date = final_date;
    message_state = message_state;
    error_code = error_code;
  };
  initial = record {
    message_id = [];
    final_date = [];
    message_state = message_state_unknown;
    error_code = 0;
  };
  from_fields-fields = λ pdu. refl;
  fields-from_fields = λ vals. refl;
}

pub query_sm_resp-PduLaws : PduLaws query_sm_resp
query_sm_resp-PduLaws = record {
  smart_is_last = (tt, (tt, (tt, tt)));
  initial-IsPdu = omega arith;
  blank =
      λ pdu e. absurd (fields_bytes-ne-nil query_sm_resp_members (query_sm_resp.fields pdu) tt e);
}

-- struct cancel_sm
pub record CancelSm : Type 0 where
  pub service_type : Bytes
  pub message_id : Bytes
  pub source_addr_ton : ℕ
  pub source_addr_npi : ℕ
  pub source_addr : Bytes
  pub dest_addr_ton : ℕ
  pub dest_addr_npi : ℕ
  pub dest_addr : Bytes

abbrev cancel_sm_members : List Member
cancel_sm_members =
    mem (c_octet_str 6) "service_type"
    ∷ mem (c_octet_str 65) "message_id"
    ∷ mem enum_u8 "source_addr_ton"
    ∷ mem enum_u8 "source_addr_npi"
    ∷ mem (c_octet_str 21) "source_addr"
    ∷ mem enum_u8 "dest_addr_ton"
    ∷ mem enum_u8 "dest_addr_npi"
    ∷ mem (c_octet_str 21) "dest_addr"
    ∷ []

instance abbrev pub cancel_sm : PduMeta CancelSm
cancel_sm = record {
  command_id = CommandId.cancel_sm;
  members = cancel_sm_members;
  fields = λ pdu. (
    pdu.service_type,
    (
      pdu.message_id,
      (
        pdu.source_addr_ton,
        (
          pdu.source_addr_npi,
          (pdu.source_addr, (pdu.dest_addr_ton, (pdu.dest_addr_npi, (pdu.dest_addr, tt)))),
        ),
      ),
    ),
  );
  from_fields =
      λ (
        service_type,
        (
          message_id,
          (
            source_addr_ton,
            (source_addr_npi, (source_addr, (dest_addr_ton, (dest_addr_npi, (dest_addr, _))))),
          ),
        ),
      ).
        record {
          service_type = service_type;
          message_id = message_id;
          source_addr_ton = source_addr_ton;
          source_addr_npi = source_addr_npi;
          source_addr = source_addr;
          dest_addr_ton = dest_addr_ton;
          dest_addr_npi = dest_addr_npi;
          dest_addr = dest_addr;
        };
  initial = record {
    service_type = [];
    message_id = [];
    source_addr_ton = ton_unknown;
    source_addr_npi = npi_unknown;
    source_addr = [];
    dest_addr_ton = ton_unknown;
    dest_addr_npi = npi_unknown;
    dest_addr = [];
  };
  from_fields-fields = λ pdu. refl;
  fields-from_fields = λ vals. refl;
}

pub cancel_sm-PduLaws : PduLaws cancel_sm
cancel_sm-PduLaws = record {
  smart_is_last = (tt, (tt, (tt, (tt, (tt, (tt, (tt, tt)))))));
  initial-IsPdu = omega arith;
  blank = λ pdu e. absurd (fields_bytes-ne-nil cancel_sm_members (cancel_sm.fields pdu) tt e);
}

-- struct cancel_sm_resp
pub record CancelSmResp : Type 0 where

abbrev cancel_sm_resp_members : List Member
cancel_sm_resp_members = []

instance abbrev pub cancel_sm_resp : PduMeta CancelSmResp
cancel_sm_resp = record {
  command_id = CommandId.cancel_sm_resp;
  members = cancel_sm_resp_members;
  fields = λ pdu. tt;
  from_fields = λ vals. record {};
  initial = record {};
  from_fields-fields = λ pdu. refl;
  fields-from_fields = λ vals. refl;
}

pub cancel_sm_resp-PduLaws : PduLaws cancel_sm_resp
cancel_sm_resp-PduLaws = record {
  smart_is_last = tt;
  initial-IsPdu = omega arith;
  blank = λ pdu e. refl;
}
