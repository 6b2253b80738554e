-- ===== src/Pdu/BindResp.antt =====
-- include/smpp/pdu: the responses to the bind requests, and outbind. Each record has the
-- fields of the struct, and its meta data lists them with their rules, as the code does.
use smpp.Common.{refl, List, [], ◌∷◌, arith}
use smpp.Exceptions.{Bytes}
use smpp.CommandId
use smpp.Oparam.{Oparam}
use smpp.Serialization.{c_octet_str, smart, Member, mem, PduMeta}
use smpp.Serialization.Pdus.{PduLaws, fields_bytes-ne-nil}

-- struct bind_receiver_resp
pub record BindReceiverResp : Type 0 where
  pub system_id : Bytes
  pub oparam : Oparam

abbrev bind_receiver_resp_members : List Member
bind_receiver_resp_members = mem (c_octet_str 16) "system_id" ∷ mem smart "oparam" ∷ []

instance abbrev pub bind_receiver_resp : PduMeta BindReceiverResp
bind_receiver_resp = record {
  command_id = CommandId.bind_receiver_resp;
  members = bind_receiver_resp_members;
  fields = λ pdu. (pdu.system_id, (pdu.oparam, tt));
  from_fields = λ (system_id, (oparam, _)). record { system_id = system_id; oparam = oparam };
  initial = record { system_id = []; oparam = [] };
  from_fields-fields = λ pdu. refl;
  fields-from_fields = λ vals. refl;
}

pub bind_receiver_resp-PduLaws : PduLaws bind_receiver_resp
bind_receiver_resp-PduLaws = record {
  smart_is_last = (tt, tt);
  initial-IsPdu = omega arith;
  blank = λ pdu e.
      absurd (fields_bytes-ne-nil bind_receiver_resp_members (bind_receiver_resp.fields pdu) tt e);
}

-- struct bind_transmitter_resp
pub record BindTransmitterResp : Type 0 where
  pub system_id : Bytes
  pub oparam : Oparam

abbrev bind_transmitter_resp_members : List Member
bind_transmitter_resp_members = mem (c_octet_str 16) "system_id" ∷ mem smart "oparam" ∷ []

instance abbrev pub bind_transmitter_resp : PduMeta BindTransmitterResp
bind_transmitter_resp = record {
  command_id = CommandId.bind_transmitter_resp;
  members = bind_transmitter_resp_members;
  fields = λ pdu. (pdu.system_id, (pdu.oparam, tt));
  from_fields = λ (system_id, (oparam, _)). record { system_id = system_id; oparam = oparam };
  initial = record { system_id = []; oparam = [] };
  from_fields-fields = λ pdu. refl;
  fields-from_fields = λ vals. refl;
}

pub bind_transmitter_resp-PduLaws : PduLaws bind_transmitter_resp
bind_transmitter_resp-PduLaws = record {
  smart_is_last = (tt, tt);
  initial-IsPdu = omega arith;
  blank = λ pdu e.
      absurd
        (fields_bytes-ne-nil bind_transmitter_resp_members (bind_transmitter_resp.fields pdu) tt e);
}

-- struct bind_transceiver_resp
pub record BindTransceiverResp : Type 0 where
  pub system_id : Bytes
  pub oparam : Oparam

abbrev bind_transceiver_resp_members : List Member
bind_transceiver_resp_members = mem (c_octet_str 16) "system_id" ∷ mem smart "oparam" ∷ []

instance abbrev pub bind_transceiver_resp : PduMeta BindTransceiverResp
bind_transceiver_resp = record {
  command_id = CommandId.bind_transceiver_resp;
  members = bind_transceiver_resp_members;
  fields = λ pdu. (pdu.system_id, (pdu.oparam, tt));
  from_fields = λ (system_id, (oparam, _)). record { system_id = system_id; oparam = oparam };
  initial = record { system_id = []; oparam = [] };
  from_fields-fields = λ pdu. refl;
  fields-from_fields = λ vals. refl;
}

pub bind_transceiver_resp-PduLaws : PduLaws bind_transceiver_resp
bind_transceiver_resp-PduLaws = record {
  smart_is_last = (tt, tt);
  initial-IsPdu = omega arith;
  blank = λ pdu e.
      absurd
        (fields_bytes-ne-nil bind_transceiver_resp_members (bind_transceiver_resp.fields pdu) tt e);
}

-- struct outbind
pub record Outbind : Type 0 where
  pub system_id : Bytes
  pub password : Bytes

abbrev outbind_members : List Member
outbind_members = mem (c_octet_str 16) "system_id" ∷ mem (c_octet_str 9) "password" ∷ []

instance abbrev pub outbind : PduMeta Outbind
outbind = record {
  command_id = CommandId.outbind;
  members = outbind_members;
  fields = λ pdu. (pdu.system_id, (pdu.password, tt));
  from_fields = λ (system_id, (password, _)). record { system_id = system_id; password = password };
  initial = record { system_id = []; password = [] };
  from_fields-fields = λ pdu. refl;
  fields-from_fields = λ vals. refl;
}

pub outbind-PduLaws : PduLaws outbind
outbind-PduLaws = record {
  smart_is_last = (tt, tt);
  initial-IsPdu = omega arith;
  blank = λ pdu e. absurd (fields_bytes-ne-nil outbind_members (outbind.fields pdu) tt e);
}
