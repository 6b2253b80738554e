-- ===== src/Pdu/Bind.antt =====
-- include/smpp/pdu: the requests that open a session. Each record has the
-- fields of the struct, and its meta data lists them with their rules, as the code does.
use smpp.Common.{ℕ, refl, List, [], ◌∷◌, arith}
use smpp.Exceptions.{Bytes}
use smpp.CommandId
use smpp.Param.{npi_unknown, smpp_3_4, ton_unknown}
use smpp.Serialization.{c_octet_str, enum_u8, Member, mem, PduMeta}
use smpp.Serialization.Pdus.{PduLaws, fields_bytes-ne-nil}

-- struct bind_receiver
pub record BindReceiver : Type 0 where
  pub system_id : Bytes
  pub password : Bytes
  pub system_type : Bytes
  pub interface_version : ℕ
  pub addr_ton : ℕ
  pub addr_npi : ℕ
  pub address_range : Bytes

abbrev bind_receiver_members : List Member
bind_receiver_members =
    mem (c_octet_str 16) "system_id"
    ∷ mem (c_octet_str 9) "password"
    ∷ mem (c_octet_str 13) "system_type"
    ∷ mem enum_u8 "interface_version"
    ∷ mem enum_u8 "addr_ton"
    ∷ mem enum_u8 "addr_npi"
    ∷ mem (c_octet_str 41) "address_range"
    ∷ []

instance abbrev pub bind_receiver : PduMeta BindReceiver
bind_receiver = record {
  command_id = CommandId.bind_receiver;
  members = bind_receiver_members;
  fields = λ pdu. (
    pdu.system_id,
    (
      pdu.password,
      (
        pdu.system_type,
        (pdu.interface_version, (pdu.addr_ton, (pdu.addr_npi, (pdu.address_range, tt)))),
      ),
    ),
  );
  from_fields =
      λ (
        system_id,
        (password, (system_type, (interface_version, (addr_ton, (addr_npi, (address_range, _)))))),
      ).
        record {
          system_id = system_id;
          password = password;
          system_type = system_type;
          interface_version = interface_version;
          addr_ton = addr_ton;
          addr_npi = addr_npi;
          address_range = address_range;
        };
  initial = record {
    system_id = [];
    password = [];
    system_type = [];
    interface_version = smpp_3_4;
    addr_ton = ton_unknown;
    addr_npi = npi_unknown;
    address_range = [];
  };
  from_fields-fields = λ pdu. refl;
  fields-from_fields = λ vals. refl;
}

pub bind_receiver-PduLaws : PduLaws bind_receiver
bind_receiver-PduLaws = record {
  smart_is_last = (tt, (tt, (tt, (tt, (tt, (tt, tt))))));
  initial-IsPdu = omega arith;
  blank =
      λ pdu e. absurd (fields_bytes-ne-nil bind_receiver_members (bind_receiver.fields pdu) tt e);
}

-- struct bind_transmitter
pub record BindTransmitter : Type 0 where
  pub system_id : Bytes
  pub password : Bytes
  pub system_type : Bytes
  pub interface_version : ℕ
  pub addr_ton : ℕ
  pub addr_npi : ℕ
  pub address_range : Bytes

abbrev bind_transmitter_members : List Member
bind_transmitter_members =
    mem (c_octet_str 16) "system_id"
    ∷ mem (c_octet_str 9) "password"
    ∷ mem (c_octet_str 13) "system_type"
    ∷ mem enum_u8 "interface_version"
    ∷ mem enum_u8 "addr_ton"
    ∷ mem enum_u8 "addr_npi"
    ∷ mem (c_octet_str 41) "address_range"
    ∷ []

instance abbrev pub bind_transmitter : PduMeta BindTransmitter
bind_transmitter = record {
  command_id = CommandId.bind_transmitter;
  members = bind_transmitter_members;
  fields = λ pdu. (
    pdu.system_id,
    (
      pdu.password,
      (
        pdu.system_type,
        (pdu.interface_version, (pdu.addr_ton, (pdu.addr_npi, (pdu.address_range, tt)))),
      ),
    ),
  );
  from_fields =
      λ (
        system_id,
        (password, (system_type, (interface_version, (addr_ton, (addr_npi, (address_range, _)))))),
      ).
        record {
          system_id = system_id;
          password = password;
          system_type = system_type;
          interface_version = interface_version;
          addr_ton = addr_ton;
          addr_npi = addr_npi;
          address_range = address_range;
        };
  initial = record {
    system_id = [];
    password = [];
    system_type = [];
    interface_version = smpp_3_4;
    addr_ton = ton_unknown;
    addr_npi = npi_unknown;
    address_range = [];
  };
  from_fields-fields = λ pdu. refl;
  fields-from_fields = λ vals. refl;
}

pub bind_transmitter-PduLaws : PduLaws bind_transmitter
bind_transmitter-PduLaws = record {
  smart_is_last = (tt, (tt, (tt, (tt, (tt, (tt, tt))))));
  initial-IsPdu = omega arith;
  blank = λ pdu e.
      absurd (fields_bytes-ne-nil bind_transmitter_members (bind_transmitter.fields pdu) tt e);
}

-- struct bind_transceiver
pub record BindTransceiver : Type 0 where
  pub system_id : Bytes
  pub password : Bytes
  pub system_type : Bytes
  pub interface_version : ℕ
  pub addr_ton : ℕ
  pub addr_npi : ℕ
  pub address_range : Bytes

abbrev bind_transceiver_members : List Member
bind_transceiver_members =
    mem (c_octet_str 16) "system_id"
    ∷ mem (c_octet_str 9) "password"
    ∷ mem (c_octet_str 13) "system_type"
    ∷ mem enum_u8 "interface_version"
    ∷ mem enum_u8 "addr_ton"
    ∷ mem enum_u8 "addr_npi"
    ∷ mem (c_octet_str 41) "address_range"
    ∷ []

instance abbrev pub bind_transceiver : PduMeta BindTransceiver
bind_transceiver = record {
  command_id = CommandId.bind_transceiver;
  members = bind_transceiver_members;
  fields = λ pdu. (
    pdu.system_id,
    (
      pdu.password,
      (
        pdu.system_type,
        (pdu.interface_version, (pdu.addr_ton, (pdu.addr_npi, (pdu.address_range, tt)))),
      ),
    ),
  );
  from_fields =
      λ (
        system_id,
        (password, (system_type, (interface_version, (addr_ton, (addr_npi, (address_range, _)))))),
      ).
        record {
          system_id = system_id;
          password = password;
          system_type = system_type;
          interface_version = interface_version;
          addr_ton = addr_ton;
          addr_npi = addr_npi;
          address_range = address_range;
        };
  initial = record {
    system_id = [];
    password = [];
    system_type = [];
    interface_version = smpp_3_4;
    addr_ton = ton_unknown;
    addr_npi = npi_unknown;
    address_range = [];
  };
  from_fields-fields = λ pdu. refl;
  fields-from_fields = λ vals. refl;
}

pub bind_transceiver-PduLaws : PduLaws bind_transceiver
bind_transceiver-PduLaws = record {
  smart_is_last = (tt, (tt, (tt, (tt, (tt, (tt, tt))))));
  initial-IsPdu = omega arith;
  blank = λ pdu e.
      absurd (fields_bytes-ne-nil bind_transceiver_members (bind_transceiver.fields pdu) tt e);
}
