-- ===== src/Param.antt =====
-- include/smpp/param: the parameters of the PDUs that are no plain numbers or strings. An enum with
-- the underlying type uint8_t holds each of the 256 values, so it is a number with named values.
pub mod Flags
use smpp.Common.{ℕ, bit_and, bit_or}

-- ton.hpp, npi.hpp, priority_flag.hpp, replace_if_present_flag.hpp, data_coding.hpp,
-- interface_version.hpp and message_state.hpp: the values that a PDU has by default.
abbrev pub ton_unknown : ℕ
ton_unknown = 0x00

abbrev pub npi_unknown : ℕ
npi_unknown = 0x00

abbrev pub gsm_non_priority : ℕ
gsm_non_priority = 0x00

abbrev pub replace_if_present_no : ℕ
replace_if_present_no = 0x00

abbrev pub data_coding_defaults : ℕ
data_coding_defaults = 0x00

abbrev pub smpp_3_4 : ℕ
smpp_3_4 = 0x34

abbrev pub message_state_unknown : ℕ
message_state_unknown = 0x07

-- esm_class.hpp
pub record EsmClass : Type 0 where
  pub messaging_mode : ℕ
  pub message_type : ℕ
  pub gsm_network_features : ℕ

abbrev pub gsm_uhdi : ℕ
gsm_uhdi = 0x40

abbrev pub gsm_both : ℕ
gsm_both = 0xc0

abbrev pub esm_class_default : EsmClass
esm_class_default = record {
  messaging_mode = 0x00;
  message_type = 0x00;
  gsm_network_features = 0x00;
}

pub esm_class_from_u8 : ℕ → EsmClass
esm_class_from_u8 value = record {
  messaging_mode = bit_and value 0x03;
  message_type = bit_and value 0x3c;
  gsm_network_features = bit_and value 0xc0;
}

-- operator uint8_t
pub esm_class_to_u8 : EsmClass → ℕ
esm_class_to_u8 e = bit_or (bit_or e.messaging_mode e.message_type) e.gsm_network_features

-- registered_delivery.hpp
pub record RegisteredDelivery : Type 0 where
  pub smsc_delivery_receipt : ℕ
  pub sme_originated_ack : ℕ
  pub intermediate_notification : ℕ

abbrev pub registered_delivery_default : RegisteredDelivery
registered_delivery_default = record {
  smsc_delivery_receipt = 0x00;
  sme_originated_ack = 0x00;
  intermediate_notification = 0x00;
}

pub registered_delivery_from_u8 : ℕ → RegisteredDelivery
registered_delivery_from_u8 value = record {
  smsc_delivery_receipt = bit_and value 0x03;
  sme_originated_ack = bit_and value 0x0c;
  intermediate_notification = bit_and value 0x10;
}

pub registered_delivery_to_u8 : RegisteredDelivery → ℕ
registered_delivery_to_u8 r =
    bit_or (bit_or r.smsc_delivery_receipt r.sme_originated_ack) r.intermediate_notification
