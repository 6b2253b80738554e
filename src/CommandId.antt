-- ===== src/CommandId.antt =====
-- include/smpp/common/command_id.hpp and is_response.hpp. An enum with a fixed underlying type
-- holds every value of that type, so a command_id is a uint32_t with named values.
use smpp.Common.{ℕ, ◌==◌, bit_and, Bool, not}

abbrev pub CommandId : Type 0
CommandId = ℕ

abbrev pub generic_nack : CommandId
generic_nack = 0x8000_0000

abbrev pub bind_receiver : CommandId
bind_receiver = 0x0000_0001

abbrev pub bind_receiver_resp : CommandId
bind_receiver_resp = 0x8000_0001

abbrev pub bind_transmitter : CommandId
bind_transmitter = 0x0000_0002

abbrev pub bind_transmitter_resp : CommandId
bind_transmitter_resp = 0x8000_0002

abbrev pub query_sm : CommandId
query_sm = 0x0000_0003

abbrev pub query_sm_resp : CommandId
query_sm_resp = 0x8000_0003

abbrev pub submit_sm : CommandId
submit_sm = 0x0000_0004

abbrev pub submit_sm_resp : CommandId
submit_sm_resp = 0x8000_0004

abbrev pub deliver_sm : CommandId
deliver_sm = 0x0000_0005

abbrev pub deliver_sm_resp : CommandId
deliver_sm_resp = 0x8000_0005

abbrev pub unbind : CommandId
unbind = 0x0000_0006

abbrev pub unbind_resp : CommandId
unbind_resp = 0x8000_0006

abbrev pub replace_sm : CommandId
replace_sm = 0x0000_0007

abbrev pub replace_sm_resp : CommandId
replace_sm_resp = 0x8000_0007

abbrev pub cancel_sm : CommandId
cancel_sm = 0x0000_0008

abbrev pub cancel_sm_resp : CommandId
cancel_sm_resp = 0x8000_0008

abbrev pub bind_transceiver : CommandId
bind_transceiver = 0x0000_0009

abbrev pub bind_transceiver_resp : CommandId
bind_transceiver_resp = 0x8000_0009

abbrev pub outbind : CommandId
outbind = 0x0000_000b

abbrev pub enquire_link : CommandId
enquire_link = 0x0000_0015

abbrev pub enquire_link_resp : CommandId
enquire_link_resp = 0x8000_0015

abbrev pub submit_multi : CommandId
submit_multi = 0x0000_0021

abbrev pub submit_multi_resp : CommandId
submit_multi_resp = 0x8000_0021

abbrev pub alert_notification : CommandId
alert_notification = 0x0000_0102

abbrev pub data_sm : CommandId
data_sm = 0x0000_0103

abbrev pub data_sm_resp : CommandId
data_sm_resp = 0x8000_0103

-- The conversion of the masked value to bool.
pub is_response : CommandId → Bool
is_response command_id = not (bit_and command_id 0x8000_0000 == 0)

-- The concepts on PDU types, by the command_id of the type.
unfoldable pub request_pdu : CommandId → Bool
unfolding is_response
request_pdu command_id = not (is_response command_id)

unfoldable pub response_pdu : CommandId → Bool
unfolding is_response
response_pdu command_id = is_response command_id
