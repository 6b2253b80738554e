-- ===== src/Enums/OparamTag.antt =====
-- include/smpp/param/oparam_tag.hpp: the enumerators of oparam_tag, which has the underlying type uint16_t.
use smpp.Common.{ℕ}

pub data OparamTag : Type 0 where
  na : OparamTag
  dest_addr_subunit : OparamTag
  dest_network_type : OparamTag
  dest_bearer_type : OparamTag
  dest_telematics_id : OparamTag
  source_addr_subunit : OparamTag
  source_network_type : OparamTag
  source_bearer_type : OparamTag
  source_telematics_id : OparamTag
  qos_time_to_live : OparamTag
  payload_type : OparamTag
  additional_status_info_text : OparamTag
  receipted_message_id : OparamTag
  ms_msg_wait_facilities : OparamTag
  privacy_indicator : OparamTag
  source_subaddress : OparamTag
  dest_subaddress : OparamTag
  user_message_reference : OparamTag
  user_response_code : OparamTag
  source_port : OparamTag
  destination_port : OparamTag
  sar_msg_ref_num : OparamTag
  language_indicator : OparamTag
  sar_total_segments : OparamTag
  sar_segment_seqnum : OparamTag
  sc_interface_version : OparamTag
  callback_num_pres_ind : OparamTag
  callback_num_atag : OparamTag
  number_of_messages : OparamTag
  callback_num : OparamTag
  dpf_result : OparamTag
  set_dpf : OparamTag
  ms_availability_status : OparamTag
  network_error_code : OparamTag
  message_payload : OparamTag
  delivery_failure_reason : OparamTag
  more_messages_to_send : OparamTag
  message_state : OparamTag
  ussd_service_op : OparamTag
  display_time : OparamTag
  sms_signal : OparamTag
  ms_validity : OparamTag
  alert_on_message_delivery : OparamTag
  its_reply_type : OparamTag
  its_session_info : OparamTag

unfoldable pub to_u16 : OparamTag → ℕ
to_u16 na = 0x0000
to_u16 dest_addr_subunit = 0x0005
to_u16 dest_network_type = 0x0006
to_u16 dest_bearer_type = 0x0007
to_u16 dest_telematics_id = 0x0008
to_u16 source_addr_subunit = 0x000d
to_u16 source_network_type = 0x000e
to_u16 source_bearer_type = 0x000f
to_u16 source_telematics_id = 0x0010
to_u16 qos_time_to_live = 0x0017
to_u16 payload_type = 0x0019
to_u16 additional_status_info_text = 0x001d
to_u16 receipted_message_id = 0x001e
to_u16 ms_msg_wait_facilities = 0x0030
to_u16 privacy_indicator = 0x0201
to_u16 source_subaddress = 0x0202
to_u16 dest_subaddress = 0x0203
to_u16 user_message_reference = 0x0204
to_u16 user_response_code = 0x0205
to_u16 source_port = 0x020a
to_u16 destination_port = 0x020b
to_u16 sar_msg_ref_num = 0x020c
to_u16 language_indicator = 0x020d
to_u16 sar_total_segments = 0x020e
to_u16 sar_segment_seqnum = 0x020f
to_u16 sc_interface_version = 0x0210
to_u16 callback_num_pres_ind = 0x0302
to_u16 callback_num_atag = 0x0303
to_u16 number_of_messages = 0x0304
to_u16 callback_num = 0x0381
to_u16 dpf_result = 0x0420
to_u16 set_dpf = 0x0421
to_u16 ms_availability_status = 0x0422
to_u16 network_error_code = 0x0423
to_u16 message_payload = 0x0424
to_u16 delivery_failure_reason = 0x0425
to_u16 more_messages_to_send = 0x0426
to_u16 message_state = 0x0427
to_u16 ussd_service_op = 0x0501
to_u16 display_time = 0x1201
to_u16 sms_signal = 0x1203
to_u16 ms_validity = 0x1204
to_u16 alert_on_message_delivery = 0x130c
to_u16 its_reply_type = 0x1380
to_u16 its_session_info = 0x1383
