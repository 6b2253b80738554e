-- ===== src/Net/PduVariant.antt =====
-- include/smpp/net/pdu_variant.hpp and invalid_pdu.hpp, and the part of session::receive_op that
-- picks the PDU type of a received body (include/smpp/net/session.hpp).
pub mod Dispatch
pub mod Total
use Prim.Native.String.{String}
use smpp.Common.{ℕ, ◌==◌, if◌then◌else◌}
use smpp.Exceptions.{Bytes, Exception, length_error, runtime_error, logic_error}
use smpp.Exceptions.{Result, ok, throws, stuck, ◌>>=◌}
use smpp.CommandId.{CommandId}
use smpp.Serialization.{PduMeta, deserialize}
use smpp.Pdu.Bind.{
  BindReceiver, bind_receiver, BindTransmitter, bind_transmitter, BindTransceiver, bind_transceiver,
}
use smpp.Pdu.BindResp.{
  BindReceiverResp, bind_receiver_resp, BindTransmitterResp, bind_transmitter_resp,
  BindTransceiverResp, bind_transceiver_resp, Outbind, outbind,
}
use smpp.Pdu.Submit.{SubmitSm, submit_sm, SubmitSmResp, submit_sm_resp}
use smpp.Pdu.Deliver.{DeliverSm, deliver_sm, DeliverSmResp, deliver_sm_resp}
use smpp.Pdu.Transfer.{
  DataSm, data_sm, DataSmResp, data_sm_resp, AlertNotification, alert_notification, GenericNack,
  generic_nack,
}
use smpp.Pdu.Query.{
  QuerySm, query_sm, QuerySmResp, query_sm_resp, CancelSm, cancel_sm, CancelSmResp, cancel_sm_resp,
}
use smpp.Pdu.Replace.{ReplaceSm, replace_sm, ReplaceSmResp, replace_sm_resp}

pub record InvalidPdu : Type 0 where
  pub buffer : Bytes
  pub deserialization_error : String

pub data PduVariant : Type 0 where
  alert_notification_pdu : AlertNotification → PduVariant
  bind_receiver_pdu : BindReceiver → PduVariant
  bind_receiver_resp_pdu : BindReceiverResp → PduVariant
  bind_transceiver_pdu : BindTransceiver → PduVariant
  bind_transceiver_resp_pdu : BindTransceiverResp → PduVariant
  bind_transmitter_pdu : BindTransmitter → PduVariant
  bind_transmitter_resp_pdu : BindTransmitterResp → PduVariant
  cancel_sm_pdu : CancelSm → PduVariant
  cancel_sm_resp_pdu : CancelSmResp → PduVariant
  data_sm_pdu : DataSm → PduVariant
  data_sm_resp_pdu : DataSmResp → PduVariant
  deliver_sm_pdu : DeliverSm → PduVariant
  deliver_sm_resp_pdu : DeliverSmResp → PduVariant
  generic_nack_pdu : GenericNack → PduVariant
  outbind_pdu : Outbind → PduVariant
  query_sm_pdu : QuerySm → PduVariant
  query_sm_resp_pdu : QuerySmResp → PduVariant
  replace_sm_pdu : ReplaceSm → PduVariant
  replace_sm_resp_pdu : ReplaceSmResp → PduVariant
  submit_sm_pdu : SubmitSm → PduVariant
  submit_sm_resp_pdu : SubmitSmResp → PduVariant
  invalid_pdu : InvalidPdu → PduVariant

-- std::exception::what
abbrev pub what : Exception → String
what (length_error text) = text
what (runtime_error text) = text
what (logic_error text) = text

-- One operand of the fold over `||`: the type's command_id is compared, and its body is read.
abbrev pub alternative :
    {S : Type 0} (meta : PduMeta S)
    → (S → PduVariant)
    → CommandId
    → Bytes
    → Result PduVariant
    → Result PduVariant
alternative meta inject command_id body others =
    if command_id == meta.command_id
    then (deserialize ⦃meta = meta⦄ body >>= λ pdu. ok (inject pdu))
    else others

-- The alternatives in the order of the variant.
unfoldable pub deserialize_variant : CommandId → Bytes → Result PduVariant
deserialize_variant command_id body =
    alternative alert_notification alert_notification_pdu command_id body (
      alternative bind_receiver bind_receiver_pdu command_id body (
        alternative bind_receiver_resp bind_receiver_resp_pdu command_id body (
          alternative bind_transceiver bind_transceiver_pdu command_id body (
            alternative bind_transceiver_resp bind_transceiver_resp_pdu command_id body (
              alternative bind_transmitter bind_transmitter_pdu command_id body (
                alternative bind_transmitter_resp bind_transmitter_resp_pdu command_id body (
                  alternative cancel_sm cancel_sm_pdu command_id body (
                    alternative cancel_sm_resp cancel_sm_resp_pdu command_id body (
                      alternative data_sm data_sm_pdu command_id body (
                        alternative data_sm_resp data_sm_resp_pdu command_id body (
                          alternative deliver_sm deliver_sm_pdu command_id body (
                            alternative deliver_sm_resp deliver_sm_resp_pdu command_id body (
                              alternative generic_nack generic_nack_pdu command_id body (
                                alternative outbind outbind_pdu command_id body (
                                  alternative query_sm query_sm_pdu command_id body (
                                    alternative query_sm_resp query_sm_resp_pdu command_id body (
                                      alternative replace_sm replace_sm_pdu command_id body (
                                        alternative replace_sm_resp replace_sm_resp_pdu command_id
                                          body
                                          (alternative submit_sm submit_sm_pdu command_id body (
                                            alternative submit_sm_resp submit_sm_resp_pdu command_id
                                              body
                                              (throws
                                                (logic_error "Unknown PDU"))))))))))))))))))))))

-- The handler of the exceptions keeps the whole PDU, its header included.
unfoldable pub receive_pdu : CommandId → Bytes → Bytes → Result PduVariant
receive_pdu command_id pdu_buf body_buf = elim (deserialize_variant command_id body_buf) [
  | ok pdu ↦ ok pdu
  | throws e ↦ ok (invalid_pdu (record { buffer = pdu_buf; deserialization_error = what e }))
  | stuck ↦ stuck
]
