-- ===== src/Net/PduVariant/Dispatch.antt =====
-- The dispatch on the command_id: the variant's types have distinct ids, so each body is read by
-- its own type.
use smpp.Common.{◌≡◌, ap}
use smpp.Exceptions.{Bytes, Result, ok, ◌>>=◌}
use smpp.CommandId.{CommandId}
use smpp.Serialization.{PduMeta, deserialize}
use smpp.Serialization.Pdus.{PduLaws, IsPdu, pdu_bytes, deserialize-bytes}
use smpp.Net.PduVariant.{PduVariant, invalid_pdu, deserialize_variant}
use smpp.Net.PduVariant.{
  alert_notification_pdu, bind_receiver_pdu, bind_receiver_resp_pdu, bind_transceiver_pdu,
}
use smpp.Net.PduVariant.{
  bind_transceiver_resp_pdu, bind_transmitter_pdu, bind_transmitter_resp_pdu, cancel_sm_pdu,
}
use smpp.Net.PduVariant.{cancel_sm_resp_pdu, data_sm_pdu, data_sm_resp_pdu, deliver_sm_pdu}
use smpp.Net.PduVariant.{deliver_sm_resp_pdu, generic_nack_pdu, outbind_pdu, query_sm_pdu}
use smpp.Net.PduVariant.{query_sm_resp_pdu, replace_sm_pdu, replace_sm_resp_pdu, submit_sm_pdu}
use smpp.Net.PduVariant.{submit_sm_resp_pdu}
use smpp.Pdu.Bind.{
  bind_receiver, bind_receiver-PduLaws, bind_transmitter, bind_transmitter-PduLaws,
  bind_transceiver, bind_transceiver-PduLaws,
}
use smpp.Pdu.BindResp.{
  bind_receiver_resp, bind_receiver_resp-PduLaws, bind_transmitter_resp,
  bind_transmitter_resp-PduLaws, bind_transceiver_resp, bind_transceiver_resp-PduLaws, outbind,
  outbind-PduLaws,
}
use smpp.Pdu.Submit.{submit_sm, submit_sm-PduLaws, submit_sm_resp, submit_sm_resp-PduLaws}
use smpp.Pdu.Deliver.{deliver_sm, deliver_sm-PduLaws, deliver_sm_resp, deliver_sm_resp-PduLaws}
use smpp.Pdu.Transfer.{
  data_sm, data_sm-PduLaws, data_sm_resp, data_sm_resp-PduLaws, alert_notification,
  alert_notification-PduLaws, generic_nack, generic_nack-PduLaws,
}
use smpp.Pdu.Query.{
  query_sm, query_sm-PduLaws, query_sm_resp, query_sm_resp-PduLaws, cancel_sm, cancel_sm-PduLaws,
  cancel_sm_resp, cancel_sm_resp-PduLaws,
}
use smpp.Pdu.Replace.{replace_sm, replace_sm-PduLaws, replace_sm_resp, replace_sm_resp-PduLaws}

-- The command_id of the PDU type, which an invalid_pdu does not have.
abbrev pub variant_id : PduVariant → CommandId
variant_id (alert_notification_pdu pdu) = alert_notification.command_id
variant_id (bind_receiver_pdu pdu) = bind_receiver.command_id
variant_id (bind_receiver_resp_pdu pdu) = bind_receiver_resp.command_id
variant_id (bind_transceiver_pdu pdu) = bind_transceiver.command_id
variant_id (bind_transceiver_resp_pdu pdu) = bind_transceiver_resp.command_id
variant_id (bind_transmitter_pdu pdu) = bind_transmitter.command_id
variant_id (bind_transmitter_resp_pdu pdu) = bind_transmitter_resp.command_id
variant_id (cancel_sm_pdu pdu) = cancel_sm.command_id
variant_id (cancel_sm_resp_pdu pdu) = cancel_sm_resp.command_id
variant_id (data_sm_pdu pdu) = data_sm.command_id
variant_id (data_sm_resp_pdu pdu) = data_sm_resp.command_id
variant_id (deliver_sm_pdu pdu) = deliver_sm.command_id
variant_id (deliver_sm_resp_pdu pdu) = deliver_sm_resp.command_id
variant_id (generic_nack_pdu pdu) = generic_nack.command_id
variant_id (outbind_pdu pdu) = outbind.command_id
variant_id (query_sm_pdu pdu) = query_sm.command_id
variant_id (query_sm_resp_pdu pdu) = query_sm_resp.command_id
variant_id (replace_sm_pdu pdu) = replace_sm.command_id
variant_id (replace_sm_resp_pdu pdu) = replace_sm_resp.command_id
variant_id (submit_sm_pdu pdu) = submit_sm.command_id
variant_id (submit_sm_resp_pdu pdu) = submit_sm_resp.command_id
variant_id (invalid_pdu pdu) = 0

abbrev pub variant_body : PduVariant → Bytes
variant_body (alert_notification_pdu pdu) = pdu_bytes alert_notification pdu
variant_body (bind_receiver_pdu pdu) = pdu_bytes bind_receiver pdu
variant_body (bind_receiver_resp_pdu pdu) = pdu_bytes bind_receiver_resp pdu
variant_body (bind_transceiver_pdu pdu) = pdu_bytes bind_transceiver pdu
variant_body (bind_transceiver_resp_pdu pdu) = pdu_bytes bind_transceiver_resp pdu
variant_body (bind_transmitter_pdu pdu) = pdu_bytes bind_transmitter pdu
variant_body (bind_transmitter_resp_pdu pdu) = pdu_bytes bind_transmitter_resp pdu
variant_body (cancel_sm_pdu pdu) = pdu_bytes cancel_sm pdu
variant_body (cancel_sm_resp_pdu pdu) = pdu_bytes cancel_sm_resp pdu
variant_body (data_sm_pdu pdu) = pdu_bytes data_sm pdu
variant_body (data_sm_resp_pdu pdu) = pdu_bytes data_sm_resp pdu
variant_body (deliver_sm_pdu pdu) = pdu_bytes deliver_sm pdu
variant_body (deliver_sm_resp_pdu pdu) = pdu_bytes deliver_sm_resp pdu
variant_body (generic_nack_pdu pdu) = pdu_bytes generic_nack pdu
variant_body (outbind_pdu pdu) = pdu_bytes outbind pdu
variant_body (query_sm_pdu pdu) = pdu_bytes query_sm pdu
variant_body (query_sm_resp_pdu pdu) = pdu_bytes query_sm_resp pdu
variant_body (replace_sm_pdu pdu) = pdu_bytes replace_sm pdu
variant_body (replace_sm_resp_pdu pdu) = pdu_bytes replace_sm_resp pdu
variant_body (submit_sm_pdu pdu) = pdu_bytes submit_sm pdu
variant_body (submit_sm_resp_pdu pdu) = pdu_bytes submit_sm_resp pdu
variant_body (invalid_pdu pdu) = pdu.buffer

-- A PDU of one of the 21 types whose fields the rules can carry.
abbrev pub IsVariant : PduVariant → Type 0
IsVariant (alert_notification_pdu pdu) = IsPdu alert_notification pdu
IsVariant (bind_receiver_pdu pdu) = IsPdu bind_receiver pdu
IsVariant (bind_receiver_resp_pdu pdu) = IsPdu bind_receiver_resp pdu
IsVariant (bind_transceiver_pdu pdu) = IsPdu bind_transceiver pdu
IsVariant (bind_transceiver_resp_pdu pdu) = IsPdu bind_transceiver_resp pdu
IsVariant (bind_transmitter_pdu pdu) = IsPdu bind_transmitter pdu
IsVariant (bind_transmitter_resp_pdu pdu) = IsPdu bind_transmitter_resp pdu
IsVariant (cancel_sm_pdu pdu) = IsPdu cancel_sm pdu
IsVariant (cancel_sm_resp_pdu pdu) = IsPdu cancel_sm_resp pdu
IsVariant (data_sm_pdu pdu) = IsPdu data_sm pdu
IsVariant (data_sm_resp_pdu pdu) = IsPdu data_sm_resp pdu
IsVariant (deliver_sm_pdu pdu) = IsPdu deliver_sm pdu
IsVariant (deliver_sm_resp_pdu pdu) = IsPdu deliver_sm_resp pdu
IsVariant (generic_nack_pdu pdu) = IsPdu generic_nack pdu
IsVariant (outbind_pdu pdu) = IsPdu outbind pdu
IsVariant (query_sm_pdu pdu) = IsPdu query_sm pdu
IsVariant (query_sm_resp_pdu pdu) = IsPdu query_sm_resp pdu
IsVariant (replace_sm_pdu pdu) = IsPdu replace_sm pdu
IsVariant (replace_sm_resp_pdu pdu) = IsPdu replace_sm_resp pdu
IsVariant (submit_sm_pdu pdu) = IsPdu submit_sm pdu
IsVariant (submit_sm_resp_pdu pdu) = IsPdu submit_sm_resp pdu
IsVariant (invalid_pdu pdu) = ⊥

injected :
    {S : Type 0} (meta : PduMeta S) (laws : PduLaws meta) (inject : S → PduVariant) (pdu : S)
    → IsPdu meta pdu
    → (deserialize ⦃meta = meta⦄ (pdu_bytes meta pdu) >>= λ p. ok (inject p)) ≡ ok (inject pdu)
injected meta laws inject pdu h =
    ap (λ (r : Result _). r >>= λ p. ok (inject p)) (deserialize-bytes ⦃meta = meta⦄ laws pdu h)

-- The body of a PDU of the 21 types whose fields its rules can carry is read by the dispatch of the
-- receive operation, under the type's command_id, as that PDU.
pub deserialize_variant-variant_body :
    (v : PduVariant) → IsVariant v → deserialize_variant (variant_id v) (variant_body v) ≡ ok v
unfolding deserialize_variant
deserialize_variant-variant_body (alert_notification_pdu pdu) h =
    injected alert_notification alert_notification-PduLaws alert_notification_pdu pdu h
deserialize_variant-variant_body (bind_receiver_pdu pdu) h =
    injected bind_receiver bind_receiver-PduLaws bind_receiver_pdu pdu h
deserialize_variant-variant_body (bind_receiver_resp_pdu pdu) h =
    injected bind_receiver_resp bind_receiver_resp-PduLaws bind_receiver_resp_pdu pdu h
deserialize_variant-variant_body (bind_transceiver_pdu pdu) h =
    injected bind_transceiver bind_transceiver-PduLaws bind_transceiver_pdu pdu h
deserialize_variant-variant_body (bind_transceiver_resp_pdu pdu) h =
    injected bind_transceiver_resp bind_transceiver_resp-PduLaws bind_transceiver_resp_pdu pdu h
deserialize_variant-variant_body (bind_transmitter_pdu pdu) h =
    injected bind_transmitter bind_transmitter-PduLaws bind_transmitter_pdu pdu h
deserialize_variant-variant_body (bind_transmitter_resp_pdu pdu) h =
    injected bind_transmitter_resp bind_transmitter_resp-PduLaws bind_transmitter_resp_pdu pdu h
deserialize_variant-variant_body (cancel_sm_pdu pdu) h =
    injected cancel_sm cancel_sm-PduLaws cancel_sm_pdu pdu h
deserialize_variant-variant_body (cancel_sm_resp_pdu pdu) h =
    injected cancel_sm_resp cancel_sm_resp-PduLaws cancel_sm_resp_pdu pdu h
deserialize_variant-variant_body (data_sm_pdu pdu) h =
    injected data_sm data_sm-PduLaws data_sm_pdu pdu h
deserialize_variant-variant_body (data_sm_resp_pdu pdu) h =
    injected data_sm_resp data_sm_resp-PduLaws data_sm_resp_pdu pdu h
deserialize_variant-variant_body (deliver_sm_pdu pdu) h =
    injected deliver_sm deliver_sm-PduLaws deliver_sm_pdu pdu h
deserialize_variant-variant_body (deliver_sm_resp_pdu pdu) h =
    injected deliver_sm_resp deliver_sm_resp-PduLaws deliver_sm_resp_pdu pdu h
deserialize_variant-variant_body (generic_nack_pdu pdu) h =
    injected generic_nack generic_nack-PduLaws generic_nack_pdu pdu h
deserialize_variant-variant_body (outbind_pdu pdu) h =
    injected outbind outbind-PduLaws outbind_pdu pdu h
deserialize_variant-variant_body (query_sm_pdu pdu) h =
    injected query_sm query_sm-PduLaws query_sm_pdu pdu h
deserialize_variant-variant_body (query_sm_resp_pdu pdu) h =
    injected query_sm_resp query_sm_resp-PduLaws query_sm_resp_pdu pdu h
deserialize_variant-variant_body (replace_sm_pdu pdu) h =
    injected replace_sm replace_sm-PduLaws replace_sm_pdu pdu h
deserialize_variant-variant_body (replace_sm_resp_pdu pdu) h =
    injected replace_sm_resp replace_sm_resp-PduLaws replace_sm_resp_pdu pdu h
deserialize_variant-variant_body (submit_sm_pdu pdu) h =
    injected submit_sm submit_sm-PduLaws submit_sm_pdu pdu h
deserialize_variant-variant_body (submit_sm_resp_pdu pdu) h =
    injected submit_sm_resp submit_sm_resp-PduLaws submit_sm_resp_pdu pdu h
deserialize_variant-variant_body (invalid_pdu pdu) h = absurd h
