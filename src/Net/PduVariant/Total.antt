-- ===== src/Net/PduVariant/Total.antt =====
-- Receiving any PDU, known or not: what the caller of async_receive is given.
use smpp.Common.{◌==◌, ◌≡◌, ◌≢◌, refl, ◌∙◌, All, List, [], ◌∷◌, inl, inr, Bool-cases, arith}
use smpp.Exceptions.{Bytes, IsByte, Exception, logic_error, Result, ok, throws, stuck, ◌>>=◌}
use smpp.CommandId.{CommandId}
use smpp.Serialization.{PduMeta}
use smpp.Serialization.Pdus.{PduLaws, IsPdu, Parses, parses, rejects, deserialize-Parses}
use smpp.Net.PduVariant.{
  PduVariant, InvalidPdu, invalid_pdu, deserialize_variant, receive_pdu, alternative, what,
}
use smpp.Net.PduVariant.Dispatch.{IsVariant}
use smpp.Net.PduVariant.{
  alert_notification_pdu, bind_receiver_pdu, bind_receiver_resp_pdu, bind_transceiver_pdu,
}
use smpp.Net.PduVariant.{
  bind_transceiver_resp_pdu, bind_transmitter_pdu, bind_transmitter_resp_pdu, cancel_sm_pdu,
}
use smpp.Net.PduVariant.{cancel_sm_resp_pdu, data_sm_pdu, data_sm_resp_pdu, deliver_sm_pdu}
use smpp.Net.PduVariant.{deliver_sm_resp_pdu, generic_nack_pdu, outbind_pdu, query_sm_pdu}
use smpp.Net.PduVariant.{query_sm_resp_pdu, replace_sm_pdu, replace_sm_resp_pdu, submit_sm_pdu}
use smpp.Net.PduVariant.{submit_sm_resp_pdu}
use smpp.Pdu.Bind.{
  bind_receiver, bind_receiver-PduLaws, bind_transmitter, bind_transmitter-PduLaws,
  bind_transceiver, bind_transceiver-PduLaws,
}
use smpp.Pdu.BindResp.{
  bind_receiver_resp, bind_receiver_resp-PduLaws, bind_transmitter_resp,
  bind_transmitter_resp-PduLaws, bind_transceiver_resp, bind_transceiver_resp-PduLaws, outbind,
  outbind-PduLaws,
}
use smpp.Pdu.Submit.{submit_sm, submit_sm-PduLaws, submit_sm_resp, submit_sm_resp-PduLaws}
use smpp.Pdu.Deliver.{deliver_sm, deliver_sm-PduLaws, deliver_sm_resp, deliver_sm_resp-PduLaws}
use smpp.Pdu.Transfer.{
  data_sm, data_sm-PduLaws, data_sm_resp, data_sm_resp-PduLaws, alert_notification,
  alert_notification-PduLaws, generic_nack, generic_nack-PduLaws,
}
use smpp.Pdu.Query.{
  query_sm, query_sm-PduLaws, query_sm_resp, query_sm_resp-PduLaws, cancel_sm, cancel_sm-PduLaws,
  cancel_sm_resp, cancel_sm_resp-PduLaws,
}
use smpp.Pdu.Replace.{replace_sm, replace_sm-PduLaws, replace_sm_resp, replace_sm_resp-PduLaws}

-- The outcomes of the dispatch: a PDU of the 21 types that can be serialized, or an exception.
pub data Dispatched : Result PduVariant → Type 0 where
  found : (v : PduVariant) → IsVariant v → Dispatched (ok v)
  refused : (e : Exception) → Dispatched (throws e)

module _ {S : Type 0} (meta : PduMeta S) (laws : PduLaws meta) (inject : S → PduVariant) where
  inject-Dispatched :
      ((pdu : S) → IsPdu meta pdu → IsVariant (inject pdu))
      → {r : Result S} → Parses ⦃meta = meta⦄ r
      → Dispatched (r >>= λ pdu. ok (inject pdu))
  inject-Dispatched good (parses pdu h) = found (inject pdu) (good pdu h)
  inject-Dispatched good (rejects e) = refused e

  alternative-Dispatched :
      ((pdu : S) → IsPdu meta pdu → IsVariant (inject pdu))
      → (command_id : CommandId) (body : Bytes) (others : Result PduVariant) → All IsByte body
      → Dispatched others
      → Dispatched (alternative meta inject command_id body others)
  alternative-Dispatched good command_id body others v d =
      elim (Bool-cases (command_id == meta.command_id)) [
        | inl hit ↦ rw hit (inject-Dispatched good (deserialize-Parses ⦃meta = meta⦄ laws body v))
        | inr miss ↦ rw miss d
      ]

  alternative-others :
      (command_id : CommandId) (body : Bytes) (others : Result PduVariant)
      → command_id ≢ meta.command_id
      → alternative meta inject command_id body others ≡ others
  alternative-others command_id body others h = ground arith

deserialize_variant-Dispatched :
    (command_id : CommandId) (body : Bytes)
    → All IsByte body
    → Dispatched (deserialize_variant command_id body)
unfolding deserialize_variant
deserialize_variant-Dispatched command_id body v =
    alternative-Dispatched alert_notification alert_notification-PduLaws alert_notification_pdu
      (λ p h. h) command_id body _ v
      (alternative-Dispatched bind_receiver bind_receiver-PduLaws bind_receiver_pdu (λ p h. h)
        command_id body _ v
        (alternative-Dispatched bind_receiver_resp bind_receiver_resp-PduLaws bind_receiver_resp_pdu
          (λ p h. h) command_id body _ v
          (alternative-Dispatched bind_transceiver bind_transceiver-PduLaws bind_transceiver_pdu
            (λ p h. h) command_id body _ v
            (alternative-Dispatched bind_transceiver_resp bind_transceiver_resp-PduLaws
              bind_transceiver_resp_pdu (λ p h. h) command_id body _ v
              (alternative-Dispatched bind_transmitter bind_transmitter-PduLaws bind_transmitter_pdu
                (λ p h. h) command_id body _ v
                (alternative-Dispatched bind_transmitter_resp bind_transmitter_resp-PduLaws
                  bind_transmitter_resp_pdu (λ p h. h) command_id body _ v
                  (alternative-Dispatched cancel_sm cancel_sm-PduLaws cancel_sm_pdu (λ p h. h)
                    command_id body _ v
                    (alternative-Dispatched cancel_sm_resp cancel_sm_resp-PduLaws cancel_sm_resp_pdu
                      (λ p h. h) command_id body _ v
                      (alternative-Dispatched data_sm data_sm-PduLaws data_sm_pdu (λ p h. h)
                        command_id body _ v
                        (alternative-Dispatched data_sm_resp data_sm_resp-PduLaws data_sm_resp_pdu
                          (λ p h. h) command_id body _ v
                          (alternative-Dispatched deliver_sm deliver_sm-PduLaws deliver_sm_pdu
                            (λ p h. h) command_id body _ v
                            (alternative-Dispatched deliver_sm_resp deliver_sm_resp-PduLaws
                              deliver_sm_resp_pdu (λ p h. h) command_id body _ v
                              (alternative-Dispatched generic_nack generic_nack-PduLaws
                                generic_nack_pdu (λ p h. h) command_id body _ v
                                (alternative-Dispatched outbind outbind-PduLaws outbind_pdu
                                  (λ p h. h) command_id body _ v
                                  (alternative-Dispatched query_sm query_sm-PduLaws query_sm_pdu
                                    (λ p h. h) command_id body _ v
                                    (alternative-Dispatched query_sm_resp query_sm_resp-PduLaws
                                      query_sm_resp_pdu (λ p h. h) command_id body _ v
                                      (alternative-Dispatched replace_sm replace_sm-PduLaws
                                        replace_sm_pdu (λ p h. h) command_id body _ v
                                        (alternative-Dispatched replace_sm_resp
                                          replace_sm_resp-PduLaws replace_sm_resp_pdu (λ p h. h)
                                          command_id body _ v
                                          (alternative-Dispatched submit_sm submit_sm-PduLaws
                                            submit_sm_pdu (λ p h. h) command_id body _ v
                                            (alternative-Dispatched submit_sm_resp
                                              submit_sm_resp-PduLaws submit_sm_resp_pdu (λ p h. h)
                                              command_id body _ v (refused _)))))))))))))))))))))

-- The outcomes of receiving: a PDU that can be serialized, or an invalid_pdu that holds every byte
-- received.
pub data Received (pdu_buf : Bytes) : Result PduVariant → Type 0 where
  valid : (v : PduVariant) → IsVariant v → Received pdu_buf (ok v)
  invalid : (p : InvalidPdu) → p.buffer ≡ pdu_buf → Received pdu_buf (ok (invalid_pdu p))

handle :
    (pdu_buf : Bytes) {r : Result PduVariant}
    → Dispatched r
    → Received pdu_buf (elim r [
      | ok pdu ↦ ok pdu
      | throws e ↦ ok (invalid_pdu (record { buffer = pdu_buf; deserialization_error = what e }))
      | stuck ↦ stuck
    ])
handle pdu_buf (found v h) = valid v h
handle pdu_buf (refused e) =
    invalid (record { buffer = pdu_buf; deserialization_error = what e }) refl

-- Whatever command_id and body arrive, no exception leaves the dispatch: the caller is given a PDU
-- of the 21 types that can be serialized, or an invalid_pdu whose buffer is the whole PDU.
pub receive_pdu-Received :
    (command_id : CommandId) (pdu_buf body_buf : Bytes)
    → All IsByte body_buf
    → Received pdu_buf (receive_pdu command_id pdu_buf body_buf)
unfolding receive_pdu
receive_pdu-Received command_id pdu_buf body_buf v =
    handle pdu_buf (deserialize_variant-Dispatched command_id body_buf v)

-- What the dispatch reads reaches the caller.
pub receive_pdu-ok :
    (command_id : CommandId) (pdu_buf body_buf : Bytes) (v : PduVariant)
    → deserialize_variant command_id body_buf ≡ ok v
    → receive_pdu command_id pdu_buf body_buf ≡ ok v
unfolding receive_pdu
receive_pdu-ok command_id pdu_buf body_buf v e = rw (receive_pdu, e) refl

-- The ids of the variant's types.
abbrev pub known_ids : List CommandId
known_ids =
    alert_notification.command_id ∷ bind_receiver.command_id ∷ bind_receiver_resp.command_id
    ∷ bind_transceiver.command_id ∷ bind_transceiver_resp.command_id ∷ bind_transmitter.command_id
    ∷ bind_transmitter_resp.command_id ∷ cancel_sm.command_id ∷ cancel_sm_resp.command_id
    ∷ data_sm.command_id ∷ data_sm_resp.command_id ∷ deliver_sm.command_id
    ∷ deliver_sm_resp.command_id ∷ generic_nack.command_id ∷ outbind.command_id
    ∷ query_sm.command_id ∷ query_sm_resp.command_id ∷ replace_sm.command_id
    ∷ replace_sm_resp.command_id ∷ submit_sm.command_id ∷ submit_sm_resp.command_id ∷ []

deserialize_variant_unknown :
    (command_id : CommandId) (body : Bytes)
    → All (λ k. command_id ≢ k) known_ids
    → deserialize_variant command_id body ≡ throws (logic_error "Unknown PDU")
unfolding deserialize_variant
deserialize_variant_unknown command_id body h =
    alternative-others alert_notification alert_notification-PduLaws alert_notification_pdu
      command_id body _ h.0
    ∙ alternative-others bind_receiver bind_receiver-PduLaws bind_receiver_pdu command_id body _
        h.1.0
    ∙ alternative-others bind_receiver_resp bind_receiver_resp-PduLaws bind_receiver_resp_pdu
        command_id body _ h.1.1.0
    ∙ alternative-others bind_transceiver bind_transceiver-PduLaws bind_transceiver_pdu command_id
        body _ h.1.1.1.0
    ∙ alternative-others bind_transceiver_resp bind_transceiver_resp-PduLaws
        bind_transceiver_resp_pdu command_id body _ h.1.1.1.1.0
    ∙ alternative-others bind_transmitter bind_transmitter-PduLaws bind_transmitter_pdu command_id
        body _ h.1.1.1.1.1.0
    ∙ alternative-others bind_transmitter_resp bind_transmitter_resp-PduLaws
        bind_transmitter_resp_pdu command_id body _ h.1.1.1.1.1.1.0
    ∙ alternative-others cancel_sm cancel_sm-PduLaws cancel_sm_pdu command_id body _
        h.1.1.1.1.1.1.1.0
    ∙ alternative-others cancel_sm_resp cancel_sm_resp-PduLaws cancel_sm_resp_pdu command_id body _
        h.1.1.1.1.1.1.1.1.0
    ∙ alternative-others data_sm data_sm-PduLaws data_sm_pdu command_id body _ h.1.1.1.1.1.1.1.1.1.0
    ∙ alternative-others data_sm_resp data_sm_resp-PduLaws data_sm_resp_pdu command_id body _
        h.1.1.1.1.1.1.1.1.1.1.0
    ∙ alternative-others deliver_sm deliver_sm-PduLaws deliver_sm_pdu command_id body _
        h.1.1.1.1.1.1.1.1.1.1.1.0
    ∙ alternative-others deliver_sm_resp deliver_sm_resp-PduLaws deliver_sm_resp_pdu command_id body
        _ h.1.1.1.1.1.1.1.1.1.1.1.1.0
    ∙ alternative-others generic_nack generic_nack-PduLaws generic_nack_pdu command_id body _
        h.1.1.1.1.1.1.1.1.1.1.1.1.1.0
    ∙ alternative-others outbind outbind-PduLaws outbind_pdu command_id body _
        h.1.1.1.1.1.1.1.1.1.1.1.1.1.1.0
    ∙ alternative-others query_sm query_sm-PduLaws query_sm_pdu command_id body _
        h.1.1.1.1.1.1.1.1.1.1.1.1.1.1.1.0
    ∙ alternative-others query_sm_resp query_sm_resp-PduLaws query_sm_resp_pdu command_id body _
        h.1.1.1.1.1.1.1.1.1.1.1.1.1.1.1.1.0
    ∙ alternative-others replace_sm replace_sm-PduLaws replace_sm_pdu command_id body _
        h.1.1.1.1.1.1.1.1.1.1.1.1.1.1.1.1.1.0
    ∙ alternative-others replace_sm_resp replace_sm_resp-PduLaws replace_sm_resp_pdu command_id body
        _ h.1.1.1.1.1.1.1.1.1.1.1.1.1.1.1.1.1.1.0
    ∙ alternative-others submit_sm submit_sm-PduLaws submit_sm_pdu command_id body _
        h.1.1.1.1.1.1.1.1.1.1.1.1.1.1.1.1.1.1.1.0
    ∙ alternative-others submit_sm_resp submit_sm_resp-PduLaws submit_sm_resp_pdu command_id body _
        h.1.1.1.1.1.1.1.1.1.1.1.1.1.1.1.1.1.1.1.1.0

-- A command_id of none of the 21 types gives an invalid_pdu that says so, whatever the body is.
pub receive_pdu_unknown :
    (command_id : CommandId) (pdu_buf body_buf : Bytes)
    → All (λ k. command_id ≢ k) known_ids
    → receive_pdu command_id pdu_buf body_buf
      ≡ ok (invalid_pdu (record { buffer = pdu_buf; deserialization_error = "Unknown PDU" }))
unfolding receive_pdu
receive_pdu_unknown command_id pdu_buf body_buf h =
    rw (deserialize_variant_unknown command_id body_buf h, receive_pdu)
