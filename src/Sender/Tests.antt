-- ===== src/Sender/Tests.antt =====
-- The theorem on the sender's count of receivers at a concrete history.
use audio_sync.Base.{◌≡◌, refl, true, false, none, some, List, [], ◌∷◌}
use audio_sync.Base.Int.{pos, ◌-ℤ◌}
use audio_sync.Sender.Clients.{ipv4, ipv6, SourceData, address_from_data, Clients}
use audio_sync.Sender.Connected.{
  Event, new_source, bye_packet, remove_source, after, History, nothing, came, said_bye,
  said_bye_again, removed_after_bye, after-History,
}

abbrev phone : SourceData
phone = record {
  is_own_ssrc = false;
  received_bye = false;
  rtp_address = some (ipv4 3232235777 5004);
  rtcp_address = none;
}

abbrev tablet : SourceData
tablet = record {
  is_own_ssrc = false;
  received_bye = false;
  rtp_address = none;
  rtcp_address = some (ipv6 1 5005);
}

abbrev gone_phone : SourceData
gone_phone = record {
  is_own_ssrc = false;
  received_bye = true;
  rtp_address = some (ipv4 3232235777 5004);
  rtcp_address = none;
}

abbrev no_clients : Clients
no_clients = record { connected_sources = pos 0; format = none }

-- A phone and a tablet come, and the phone leaves; its BYE packet is doubled.
abbrev visits : List Event
visits =
    remove_source gone_phone
    ∷ bye_packet gone_phone
    ∷ bye_packet gone_phone
    ∷ new_source tablet
    ∷ new_source phone
    ∷ []

visits-History : History (ipv6 1 5004 ∷ []) [] 1 visits
unfolding address_from_data
visits-History =
    removed_after_bye [] [] gone_phone
      (said_bye_again [] [] gone_phone
        (said_bye (ipv6 1 5004 ∷ []) [] gone_phone
          (came tablet (came phone nothing refl refl) refl refl) refl refl)
        refl refl)
      refl refl

-- One receiver is there, and none is counted.
after-History_example : (after no_clients visits).connected_sources ≡ pos 1 -ℤ pos 1
after-History_example = after-History no_clients refl visits-History
