-- ===== src/Sender/Clients.antt =====
-- The handlers of jrtplib's events in app/src/main/jni/SenderSession.cpp: the receivers that come
-- and go, and the clock offsets that they report.
use audio_sync.Base.{
  ℕ, ◌+◌, ◌-◌, ◌%◌, ◌^◌, Bool, ◌&&◌, Option, none, some, List, [], ◌∷◌, leb, ◌==◌, if◌then◌else◌,
  length, take, drop,
}
use audio_sync.Base.Int.{ℤ, pos, ◌+ℤ◌, ◌-ℤ◌}

-- `RTPAddress`: an address and a port, or of a type that the sender does not use.
pub data Address : Type 0 where
  ipv4 : ℕ → ℕ → Address
  ipv6 : ℕ → ℕ → Address
  other : Address

-- What the sender asks of an `RTPSourceData`.
pub record SourceData : Type 0 where
  pub is_own_ssrc : Bool
  pub received_bye : Bool
  pub rtp_address : Option Address
  pub rtcp_address : Option Address

-- The address with an offset of 0 or -1 on its port, which has 16 bits.
abbrev pub shifted : Option Address → ℕ → Option Address
shifted none port = none
shifted (some (ipv4 ip p)) port = some (ipv4 ip ((p + port) % 2 ^ 16))
shifted (some (ipv6 ip p)) port = some (ipv6 ip ((p + port) % 2 ^ 16))
shifted (some other) port = none

unfoldable pub address_from_data : SourceData → Option Address
address_from_data dat = elim dat.rtp_address [
  | some addr ↦ shifted (some addr) 0
  | none ↦ shifted dat.rtcp_address (2 ^ 16 - 1)
]

-- The state of the session, with the text of `AMediaFormat_toString` of its format.
pub record Clients : Type 0 where
  pub connected_sources : ℤ
  pub format : Option (List ℕ)

-- What a handler makes jrtplib do.
pub data Action : Type 0 where
  add_destination : Address → Action
  delete_destination : Address → Action
  send_app : ℕ → List ℕ → Action

-- AUDIOSTREAM_PACKET_MEDIAFORMAT and AUDIOSTREAM_PACKET_CLOCK_OFFSET.
abbrev pub packet_mediaformat : ℕ
packet_mediaformat = 1

abbrev pub packet_clock_offset : ℕ
packet_clock_offset = 2

abbrev pub add_sources : ℤ → Clients → Clients
add_sources n c = record { connected_sources = c.connected_sources +ℤ n; format = c.format }

abbrev pub format_packet : Option (List ℕ) → List Action
format_packet none = []
format_packet (some text) = send_app packet_mediaformat text ∷ []

unfoldable pub on_new_source : Clients → SourceData → Clients × List Action
on_new_source c dat = if dat.is_own_ssrc then (c, []) else elim (address_from_data dat) [
  | none ↦ (c, [])
  | some dest ↦ (add_sources (pos 1) c, add_destination dest ∷ format_packet c.format)
]

-- What a source that leaves does to the session.
abbrev pub leave : Clients → Option Address → Clients × List Action
leave c none = (c, [])
leave c (some dest) = (
  record { connected_sources = c.connected_sources -ℤ pos 1; format = c.format },
  delete_destination dest ∷ [],
)

unfoldable pub on_bye_packet : Clients → SourceData → Clients × List Action
on_bye_packet c dat = if dat.is_own_ssrc then (c, []) else leave c (address_from_data dat)

unfoldable pub on_remove_source : Clients → SourceData → Clients × List Action
on_remove_source c dat =
    if dat.is_own_ssrc
    then (c, [])
    else if dat.received_bye
    then (c, [])
    else leave c (address_from_data dat)

-- `OnAPPPacket`: the clock offset that is set for the source of the packet, if it is known.
unfoldable pub on_app_packet : (List ℕ → ℤ) → ℕ → List ℕ → Bool → Option ℤ
on_app_packet ntohq subtype bytes known =
    if subtype == packet_clock_offset && leb 16 (length bytes)
    then if known then some (ntohq (take 8 (drop 8 bytes))) else none
    else none
