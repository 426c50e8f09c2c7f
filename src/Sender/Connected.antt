-- ===== src/Sender/Connected.antt =====
-- The histories of events that app/src/main/jni/SenderSession.cpp handles, and `connectedSources`.
use audio_sync.Base.{
  ℕ, suc, ◌≡◌, refl, ap, ◌∙◌, true, false, none, some, List, [], ◌∷◌, ◌++◌, arith, length,
  length-append, Bool-cases, inl, inr,
}
use audio_sync.Base.Int.{pos, ◌+ℤ◌, ◌-ℤ◌}
use audio_sync.Sender.Clients.{
  Address, SourceData, address_from_data, Clients, on_new_source, on_bye_packet, on_remove_source,
}

pub data Event : Type 0 where
  new_source : SourceData → Event
  bye_packet : SourceData → Event
  remove_source : SourceData → Event

pub source : Event → SourceData
source (new_source dat) = dat
source (bye_packet dat) = dat
source (remove_source dat) = dat

-- The handler of an event.
pub handle : Clients → Event → Clients
handle c (new_source dat) = (on_new_source c dat).0
handle c (bye_packet dat) = (on_bye_packet c dat).0
handle c (remove_source dat) = (on_remove_source c dat).0

-- The session after these events, the last one first.
pub after : Clients → List Event → Clients
unfolding handle
after c [] = c
after c (event ∷ events) = handle (after c events) event

-- The events that jrtplib reports; after them the receivers that came and neither said bye nor were
-- removed, those that said bye and were not removed yet, and how many more BYE packets came from these,
-- since jrtplib calls the handler for each BYE packet, a doubled one too. A source comes; it says bye,
-- once or more, and is removed later; or it is removed without a bye. The session's own source and
-- sources with no address of a known type come and go too. A source has the address when it leaves that
-- it came with.
pub data History : List Address → List Address → ℕ → List Event → Type 0 where
  nothing : History [] [] 0 []
  came :
      {live gone : List Address} {again : ℕ} {events : List Event} (dat : SourceData)
      {dest : Address}
      → History live gone again events
      → dat.is_own_ssrc ≡ false
      → address_from_data dat ≡ some dest
      → History (dest ∷ live) gone again (new_source dat ∷ events)
  said_bye :
      (before rest : List Address) {gone : List Address} {again : ℕ} {events : List Event}
      (dat : SourceData) {dest : Address}
      → History (before ++ dest ∷ rest) gone again events
      → dat.is_own_ssrc ≡ false
      → address_from_data dat ≡ some dest
      → History (before ++ rest) (dest ∷ gone) again (bye_packet dat ∷ events)
  said_bye_again :
      {live : List Address} (before rest : List Address) {again : ℕ} {events : List Event}
      (dat : SourceData) {dest : Address}
      → History live (before ++ dest ∷ rest) again events
      → dat.is_own_ssrc ≡ false
      → address_from_data dat ≡ some dest
      → History live (before ++ dest ∷ rest) (suc again) (bye_packet dat ∷ events)
  removed_after_bye :
      {live : List Address} (before rest : List Address) {again : ℕ} {events : List Event}
      (dat : SourceData) {dest : Address}
      → History live (before ++ dest ∷ rest) again events
      → dat.received_bye ≡ true
      → address_from_data dat ≡ some dest
      → History live (before ++ rest) again (remove_source dat ∷ events)
  removed :
      (before rest : List Address) {gone : List Address} {again : ℕ} {events : List Event}
      (dat : SourceData) {dest : Address}
      → History (before ++ dest ∷ rest) gone again events
      → dat.is_own_ssrc ≡ false
      → dat.received_bye ≡ false
      → address_from_data dat ≡ some dest
      → History (before ++ rest) gone again (remove_source dat ∷ events)
  own :
      {live gone : List Address} {again : ℕ} {events : List Event} (event : Event)
      → History live gone again events
      → (source event).is_own_ssrc ≡ true
      → History live gone again (event ∷ events)
  unaddressed :
      {live gone : List Address} {again : ℕ} {events : List Event} (event : Event)
      → History live gone again events
      → address_from_data (source event) ≡ none
      → History live gone again (event ∷ events)

joins :
    (c : Clients) (dat : SourceData) {dest : Address}
    → dat.is_own_ssrc ≡ false
    → address_from_data dat ≡ some dest
    → (on_new_source c dat).0.connected_sources ≡ c.connected_sources +ℤ pos 1
unfolding on_new_source
joins c dat foreign known = rw (known, foreign) refl

leaves :
    (c : Clients) (dat : SourceData) {dest : Address}
    → dat.is_own_ssrc ≡ false
    → address_from_data dat ≡ some dest
    → (on_bye_packet c dat).0.connected_sources ≡ c.connected_sources -ℤ pos 1
unfolding on_bye_packet
leaves c dat foreign known = rw (known, foreign) refl

is_removed :
    (c : Clients) (dat : SourceData) {dest : Address}
    → dat.is_own_ssrc ≡ false
    → dat.received_bye ≡ false
    → address_from_data dat ≡ some dest
    → (on_remove_source c dat).0.connected_sources ≡ c.connected_sources -ℤ pos 1
unfolding on_remove_source
is_removed c dat foreign silent known = rw (known, foreign, silent) refl

keeps_after_bye :
    (c : Clients) (dat : SourceData) → dat.received_bye ≡ true → (on_remove_source c dat).0 ≡ c
unfolding on_remove_source
keeps_after_bye c dat bye = elim (Bool-cases dat.is_own_ssrc) [
  | inl e ↦ rw e refl
  | inr e ↦ rw (e, bye) refl
]

keeps_own : (c : Clients) (event : Event) → (source event).is_own_ssrc ≡ true → handle c event ≡ c
unfolding handle source on_new_source on_bye_packet on_remove_source
keeps_own c (new_source dat) e = rw e refl
keeps_own c (bye_packet dat) e = rw e refl
keeps_own c (remove_source dat) e = rw e refl

new_unaddressed :
    (c : Clients) (dat : SourceData) → address_from_data dat ≡ none → (on_new_source c dat).0 ≡ c
unfolding on_new_source
new_unaddressed c dat e = elim (Bool-cases dat.is_own_ssrc) [
  | inl ours ↦ rw ours refl
  | inr foreign ↦ rw (e, foreign) refl
]

bye_unaddressed :
    (c : Clients) (dat : SourceData) → address_from_data dat ≡ none → (on_bye_packet c dat).0 ≡ c
unfolding on_bye_packet
bye_unaddressed c dat e = elim (Bool-cases dat.is_own_ssrc) [
  | inl ours ↦ rw ours refl
  | inr foreign ↦ rw (e, foreign) refl
]

remove_unaddressed :
    (c : Clients) (dat : SourceData) → address_from_data dat ≡ none → (on_remove_source c dat).0 ≡ c
unfolding on_remove_source
remove_unaddressed c dat e = elim (Bool-cases dat.received_bye) [
  | inl bye ↦ keeps_after_bye c dat bye
  | inr silent ↦ elim (Bool-cases dat.is_own_ssrc) [
    | inl ours ↦ rw ours refl
    | inr foreign ↦ rw (e, foreign, silent) refl
  ]
]

keeps_unaddressed :
    (c : Clients) (event : Event) → address_from_data (source event) ≡ none → handle c event ≡ c
unfolding handle source
keeps_unaddressed c (new_source dat) e = new_unaddressed c dat e
keeps_unaddressed c (bye_packet dat) e = bye_unaddressed c dat e
keeps_unaddressed c (remove_source dat) e = remove_unaddressed c dat e

one_more : (n k : ℕ) → (pos n -ℤ pos k) +ℤ pos 1 ≡ pos (suc n) -ℤ pos k
unfolding ◌+ℤ◌ ◌-ℤ◌
one_more n k = ground arith

one_again : (n k : ℕ) → (pos n -ℤ pos k) -ℤ pos 1 ≡ pos n -ℤ pos (suc k)
unfolding ◌-ℤ◌
one_again n k = ground arith

one_less :
    (before rest : List Address) (dest : Address) (k : ℕ)
    → (pos (length (before ++ dest ∷ rest)) -ℤ pos k) -ℤ pos 1
      ≡ pos (length (before ++ rest)) -ℤ pos k
unfolding ◌-ℤ◌
one_less before rest dest k =
    rw (length-append before (dest ∷ rest), length-append before rest) (ground arith)

-- Of a session that starts with no receiver: after every history of events `connectedSources` is the
-- number of receivers that came and neither said bye nor were removed, less the number of BYE packets
-- that came from a receiver that had said bye before.
pub after-History :
    (c : Clients) {live gone : List Address} {again : ℕ} {events : List Event}
    → c.connected_sources ≡ pos 0
    → History live gone again events
    → (after c events).connected_sources ≡ pos (length live) -ℤ pos again
unfolding after handle ◌-ℤ◌
after-History c zero_first nothing = zero_first
after-History c zero_first
      (came {live = live} {again = again} {events = events} dat h foreign known) =
    joins (after c events) dat foreign known
    ∙ ap (λ n. n +ℤ pos 1) (after-History c zero_first h)
    ∙ one_more (length live) again
after-History c zero_first
      (said_bye before rest {again = again} {events = events} dat {dest = dest} h foreign known) =
    leaves (after c events) dat foreign known
    ∙ ap (λ n. n -ℤ pos 1) (after-History c zero_first h)
    ∙ one_less before rest dest again
after-History c zero_first
      (said_bye_again {live = live} before rest {again = again} {events = events} dat h foreign
        known) =
    leaves (after c events) dat foreign known
    ∙ ap (λ n. n -ℤ pos 1) (after-History c zero_first h)
    ∙ one_again (length live) again
after-History c zero_first (removed_after_bye before rest {events = events} dat h bye known) =
    ap (λ d. d.connected_sources) (keeps_after_bye (after c events) dat bye)
    ∙ after-History c zero_first h
after-History c zero_first
      (removed before rest {again = again} {events = events} dat {dest = dest} h foreign silent
        known) =
    is_removed (after c events) dat foreign silent known
    ∙ ap (λ n. n -ℤ pos 1) (after-History c zero_first h)
    ∙ one_less before rest dest again
after-History c zero_first (own {events = events} event h e) =
    ap (λ d. d.connected_sources) (keeps_own (after c events) event e)
    ∙ after-History c zero_first h
after-History c zero_first (unaddressed {events = events} event h e) =
    ap (λ d. d.connected_sources) (keeps_unaddressed (after c events) event e)
    ∙ after-History c zero_first h
