-- ===== src/Lib.antt =====
-- AudioSync streams music from one phone to others, which play it at the same time. Its native code
-- stands in app/src/main/jni: a sender reads the samples of a file and sends them in RTP packets,
-- each with the system time to play it at; receivers, whose clocks are set to the sender's by SNTP,
-- pass the packets to a codec, put the decoded frames into a queue, and an audio callback takes
-- them from there.
--
-- The parts, and the files that model them:
--   audioutils/fifo.cpp: Fifo has the queue of frames and each of its functions, `roundup`, `init`,
--     `sum`, `diff`, `write`, `read` and `available`; below it are the proofs. An assertion that
--     fails, or a copy outside of a buffer, is `none`. A call is
--     one step: the memory order of its two threads is not modelled.
--   decoder.c: Decoder chooses the audio track and reads samples, Decoder/Stream passes packets to a
--     codec (`decoder_enqueueBuffer`) and frames from it (`decoder_dequeueBuffer`). The NDK's codec
--     and extractor are records of operations in Ndk. `enqueue_buffer` takes fuel for its recursive
--     call, and two rounds are enough: from past the end of a buffer no byte can be copied.
--   apppacket.c: AppPacket has the clocks and the parser `audiostream_createFormat`, over which
--     `strtol` and `strtod` are parameters. The pointers of the parser are kept apart from
--     addresses that are none.
--   SenderSession.cpp: Sender has the streaming loop of `RunNetwork` as `stream`, with the number of
--     times that it finds the session running in place of the flag that another thread clears, and
--     Sender/Clients has the handlers of jrtplib's events. Sender/Network has `RunNetwork` as a whole,
--     `RunNTPServer` and `StartStreaming`, and Sender/Release the destructors.
--   ReceiverSession.cpp: Receiver has the loop over the packets of `RunNetwork` as `receive`, by
--     the passes that find the session running, with the calls of `audioplayer_monitorPlayback`
--     behind each pass, and Receiver/App the RTCP APP packets, `SetFormat` and `SendClockOffset`.
--     Decoder and player are the record of operations `Pipeline`. Receiver/Network has `RunNetwork`
--     as a whole and `StartReceiving`, Receiver/Ntp `RunNTPClient`, Receiver/Formats the formats
--     that come one after the other, and Receiver/Owned the formats and codecs that a receiver makes
--     and deletes. What other threads do is a list of what the thread finds at each of its checks.
--   audioplayer.cpp: Player/Callback has the variables of the buffer queue callback, its start and
--     its marks, Player/Callback/Play what it enqueues, and Player its loop that drops frames. A
--     frame is one element, and `FrameBytes` has what the code does with the bytes of frames. The
--     loop that skips frames has fuel for one round more than there are frames to skip, and each
--     round but the last takes one. Player/Enqueue is `audioplayer_enqueuePCMFrames`; it takes what
--     each of its rounds finds in `current_isPlaying`, and what happens to the queue in the sleep
--     behind that. Player/Control has `audioplayer_syncPlayback` and `audioplayer_monitorPlayback`,
--     whose floating-point offset is a parameter. Player/OpenSl and Player/Device have the objects
--     of OpenSL ES, whose answers are a parameter, and Player/Device/Protocol the order that OpenSL
--     ES asks for. Player/Init has `audioplayer_initPlayback` and the functions that set or read a
--     variable.
--   AudioCore.cpp and AudioStreamSession.h: Core has the global session, and how the application
--     starts, stops and asks it, with the player that it stops and cleans up; an access to a session
--     that was deleted is `none`. Core/Begin has `initAudio` and the opening of an asset,
--     Core/Destinations `getAudioDestinations`, and Core/Times the playback time of each kind of
--     session.
--   Rtp has what both sessions use of the vendored jrtplib: packets, requests, and a session that
--     sends, with the documented behaviour of `SendPacket` as laws.
--   Sync has sender and receiver with a network between them that loses, reorders and doubles
--     packets.
--   Base has the shared names and lemmas: tests, lists and integers over the native numbers, and
--     machine words.
--
-- Machine words wrap where the code's do: 32-bit indices and timestamps, 16-bit sequence numbers and
-- ports, `size_t` of 64 bits in the queue. Times of 64 bits are integers without a bound, since
-- they stay below 2 ^ 63 for any clock.
--
-- Not modelled: the creation and the timing of threads, sleeps, log lines, and the Java objects of the
-- JNI interface; the packets that a sender receives and drops; jrtplib, jthread, libmsntp and
-- readerwriterqueue, which are other projects' libraries; and the Java code.
pub mod Base
pub mod Fifo
pub mod Ndk
pub mod Decoder
pub mod AppPacket
pub mod Rtp
pub mod Sender
pub mod Receiver
pub mod Player
pub mod Sync
pub mod Core
