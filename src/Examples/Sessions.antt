-- ===== src/Examples/Sessions.antt =====
-- Examples for the sessions with the SGSNs and the server that holds them.
use gsup_map_proxy.Base.{
  ◌≡◌, refl, true, false, List, [], ◌∷◌, ◌++◌, ok, arith, length, drop, map_ok, ◌==◌, ◌||◌, ◌&&◌,
  ◌+◌, ◌^◌, ◌<◌,
}
use gsup_map_proxy.Buffer.{Bytes}
use gsup_map_proxy.Ipa
use gsup_map_proxy.IpaSession
use gsup_map_proxy.IpaSession.{
  ready, broken, IpaSession, handshaking, queued, write_started, read_started, new_session,
}
use gsup_map_proxy.Ipa.Stream.{encode_all}
use gsup_map_proxy.IpaSession.Delivery.{gsup_frames, deliveries, read_done-encode_all}
use gsup_map_proxy.IpaSession.Run.{
  History, started, posted, write_broke, received, unfinished, in_flight,
}
use gsup_map_proxy.IpaSession.Queue.{
  IsOrdered, History-IsOrdered, started_of, write_all, write_all-History,
}
use gsup_map_proxy.IpaSession.Readiness.{after_report, History-after_report}
use gsup_map_proxy.Assoc.{assign, erase}
use gsup_map_proxy.IpaServer
use gsup_map_proxy.IpaServer.{IpaServer, Handler, new_server, run_handler}
use gsup_map_proxy.IpaServer.Invariant
use gsup_map_proxy.IpaServer.Invariant.{IsValid, History-IsValid}
use gsup_map_proxy.IpaServer.Send.{posts_to, is_reachable, send-posts_to}

-- The request for the peer's identity.
abbrev greeting : Bytes
greeting = 0 ∷ 4 ∷ 0xfe ∷ 4 ∷ 1 ∷ 7 ∷ []

abbrev begun_outputs : List IpaSession.Output
begun_outputs = queued greeting ∷ write_started greeting ∷ read_started ∷ []

abbrev begun_session : IpaSession
begun_session = record {
  decoder = [];
  state = handshaking;
  write_queue = greeting ∷ [];
  writing = true;
}

begins : IpaSession.start new_session ≡ ok (begun_outputs, begun_session)
unfolding IpaSession.start new_session IpaSession.send_ccm_id_get IpaSession.send_ccm Ipa.encode
    IpaSession.enqueue IpaSession.do_write
begins = refl

-- The peer's identity, and a GSUP message behind it.
abbrev identity : Bytes
identity = 0 ∷ 2 ∷ 0xfe ∷ 5 ∷ 0 ∷ 2 ∷ 0xee ∷ 8 ∷ []

abbrev introduced : IpaSession.Handled
introduced = IpaSession.read_done identity begun_session

introduction : History introduced.session (begun_outputs ++ introduced.outputs)
introduction = received identity (started begins)

-- The first write fails, and a frame is queued after it.
greeting_flies : in_flight begun_outputs ≡ greeting ∷ []
unfolding unfinished
greeting_flies = refl

abbrev failed_session : IpaSession
failed_session = (IpaSession.write_failed begun_session).1

abbrev failed_outputs : List IpaSession.Output
failed_outputs = begun_outputs ++ broken greeting ∷ (IpaSession.write_failed begun_session).0

failure : History failed_session failed_outputs
failure = write_broke (started begins) greeting_flies

History-IsOrdered_example :
    IsOrdered
      (IpaSession.enqueue (1 ∷ []) failed_session).1
      (failed_outputs ++ (IpaSession.enqueue (1 ∷ []) failed_session).0)
History-IsOrdered_example = History-IsOrdered (posted (1 ∷ []) failure)

write_all-History_example :
    (started_of (write_all (length introduced.session.write_queue) introduced.session).0
      ≡ drop 1 introduced.session.write_queue)
    × ((write_all (length introduced.session.write_queue) introduced.session).1
        ≡ record introduced.session { write_queue = []; writing = false })
write_all-History_example = write_all-History introduction

History-after_report_example : after_report false (begun_outputs ++ introduced.outputs) ≡ true
History-after_report_example = History-after_report introduction

-- A session after its handshake.
abbrev ready_session : IpaSession
ready_session = record { decoder = []; state = ready; write_queue = []; writing = false }

abbrev messages : List Bytes
messages = (8 ∷ 9 ∷ []) ∷ (4 ∷ []) ∷ []

abbrev message_bytes : Bytes
message_bytes = 0 ∷ 3 ∷ 0xee ∷ 8 ∷ 9 ∷ 0 ∷ 2 ∷ 0xee ∷ 4 ∷ []

messages_encoded : encode_all (gsup_frames messages) ≡ ok message_bytes
unfolding encode_all gsup_frames Ipa.encode
messages_encoded = refl

ready_session-is_ready : IpaSession.is_ready ready_session ≡ true
unfolding IpaSession.is_ready
ready_session-is_ready = refl

read_done-encode_all_example : IpaSession.read_done message_bytes ready_session ≡ record {
  outputs = deliveries messages ++ read_started ∷ [];
  session = ready_session;
  raised = ok tt;
}
read_done-encode_all_example =
    read_done-encode_all messages message_bytes ready_session messages_encoded
      ready_session-is_ready refl (omega arith)

-- A server with one connection.
abbrev one_session : IpaServer
one_session = record {
  heap = (1, begun_session) ∷ [];
  sessions = [];
  all_sessions = (1, 1) ∷ [];
  next_client_id = 2;
}

one_accepted : IpaServer.accept new_server ≡ ok ([], one_session)
unfolding IpaServer.accept new_server IpaServer.after IpaServer.dispatch assign erase
    IpaSession.start new_session IpaSession.send_ccm_id_get IpaSession.send_ccm Ipa.encode
    IpaSession.enqueue IpaSession.do_write
one_accepted = refl

first_room : new_server.next_client_id + 1 < 2 ^ 64
unfolding new_server
first_room = omega arith

-- The client's handshake.
handshake : Invariant.History (run_handler 1 (Handler.received identity) one_session).1
handshake =
    Invariant.handled 1 (Handler.received identity)
      (Invariant.accepted Invariant.begun first_room one_accepted)

History-IsValid_example : IsValid (run_handler 1 (Handler.received identity) one_session).1
History-IsValid_example = History-IsValid handshake

send-posts_to_example :
    map_ok
      (posts_to 1)
      (IpaServer.send (8 ∷ 9 ∷ []) 0 (run_handler 1 (Handler.received identity) one_session).1)
    ≡ ok (
        ((0 == 0) || (0 == 1))
        && is_reachable (run_handler 1 (Handler.received identity) one_session).1 1)
send-posts_to_example = send-posts_to handshake (8 ∷ 9 ∷ []) 0 1 (omega arith)
