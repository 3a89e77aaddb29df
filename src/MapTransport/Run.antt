-- ===== src/MapTransport/Run.antt =====
-- What can happen to the transport, one handler after another, as the io_context runs them.
use gsup_map_proxy.Base.{◌≡◌, Bool, List, ◌++◌}
use gsup_map_proxy.Buffer.{Bytes}
use gsup_map_proxy.Sccp.Decode.{value}
use gsup_map_proxy.MapTransport.{
  MapTransport, MapTransportConfig, Output, new_transport, start, stop, send, reconnect_fired,
  on_connect, beat_fired, write_failed, read_failed,
}
use gsup_map_proxy.MapTransport.Receive.{read_done, write_done}

-- The transport `t` after a history of handlers with the outputs `out`, the oldest first. The
-- handlers may come in any order and with any outcome. A handler with undefined behaviour has no
-- continuation.
pub data History (cfg : MapTransportConfig) : MapTransport → List Output → Type 0 where
  begun : History cfg (start (new_transport cfg)).1 (start (new_transport cfg)).0
  sent :
      {t : MapTransport} {out : List Output} (payload : Bytes)
      → History cfg t out
      → History cfg (send payload t).1 (out ++ (send payload t).0)
  reconnected :
      {t : MapTransport} {out : List Output} (cancelled sctp_built resolved opened : Bool)
      → History cfg t out
      → History cfg
          (reconnect_fired cancelled sctp_built resolved opened t).1
          (out ++ (reconnect_fired cancelled sctp_built resolved opened t).0)
  connected :
      {t : MapTransport} {out : List Output} (failed : Bool)
      → History cfg t out
      → History cfg (on_connect failed t).1 (out ++ (on_connect failed t).0)
  beat :
      {t : MapTransport} {out : List Output} (cancelled : Bool)
      → History cfg t out
      → History cfg (beat_fired cancelled t).1 (out ++ (beat_fired cancelled t).0)
  received :
      {t : MapTransport} {out : List Output} (bytes : Bytes)
      → History cfg t out
      → History cfg (read_done bytes t).transport (out ++ (read_done bytes t).outputs)
  read_broke :
      {t : MapTransport} {out : List Output}
      → History cfg t out
      → History cfg (read_failed t).1 (out ++ (read_failed t).0)
  wrote :
      {t t' : MapTransport} {out more : List Output}
      → History cfg t out
      → write_done t ≡ value (more, t')
      → History cfg t' (out ++ more)
  write_broke :
      {t : MapTransport} {out : List Output}
      → History cfg t out
      → History cfg (write_failed t).1 (out ++ (write_failed t).0)
  stopped :
      {t : MapTransport} {out : List Output}
      → History cfg t out
      → History cfg (stop t).1 (out ++ (stop t).0)
