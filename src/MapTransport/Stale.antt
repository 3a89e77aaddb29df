-- ===== src/MapTransport/Stale.antt =====
-- The handler of a write whose connection has been reset.
use gsup_map_proxy.Base.{◌≡◌, false, refl, List, [], ◌∷◌}
use gsup_map_proxy.Sccp.Decode.{undefined}
use gsup_map_proxy.MapTransport.{
  MapTransport, Output, beat_cancelled, is_stopped, drop_connection, reset_connection,
  schedule_connect, read_failed,
}
use gsup_map_proxy.MapTransport.Receive.{write_done}

write_done-drop_connection :
    (first : List Output) (t : MapTransport) → write_done (drop_connection first t).1 ≡ undefined
unfolding write_done schedule_connect reset_connection is_stopped
write_done-drop_connection first t = refl

-- A connection that is lost while a write is under way: when the read handler runs first, with an
-- error, and the handler of the write, which had completed without one, runs after it, then that
-- handler takes the front of an empty queue, unless the transport was stopped.
pub write_done-read_failed :
    (t : MapTransport) → is_stopped t ≡ false → write_done (read_failed t).1 ≡ undefined
unfolding read_failed
write_done-read_failed t going = rw going (write_done-drop_connection (beat_cancelled ∷ []) t)
