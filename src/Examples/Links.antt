-- ===== src/Examples/Links.antt =====
-- Examples for the transport to the HLR.
use gsup_map_proxy.Base.{◌≡◌, refl, true, false, none, List, [], ◌∷◌, ◌++◌, arith, All}
use gsup_map_proxy.Buffer.{Bytes}
use gsup_map_proxy.Framing.Delivery.{concat}
use gsup_map_proxy.Sccp.Decode.{undefined}
use gsup_map_proxy.MapTransport
use gsup_map_proxy.MapTransport.{
  MapTransport, MapTransportConfig, active, new_transport, start, read_failed, is_active,
  is_stopped, is_disconnected,
}
use gsup_map_proxy.MapTransport.Receive
use gsup_map_proxy.MapTransport.Receive.{returned, write_done}
use gsup_map_proxy.MapTransport.Run
use gsup_map_proxy.MapTransport.Reconnect.{delays-History}
use gsup_map_proxy.MapTransport.Delays.{delays}
use gsup_map_proxy.MapTransport.Frames.{IsUsable, deliveries}
use gsup_map_proxy.MapTransport.Delivery.{send_all, read_done-send_all}
use gsup_map_proxy.MapTransport.Stale.{write_done-read_failed}

-- Global Titles 491 and 492, and a reconnect interval of five seconds.
abbrev config : MapTransportConfig
config = record {
  sg_host = [];
  sg_port = 2905;
  opc = 1;
  dpc = 2;
  routing_context = none;
  hlr_gt = b'4' ∷ b'9' ∷ b'1' ∷ [];
  hlr_ssn = 6;
  local_gt = b'4' ∷ b'9' ∷ b'2' ∷ [];
  local_ssn = 8;
  reconnect_interval = 5;
  beat_interval = 30;
  use_sctp = false;
}

config-IsUsable : IsUsable config
config-IsUsable = record {
  opc_small = omega arith;
  dpc_small = omega arith;
  context_small = tt;
  hlr_digits = omega arith;
  local_digits = omega arith;
  short = omega arith;
}

abbrev first : MapTransport.Step
first = start (new_transport config)

-- A connect that fails.
abbrev second : MapTransport.Step
second = MapTransport.on_connect true first.1

first_history : Run.History config first.1 first.0
first_history = Run.begun

second_history : Run.History config second.1 (first.0 ++ second.0)
second_history = Run.connected true first_history

delays-History_example : All (λ d. d ≡ 0) (delays (first.0 ++ second.0))
delays-History_example = delays-History second_history

abbrev link : MapTransport
link = record (new_transport config) { state = active; socket_open = true }

link-is_active : is_active link ≡ true
unfolding is_active
link-is_active = refl

link-is_stopped : is_stopped link ≡ false
unfolding is_stopped
link-is_stopped = refl

link-is_disconnected : is_disconnected link ≡ false
unfolding is_disconnected
link-is_disconnected = refl

link_waits : link.write_queue ≡ []
unfolding new_transport
link_waits = refl

link_decoder : link.decoder ≡ []
unfolding new_transport
link_decoder = refl

link_config : IsUsable link.cfg
unfolding new_transport
link_config = config-IsUsable

abbrev payloads : List Bytes
payloads = (0x62 ∷ 0x02 ∷ []) ∷ (0x64 ∷ 0x00 ∷ []) ∷ []

read_done-send_all_example :
    Receive.read_done (concat (send_all payloads link).write_queue) link ≡ record {
      outputs = deliveries payloads ++ MapTransport.read_started ∷ [];
      transport = link;
      ending = returned;
    }
read_done-send_all_example =
    read_done-send_all payloads link link link-is_active link_config link_waits (omega arith)
      link-is_stopped link-is_disconnected link_decoder

write_done-read_failed_example : write_done (read_failed link).1 ≡ undefined
write_done-read_failed_example = write_done-read_failed link link-is_stopped
