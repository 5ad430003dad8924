-- ===== src/RequestServer.antt =====
-- transport/src/behaviour/request_server.rs: answering requests over libp2p's request-response
-- behaviour, which is a parameter. The server's state is the inner behaviour alone.
use subsquid_network.Base.{Option, none, some}
use subsquid_network.Messages.{PeerId}

-- `request_response::Behaviour`: a response comes back when it cannot be sent.
pub record Server (Response : Type 0) : Type 1 where
  pub Inner : Type 0
  pub Channel : Type 0
  pub send_response : Inner → Channel → Response → Inner × Option Response

pub record Request (Req Channel : Type 0) : Type 0 where
  pub peer_id : PeerId
  pub request : Req
  pub response_channel : Channel

-- The events of the inner behaviour.
pub data ServerEvent (Req Channel : Type 0) : Type 0 where
  message : PeerId → Req → Channel → ServerEvent Req Channel
  inbound_failure : PeerId → ServerEvent Req Channel
  other : ServerEvent Req Channel

abbrev pub try_send_response :
    {Response : Type 0} (s : Server Response)
    → s.Inner
    → s.Channel
    → Response
    → s.Inner × Option Response
try_send_response s inner resp_chan response = s.send_response inner resp_chan response

abbrev pub on_server_event :
    {Req Channel : Type 0} → ServerEvent Req Channel → Option (Request Req Channel)
on_server_event (message peer request channel) =
    some (record { peer_id = peer; request = request; response_channel = channel })
on_server_event (inbound_failure peer) = none
on_server_event other = none
