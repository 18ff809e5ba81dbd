-- ===== src/Websocket/Forwarding.antt =====
-- The two forwarding tasks of src/websocket_interceptor.rs, as one sequence of what they meet.
use bifrost_core.Prelude.{
  some, ◌≡◌, refl, ap, ◌∙◌, Bool, true, false, not, List, [], ◌∷◌, ◌++◌, map, append_assoc,
  append-nil,
}
use bifrost_core.Prelude.Text.{Str}
use bifrost_core.Plugin.{DataDirection, upstream, downstream}
use bifrost_core.Websocket.{
  Frame, message, read_error, end_of_stream, Relay, on_frame, relay, client_write, target_write,
  relay_task,
}

abbrev Item : Type 0
Item = DataDirection × Str

-- A message that is read and sent on.
abbrev pub passed : Item → DataDirection × Frame
passed (d, m) = (d, message m true)

-- Whether a frame ends the task that meets it.
abbrev pub ends : Frame → Bool
ends (message m b) = not b
ends read_error = true
ends end_of_stream = true

abbrev here : DataDirection → Item → List Str
here upstream (upstream, m) = m ∷ []
here downstream (downstream, m) = m ∷ []
here _ _ = []

-- The messages of one direction, in their order.
abbrev pub of_direction : DataDirection → List Item → List Str
of_direction d [] = []
of_direction d (i ∷ is) = here d i ++ of_direction d is

abbrev open_relay : List Str → List Str → Relay
open_relay a c = record { to_server = a; to_client = c; ended = false }

abbrev ended_relay : List Str → List Str → Relay
ended_relay a c = record { to_server = a; to_client = c; ended = true }

relay-end :
    (d : DataDirection) (f : Frame) (rest : List (DataDirection × Frame)) (a c : List Str)
    → ends f ≡ true
    → relay ((d, f) ∷ rest) (open_relay a c) ≡ ended_relay a c
unfolding relay on_frame
relay-end d (message m false) rest a c h = refl
relay-end d read_error rest a c h = refl
relay-end d end_of_stream rest a c h = refl
relay-end d (message m true) rest a c h = cc

relay-from :
    (items : List Item) (d : DataDirection) (f : Frame) (rest : List (DataDirection × Frame))
    (a c : List Str)
    → ends f ≡ true
    → relay (map passed items ++ (d, f) ∷ rest) (open_relay a c)
      ≡ ended_relay (a ++ of_direction upstream items) (c ++ of_direction downstream items)
unfolding relay on_frame
relay-from [] d f rest a c h = rw (append-nil a, append-nil c) (relay-end d f rest a c h)
relay-from ((upstream, m) ∷ items) d f rest a c h =
    relay-from items d f rest (a ++ m ∷ []) c h
    ∙ ap (λ x. ended_relay x (c ++ of_direction downstream items))
        (append_assoc a (m ∷ []) (of_direction upstream items))
relay-from ((downstream, m) ∷ items) d f rest a c h =
    relay-from items d f rest a (c ++ m ∷ []) h
    ∙ ap (ended_relay (a ++ of_direction upstream items))
        (append_assoc c (m ∷ []) (of_direction downstream items))

-- However the messages of the two directions interleave, each side is sent, in their order, all the
-- messages that the task of its direction read and could send on before the first end of a stream,
-- error or failed send of either direction, and nothing more. Then the client's side is closed and
-- after it the target's, once each, also where closing the client's side fails.
pub relay_task-in_order :
    (items : List Item) (d : DataDirection) (f : Frame) (rest : List (DataDirection × Frame))
    (client_ok target_ok : Bool)
    → ends f ≡ true
    → relay_task true client_ok target_ok (map passed items ++ (d, f) ∷ rest)
      ≡ some (record {
        relayed = record {
          to_server = of_direction upstream items;
          to_client = of_direction downstream items;
          ended = true;
        };
        closes = client_write client_ok ∷ target_write target_ok ∷ [];
      })
unfolding relay_task
relay_task-in_order items d f rest client_ok target_ok h =
    rw (relay-from items d f rest [] [] h) refl
