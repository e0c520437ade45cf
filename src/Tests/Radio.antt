-- ===== src/Tests/Radio.antt =====
-- Runs of the way between the serial line and envelopes.
use pxbee_open_close.Prelude.{
  ℕ, pos, true, false, inl, some, [], ◌∷◌, ◌++◌, ◌≡◌, refl, arith, replicate,
}
use pxbee_open_close.Wpan.{Envelope}
use pxbee_open_close.Zcl.Parse.Laws.{print}
use pxbee_open_close.Device.{next_frame_id}
use pxbee_open_close.Device.Write.{Line}
use pxbee_open_close.Device.Write.Laws.{encode}
use pxbee_open_close.Device.Dispatch.{Entry}
use pxbee_open_close.Device.Load.{Receiver, wait_start, frame_load}
use pxbee_open_close.Device.Load.Stream.{encode_all}
use pxbee_open_close.Device.Radio.{receive_entry, endpoint_send}
use pxbee_open_close.Device.Radio.Laws.{
  Reception, IsReception, receive_frame, transmit_frame, endpoint_send_lem,
}
use pxbee_open_close.Device.Radio.Arrival.{delivered, frame_load-delivered}
use pxbee_open_close.Tests.Fixture.{Sent, devices, message, request}
use pxbee_open_close.Tests.Wpan.{table}

-- a request from the coordinator for the cluster of the sensor
abbrev arriving : Reception
arriving = record {
  ieee_address = 0x0013a20040522baa;
  network_address = 0;
  source_endpoint = 0x01;
  dest_endpoint = 0xea;
  cluster_id = 6;
  profile_id = 0x0104;
  options = 0x21;
  payload = print (request 0 (0 ∷ 0 ∷ []));
}

arriving-IsReception : IsReception arriving
arriving-IsReception = record {
  ieee_range = omega arith;
  network_range = omega arith;
  cluster_range = omega arith;
  profile_range = omega arith;
}

abbrev waiting : Receiver Sent
waiting = record {
  state = wait_start;
  bytes_in_frame = 0;
  bytes_read = 0;
  frame_data = replicate 147 0;
  serial = encode_all (receive_frame arriving ∷ []);
  node = record { network = 0; flags = 0; world = [] };
}

-- an entry that does nothing, and the one that ends a table
abbrev entry_of_type : ℕ → Entry Sent
entry_of_type frame_type = record {
  frame_type = frame_type;
  frame_id = 0;
  handler = λ frame n. (pos 0, n);
}

frame_load-delivered_example :
    (r' : Receiver Sent) × (frame_load
        (entry_of_type 0x88 ∷ receive_entry devices 0 table ∷ entry_of_type 0xff ∷ [])
        waiting
      ≡ some (1, r'))
    × (r'.node ≡ delivered devices 0 table arriving waiting.node)
    × (r'.serial ≡ [])
frame_load-delivered_example =
    frame_load-delivered devices 0 table (entry_of_type 0x88 ∷ []) (entry_of_type 0xff ∷ [])
      arriving waiting (((λ e. absurd (omega arith)), (λ e. absurd (omega arith))), tt)
      ((λ e. absurd (omega arith)), tt) arriving-IsReception (omega arith) refl refl

abbrev line : Line
line = record { valid = true; use_flowcontrol = false; cts = false; sent = [] }

-- an answer of two bytes, encrypted
abbrev answer : Envelope
answer = record (message 6 (7 ∷ 8 ∷ [])) { payload = some ((7 ∷ 8 ∷ []) ++ (0xff ∷ [])) }

endpoint_send_lem_example : endpoint_send answer 1 (record { line = some line; frame_id = 255 }) ≡ (
  pos 0,
  record {
    line = some (record line {
      sent = [] ++ encode (transmit_frame (next_frame_id 255) answer true (7 ∷ 8 ∷ []));
    });
    frame_id = next_frame_id 255;
  },
)
endpoint_send_lem_example =
    endpoint_send_lem answer 1 255 line (7 ∷ 8 ∷ []) (0xff ∷ []) refl refl (omega arith) refl
      (inl refl)
