-- ===== src/Tests/Fixture.antt =====
-- What the runs share: a device that keeps what is sent, and the messages of the program's network.
use pxbee_open_close.Prelude.{ℕ, pos, true, some, List, [], ◌∷◌, refl, arith, length}
use pxbee_open_close.Prelude.Bits.{Bytes}
use pxbee_open_close.Wpan.{Envelope, Devices, EndpointSend}
use pxbee_open_close.Zcl.Parse.Laws.{Frame, IsFrame}
use pxbee_open_close.App.{Sensor}

-- the world is the list of the envelopes sent, the newest first
abbrev pub Sent : Type 0
Sent = List Envelope

abbrev pub keep : EndpointSend Sent
keep e flags w = (pos 0, e ∷ w)

abbrev pub devices : Devices Sent
devices d = some keep

abbrev pub closed_door : Sensor Sent
closed_door w = (true, w)

-- a general request from a client, with sequence number 42
abbrev pub request : ℕ → Bytes → Frame
request command payload = record {
  frame_control = 0x00;
  mfg_code = 0;
  sequence = 42;
  command = command;
  payload = payload;
}

pub request-IsFrame : (command : ℕ) (payload : Bytes) → IsFrame (request command payload)
request-IsFrame command payload = record { mfg_range = omega arith; mfg_absent = λ _. refl }

-- a frame for a cluster of the manufacturer 0x101e, as ZCL_MFG_DIGI
abbrev pub special : Frame
special = record {
  frame_control = 0x05;
  mfg_code = 0x101e;
  sequence = 43;
  command = 9;
  payload = 1 ∷ 2 ∷ 3 ∷ [];
}

-- a message from the coordinator for a cluster of the device
abbrev pub message : ℕ → Bytes → Envelope
message cluster_id p = record {
  dev = some 0;
  ieee_address = 0;
  network_address = 0;
  profile_id = 0x0104;
  cluster_id = cluster_id;
  source_endpoint = 0x01;
  dest_endpoint = 0xea;
  options = 0;
  payload = some p;
  length = length p;
}
