-- ===== src/Tests/Wpan.antt =====
-- Runs of the dispatcher.
use pxbee_open_close.Prelude.{inr, ◌⊎◌, Option, none, some, List, [], ◌∷◌, ◌≡◌, refl, arith}
use pxbee_open_close.Wpan.{Envelope}
use pxbee_open_close.Wpan.Tables.{Handler, Cluster, Endpoint}
use pxbee_open_close.Wpan.Tables.{cluster_match}
use pxbee_open_close.Wpan.Dispatch.{envelope_dispatch, clust_flag_inout}
use pxbee_open_close.Wpan.Dispatch.Delivery.{
  IsOpen, IsClosed, handled_by, marked, dispatch_delivers,
}
use pxbee_open_close.Zcl.Invalid.{invalid_cluster}
use pxbee_open_close.App.RxCluster.{rx_cluster_callback}
use pxbee_open_close.App.DefaultCluster.{default_cluster_callback}
use pxbee_open_close.Tests.Fixture.{Sent, devices, closed_door, message, request}
use pxbee_open_close.Zcl.Parse.Laws.{print}

abbrev on_off : Handler Sent
on_off e w = rx_cluster_callback devices closed_door (some e) none w

abbrev basic : Handler Sent
basic e w = default_cluster_callback devices e none w

-- the clusters of main.c, and the endpoint that has them
abbrev null_cluster : Cluster Sent
null_cluster = record { cluster_id = 0x0000; handler = none; flags = 0x01 }

abbrev sensor_cluster : Cluster Sent
sensor_cluster = record { cluster_id = 0x0006; handler = some on_off; flags = 0x01 }

abbrev clusters_end : Cluster Sent
clusters_end = record { cluster_id = 0xffff; handler = none; flags = 0x03 }

abbrev custom : Endpoint Sent
custom = record {
  endpoint = 0xea;
  profile_id = 0x0104;
  handler = some basic;
  ep_state = none;
  device_id = 0;
  device_version = 0;
  cluster_table = some (null_cluster ∷ sensor_cluster ∷ clusters_end ∷ []);
}

abbrev endpoints_end : Endpoint Sent
endpoints_end = record {
  endpoint = 0xff;
  profile_id = 0xffff;
  handler = none;
  ep_state = none;
  device_id = 0xffff;
  device_version = 0xff;
  cluster_table = none;
}

abbrev pub table : Option (List (Endpoint Sent))
table = some (custom ∷ endpoints_end ∷ [])

abbrev for_sensor : Envelope
for_sensor = message 6 (print (request 0 (0 ∷ 0 ∷ [])))

dispatch_delivers_example :
    let result = envelope_dispatch devices table for_sensor [] in
    (IsOpen for_sensor sensor_cluster
      × (result ≡ handled_by (some on_off) (marked for_sensor sensor_cluster) []))
    ⊎ (IsClosed for_sensor sensor_cluster
        × (result ≡ (
          (invalid_cluster devices (some for_sensor) []).0,
          for_sensor,
          (invalid_cluster devices (some for_sensor) []).1,
        )))
dispatch_delivers_example =
    dispatch_delivers devices for_sensor [] (endpoints_end ∷ []) custom (null_cluster ∷ [])
      (clusters_end ∷ []) sensor_cluster [] (λ h. absurd (omega arith)) tt (refl, inr refl) refl
      (λ h. absurd (omega arith)) (((λ h. absurd (omega arith)), (λ h. absurd (omega arith))), tt)
      refl refl

-- a message for a cluster that the endpoint does not have
abbrev for_scenes : Envelope
for_scenes = message 5 (print (request 0 (0 ∷ 0 ∷ [])))

has_no_scenes : cluster_match 5 clust_flag_inout custom.cluster_table ≡ none
unfolding cluster_match
has_no_scenes = refl

-- the message for every endpoint of the profile
abbrev for_all : Envelope
for_all = record for_sensor { dest_endpoint = 0xff }
