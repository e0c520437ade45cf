-- ===== src/Lib.antt =====
-- The firmware of a ZigBee open/close sensor on a Programmable XBee module: the application in src/
-- and the part of the XBee library in pxbee/ that its messages pass through.
--
-- How the parts interact. The library takes a radio frame off the serial line, makes an envelope of
-- it, and wpan_envelope_dispatch hands the envelope to the handler that the endpoint table has for its
-- endpoint and cluster. The handlers of the application (rx_cluster_callback for the on/off cluster,
-- default_cluster_callback for the rest) parse the envelope with zcl_command_build, fill in a response
-- behind zcl_build_header and send it with zcl_send_response, which goes through wpan_envelope_send to
-- the device. Beside that, a clock interrupt runs rtc_periodic_task, which compares the sensor with
-- the LED and sends an unasked message to the coordinator after a change.
--
-- Modules:
--   Prelude   names, tests and lemmas that all share: lists, C results, bytes, words and bit masks
--   Wpan      pxbee/pan/wpan/wpan_aps.c and pxbee/headers/wpan/aps.h: Addressing (wpan_envelope_*),
--             Tables (wpan_cluster_match, wpan_endpoint_*), Dispatch (wpan_envelope_dispatch),
--             Conversations (wpan_conversation_*), Tick (wpan_tick); Text:
--             pxbee/pan/wpan/wpan_types.c (addr64_*) and pxbee/pan/util/hexstrtobyte.c
--   Zcl       pxbee/pan/zigbee/zigbee_zcl.c and pxbee/headers/zigbee/zcl.h: Parse (zcl_command_build),
--             Response (zcl_build_header, zcl_send_response, zcl_default_response), Invalid
--             (zcl_invalid_cluster, zcl_invalid_command), Attributes (zcl_attribute_get_next,
--             zcl_find_attribute), Memory (the variables of attributes), Encode and Decode
--             (zcl_encode_attribute_value, zcl_decode_attribute), Record (zcl_check_minmax,
--             zcl_parse_attribute_record), Read, Write and Discover (_zcl_read_attributes,
--             _zcl_write_attributes, _zcl_discover_attributes), General (zcl_general_command);
--             Types: pxbee/pan/zigbee/zcl_types.c and pxbee/headers/zigbee/zcl_types.h
--   Device    pxbee/pan/xbee/xbee_device.c and pxbee/headers/xbee/device.h: Write (xbee_frame_write),
--             Load (_xbee_frame_load), Dispatch (_xbee_frame_dispatch); Radio:
--             pxbee/pan/xbee/xbee_wpan.c (_xbee_handle_receive_explicit, _xbee_endpoint_send)
--   Command   pxbee/pan/xbee/xbee_atcmd.c and pxbee/headers/xbee/atcmd.h: the table of requests and its
--             handles; Build (xbee_cmd_set_*, xbee_cmd_clear_flags), Send (xbee_cmd_send,
--             xbee_cmd_simple, xbee_cmd_execute, xbee_identify), Respond (_xbee_cmd_handle_response),
--             Expire (xbee_cmd_tick, xbee_cmd_create), Exchange (a request and its response),
--             CommandList (xbee_cmd_list_execute, _xbee_cmd_list_callback), Registers and Query
--             (xbee_cmd_query_device, xbee_cmd_init_device, _xbee_cmd_modem_status)
--   Ring      pxbee/pan/xbee/xbee_cbuf.c and pxbee/headers/xbee/cbuf.h: the ring of received bytes;
--             pxbee/misc/cbuffer.c: the ring of the drivers
--   App       src/: Strings (appendStringChar), Reply (what the callbacks share), RxCluster,
--             DefaultCluster, Periodic (rtc_periodic_task of src/main.c), Console
--             (read_console_commands, xbee_cmd_callback)
--   Util      pxbee/pan/util: Crc16 (crc16_calc of xmodem_crc16.c), Bytes (swap16 and swap32 of
--             swapbytes.c, _swapcpy of swapcpy.c, memcheck of memcheck.c)
--   Tests     runs at concrete inputs
--
-- How state is modelled. What lies outside the program, the network and the pins, is a type W that
-- every operation passes on. The send function of a device (`endpoint_send`) and the reading of
-- the sensor pin (`gpio_get`) are parameters over W. A handler of the endpoint table is a function
-- of the envelope and W. Memory behind a pointer is the list of bytes from there on, and a write
-- into it is a new list. Machine integers are natural numbers with the wrap-around written out; an
-- error code is a negative integer. The loop of _xbee_frame_load runs on fuel, two rounds more
-- than the serial port holds bytes: each round but one takes at least one byte. The loop over the
-- records of a write request runs on as much fuel as the payload has bytes: each record takes
-- three at least. The encoding of arrays and structures that hold arrays and structures is
-- followed to a depth that is given; deeper values give no result. All other loops run over lists.
-- A callback of an AT command is a number, and a parameter says what the number stands for: any
-- change of the table of requests, the devices and the rest. For lists of AT commands the rest
-- holds the contexts of the lists and the memory that they fill, both by the numbers that name
-- them; where the fields of a device lie in its memory is a parameter. Creating a request can run
-- xbee_cmd_tick or set up the device, which can create requests again: these inner calls are
-- parameters of the outer one. The variables of attributes are bytes at addresses, in the byte
-- order of the host, which is big-endian; the functions that read or write an attribute in place
-- of the library's are parameters of its entry. A frame handler gets the bytes of its frame and no
-- memory behind them, and no byte arrives at the serial port while a call of _xbee_frame_load
-- runs.
--
-- Not modelled: output to the console; the hardware drivers, register maps and start-up code; the
-- names of ZCL types and statuses, which are only printed; the other services of the XBee library.
-- The custom table walk of a device (`endpoint_get_next`) is NULL in all devices of the sources
-- and is left out.
pub mod Prelude
pub mod Wpan
pub mod Zcl
pub mod Device
pub mod Command
pub mod Ring
pub mod App
pub mod Util
pub mod Tests
