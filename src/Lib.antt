-- ===== src/Lib.antt =====
-- The firmware of an aging test rack: an ESP32 that runs aging programs on products, samples them
-- over Modbus, CAN and other buses, stores the samples and reports them over MQTT. This library
-- models parts of its own logic and proves what makes them correct.
--
-- Parts and files (paths from the repository's root):
--   main/Tool/app_crc.c: Crc (`Modbus_Crc16Cal` is `modbus_crc16`), its table in Crc/Table, the
--     bitwise reference in Crc/Bitwise, single changed bytes in Crc/Detect;
--     `Xmodem_Crc16Cal` and `calcu_crc32` in Crc/Forward.
--   main/Protocol/ModBus/modbus_cmd.c: Modbus (`Modbus_Generate03/06/10`, `Modbus_CheckCrc`) uses Crc;
--     Modbus/Parse has `Modbus_Parse03RawValue` and `Modbus_Parse03Response_Simple`, Modbus/Points the point
--     frames. A buffer is a list
--     of bytes, and an access outside of it is the result `none` of the whole function.
--   main/Task/aging_gap.c: Gap has the state, Gap/Finalize `gap_finalize`, Gap/Lifecycle the interface
--     of the sampling tasks, Gap/Ids `gap_parse_ids`, Gap/Poll `aging_gap_poll`. Each section under
--     the mutex is one step; between two sections of a function other tasks run, which is an argument
--     of it. Gap/Inv is the invariant of the sections, Gap/Poll/Laws follows the intents.
--   main/APP/Restart/system_restart.c: Restart, with `mesh_get_restart_level` of
--     main/Communication/Internet/Mesh/mesh.c. The two readings of the time are two arguments.
--   main/Communication/Ble_control/ble_target.c: Ble; cJSON and the storage are arguments.
--   main/Tool/app_queue.c: Queue; the results of the heap and of the kernel are arguments.
--   main/APP/Status/status_led.c: Led; the results of the pin driver are arguments. Each function is
--     run by one task alone; calls of several tasks that overlap are not modelled.
--   main/Communication/Can/can_extended.c and .h, main/Protocol/Can/can_protocol_ext.h: Can. Can/Id has the
--     identifiers, Can/Ticks the timeouts, Can/Send the frames of a transfer (`can_send_read_start`,
--     `can_send_write_sequence`), Can/Receive `can_receive_read_payload` and
--     `can_receive_write_response`, Can/App the calls of the serial layer. What a round of a loop
--     meets (the tick count, and what the driver's queue gives) is an element of a list; a call that
--     uses up its list still waits. That the driver takes a frame is an argument. Uses Crc.
--   main/APP/MQTT/mqtt_app.c: Mqtt, the reports that wait for the broker: Mqtt/Topic their topic,
--     Mqtt/Acks the answers, Mqtt/Events `app_mqtt_event_submit` and `mqtt_event_poll`. A poll is
--     two steps, before and after the SDK's call, as the mutex is free during that call; what it
--     reads of the session and of the clock are arguments.
--   main/DataStorage/Log/log.c: Log. The file is its size and what the medium holds at each offset;
--     that it opens, how much of a record it takes and that the index is stored are arguments.
--   main/APP/OTA/ota_cache.c: Ota/Cache has the record of the image that a node may pass on and its
--     check, Ota/Cache/Nvs the operations on the stored record, over the calls of the storage as an
--     interface, Ota/Image the digest and the check against the flash, over the calls of the hash
--     library and of the SDK. What these calls are documented to do is `IsStorage`, `IsSha` and
--     `IsFlash`. Ota/Version has the versions of main/APP/OTA/ota.c.
--   main/APP/OTA/mesh_ota.c: Transfer. Transfer/Supply has `provide_file_cb`, Transfer/Receive
--     `get_file_cb`, `get_file_done_cb`, the events and the reset of a session, Transfer/Delivery
--     puts both sides together, Transfer/Mailbox has the ring of requests, and Transfer/Finalize the
--     staging of an image and `finalize_candidate` with its retries in Transfer/Finalize/Run, which
--     uses Ota/Cache/Nvs and Ota/Image. What a callback finds under the mutex, and what the SDK
--     returns, are arguments. The completion that is queued is kept; that it is sent is not modelled.
--   main/Task/service_urls.c, and the configuration, file names and URLs of main/APP/OTA/ota.c: Url;
--     `snprintf` is an argument.
-- Base has what the parts share: tests, lists, words, bits, strings and signed integers.
--
-- Numbers are natural numbers with the wrap of their width written out; time in microseconds is an
-- int64_t that is never negative. Loops recurse on their buffer or on a count, except `write_loop` of
-- Can/Send and `hash_loop` of Ota/Image, whose fuel is the number of bytes; it is shown to suffice,
-- as each round takes at least one byte.
-- Fewer than 2^32 sections is assumed where a token or a counter would wrap.
--
-- Not modelled: drivers, the SDK, cJSON, SQLite, SPIFFS, MQTT and HTTP transport, log output; and, of
-- the program's own code, the executor of main/Task/appTask.c, the download of main/APP/OTA/ota.c, the
-- dispatch of the service task of main/APP/OTA/mesh_ota.c with its waiting for a parent, the
-- connection of MQTT, the parsers of SCPI and of the CAN configuration, and the configuration.
mod Base
pub mod Crc
pub mod Modbus
pub mod Gap
pub mod Restart
pub mod Led
pub mod Queue
pub mod Ble
pub mod Can
pub mod Mqtt
pub mod Ota
pub mod Log
pub mod Transfer
pub mod Url
