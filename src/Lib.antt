-- ===== src/Lib.antt =====
-- The firmware of a Futronix dimmer that Alexa switches: an ESP8266 that poses as Wemo devices on the
-- network, keeps scene names and Wifi texts in its EEPROM, and sends the dimmer's infrared commands.
--
-- The parts, from the hardware up. Paths are from the root of the repository.
--   Eeprom     FutronixESP8266/EEPROMInterface.h. Reads and writes over the EEPROM library, which is a
--              parameter: `Eeprom.Api` holds its four calls and what its documentation promises, and
--              a concrete device that keeps the promises.
--   Storage    FutronixESP8266/EEPromDatabase.h (Storage.Entry, Storage.Table) and Database.h
--              (Storage.Database). A record's text is a memory block or no block (`Pointer`); what
--              malloc and a local array hold before they are written is `Raw`. `Storage.Table.View`
--              is the abstract store: one list of strings on the EEPROM and one in memory, with the
--              steps `fetch`, `put`, `commit` and `wipe`; `Reaches` and `Becomes` say that an operation
--              takes such a step. A table is valid (`IsValid`) if its records, of at most 50 bytes,
--              stand one behind the other on a ready EEPROM that has room for them, each with a text
--              in memory. `Raw` is assumed to have blocks of the size that was asked for (`IsSized`)
--              and a zero byte in the local array of `getEntry` behind the record (`IsRaw`), and at the
--              start zeroed memory, which is that and NULL pointers in the record array (`IsZeroed`).
--              The program relies on both, and nothing promises them.
--   Ir         FutronixESP8266/IRTransmitter.h. Ir.Timer is the counter, Ir.Pulse the carrier and the
--              gaps, Ir.Frame the train of `sendFutronix`, Ir.Decode a receiver for it.
--   Command    FutronixESP8266/CommandInterface.h: the command of a scene, and its frames.
--   Device     FutronixESP8266/WifiConnection.h and LEDOutput.h.
--   Wemo       FutronixESP8266/Fauxmo.h (Wemo.Fauxmo, with its handlers of TCP in Wemo.Fauxmo.Tcp and
--              its texts in Wemo.Templates; the chip's address is a parameter, and what a search
--              is answered with a `Datagram`), WemoEmulator.h and SceneCallbackHandler.h (Wemo.Emulator).
--              Wemo.Emulator.Routes sees the emulator as a list of names and scenes. Wemo.OldEmulator
--              is the version of WemoEmulator.h behind __OLD_VERSION__, which is not compiled, and
--              Wemo.Server its WemoServer.h.
--   App        FutronixESP8266/FutronixESP8266.h: the object over all of these. App.Stores, App.Setup
--              and App.Rename treat its work on the database, App.Servers its start. App.Observed is
--              the quotient of the databases by what can be read of them.
--   Admin      FutronixESP8266/AdminServer.h: the requests of the web server, and the broadcast.
--   Main       FutronixESP8266/FutronixESP8266.ino: a turn of `loop`. Main.EndToEnd goes from a TCP
--              request to the infrared command, Main.Handlers is the TCP handler on any data.
--              Main.Runs are sequences of turns and TCP requests, in any order, with what an abstract
--              view of the firmware makes of them: `Panel`, of Admin.Requests, holds the store, the
--              queued and the current scene. No search arrives in a run, since each one is written
--              past its array, and no web request renames number 9.
--   Aws        FutronixESP8266/AwsManager.h: the MQTT client that the service makes, and its message.
--   Rtos       RTOS/futronix-alexa-rtos, a second firmware of which the parts do not work together yet.
--              Rtos.Send, Rtos.Lg and Rtos.Futronix are irsend/send.h, lg.h and futronix.h: what the pin
--              and the clock are told is a list of events, and `Rtos.Send.Receiver` measures its gaps.
--              Rtos.Identity (get_my_id), Rtos.Json (jsoneq), Rtos.WifiTask (wifi_task) and Rtos.MqttTask
--              (mqtt_task) are of aws_iot.c, Rtos.Ssl is ssl_connection.c. A task is a function of what
--              the libraries and the other tasks answer, in the order of its questions; `wifi_alive`, which
--              the tasks share, is an answer to mqtt_task each time it reads it, and Rtos.Tasks takes it
--              from wifi_task. Rtos.Board is what the other functions of aws_iot.c tell the pins and the
--              system.
--   Examples   Concrete devices and firmware on which the theorems are applied.
--   Base       The library's names and what the parts share: lists over the native numbers, blocks of
--              memory, C strings, int, sprintf.
--
-- A request reaches Wemo.Fauxmo by TCP; the callback that Wemo.Emulator installed finds the device's
-- handler, which leaves the scene in SCENE_TO_SET; the next turn of `loop` in Main passes it to App,
-- which passes it to Command, which sends frames of Ir. The web server of Admin queues scenes the same
-- way, and works on Storage through App.
--
-- Conventions. An access outside a block or an array, through NULL or through a pointer that was
-- never set, has the result `none`; a result `some` says that this does not happen. A function of
-- the source that ends without `return` changes the state as it does, and its result is one that
-- was never set: `wild` for a pointer (`getSceneName`), `none` in the place of the Boolean
-- (`addDevice`). A loop is structural recursion over the rounds that are left. Three loops end by
-- more than a counter. That of `nextUDPResponse` has fuel for each device in each round and one
-- more test: each pass moves on to the next device or ends a round. That of `mark` runs over the
-- readings of the clock, and needs one more than the time has microseconds, since each period
-- takes at least one. That of the Wifi runs over the polls, and needs twelve. The loop of
-- `sendFutronix` in Rtos has fuel and no end. The loops of the tasks and of the handshake run over
-- the answers, and say whether they came to an end (`finished`, or a result). Addresses, sizes and
-- counts are natural numbers, since the program passes no negative ones; the scene number is an
-- integer, and its conversion to an unsigned index wraps at 2^32, as does the clock.
--
-- Not modelled: debug output, the network libraries (packets come in as arguments, replies go out
-- as values), String::indexOf, String::toInt and the chip's address (parameters), the LED and the
-- AWS service inside the firmware object (never begun), the copies of other projects' libraries,
-- and the Android console.
pub mod Base
pub mod Eeprom
pub mod Storage
pub mod Ir
pub mod Command
pub mod Aws
pub mod Rtos
pub mod Wemo
pub mod Device
pub mod App
pub mod Admin
pub mod Main
pub mod Examples
